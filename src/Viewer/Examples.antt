-- ===== src/Viewer/Examples.antt =====
-- The second document is chosen while the first one is loaded, whose answer comes last.
use folium.Base.{◌≡◌, refl, some, List, [], ◌∷◌}
use folium.Base.Text.{starts_with}
use folium.Viewer.{
  Event, mounted, document_changed, document_gone, answered, buffer, proxy, next_pressed,
  zoom_in_pressed, run_all, react, load, clean_up, settle, resume, take, is_image, is_text_file,
  go_to_page,
}
use folium.Viewer.Fresh.{Fresh}
use folium.Viewer.Laws.{run-Fresh, run_released}
use folium.Viewer.Bounds.{InBounds, run-InBounds}

abbrev race : List Event
race =
    document_changed "first" "application/pdf"
    ∷ document_changed "second" "application/pdf"
    ∷ answered 1 buffer
    ∷ answered 1 (proxy 7)
    ∷ answered 0 buffer
    ∷ next_pressed
    ∷ zoom_in_pressed
    ∷ []

run-Fresh_example : Fresh (run_all race mounted)
run-Fresh_example = run-Fresh race

run_released_example :
    ((run_all
        (document_changed "first" "text/plain" ∷ answered 0 buffer ∷ document_gone ∷ [])
        mounted).urls
      ≡ [])
    × ((run_all
          (document_changed "first" "text/plain" ∷ answered 0 buffer ∷ document_gone ∷ [])
          mounted).proxies
        ≡ [])
unfolding run_all react
run_released_example =
    run_released (document_changed "first" "text/plain" ∷ answered 0 buffer ∷ document_gone ∷ [])
      refl

run-InBounds_example : InBounds (run_all race mounted)
run-InBounds_example = run-InBounds race

tests :
    ((run_all race mounted).pdf ≡ some (record { number = 2; doc_id = "second" }))
    × ((run_all race mounted).urls ≡ record { number = 2; doc_id = "second" } ∷ [])
    × ((run_all race mounted).page_changes ≡ 2 ∷ [])
unfolding run_all react load clean_up settle resume take is_image is_text_file go_to_page
    starts_with
tests = (refl, refl, refl)
