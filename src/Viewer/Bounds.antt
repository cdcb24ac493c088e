-- ===== src/Viewer/Bounds.antt =====
-- The zoom of the viewer and the pages that it goes to stay within their bounds.
use folium.Base.{
  ℕ, ◌+◌, ◌-◌, min, max, ◌≤◌, Option, List, [], ◌∷◌, get_elem?, All, All-append, arith,
}
use folium.Viewer.{
  Flight, Viewer, mounted, Answer, Event, answered, clean_up, load, take, resume, settle,
  go_to_page, react, run_all, current_page,
}

abbrev pub InBounds : Viewer → Type 0
InBounds v = (50 ≤ v.zoom) × (v.zoom ≤ 200) × All (λ p. 1 ≤ p) v.page_changes

go_to_page-InBounds : (p : ℕ) (v : Viewer) → InBounds v → InBounds (go_to_page p v)
unfolding go_to_page
go_to_page-InBounds p v h = (
  h.0,
  h.1,
  All-append (λ p. 1 ≤ p) v.page_changes (max 1 (min v.total_pages p) ∷ []) h.2 (omega arith, tt),
)

settle-InBounds :
    (o : Option Flight) (i : ℕ) (answer : Answer) (v : Viewer)
    → InBounds v
    → InBounds (settle o i answer v)
unfolding settle resume take
settle-InBounds o i answer v h = ground arith

react-InBounds : (e : Event) (v : Viewer) → InBounds v → InBounds (react e v)
unfolding react load clean_up
react-InBounds (answered i answer) v h = settle-InBounds (get_elem? v.flights i) i answer v h
react-InBounds e v h =
    ground (
      arith,
      go_to_page-InBounds (current_page v - 1) v,
      go_to_page-InBounds (current_page v + 1) v,
    )

run_bounds : (es : List Event) (v : Viewer) → InBounds v → InBounds (run_all es v)
unfolding run_all
run_bounds [] v h = h
run_bounds (e ∷ es) v h = run_bounds es (react e v) (react-InBounds e v h)

-- Whatever happens, the zoom stays between 50 and 200, and every page that the viewer reports is 1 at
-- least.
pub run-InBounds : (es : List Event) → InBounds (run_all es mounted)
run-InBounds es = run_bounds es mounted (omega arith, omega arith, tt)

-- In a document with a page, a button goes to a page of the document.
pub page_in_document :
    (p : ℕ) (v : Viewer)
    → 1 ≤ v.total_pages
    → (1 ≤ (go_to_page p v).page) × ((go_to_page p v).page ≤ v.total_pages)
unfolding go_to_page
page_in_document p v h = omega arith
