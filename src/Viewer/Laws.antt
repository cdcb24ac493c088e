-- ===== src/Viewer/Laws.antt =====
-- What the viewer shows is of the document it is given, whatever order the answers come in, and what it
-- has made is given up with the document.
use folium.Base.{
  ℕ, ◌≡◌, refl, sym, ◌∙◌, String, Bool, true, false, not, ◌&&◌, ◌||◌, Option, none, some, List, [],
  ◌∷◌, ◌++◌, eqb, eqb_iff, leb, is_filled, is_some, remove_at, get_elem?, All, arith, Bool-cases,
  inl, inr,
}
use folium.Viewer.{
  Flight, Resource, Viewer, mounted, Answer, failed, refused, buffer, parse_failed, proxy, Event,
  document_changed, document_gone, unmounted, page_given, answered, previous_pressed, next_pressed,
  zoom_in_pressed, zoom_out_pressed, start_over, resource_of, clean_up, load, take, is_pdf,
  is_image, is_text_file, resume, settle, go_to_page, react, run_all, current_page,
}
use folium.Viewer.Fresh.{
  IsCurrent, IsKnown, Fresh, All_at, All-remove_at, Fresh-start, Fresh-flight, Fresh-url,
  Fresh-fallback, Fresh-pdf,
}

Fresh-load : (id mime : String) (v : Viewer) → Fresh v → Fresh (load id mime (clean_up v))
unfolding load
Fresh-load id mime v h =
    let w = Fresh-start (some id) v h in
    elim (Bool-cases (not (is_filled id) || not (is_filled mime))) [
      | inl blank ↦ rw blank w
      | inr filled ↦
          elim (Bool-cases (not (is_pdf mime) && not (is_image mime) && not (is_text_file mime))) [
            | inl other ↦ rw (filled, other) w
            | inr shown ↦
                rw (filled, shown)
                  (Fresh-flight
                    (record {
                      number = (clean_up v).run;
                      doc_id = id;
                      mime = mime;
                      parsing = false;
                    })
                    (start_over (some id) (clean_up v)) (omega arith, λ same. refl) w)
          ]
    ]

Fresh-take :
    (parsing : Bool) (answer : Answer) (f : Flight) (v : Viewer)
    → IsKnown v.run v.doc_id f
    → IsCurrent v.run v.doc_id (resource_of f)
    → Fresh v
    → Fresh (take parsing answer f v)
unfolding take
Fresh-take false (failed message) f v known k h = h
Fresh-take false (refused status) f v known k h = h
Fresh-take false buffer f v known k h =
    let there = Fresh-url (resource_of f) v k h in
    elim (Bool-cases (is_pdf f.mime)) [
      | inl pdf ↦ rw pdf (
          Fresh-flight (record f { parsing = true })
            (record v { urls = v.urls ++ resource_of f ∷ [] }) known there)
      | inr other ↦ rw other (
          Fresh-fallback (resource_of f) (record v { urls = v.urls ++ resource_of f ∷ [] }) k there)
    ]
Fresh-take true parse_failed f v known k h = Fresh-fallback (resource_of f) v k h
Fresh-take true (proxy n) f v known k h =
    Fresh-fallback (resource_of f)
      (record v {
        proxies = v.proxies ++ resource_of f ∷ [];
        pdf_ref = some (resource_of f);
        pdf = some (resource_of f);
      })
      k (Fresh-pdf (resource_of f) v k h)
Fresh-take parsing answer f v known k h = h

Fresh-resume :
    (f : Flight) (answer : Answer) (v : Viewer)
    → IsKnown v.run v.doc_id f
    → Fresh v
    → Fresh (resume f answer v)
unfolding resume
Fresh-resume f answer v known h = elim (Bool-cases (eqb f.number v.run)) [
  | inr late ↦ rw late h
  | inl now ↦
      rw now (Fresh-take f.parsing answer f v known ((eqb_iff f.number v.run).0 now, known.1 now) h)
]

Fresh-landed : (i : ℕ) (v : Viewer) → Fresh v → Fresh (record v { flights = remove_at i v.flights })
Fresh-landed i v h = record {
  known = All-remove_at (IsKnown v.run v.doc_id) i v.flights h.known;
  urls_current = h.urls_current;
  proxies_current = h.proxies_current;
  url_shown = h.url_shown;
  pdf_shown = h.pdf_shown;
  ref_shown = h.ref_shown;
  ref_held = h.ref_held;
}

Fresh-settle :
    (o : Option Flight) (i : ℕ) (answer : Answer) (v : Viewer)
    → get_elem? v.flights i ≡ o
    → Fresh v
    → Fresh (settle o i answer v)
unfolding settle
Fresh-settle none i answer v e h = h
Fresh-settle (some f) i answer v e h =
    Fresh-resume f answer (record v { flights = remove_at i v.flights })
      (All_at (IsKnown v.run v.doc_id) i v.flights h.known f e) (Fresh-landed i v h)

Fresh-react : (e : Event) (v : Viewer) → Fresh v → Fresh (react e v)
unfolding react clean_up go_to_page
Fresh-react (document_changed id mime) v h = Fresh-load id mime v h
Fresh-react document_gone v h = Fresh-start none v h
Fresh-react unmounted v h = Fresh-start none v h
Fresh-react (page_given none) v h = h
Fresh-react (page_given (some p)) v h = h
Fresh-react (answered i answer) v h = Fresh-settle (get_elem? v.flights i) i answer v refl h
Fresh-react previous_pressed v h =
    elim (Bool-cases (is_some v.pdf && not (leb (current_page v) 1))) [
      | inl on ↦ rw on h
      | inr off ↦ rw off h
    ]
Fresh-react next_pressed v h =
    elim (Bool-cases (is_some v.pdf && not (leb v.total_pages (current_page v)))) [
      | inl on ↦ rw on h
      | inr off ↦ rw off h
    ]
Fresh-react zoom_in_pressed v h = elim (Bool-cases (is_some v.pdf)) [
  | inl on ↦ rw on h
  | inr off ↦ rw off h
]
Fresh-react zoom_out_pressed v h = elim (Bool-cases (is_some v.pdf)) [
  | inl on ↦ rw on h
  | inr off ↦ rw off h
]

Fresh-run : (es : List Event) (v : Viewer) → Fresh v → Fresh (run_all es v)
unfolding run_all
Fresh-run [] v h = h
Fresh-run (e ∷ es) v h = Fresh-run es (react e v) (Fresh-react e v h)

-- Whatever happens and in whatever order answers come, the URL and the PDF that are shown were made
-- for the document that the viewer is given, by its current run, and so was everything that was made
-- and is not given up.
pub run-Fresh : (es : List Event) → Fresh (run_all es mounted)
run-Fresh es = Fresh-run es mounted (record {
  known = tt;
  urls_current = tt;
  proxies_current = tt;
  url_shown = tt;
  pdf_shown = tt;
  ref_shown = tt;
  ref_held = λ e. refl;
})

none_current :
    (run : ℕ) (doc_id : Option String) (rs : List Resource)
    → doc_id ≡ none
    → All (IsCurrent run doc_id) rs
    → rs ≡ []
none_current run doc_id [] gone h = refl
none_current run doc_id (r ∷ rs) gone h =
    let none_there : ⊥ = let both = sym gone ∙ h.0.1 in cc in elim none_there [ ]

-- While the viewer has no document, and once it is gone, every object URL that was made has been
-- revoked and every PDF destroyed, also where answers come late.
pub run_released :
    (es : List Event)
    → (run_all es mounted).doc_id ≡ none
    → ((run_all es mounted).urls ≡ []) × ((run_all es mounted).proxies ≡ [])
run_released es gone =
    let v = run_all es mounted in
    let h = run-Fresh es in
    (
      none_current v.run v.doc_id v.urls gone h.urls_current,
      none_current v.run v.doc_id v.proxies gone h.proxies_current,
    )
