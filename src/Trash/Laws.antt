-- ===== src/Trash/Laws.antt =====
-- What the handlers of the trash send, and what they leave selected.
use folium.Base.{
  ℕ, zero, suc, ◌≡◌, refl, ap, String, Bool, true, false, ◌&&◌, ◌==◌, eq_iff, eq_refl, List, [],
  ◌∷◌, ◌++◌, if◌then◌else◌, all, map, arith, Bool-cases, inl, inr, ◌∙◌,
}
use mathlib.Core.List.{append-nil}
use folium.Base.Sets.{has, add, has-add}
use folium.Trash.{
  Request, restore_folder, purge_folder, delete_document, bulk_restore, Page, mounted, is_empty,
  each, handle_restore_selected, handle_delete_selected_forever, toggle_doc, Event, doc_toggled,
  restore_document_pressed, delete_pressed, react, run,
}

-- What a sequence of requests comes to, each sent when the one before has succeeded: the requests that
-- were sent.
abbrev pub until_failure : (Request → Bool) → List Request → List Request
until_failure post [] = []
until_failure post (r ∷ rs) =
    let rest = until_failure post rs in if post r then r ∷ rest else r ∷ []

abbrev pub bulk_of : List String → List Request
bulk_of [] = []
bulk_of (id ∷ ids) = bulk_restore (id ∷ ids) ∷ []

-- The requests that restore a selection, and the ones that delete it.
abbrev pub to_restore : Page → List Request
to_restore p = map restore_folder p.selected_folder_ids ++ bulk_of p.selected_doc_ids

abbrev pub to_delete : Page → List Request
to_delete p = map purge_folder p.selected_folder_ids ++ map delete_document p.selected_doc_ids

module _ (post : Request → Bool) where
  each_lem :
      (request : String → Request) (ids : List String)
      → ((each post request ids).0 ≡ until_failure post (map request ids))
        × ((each post request ids).1 ≡ all post (map request ids))
  unfolding each
  each_lem request [] = (refl, refl)
  each_lem request (id ∷ ids) = ground (arith, each_lem request ids)

  until_failure-append :
      (rs more : List Request)
      → until_failure post (rs ++ more)
        ≡ (if all post rs then rs ++ until_failure post more else until_failure post rs)
  until_failure-append [] more = refl
  until_failure-append (r ∷ rs) more = ground (arith, until_failure-append rs more)

  all_sent : (rs : List Request) → all post rs ≡ true → until_failure post rs ≡ rs
  all_sent [] h = refl
  all_sent (r ∷ rs) h = ground (arith, all_sent rs)

  all-append : (rs more : List Request) → all post (rs ++ more) ≡ (all post rs && all post more)
  all-append [] more = refl
  all-append (r ∷ rs) more = ground (arith, all-append rs more)

  -- What is selected is restored in one sequence, the folders first and then all documents at once, up
  -- to the first request that fails; the selection is cleared if none does, and stays otherwise.
  pub restore_lem :
      (p : Page)
      → handle_restore_selected post p ≡ (
        (if all post (to_restore p)
            then record p { selected_doc_ids = []; selected_folder_ids = [] }
            else p),
        until_failure post (to_restore p),
      )
  unfolding handle_restore_selected
  restore_lem p =
      let folders = map restore_folder p.selected_folder_ids in
      let docs = bulk_of p.selected_doc_ids in
      ground (
        arith,
        each_lem restore_folder p.selected_folder_ids,
        until_failure-append folders docs,
        all-append folders docs,
        all_sent folders,
        append-nil folders,
      )

  -- What is selected is deleted in one sequence, the folders first and then each document, up to the
  -- first request that fails; the page starts anew if none does, and keeps the selection otherwise.
  pub delete_lem :
      (p : Page)
      → handle_delete_selected_forever post true p
        ≡ ((if all post (to_delete p) then mounted else p), until_failure post (to_delete p))
  unfolding handle_delete_selected_forever
  delete_lem p =
      let folders = map purge_folder p.selected_folder_ids in
      let docs = map delete_document p.selected_doc_ids in
      ground (
        arith,
        each_lem purge_folder p.selected_folder_ids,
        each_lem delete_document p.selected_doc_ids,
        until_failure-append folders docs,
        all-append folders docs,
        all_sent folders,
      )

  refused_docs :
      (id : String) (docs : List String)
      → has id docs ≡ true
      → post (delete_document id) ≡ false
      → all post (map delete_document docs) ≡ false
  unfolding has
  refused_docs id [] h refused = ground arith
  refused_docs id (d ∷ docs) h refused = elim (Bool-cases (d == id)) [
    | inl e ↦ rw (ap post (ap delete_document ((eq_iff d id).0 e)) ∙ refused) refl
    | inr other ↦ ground (arith, refused_docs id docs (rw other at h) refused)
  ]

  -- Where one selected document cannot be deleted, an attempt changes nothing on the page.
  blocked :
      (id : String) (p : Page)
      → has id p.selected_doc_ids ≡ true
      → post (delete_document id) ≡ false
      → (handle_delete_selected_forever post true p).0 ≡ p
  blocked id p h refused =
      let folders = map purge_folder p.selected_folder_ids in
      let docs = map delete_document p.selected_doc_ids in
      let fails = refused_docs id p.selected_doc_ids h refused in
      ap (λ (moved : Page × List Request). moved.0) (delete_lem p)
      ∙ ground (arith, all-append folders docs)

  has_filled : (id : String) (ids : List String) → has id ids ≡ true → is_empty ids ≡ false
  unfolding has
  has_filled id ids h = ground arith

  abbrev pub attempts : ℕ → List Event
  attempts zero = []
  attempts (suc n) = delete_pressed true ∷ attempts n

  attempt_lem :
      (id : String) (p : Page)
      → has id p.selected_doc_ids ≡ true
      → post (delete_document id) ≡ false
      → (react post (delete_pressed true) p).0 ≡ p
  unfolding react
  attempt_lem id p h refused = rw (has_filled id p.selected_doc_ids h) (blocked id p h refused)

  attempts_lem :
      (n : ℕ) (id : String) (p : Page)
      → has id p.selected_doc_ids ≡ true
      → post (delete_document id) ≡ false
      → (run post (attempts n) p).0 ≡ p
  unfolding run
  attempts_lem zero id p h refused = refl
  attempts_lem (suc n) id p h refused =
      ap (λ q. (run post (attempts n) q).0) (attempt_lem id p h refused)
      ∙ attempts_lem n id p h refused

  -- A document that is selected, then restored by the button of its row, stays selected. Where the
  -- server deletes no document that is not in the trash, no attempt to delete the selection comes to
  -- its end from then on: the selection stays what it was.
  pub restored_blocks :
      (id : String) (n : ℕ) (p : Page)
      → post (delete_document id) ≡ false
      → (run post (doc_toggled id true ∷ restore_document_pressed id ∷ attempts n) p).0
        ≡ record p { selected_doc_ids = add id p.selected_doc_ids }
  unfolding run react toggle_doc
  restored_blocks id n p refused =
      attempts_lem n id (record p { selected_doc_ids = add id p.selected_doc_ids })
        (has-add id id p.selected_doc_ids ∙ rw (eq_refl id) refl) refused
