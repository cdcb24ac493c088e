-- ===== src/Inbox/Work/Scope.antt =====
-- What the toolbar sends is about documents on the list, and about selected ones where one of them is
-- on the list.
use folium.Base.{
  ◌≡◌, refl, ap, ◌∙◌, sym, String, Bool, true, not, ◌&&◌, ◌||◌, ◌==◌, eq_iff, eq_refl, List, [],
  ◌∷◌, eqb, ltb, length, filter, map, All, All-append, arith, Bool-cases, inl, inr,
}
use folium.Base.Sets.{has}
use folium.Types.{Document, Suggestion}
use folium.Inbox.{can_retry_suggestions, visible_selected_docs}
use folium.Inbox.Filing.{is_processable, accept_all_suggestions}
use folium.Inbox.Filing.Posted.{posted-All}
use folium.Inbox.Work.{
  Work, View, selected_docs, has_visible_selection, process_targets, accept_scope_ids,
  pending_in_scope, retry_suggestion_targets,
}
use folium.Inbox.Work.Handlers.{
  Act, process_documents, remove_from_queue, reprocess_suggestions, post_suggestion, ProcessAnswer,
  refetch, find_doc, accept_keys, handle_process, handle_accept_all, handle_retry_suggestions_batch,
}

abbrev ids_of : List Document → List String
ids_of docs = map (λ (d : Document). d.id) docs

-- On the list, and selected where a document of the list is.
abbrev pub is_in_scope : View → Work → String → Bool
is_in_scope v w id =
    has id (ids_of v.documents) && (has id w.selected_ids || not (has_visible_selection v w))

abbrev pub InScope : View → Work → Act → Type 0
InScope v w (process_documents ids) = All (λ id. is_in_scope v w id ≡ true) ids
InScope v w (reprocess_suggestions id) = is_in_scope v w id ≡ true
InScope v w (post_suggestion s) = is_in_scope v w s.document_id ≡ true
InScope v w (remove_from_queue ids) = ⊥
InScope v w act = Unit

has-filter_docs :
    (p : Document → Bool) (id : String) (docs : List Document)
    → has id (ids_of (filter p docs)) ≡ true
    → has id (ids_of docs) ≡ true
unfolding has
has-filter_docs p id [] h = h
has-filter_docs p id (d ∷ docs) h = ground (arith, has-filter_docs p id docs)

has-selected :
    (ids : List String) (id : String) (docs : List Document)
    → has id (ids_of (filter (λ (d : Document). has d.id ids) docs)) ≡ true
    → has id ids ≡ true
unfolding has
has-selected ids id [] h = ground arith
has-selected ids id (d ∷ docs) h = elim (Bool-cases (d.id == id)) [
  | inl e ↦ elim (Bool-cases (has d.id ids)) [
    | inl kept ↦ ap (λ x. has x ids) (sym ((eq_iff d.id id).0 e)) ∙ kept
    | inr dropped ↦ has-selected ids id docs (rw dropped at h)
  ]
  | inr other ↦ ground (arith, has-selected ids id docs)
]

each_in :
    (P : String → Type 0) (ids : List String)
    → ((id : String) → has id ids ≡ true → P id)
    → All P ids
unfolding has
each_in P [] h = tt
each_in P (x ∷ ids) h = (h x (rw (eq_refl x) refl), each_in P ids (λ id there. h id (ground arith)))

scope_lem :
    (v : View) (w : Work) (id : String)
    → has id (accept_scope_ids v w) ≡ true
    → is_in_scope v w id ≡ true
unfolding accept_scope_ids visible_selected_docs
scope_lem v w id h = ground (
  arith,
  has-filter_docs (λ (d : Document). has d.id w.selected_ids) id v.documents,
  has-selected w.selected_ids id v.documents,
)

targets_lem :
    (lower : String → String) (v : View) (w : Work) (id : String)
    → has id (ids_of (process_targets lower v w)) ≡ true
    → has id (accept_scope_ids v w) ≡ true
unfolding process_targets accept_scope_ids
targets_lem lower v w id h = ground (
  arith,
  has-filter_docs (is_processable lower) id (selected_docs v w),
  has-filter_docs (is_processable lower) id v.documents,
)

process-InScope :
    (lower : String → String) (answer : ProcessAnswer) (v : View) (w : Work)
    → All (InScope v w) (handle_process lower answer v w).1
unfolding handle_process
process-InScope lower answer v w =
    let ids = ids_of (process_targets lower v w) in
    let all_in : All (λ id. is_in_scope v w id ≡ true) ids =
      each_in (λ id. is_in_scope v w id ≡ true) ids
        (λ id there. scope_lem v w id (targets_lem lower v w id there)) in
    ground (arith, all_in)

All-map :
    {A : Type 0} (P : Act → Type 0) (f : A → Act) (xs : List A)
    → All (λ x. P (f x)) xs
    → All P (map f xs)
All-map P f [] h = tt
All-map P f (x ∷ xs) h = (h.0, All-map P f xs h.1)

posted_lem :
    (v : View) (w : Work) (pending : List Suggestion)
    → All
        (λ (s : Suggestion). is_in_scope v w s.document_id ≡ true)
        (filter (λ (s : Suggestion). has s.document_id (accept_scope_ids v w)) pending)
posted_lem v w [] = tt
posted_lem v w (s ∷ pending) = elim (Bool-cases (has s.document_id (accept_scope_ids v w))) [
  | inl there ↦ rw there (scope_lem v w s.document_id there, posted_lem v w pending)
  | inr out ↦ rw out (posted_lem v w pending)
]

accept-InScope :
    (lower : String → String) (post : Suggestion → Bool) (v : View) (w : Work)
    → All (InScope v w) (handle_accept_all lower post v w).1
unfolding handle_accept_all
accept-InScope lower post v w =
    let found = find_doc v.documents in
    let result =
      accept_all_suggestions lower found post v.pending_suggestions (accept_scope_ids v w) in
    let fine =
      posted-All (λ (s : Suggestion). is_in_scope v w s.document_id ≡ true) lower found post
        v.pending_suggestions (accept_scope_ids v w) (posted_lem v w v.pending_suggestions) in
    let off = not v.ai_suggestions_available || eqb (length (pending_in_scope v w)) 0 in
    elim (Bool-cases off) [
      | inl closed ↦ rw closed tt
      | inr open_now ↦ rw open_now (
          All-append (InScope v w) (map post_suggestion result.posted) accept_keys
            (All-map (InScope v w) post_suggestion result.posted fine)
            (tt, (tt, (tt, (tt, (tt, tt))))))
    ]

some_there :
    (id : String) (docs : List Document) → has id (ids_of docs) ≡ true → ltb 0 (length docs) ≡ true
unfolding has
some_there id [] h = h
some_there id (d ∷ docs) h = ground arith

retried_lem :
    (v : View) (w : Work) (id : String)
    → has id (ids_of (retry_suggestion_targets v w)) ≡ true
    → is_in_scope v w id ≡ true
unfolding accept_scope_ids
retried_lem v w id h =
    let chosen = has-filter_docs can_retry_suggestions id (selected_docs v w) h in
    scope_lem v w id (rw (some_there id (selected_docs v w) chosen) chosen)

retried_acts :
    (v : View) (w : Work) (docs : List Document)
    → All (λ id. is_in_scope v w id ≡ true) (ids_of docs)
    → All (InScope v w) (map (λ (d : Document). reprocess_suggestions d.id) docs)
retried_acts v w [] h = tt
retried_acts v w (d ∷ docs) h = (h.0, retried_acts v w docs h.1)

retry-InScope :
    (retry : String → Bool) (v : View) (w : Work)
    → All (InScope v w) (handle_retry_suggestions_batch retry v w).1
unfolding handle_retry_suggestions_batch
retry-InScope retry v w =
    let docs = retry_suggestion_targets v w in
    let off = not v.ai_suggestions_available || eqb (length docs) 0 in
    let fine =
      each_in (λ id. is_in_scope v w id ≡ true) (ids_of docs)
        (λ id there. retried_lem v w id there) in
    elim (Bool-cases off) [
      | inl closed ↦ rw closed tt
      | inr open_now ↦ rw open_now (
          All-append (InScope v w) (map (λ (d : Document). reprocess_suggestions d.id) docs)
            (refetch ∷ []) (retried_acts v w docs fine) (tt, tt))
    ]

-- What the buttons over the list send to process documents, to accept suggestions and to ask for new
-- ones is about documents of the list, and about selected ones where a document of the list is
-- selected.
pub toolbar-InScope :
    (lower : String → String) (post : Suggestion → Bool) (retry : String → Bool)
    (answer : ProcessAnswer) (v : View) (w : Work)
    → All (InScope v w) (handle_process lower answer v w).1
      × All (InScope v w) (handle_accept_all lower post v w).1
      × All (InScope v w) (handle_retry_suggestions_batch retry v w).1
toolbar-InScope lower post retry answer v w =
    (process-InScope lower answer v w, accept-InScope lower post v w, retry-InScope retry v w)
