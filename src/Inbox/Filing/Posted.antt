-- ===== src/Inbox/Filing/Posted.antt =====
-- What is posted when suggestions are accepted is of the suggestions that were asked for, and what a
-- document's group holds.
use folium.Base.{
  ◌≡◌, sym, ◌∙◌, String, Bool, ◌==◌, eq_iff, Option, List, [], ◌∷◌, ◌++◌, if◌then◌else◌, filter,
  All, All-append, arith, Bool-cases, inl, inr,
}
use folium.Types.{Document, Suggestion}
use folium.Inbox.Filing.{Groups, push, group, flatten, rows_of, accept_all_suggestions}
use folium.Inbox.Filing.Laws.{targets_of, accept_all-Passed, is_sent}
use mathlib.Core.List.{append-nil, append_assoc}

All-filter :
    {A : Type 0} (P : A → Type 0) (p : A → Bool) (xs : List A) → All P xs → All P (filter p xs)
All-filter P p [] h = tt
All-filter P p (x ∷ xs) h = elim (Bool-cases (p x)) [
  | inl kept ↦ rw kept (h.0, All-filter P p xs h.1)
  | inr dropped ↦ rw dropped (All-filter P p xs h.1)
]

module _ (P : Suggestion → Type 0) where
  both_halves : (xs ys : List Suggestion) → All P (xs ++ ys) → All P xs × All P ys
  both_halves [] ys h = (tt, h)
  both_halves (x ∷ xs) ys h = let (hx, hy) = both_halves xs ys h.1 in ((h.0, hx), hy)

  All-push :
      (s : Suggestion) (groups : Groups)
      → P s
      → All P (flatten groups)
      → All P (flatten (push s groups))
  unfolding push flatten
  All-push s [] hs h = (hs, tt)
  All-push s ((id, rows) ∷ groups) hs h =
      let (before, behind) = both_halves rows (flatten groups) h in
      elim (Bool-cases (id == s.document_id)) [
        | inl same ↦ rw same (
            All-append P (rows ++ s ∷ []) (flatten groups)
              (All-append P rows (s ∷ []) before (hs, tt)) behind)
        | inr other ↦
            rw other
              (All-append P rows (flatten (push s groups)) before (All-push s groups hs behind))
      ]

  All-group :
      (targets : List Suggestion) (groups : Groups)
      → All P targets
      → All P (flatten groups)
      → All P (flatten (group targets groups))
  unfolding group
  All-group [] groups ht h = h
  All-group (s ∷ targets) groups ht h =
      All-group targets (push s groups) ht.1 (All-push s groups ht.0 h)

  -- What holds of every suggestion that is asked for holds of every one that is posted.
  pub posted-All :
      (lower : String → String) (documents_by_id : String → Option Document)
      (post : Suggestion → Bool) (pending : List Suggestion) (document_ids : List String)
      → All P (targets_of lower documents_by_id post pending document_ids)
      → All P (accept_all_suggestions lower documents_by_id post pending document_ids).posted
  unfolding flatten
  posted-All lower documents_by_id post pending document_ids h =
      let p = accept_all-Passed lower documents_by_id post pending document_ids in
      let targets = targets_of lower documents_by_id post pending document_ids in
      rw p.posted (
        All-filter P (is_sent lower documents_by_id post) (flatten (group targets []))
          (All-group targets [] h tt))

rows_of-push :
    (s : Suggestion) (groups : Groups) (id : String)
    → rows_of (push s groups) id
      ≡ (if s.document_id == id then rows_of groups id ++ s ∷ [] else rows_of groups id)
unfolding push
rows_of-push s [] id = ground arith
rows_of-push s ((key, rows) ∷ groups) id = ground (
  arith,
  rows_of-push s groups id,
  eq_iff key s.document_id,
  eq_iff key id,
  eq_iff s.document_id id,
)

rows_of-group_from :
    (pending : List Suggestion) (groups : Groups) (id : String)
    → rows_of (group pending groups) id
      ≡ rows_of groups id ++ filter (λ (s : Suggestion). s.document_id == id) pending
unfolding group
rows_of-group_from [] groups id = sym (append-nil (rows_of groups id))
rows_of-group_from (s ∷ pending) groups id =
    let rest = filter (λ (t : Suggestion). t.document_id == id) pending in
    rows_of-group_from pending (push s groups) id
    ∙ ground (arith, rows_of-push s groups id, append_assoc (rows_of groups id) (s ∷ []) rest)

-- The rows of a document are the suggestions for it, in their order.
pub rows_of-group :
    (pending : List Suggestion) (id : String)
    → rows_of (group pending []) id ≡ filter (λ (s : Suggestion). s.document_id == id) pending
rows_of-group pending id = rows_of-group_from pending [] id
