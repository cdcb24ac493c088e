-- ===== src/Inbox/Filing/Laws.antt =====
-- Which suggestions are accepted, in which order, and how the predicates on destinations agree.
use mathlib.Core.List.{append_assoc, append-nil}
use folium.Base.{
  suc, ◌+◌, ◌≡◌, refl, sym, ap, ◌∙◌, String, Bool, true, false, not, ◌&&◌, Option, none, some, List,
  [], ◌∷◌, ◌++◌, ◌==◌, eq_iff, arith, if◌then◌else◌, length, length-append, filter, Bool-cases, inl,
  inr,
}
use folium.Base.Sets.{has}
use folium.Types.{Document, Suggestion, InboxStatus, is_inbox}
use folium.Inbox.Filing.{
  folder_display_label, has_manual_destination, should_accept_suggestion, is_processable, Groups,
  push, group, flatten, AcceptResult, is_skipped, accept_one, accept_rows, accept_groups,
  accept_all_suggestions, FilingReason, AiHealth, inbox_ai_filing_state,
}

-- A document can be processed exactly if it is neither preparing nor failed and has a destination
-- that its user chose.
pub is_processable_lem :
    (lower : String → String) (doc : Document)
    → is_processable lower doc ≡ (
        not (is_inbox doc.inbox_status InboxStatus.preparing)
        && not (is_inbox doc.inbox_status InboxStatus.failed)
        && has_manual_destination lower doc)
unfolding is_processable has_manual_destination
is_processable_lem lower doc = ground arith

-- Without a chosen destination the folder column shows a dash, and a folder suggestion is accepted.
pub no_destination :
    (lower : String → String) (doc : Document) (s : Suggestion)
    → has_manual_destination lower doc ≡ false
    → (folder_display_label lower doc ≡ "—") × (should_accept_suggestion lower doc s ≡ true)
unfolding folder_display_label has_manual_destination should_accept_suggestion
no_destination lower doc s h = ground arith

module _ {ℓ} {A : Type ℓ} where
  filter-append : (p : A → Bool) (xs ys : List A) → filter p (xs ++ ys) ≡ filter p xs ++ filter p ys
  filter-append p [] ys = refl
  filter-append p (x ∷ xs) ys = ground (arith, filter-append p xs ys)

  filter_comm : (p q : A → Bool) (xs : List A) → filter p (filter q xs) ≡ filter q (filter p xs)
  filter_comm p q [] = refl
  filter_comm p q (x ∷ xs) = ground (arith, filter_comm p q xs)

-- The suggestion is for the document.
abbrev pub is_for : String → Suggestion → Bool
is_for id s = s.document_id == id

abbrev for_doc : String → List Suggestion → List Suggestion
for_doc id rows = filter (is_for id) rows

-- What is for a document stands in the first group with its id.
abbrev IsSeparate : Groups → Type 0
IsSeparate [] = Unit
IsSeparate ((id, rows) ∷ groups) = (for_doc id (flatten groups) ≡ []) × IsSeparate groups

push_nil : (s : Suggestion) → push s [] ≡ (s.document_id, s ∷ []) ∷ []
unfolding push
push_nil s = refl

push_here :
    (s : Suggestion) (k : String) (rows : List Suggestion) (groups : Groups)
    → (k == s.document_id) ≡ true
    → push s ((k, rows) ∷ groups) ≡ (k, rows ++ s ∷ []) ∷ groups
unfolding push
push_here s k rows groups same = ground arith

push_there :
    (s : Suggestion) (k : String) (rows : List Suggestion) (groups : Groups)
    → (k == s.document_id) ≡ false
    → push s ((k, rows) ∷ groups) ≡ (k, rows) ∷ push s groups
unfolding push
push_there s k rows groups other = ground arith

-- A suggestion that goes to the end of the rows of a group is behind all others for its document.
for_doc_regroup :
    (id : String) (s : Suggestion) (rows rest : List Suggestion)
    → for_doc s.document_id rest ≡ []
    → for_doc id ((rows ++ s ∷ []) ++ rest) ≡ for_doc id (rows ++ rest) ++ for_doc id (s ∷ [])
for_doc_regroup id s rows rest apart = elim (Bool-cases (s.document_id == id)) [
  | inl mine ↦
      let e : s.document_id ≡ id = (eq_iff s.document_id id).0 mine in
      let none_left : for_doc id rest ≡ [] = rw e at apart in
      rw
        (
          filter-append (is_for id) (rows ++ s ∷ []) rest,
          filter-append (is_for id) rows (s ∷ []),
          filter-append (is_for id) rows rest,
          none_left,
        )
        (rw (append-nil, append-nil))
  | inr other ↦
      let gone : for_doc id (s ∷ []) ≡ [] = ground arith in
      rw
        (
          filter-append (is_for id) (rows ++ s ∷ []) rest,
          filter-append (is_for id) rows (s ∷ []),
          filter-append (is_for id) rows rest,
          gone,
        )
        (rw (append-nil, append-nil))
]

for_doc-push :
    (id : String) (s : Suggestion) (groups : Groups)
    → IsSeparate groups
    → for_doc id (flatten (push s groups)) ≡ for_doc id (flatten groups) ++ for_doc id (s ∷ [])
unfolding flatten
for_doc-push id s [] h = rw push_nil (ap (for_doc id) (append-nil (s ∷ [])))
for_doc-push id s ((k, rows) ∷ groups) (apart, h) = elim (Bool-cases (k == s.document_id)) [
  | inl same ↦
      let e : k ≡ s.document_id = (eq_iff k s.document_id).0 same in
      rw (push_here s k rows groups same)
        (for_doc_regroup id s rows (flatten groups) (rw e at apart))
  | inr other ↦ rw (push_there s k rows groups other) (
      rw
        (
          filter-append (is_for id) rows (flatten (push s groups)),
          filter-append (is_for id) rows (flatten groups),
          for_doc-push id s groups h,
        )
        (sym (append_assoc (for_doc id rows) (for_doc id (flatten groups)) (for_doc id (s ∷ [])))))
]

push-IsSeparate :
    (s : Suggestion) (groups : Groups) → IsSeparate groups → IsSeparate (push s groups)
unfolding flatten
push-IsSeparate s [] h = rw push_nil (refl, tt)
push-IsSeparate s ((k, rows) ∷ groups) (apart, h) = elim (Bool-cases (k == s.document_id)) [
  | inl same ↦ rw (push_here s k rows groups same) (apart, h)
  | inr other ↦ rw (push_there s k rows groups other) (
    ground (
      arith,
      for_doc-push k s groups h,
      eq_iff k s.document_id,
      eq_iff s.document_id k,
      append-nil (for_doc k (flatten groups)),
    ),
    push-IsSeparate s groups h,
  )
]

for_doc-group :
    (id : String) (targets : List Suggestion) (groups : Groups)
    → IsSeparate groups
    → for_doc id (flatten (group targets groups))
      ≡ for_doc id (flatten groups) ++ for_doc id targets
unfolding group
for_doc-group id [] groups h = sym (append-nil (for_doc id (flatten groups)))
for_doc-group id (s ∷ targets) groups h =
    for_doc-group id targets (push s groups) (push-IsSeparate s groups h)
    ∙ rw (for_doc-push id s groups h) (
        append_assoc (for_doc id (flatten groups)) (for_doc id (s ∷ [])) (for_doc id targets)
        ∙ ap (λ l. for_doc id (flatten groups) ++ l)
            (sym (filter-append (is_for id) (s ∷ []) targets)))

length-flatten-push :
    (s : Suggestion) (groups : Groups)
    → length (flatten (push s groups)) ≡ suc (length (flatten groups))
unfolding flatten push
length-flatten-push s [] = refl
length-flatten-push s ((k, rows) ∷ groups) = elim (Bool-cases (k == s.document_id)) [
  | inl same ↦ rw same (
      omega (
        arith,
        length-append (rows ++ s ∷ []) (flatten groups),
        length-append rows (s ∷ []),
        length-append rows (flatten groups),
      ))
  | inr other ↦ rw other (
      omega (
        arith,
        length-append rows (flatten (push s groups)),
        length-append rows (flatten groups),
        length-flatten-push s groups,
      ))
]

length-group :
    (targets : List Suggestion) (groups : Groups)
    → length (flatten (group targets groups)) ≡ length (flatten groups) + length targets
unfolding group
length-group [] groups = omega arith
length-group (s ∷ targets) groups =
    omega (arith, length-group targets (push s groups), length-flatten-push s groups)

module _ (lower : String → String) (documents_by_id : String → Option Document)
    (post : Suggestion → Bool) where
  -- Not skipped: the document is not known, or the suggestion should be accepted for it.
  abbrev pub is_sent : Suggestion → Bool
  is_sent s = not (is_skipped lower documents_by_id post s)

  -- What a pass over some rows does to the result.
  pub record Passed (rows : List Suggestion) (r t : AcceptResult) : Type 0 where
    pub posted : t.posted ≡ r.posted ++ filter is_sent rows
    counted : t.accepted + t.failed + t.skipped ≡ r.accepted + r.failed + r.skipped + length rows
    sent : t.accepted + t.failed + length r.posted ≡ r.accepted + r.failed + length t.posted

  accept_rows-Passed :
      (rows : List Suggestion) (r : AcceptResult)
      → Passed rows r (accept_rows lower documents_by_id post rows r)
  unfolding accept_rows accept_one
  accept_rows-Passed [] r = ground (arith, append-nil r.posted)
  accept_rows-Passed (s ∷ rows) r =
      let t = accept_one lower documents_by_id post s r in
      let p = accept_rows-Passed rows t in
      ground (
        arith,
        p,
        append_assoc r.posted (s ∷ []) (filter is_sent rows),
        length-append r.posted (s ∷ []),
      )

  accept_rows-append :
      (rows more : List Suggestion) (r : AcceptResult)
      → accept_rows lower documents_by_id post (rows ++ more) r
        ≡ accept_rows lower documents_by_id post more
            (accept_rows lower documents_by_id post rows r)
  unfolding accept_rows
  accept_rows-append [] more r = refl
  accept_rows-append (s ∷ rows) more r =
      accept_rows-append rows more (accept_one lower documents_by_id post s r)

  accept_groups-flatten :
      (groups : Groups) (r : AcceptResult)
      → accept_groups lower documents_by_id post groups r
        ≡ accept_rows lower documents_by_id post (flatten groups) r
  unfolding accept_groups accept_rows flatten
  accept_groups-flatten [] r = refl
  accept_groups-flatten ((k, rows) ∷ groups) r =
      accept_groups-flatten groups (accept_rows lower documents_by_id post rows r)
      ∙ sym (accept_rows-append rows (flatten groups) r)

  -- The pending suggestions of the documents that were asked for.
  abbrev pub targets_of : List Suggestion → List String → List Suggestion
  targets_of pending document_ids = filter (λ s. has s.document_id document_ids) pending

  pub accept_all-Passed :
      (pending : List Suggestion) (document_ids : List String)
      → Passed
          (flatten (group (targets_of pending document_ids) []))
          (record { accepted = 0; failed = 0; skipped = 0; posted = [] })
          (accept_all_suggestions lower documents_by_id post pending document_ids)
  unfolding accept_all_suggestions
  accept_all-Passed pending document_ids =
      rw (accept_groups-flatten (group (targets_of pending document_ids) []) _)
        (accept_rows-Passed (flatten (group (targets_of pending document_ids) [])) _)

  -- Every pending suggestion for a document that was asked for is counted once, as accepted, failed
  -- or skipped; the requests are as many as the accepted and the failed ones.
  pub accept_all_counts :
      (pending : List Suggestion) (document_ids : List String)
      → ((accept_all_suggestions lower documents_by_id post pending document_ids).accepted
            + (accept_all_suggestions lower documents_by_id post pending document_ids).failed
            + (accept_all_suggestions lower documents_by_id post pending document_ids).skipped
          ≡ length (targets_of pending document_ids))
        × ((accept_all_suggestions lower documents_by_id post pending document_ids).accepted
              + (accept_all_suggestions lower documents_by_id post pending document_ids).failed
            ≡ length
                (accept_all_suggestions lower documents_by_id post pending document_ids).posted)
  unfolding flatten
  accept_all_counts pending document_ids =
      let p = accept_all-Passed pending document_ids in
      omega (arith, p.counted, p.sent, length-group (targets_of pending document_ids) [])

  -- The requests for one document are exactly its pending suggestions that are not skipped, if it
  -- was asked for, in the order in which they were pending.
  pub accept_all_order :
      (pending : List Suggestion) (document_ids : List String) (id : String)
      → filter
          (is_for id)
          (accept_all_suggestions lower documents_by_id post pending document_ids).posted
        ≡ filter is_sent (filter (is_for id) (targets_of pending document_ids))
  unfolding flatten
  accept_all_order pending document_ids id =
      let p = accept_all-Passed pending document_ids in
      ap (filter (is_for id)) p.posted
      ∙ filter_comm (is_for id) is_sent (flatten (group (targets_of pending document_ids) []))
      ∙ ap (filter is_sent) (for_doc-group id (targets_of pending document_ids) [] tt)

abbrev is_on : Option Bool → Bool
is_on none = false
is_on (some on) = on

-- Suggestions are available exactly if the indexing is and the tagging is switched on, and then the
-- reason says so; with the indexing alone the controls are off, and without it nothing is assigned.
pub inbox_ai_filing_state_lem :
    (h : AiHealth)
    → ((inbox_ai_filing_state (some h)).ai_suggestions_available
        ≡ ((inbox_ai_filing_state (some h)).indexing_ready && is_on h.auto_tagging))
      × ((inbox_ai_filing_state (some h)).reason ≡ (
          if (inbox_ai_filing_state (some h)).indexing_ready
          then (if is_on h.auto_tagging then FilingReason.ready else FilingReason.controls_off)
          else FilingReason.not_assigned))
unfolding inbox_ai_filing_state
inbox_ai_filing_state_lem h = ground arith
