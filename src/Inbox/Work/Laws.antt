-- ===== src/Inbox/Work/Laws.antt =====
-- What the page reads off its queries, and what its handlers leave selected and say.
use folium.Base.{
  ℕ, ◌+◌, ◌-◌, ◌≡◌, refl, ◌∙◌, String, Bool, true, false, not, ◌&&◌, ◌||◌, ◌==◌, eq_refl, none,
  some, is_some, is_truthy, List, [], ◌∷◌, ◌++◌, if◌then◌else◌, eqb, get_or, length, filter, map,
  any, all, arith,
}
use folium.Base.Text.{◌&◌, show}
use folium.Base.Sets.{has, add_all, delete, has-add_all, has-nil, has-delete}
use folium.Types.{Document, Suggestion, InboxStatus, is_inbox, ProcessingStatus, is_processing}
use folium.Inbox.{is_doc_settled, can_retry_suggestions}
use folium.Inbox.Filing.Posted.{rows_of-group}
use folium.Inbox.Work.{
  Work, View, poll_while_preparing, suggestions_by_doc, Counts, count_each, count_status, counts,
  selected_docs, all_visible_selected, retry_suggestion_targets, toggle_select_all_visible,
}
use folium.Inbox.Work.Handlers.{
  retry_each, summary, retry_summary, handle_retry_suggestions_batch, delete_each, confirm_remove,
}

settled_lem :
    (items : List Document)
    → any
        (λ (d : Document).
          is_inbox d.inbox_status InboxStatus.preparing
          || is_processing d.processing_status ProcessingStatus.pending
          || is_processing d.processing_status ProcessingStatus.processing)
        items
      ≡ not (all is_doc_settled items)
unfolding is_doc_settled
settled_lem [] = refl
settled_lem (d ∷ items) = ground (arith, settled_lem items)

-- The lists are fetched again by themselves exactly while they hold a document that is not settled.
pub poll_lem :
    (items : List Document) → is_some (poll_while_preparing items) ≡ not (all is_doc_settled items)
unfolding poll_while_preparing
poll_lem items = ground (arith, settled_lem items)

-- A card shows the pending suggestions of its document, in their order.
pub suggestions_by_doc_lem :
    (pending : List Suggestion) (id : String)
    → suggestions_by_doc pending id ≡ filter (λ (s : Suggestion). s.document_id == id) pending
unfolding suggestions_by_doc
suggestions_by_doc_lem pending id = rows_of-group pending id

abbrev sum : Counts → ℕ
sum c = c.preparing + c.needs_review + c.ready + c.failed

-- The documents without a status.
abbrev pub without_status : List Document → ℕ
without_status items = length (filter (λ (d : Document). not (is_some d.inbox_status)) items)

count_each_lem :
    (items : List Document) (c : Counts)
    → (sum (count_each items c) + without_status items ≡ sum c + length items)
      × ((count_each items c).of_all ≡ c.of_all)
unfolding count_each
count_each_lem [] c = omega arith
count_each_lem (d ∷ items) c = ground (arith, count_each_lem items (count_status d.inbox_status c))

-- The number on the tab of all documents is the sum of those on the other tabs and of the documents
-- without a status; it is that of the documents and of the rejected uploads.
pub counts_lem :
    (items : List Document) (rejections : ℕ)
    → ((counts items rejections).of_all ≡ length items + rejections)
      × ((counts items rejections).of_all
          ≡ (counts items rejections).preparing
            + (counts items rejections).needs_review
            + (counts items rejections).ready
            + (counts items rejections).failed
            + without_status items)
unfolding counts
counts_lem items rejections = omega (
  arith,
  count_each_lem items
      (record { of_all = length items; preparing = 0; needs_review = 0; ready = 0; failed = 0 }),
)

-- The loop counts the documents whose request succeeds, and the others.
retry_each_lem :
    (retry : String → Bool) (docs : List Document)
    → ((retry_each retry docs).0 ≡ length (filter (λ (d : Document). retry d.id) docs))
      × ((retry_each retry docs).1 ≡ length (filter (λ (d : Document). not (retry d.id)) docs))
unfolding retry_each
retry_each_lem retry [] = (refl, refl)
retry_each_lem retry (d ∷ docs) = ground (arith, retry_each_lem retry docs)

length-filter-not :
    (keep : Document → Bool) (docs : List Document)
    → length (filter keep docs) + length (filter (λ d. not (keep d)) docs) ≡ length docs
length-filter-not keep [] = refl
length-filter-not keep (d ∷ docs) = ground (arith, length-filter-not keep docs)

filter_both :
    (p q : Document → Bool) (docs : List Document)
    → length (filter q (filter p docs)) ≡ length (filter (λ d. p d && q d) docs)
filter_both p q [] = refl
filter_both p q (d ∷ docs) = ground (arith, filter_both p q docs)

-- How many of the documents have the property.
abbrev pub number_with : (Document → Bool) → List Document → ℕ
number_with keep docs = length (filter keep docs)

-- A part of the message, if its number is not 0.
abbrev pub told : ℕ → String → List String
told n text = if eqb n 0 then [] else text ∷ []

-- The message for these numbers.
abbrev pub retry_message : (retried skipped failed : ℕ) → String
retry_message retried skipped failed =
    summary
      (told retried (
          "Retried suggestions for "
          & (show retried & (" document" & (if eqb retried 1 then "" else "s"))))
        ++ told skipped (show skipped & " skipped")
        ++ told failed (show failed & " failed"))
      "No suggestions retried"

-- Where AI filing is on and a selected document on the list can be tried again, the message tells, each
-- if it is not 0 and in this order: how many of the selected documents that can be tried again were asked
-- for with success; how many selected documents cannot be tried again, as skipped; and for how many of
-- those that can the request did not succeed, as failed.
pub retry_counts :
    (retry : String → Bool) (v : View) (w : Work)
    → v.ai_suggestions_available ≡ true
    → eqb (length (retry_suggestion_targets v w)) 0 ≡ false
    → (handle_retry_suggestions_batch retry v w).0.result_msg
      ≡ some (
          retry_message
            (number_with (λ d. can_retry_suggestions d && retry d.id) (selected_docs v w))
            (number_with (λ d. not (can_retry_suggestions d)) (selected_docs v w))
            (number_with (λ d. can_retry_suggestions d && not (retry d.id)) (selected_docs v w)))
unfolding handle_retry_suggestions_batch retry_summary
retry_counts retry v w available targets =
    let docs = selected_docs v w in
    let each = retry_each_lem retry (retry_suggestion_targets v w) in
    let skipped : length docs - length (retry_suggestion_targets v w)
        ≡ number_with (λ d. not (can_retry_suggestions d)) docs =
      omega (arith, length-filter-not can_retry_suggestions docs) in
    rw
      (
        available,
        targets,
        each.0 ∙ filter_both can_retry_suggestions (λ d. retry d.id) docs,
        each.1 ∙ filter_both can_retry_suggestions (λ d. not (retry d.id)) docs,
        skipped,
      )
      refl

has-delete_each :
    (id : String) (ids set : List String)
    → has id (delete_each ids set) ≡ (not (has id ids) && has id set)
unfolding has delete_each
has-delete_each id [] set = refl
has-delete_each id (x ∷ ids) set =
    ground (arith, has-delete_each id ids (delete x set), has-delete id x set)

-- Where the request succeeds, the documents that were to be removed, and no others, leave the
-- selection, the preview is closed if it shows one of them, and the question is closed.
pub confirm_remove_lem :
    (id : String) (ids : List String) (w : Work)
    → w.remove_ids ≡ some ids
    → eqb (length ids) 0 ≡ false
    → (has id (confirm_remove true w).0.selected_ids ≡ (not (has id ids) && has id w.selected_ids))
      × ((confirm_remove true w).0.remove_ids ≡ none)
      × ((is_truthy (confirm_remove true w).0.preview_id
            && has (get_or (confirm_remove true w).0.preview_id "") ids)
          ≡ false)
unfolding confirm_remove
confirm_remove_lem id ids w asked filled =
    rw (asked, filled) (ground (arith, has-delete_each id ids w.selected_ids))

has_of_all :
    (docs : List Document) (ids : List String)
    → ((id : String) → has id (map (λ (d : Document). d.id) docs) ≡ true → has id ids ≡ true)
    → all (λ (d : Document). has d.id ids) docs ≡ true
unfolding has
has_of_all [] ids h = refl
has_of_all (d ∷ docs) ids h =
    let first : has d.id ids ≡ true = h d.id (rw (eq_refl d.id) refl) in
    rw first (has_of_all docs ids (λ id there. h id (ground arith)))

-- The box over the list selects the documents on the list and no others, unless they are all
-- selected, and then nothing is selected: pressed twice on a list that is not all selected, it leaves
-- nothing selected.
pub toggle_all_lem :
    (v : View) (w : Work)
    → eqb (length v.documents) 0 ≡ false
    → all_visible_selected v w ≡ false
    → ((id : String)
        → has id (toggle_select_all_visible v w).selected_ids
          ≡ has id (map (λ (d : Document). d.id) v.documents))
      × ((toggle_select_all_visible v (toggle_select_all_visible v w)).selected_ids ≡ [])
unfolding toggle_select_all_visible
toggle_all_lem v w some_there h =
    let ids = map (λ (d : Document). d.id) v.documents in
    let chosen = record w { selected_ids = add_all ids [] } in
    let members : (id : String) → has id (add_all ids []) ≡ has id ids =
      λ id. has-add_all id ids [] ∙ rw (has-nil id) (ground arith) in
    let now_all : all_visible_selected v chosen ≡ true =
      ground (arith, has_of_all v.documents (add_all ids []) (λ id there. members id ∙ there)) in
    rw h (members, rw now_all refl)
