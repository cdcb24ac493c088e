-- ===== src/Inbox/Work/Examples.antt =====
-- Three documents on the list, one of them selected, and one that is selected but not on the list.
use folium.Base.{
  ◌&&◌, false, ◌≡◌, refl, ◌+◌, String, true, false, not, ◌&&◌, some, none, [], ◌∷◌, All, map,
  is_truthy, get_or,
}
use folium.Base.Sets.{has}
use folium.Types.{Document, InboxStatus, blank_document}
use folium.Inbox.{can_retry_suggestions, visible_selected_docs}
use folium.Inbox.Work.{
  Work, View, mounted, selected_docs, toggle_select_all_visible, poll_while_preparing, counts,
}
use folium.Inbox.Work.Handlers.{
  results, confirm_remove, handle_process, handle_accept_all, handle_retry_suggestions_batch,
}
use folium.Inbox.Work.Laws.{
  retry_message, number_with, retry_counts, confirm_remove_lem, toggle_all_lem, counts_lem,
  without_status,
}
use folium.Inbox.Work.Scope.{InScope, toolbar-InScope}

abbrev bill : Document
bill = record blank_document {
  id = "bill";
  inbox_status = some InboxStatus.ready;
  pending_folder_path = some "Bills";
}

abbrev letter : Document
letter = record blank_document { id = "letter"; inbox_status = some InboxStatus.needs_review }

abbrev scan : Document
scan = record blank_document { id = "scan"; inbox_status = some InboxStatus.preparing }

abbrev view : View
view = record {
  documents = bill ∷ letter ∷ scan ∷ [];
  pending_suggestions =
      record { id = "s"; document_id = "bill"; field = "title"; status = "pending" }
      ∷ record { id = "t"; document_id = "letter"; field = "title"; status = "pending" }
      ∷ [];
  ai_suggestions_available = true;
}

abbrev work : Work
work = record mounted { selected_ids = "bill" ∷ "scan" ∷ "gone" ∷ [] }

abbrev lower : String → String
lower s = s

toolbar-InScope_example :
    All (InScope view work) (handle_process lower (results ("bill" ∷ []) [] []) view work).1
    × All (InScope view work) (handle_accept_all lower (λ s. true) view work).1
    × All (InScope view work) (handle_retry_suggestions_batch (λ id. true) view work).1
toolbar-InScope_example =
    toolbar-InScope lower (λ s. true) (λ id. true) (results ("bill" ∷ []) [] []) view work

retry_counts_example :
    (handle_retry_suggestions_batch (λ id. true) view work).0.result_msg
    ≡ some (
        retry_message
          (number_with (λ d. can_retry_suggestions d && true) (selected_docs view work))
          (number_with (λ d. not (can_retry_suggestions d)) (selected_docs view work))
          (number_with (λ d. can_retry_suggestions d && false) (selected_docs view work)))
unfolding visible_selected_docs can_retry_suggestions has
retry_counts_example = retry_counts (λ id. true) view work refl refl

abbrev asked : Work
asked = record work { remove_ids = some ("bill" ∷ []); preview_id = some "bill" }

confirm_remove_lem_example :
    (has "scan" (confirm_remove true asked).0.selected_ids
      ≡ (not (has "scan" ("bill" ∷ [])) && has "scan" asked.selected_ids))
    × ((confirm_remove true asked).0.remove_ids ≡ none)
    × ((is_truthy (confirm_remove true asked).0.preview_id
          && has (get_or (confirm_remove true asked).0.preview_id "") ("bill" ∷ []))
        ≡ false)
confirm_remove_lem_example = confirm_remove_lem "scan" ("bill" ∷ []) asked refl refl

toggle_all_lem_example :
    ((id : String)
      → has id (toggle_select_all_visible view work).selected_ids
        ≡ has id (map (λ (d : Document). d.id) view.documents))
    × ((toggle_select_all_visible view (toggle_select_all_visible view work)).selected_ids ≡ [])
unfolding has
toggle_all_lem_example = toggle_all_lem view work refl refl

counts_lem_example :
    ((counts view.documents 2).of_all ≡ 5)
    × ((counts view.documents 2).of_all
        ≡ (counts view.documents 2).preparing
          + (counts view.documents 2).needs_review
          + (counts view.documents 2).ready
          + (counts view.documents 2).failed
          + without_status view.documents)
counts_lem_example = counts_lem view.documents 2

tests : poll_while_preparing view.documents ≡ some 3000
unfolding poll_while_preparing
tests = refl
