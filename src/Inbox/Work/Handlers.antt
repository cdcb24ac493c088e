-- ===== src/Inbox/Work/Handlers.antt =====
-- The handlers of `InboxWorkView` that send something, and what they do in order.
use folium.Base.{
  ℕ, ◌+◌, ◌-◌, String, Bool, not, ◌==◌, Option, none, some, List, [], ◌∷◌, ◌++◌, if◌then◌else◌, eqb,
  is_filled, get_or, length, filter, map, ◌&&◌, ◌||◌,
}
use folium.Base.Sets.{has, delete}
use folium.Base.Text.{◌&◌, show, join}
use folium.Types.{Document, Suggestion}
use folium.Inbox.Filing.{AcceptResult, accept_all_suggestions}
use folium.Inbox.Work.{
  Work, View, selected_docs, process_targets, accept_scope_ids, pending_in_scope,
  retry_suggestion_targets,
}

pub data Act : Type 0 where
  process_documents remove_from_queue : (ids : List String) → Act
  reprocess_suggestions : (id : String) → Act
  post_suggestion : Suggestion → Act
  invalidate : (key : List String) → Act
  clear_rejections refetch : Act
  navigate : (just_processed : Option (List String)) → Act

pub data ProcessAnswer : Type 0 where
  results : (processed skipped failed : List String) → ProcessAnswer
  refused : (message : Option String) → ProcessAnswer

-- `n ? text : null` in a list that is filtered, and `parts.join(" · ") || fallback`
abbrev part : ℕ → String → List String
part n text = if eqb n 0 then [] else text ∷ []

unfoldable pub summary : List String → String → String
summary parts fallback = let text = join " · " parts in if is_filled text then text else fallback

abbrev plural : ℕ → String
plural n = if eqb n 1 then "" else "s"

unfoldable pub retry_summary : (retried skipped failed : ℕ) → String
retry_summary retried skipped failed =
    summary
      (part retried ("Retried suggestions for " & (show retried & (" document" & plural retried)))
        ++ part skipped (show skipped & " skipped")
        ++ part failed (show failed & " failed"))
      "No suggestions retried"

unfoldable pub accept_summary : AcceptResult → String
accept_summary r =
    summary
      (part r.accepted ("Accepted " & (show r.accepted & (" suggestion" & plural r.accepted)))
        ++ part r.skipped (show r.skipped & " skipped (already edited)")
        ++ part r.failed (show r.failed & " failed"))
      "No suggestions accepted"

unfoldable pub delete_each : List String → List String → List String
delete_each [] set = set
delete_each (id ∷ ids) set = delete_each ids (delete id set)

abbrev preview_kept : List String → Option String → Option String
preview_kept ids none = none
preview_kept ids (some id) = if is_filled id && has id ids then none else some id

-- `confirmRemove`; `answered` is whether the request succeeds.
unfoldable pub confirm_remove : Bool → Work → Work × List Act
unfolding delete_each
confirm_remove answered w = elim w.remove_ids [
  | none ↦ (w, [])
  | some ids ↦
      if eqb (length ids) 0
      then (w, [])
      else if not answered
      then (w, remove_from_queue ids ∷ [])
      else (
        record w {
          selected_ids = delete_each ids w.selected_ids;
          preview_id = preview_kept ids w.preview_id;
          remove_ids = none;
          result_msg = some (
              if eqb (length ids) 1
              then "Removed 1 document from the queue."
              else "Removed " & (show (length ids) & " documents from the queue."));
        },
        remove_from_queue ids ∷ refetch ∷ [],
      )
]

abbrev ids_of : List Document → List String
ids_of docs = map (λ (d : Document). d.id) docs

abbrev take_results : ProcessAnswer → List String → Work → Work × List Act
take_results (refused message) ids w =
    (record w { result_msg = some (get_or message "Process failed") }, process_documents ids ∷ [])
take_results (results (p ∷ processed) skipped failed) ids w = (
  record w { selected_ids = [] },
  process_documents ids ∷ clear_rejections ∷ navigate (some (p ∷ processed)) ∷ [],
)
take_results (results [] skipped failed) ids w = (
  record w {
    selected_ids = [];
    result_msg = some (
        summary
          (part (length skipped) (show (length skipped) & " skipped")
            ++ part (length failed) (show (length failed) & " failed"))
          "Nothing processed");
  },
  process_documents ids ∷ refetch ∷ [],
)

abbrev pub accept_keys : List Act
accept_keys =
    invalidate ("ai" ∷ "suggestions" ∷ [])
    ∷ invalidate ("documents" ∷ [])
    ∷ invalidate ("folders" ∷ [])
    ∷ invalidate ("tags" ∷ [])
    ∷ refetch
    ∷ []

-- `documentsById.get(id)`: of two documents with one id, the `Map` keeps the later.
abbrev pub find_doc : List Document → String → Option Document
find_doc [] id = none
find_doc (d ∷ docs) id =
    let rest = find_doc docs id in
    elim rest [ none ↦ if d.id == id then some d else none | some other ↦ some other ]

module _ (lower : String → String) where
  -- `handleProcess`
  unfoldable pub handle_process : ProcessAnswer → View → Work → Work × List Act
  handle_process answer v w =
      let targets = process_targets lower v w in
      if eqb (length targets) 0 then (w, []) else take_results answer (ids_of targets) w

module _ (lower : String → String) (post : Suggestion → Bool) where
  abbrev accepted : AcceptResult → Work → Work × List Act
  accepted r w = (
    record w { result_msg = some (accept_summary r) },
    map post_suggestion r.posted ++ accept_keys,
  )

  -- `handleAcceptAll`, behind the buttons that are disabled without AI filing.
  unfoldable pub handle_accept_all : View → Work → Work × List Act
  handle_accept_all v w =
      if not v.ai_suggestions_available || eqb (length (pending_in_scope v w)) 0
      then (w, [])
      else accepted
          (accept_all_suggestions lower (find_doc v.documents) post v.pending_suggestions
            (accept_scope_ids v w))
          w

  -- `handleAcceptAllForDoc`
  unfoldable pub handle_accept_all_for_doc : String → View → Work → Work × List Act
  handle_accept_all_for_doc id v w =
      let pending = filter (λ (s : Suggestion). s.document_id == id) v.pending_suggestions in
      if not v.ai_suggestions_available || eqb (length pending) 0
      then (w, [])
      else accepted (accept_all_suggestions lower (find_doc v.documents) post pending (id ∷ [])) w

-- The loop of `handleRetrySuggestionsBatch`: `retry id` is whether the request succeeds.
module _ (retry : String → Bool) where
  unfoldable pub retry_each : List Document → ℕ × ℕ
  retry_each [] = (0, 0)
  retry_each (d ∷ docs) =
      let rest = retry_each docs in
      if retry d.id then (rest.0 + 1, rest.1) else (rest.0, rest.1 + 1)

  unfoldable pub handle_retry_suggestions_batch : View → Work → Work × List Act
  unfolding retry_each
  handle_retry_suggestions_batch v w =
      let targets = retry_suggestion_targets v w in
      let (retried, failed) = retry_each targets in
      if not v.ai_suggestions_available || eqb (length targets) 0 then (w, []) else (
        record w {
          result_msg =
              some (retry_summary retried (length (selected_docs v w) - length targets) failed);
        },
        map (λ (d : Document). reprocess_suggestions d.id) targets ++ refetch ∷ [],
      )

-- `goBack`
abbrev pub go_back : List Act
go_back = clear_rejections ∷ navigate none ∷ []
