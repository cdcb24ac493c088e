-- ===== src/Inbox/Work.antt =====
-- frontend/src/features/inbox/InboxWorkView.tsx: the page on which documents are reviewed and filed,
-- its state, what it reads off the queries, and its handlers. The answers of the server are
-- parameters; no other event comes between a request of a handler and its answer.
pub mod Handlers
pub mod Laws
pub mod Scope
mod Examples
use folium.Base.{
  ℕ, ◌+◌, ◌-◌, String, Bool, true, false, not, ◌&&◌, ◌||◌, ◌==◌, Option, none, some, List, [], ◌∷◌,
  ◌++◌, if◌then◌else◌, eqb, ltb, is_filled, get_or, length, filter, map, any, all, find,
}
use folium.Base.Sets.{has, add, delete, add_all}
use folium.Types.{
  Document, Suggestion, InboxStatus, is_inbox, ProcessingStatus, is_processing, Job, JobStatus,
  is_job,
}
use folium.Inbox.{is_doc_settled, can_retry_suggestions, visible_selected_docs}
use folium.Inbox.Filing.{group, rows_of, is_processable}

pub data StatusTab : Type 0 where
  all_tab : StatusTab
  status_tab : InboxStatus → StatusTab

pub data Order : Type 0 where
  asc desc : Order

pub record Work : Type 0 where
  pub selected_ids : List String
  pub search_query : String
  pub tab : StatusTab
  pub sort : String
  pub order : Order
  pub preview_id : Option String
  pub remove_ids : Option (List String)
  pub result_msg : Option String
  pub expanded_ids : Option (List String)

abbrev pub mounted : Work
mounted = record {
  selected_ids = [];
  search_query = "";
  tab = all_tab;
  sort = "added_date";
  order = asc;
  preview_id = none;
  remove_ids = none;
  result_msg = none;
  expanded_ids = none;
}

-- What the queries hold when an event comes: the documents of the list, and the pending suggestions.
pub record View : Type 0 where
  pub documents : List Document
  pub pending_suggestions : List Suggestion
  pub ai_suggestions_available : Bool

-- The intervals of the queries, in milliseconds; `none` is `false`.
abbrev is_busy : Document → Bool
is_busy d =
    is_inbox d.inbox_status InboxStatus.preparing
    || is_processing d.processing_status ProcessingStatus.pending
    || is_processing d.processing_status ProcessingStatus.processing

abbrev is_ocr_live : Document → Bool
is_ocr_live d = is_inbox d.inbox_status InboxStatus.preparing && ltb 0 (get_or d.ocr_pages_total 0)

unfoldable pub poll_while_preparing : List Document → Option ℕ
poll_while_preparing items =
    if not (any is_busy items) then none else some (if any is_ocr_live items then 2000 else 3000)

unfoldable pub poll_jobs : List Job → ℕ
poll_jobs jobs =
    if any
      (λ (j : Job).
        (j.job_type == "ocr" || j.job_type == "text_extraction")
        && is_job j.status JobStatus.running)
      jobs
    then 2500
    else 5000

abbrev ids_of : List Document → List String
ids_of docs = map (λ (d : Document). d.id) docs

-- `suggestionsByDoc[id] ?? []`
unfoldable pub suggestions_by_doc : List Suggestion → String → List Suggestion
suggestions_by_doc pending id = rows_of (group pending []) id

pub record Counts : Type 0 where
  pub of_all : ℕ
  pub preparing : ℕ
  pub needs_review : ℕ
  pub ready : ℕ
  pub failed : ℕ

abbrev pub count_status : Option InboxStatus → Counts → Counts
count_status none c = c
count_status (some InboxStatus.preparing) c = record c { preparing = c.preparing + 1 }
count_status (some InboxStatus.needs_review) c = record c { needs_review = c.needs_review + 1 }
count_status (some InboxStatus.ready) c = record c { ready = c.ready + 1 }
count_status (some InboxStatus.failed) c = record c { failed = c.failed + 1 }

unfoldable pub count_each : List Document → Counts → Counts
count_each [] c = c
count_each (d ∷ items) c = count_each items (count_status d.inbox_status c)

-- `rejections` is the number of uploads that were rejected.
unfoldable pub counts : List Document → ℕ → Counts
unfolding count_each
counts items rejections =
    let c =
      count_each items (record {
        of_all = length items;
        preparing = 0;
        needs_review = 0;
        ready = 0;
        failed = 0;
      }) in
    record c { failed = c.failed + rejections; of_all = c.of_all + rejections }

abbrev pub selected_docs : View → Work → List Document
selected_docs v w = visible_selected_docs v.documents w.selected_ids

abbrev pub has_visible_selection : View → Work → Bool
has_visible_selection v w = ltb 0 (length (selected_docs v w))

unfoldable pub process_targets : (String → String) → View → Work → List Document
process_targets lower v w =
    if has_visible_selection v w
    then filter (is_processable lower) (selected_docs v w)
    else filter (is_processable lower) v.documents

unfoldable pub accept_scope_ids : View → Work → List String
accept_scope_ids v w =
    if has_visible_selection v w then ids_of (selected_docs v w) else ids_of v.documents

unfoldable pub pending_in_scope : View → Work → List Suggestion
pending_in_scope v w =
    filter (λ (s : Suggestion). has s.document_id (accept_scope_ids v w)) v.pending_suggestions

abbrev pub all_visible_selected : View → Work → Bool
all_visible_selected v w =
    ltb 0 (length v.documents) && all (λ (d : Document). has d.id w.selected_ids) v.documents

abbrev pub retry_suggestion_targets : View → Work → List Document
retry_suggestion_targets v w = filter can_retry_suggestions (selected_docs v w)

-- The effect that starts with every card collapsed.
unfoldable pub collapse : View → Work → Work
collapse v w = elim w.expanded_ids [
  | none ↦ if eqb (length v.documents) 0 then w else record w { expanded_ids = some [] }
  | some ids ↦ w
]

abbrev toggled : String → List String → List String
toggled id ids = if has id ids then delete id ids else add id ids

unfoldable pub toggle_expand : String → View → Work → Work
toggle_expand id v w = elim (find (λ (d : Document). d.id == id) v.documents) [
  | none ↦ w
  | some doc ↦
      if is_doc_settled doc
      then record w { expanded_ids = some (toggled id (get_or w.expanded_ids [])) }
      else w
]

unfoldable pub toggle_select_all_visible : View → Work → Work
toggle_select_all_visible v w =
    if all_visible_selected v w
    then record w { selected_ids = [] }
    else record w { selected_ids = add_all (ids_of v.documents) [] }

-- A choice in the menu that sorts.
unfoldable pub choose_sort : String → Work → Work
choose_sort value w =
    if w.sort == value
    then record w { order = elim w.order [ asc ↦ desc | desc ↦ asc ] }
    else record w { sort = value; order = desc }
