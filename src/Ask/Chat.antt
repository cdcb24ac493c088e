-- ===== src/Ask/Chat.antt =====
-- `AIChatPanel` of frontend/src/components/ask/AIChatPanel.tsx: single questions about a scope of the
-- library. An event is one run of the source between two awaits: an answer arrives as the event
-- `answer_arrived`, with the number of the question that it belongs to.
pub mod Scopes
mod Examples
use folium.Base.{
  ℕ, suc, ◌+◌, String, Bool, true, false, not, ◌&&◌, ◌||◌, Option, none, some, List, [], ◌∷◌, ◌++◌,
  if◌then◌else◌, get_or, is_some, is_filled, is_truthy, length,
}
use folium.Base.Text.{◌&◌, trim, show}
use folium.Types.{Document}
use folium.Readiness.{ScopeReadinessSummary, summarize_scope_readiness}
use folium.Library.Requests.{SearchRequest}
use folium.Ask.Conversation.{AskResponse, find_turn, is_empty}

pub data ScopeKind : Type 0 where
  library folder folder_tree documents document search : ScopeKind

pub record Scope : Type 0 where
  pub kind : ScopeKind
  pub document_id : Option String
  pub document_ids : Option (List String)
  pub folder_id : Option String
  pub search : Option SearchRequest
  pub preview_documents : Option (List Document)
  pub label : Option String

abbrev pub scope_of : ScopeKind → Scope
scope_of kind = record {
  kind = kind;
  document_id = none;
  document_ids = none;
  folder_id = none;
  search = none;
  preview_documents = none;
  label = none;
}

pub record AskRequest : Type 0 where
  pub question : String
  pub kind : ScopeKind
  pub document_id : Option String
  pub document_ids : Option (List String)
  pub folder_id : Option String
  pub search_query : Option String
  pub search : Option SearchRequest
  pub confirm_remote : Bool

abbrev pub query_in : Option SearchRequest → Option String
query_in none = none
query_in (some s) = some s.query

abbrev base_request : ScopeKind → String → Bool → AskRequest
base_request kind question confirm_remote = record {
  question = question;
  kind = kind;
  document_id = none;
  document_ids = none;
  folder_id = none;
  search_query = none;
  search = none;
  confirm_remote = confirm_remote;
}

abbrev request_for : ScopeKind → Scope → AskRequest → AskRequest
request_for library scope r = r
request_for folder scope r = record r { folder_id = scope.folder_id }
request_for folder_tree scope r = record r { folder_id = scope.folder_id }
request_for documents scope r = record r { document_ids = scope.document_ids }
request_for document scope r = record r { document_id = scope.document_id }
request_for search scope r = record r {
  search = scope.search;
  search_query = query_in scope.search;
}

unfoldable pub scope_to_request : Scope → String → Bool → AskRequest
scope_to_request scope question confirm_remote =
    request_for scope.kind scope (base_request scope.kind question confirm_remote)

abbrev label_of : ScopeKind → Scope → String
label_of library scope = "Entire library"
label_of folder scope = "Current folder"
label_of folder_tree scope = "Folder & subfolders"
label_of documents scope = show (length (get_or scope.document_ids [])) & " selected"
label_of document scope = "Current document"
label_of search scope = "Search: " & get_or (query_in scope.search) ""

unfoldable pub default_label : Scope → String
default_label scope =
    if is_truthy scope.label then get_or scope.label "" else label_of scope.kind scope

unfoldable pub readiness : Scope → Option ScopeReadinessSummary
unfolding default_label
readiness scope =
    if is_empty (get_or scope.preview_documents [])
    then none
    else some (summarize_scope_readiness (get_or scope.preview_documents []) (default_label scope))

-- How a request ends, as in `DocumentAskPanel`; it cannot be aborted.
pub data ChatEnding : Type 0 where
  answered : AskResponse → ChatEnding
  forbidden : (message : String) → ChatEnding
  failed : (message : Option String) → ChatEnding

-- The state of the panel, and the requests that were sent, the last one last.
pub record Chat : Type 0 where
  pub question : String
  pub scope : Scope
  pub response : Option AskResponse
  pub pending_remote : Option AskRequest
  pub error : Option String
  pub asked : List AskRequest

abbrev pub new_chat : Option Scope → Chat
new_chat initial = record {
  question = "";
  scope = get_or initial (scope_of library);
  response = none;
  pending_remote = none;
  error = none;
  asked = [];
}

-- What a scope lacks.
unfoldable pub missing : Scope → Option String
missing scope = elim scope.kind [
  | library ↦ none
  | folder ↦ if is_truthy scope.folder_id then none else some "Select a folder for this scope."
  | folder_tree ↦ if is_truthy scope.folder_id then none else some "Select a folder for this scope."
  | documents ↦
      if is_empty (get_or scope.document_ids []) then some "Select at least one document." else none
  | document ↦ if is_truthy scope.document_id then none else some "Open a document to ask about it."
  | search ↦
      if is_truthy (query_in scope.search)
      then none
      else some "Run a search first to ask about results."
]

-- What stands behind the guards of `submit`: an error, or the request.
abbrev pub send : Option String → AskRequest → Chat → Chat
send (some message) body p = record p { error = some message }
send none body p = record p { error = none; asked = p.asked ++ body ∷ [] }

-- `submit` up to the request
unfoldable pub submit : Bool → Chat → Chat
unfolding scope_to_request missing
submit confirm_remote p =
    let body = scope_to_request p.scope (trim p.question) confirm_remote in
    if not (is_filled (trim p.question)) then p else send (missing p.scope) body p

-- `submit` behind the request with this body
unfoldable pub settle : AskRequest → ChatEnding → Chat → Chat
settle body (answered r) p = record p { pending_remote = none; response = some r }
settle body (forbidden message) p = record p {
  pending_remote = some body;
  error = some (
      if is_filled message
      then message
      else "This provider is remote. Confirm to send the question outside your host.");
}
settle body (failed message) p = record p {
  error = some (get_or message "Unable to get an answer. Check AI providers in Settings.");
  response = none;
}

-- `a ?? b`
abbrev either {ℓ} : {A : Type ℓ} → Option A → Option A → Option A
either none b = b
either (some a) b = some a

abbrev initial_field {ℓ} : {A : Type ℓ} → (Scope → Option A) → Option Scope → Option A
initial_field field none = none
initial_field field (some scope) = field scope

-- The choice of another kind of scope.
unfoldable pub choose_kind : ScopeKind → Option Scope → Scope → Scope
choose_kind kind initial scope =
    let previews =
      either scope.preview_documents (initial_field (λ s. s.preview_documents) initial) in
    elim kind [
      | library ↦ scope_of library
      | folder ↦ record (scope_of folder) {
        folder_id = either scope.folder_id (initial_field (λ s. s.folder_id) initial);
      }
      | folder_tree ↦ record (scope_of folder_tree) {
        folder_id = either scope.folder_id (initial_field (λ s. s.folder_id) initial);
      }
      | search ↦ record (scope_of search) {
        search = either scope.search (initial_field (λ s. s.search) initial);
        preview_documents = previews;
      }
      | documents ↦ record (scope_of documents) {
        document_ids =
            some
              (get_or (either scope.document_ids (initial_field (λ s. s.document_ids) initial)) []);
        preview_documents = previews;
      }
      | document ↦ record (scope_of document) {
        document_id = either scope.document_id (initial_field (λ s. s.document_id) initial);
        preview_documents = previews;
      }
    ]

pub data ChatEvent : Type 0 where
  typed : String → ChatEvent
  submitted : (confirm_remote : Bool) → ChatEvent
  answer_arrived : AskRequest → ChatEnding → ChatEvent
  opened : Scope → ChatEvent
  kind_chosen : ScopeKind → Option Scope → ChatEvent
  folder_chosen : String → ChatEvent
  context_chosen : Scope → ChatEvent
  ask_another : ChatEvent

unfoldable pub react : ChatEvent → Chat → Chat
unfolding submit settle choose_kind
react (typed text) p = record p { question = text }
react (submitted confirm_remote) p = submit confirm_remote p
react (answer_arrived body ending) p = settle body ending p
react (opened initial) p = record p {
  scope = initial;
  response = none;
  error = none;
  pending_remote = none;
  question = "";
}
react (kind_chosen kind initial) p = record p {
  scope = choose_kind kind initial p.scope;
  response = none;
}
react (folder_chosen folder_id) p = record p {
  scope = record p.scope { folder_id = some folder_id };
}
react (context_chosen scope) p = record p { scope = scope; response = none }
react ask_another p = record p { response = none; question = "" }

unfoldable pub run : List ChatEvent → Chat → Chat
run [] p = p
run (e ∷ events) p = run events (react e p)
