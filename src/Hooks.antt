-- ===== src/Hooks.antt =====
-- `queryKeys` of frontend/src/lib/api/hooks.ts, and what its hooks tell the query client to do when a
-- request has succeeded. The client itself, a package, is the interface of Hooks/Cache.antt.
pub mod Cache
pub mod Folders
pub mod Documents
pub mod Auth
pub mod Settings
pub mod Mutations
pub mod Stale
pub mod Sent
mod Examples
use folium.Base.{
  ℕ, String, Bool, true, false, ◌&&◌, Option, none, some, List, [], ◌∷◌, ◌==◌, get_or, map,
}
use folium.Types.{Document}
use folium.Ask.Conversation.{AskMessage}
use folium.Library.Requests.{DocumentListParams, SearchRequest}

pub record InboxActivityParams : Type 0 where
  pub range_days : Option ℕ
  pub tab : Option String
  pub q : Option String
  pub page : Option ℕ
  pub page_size : Option ℕ

-- A part of a key: a text, or an object of parameters.
pub data Part : Type 0 where
  word : String → Part
  listing : DocumentListParams → Part
  searching : SearchRequest → Part
  activity : InboxActivityParams → Part

abbrev pub words : List String → List Part
words ws = map word ws

-- A key without objects in it that begins another.
unfoldable pub begins_with : List String → List Part → Bool
begins_with [] k = true
begins_with (w ∷ ws) (word v ∷ k) = w == v && begins_with ws k
begins_with ws k = false

-- The key is the one of these texts.
unfoldable pub is_key : List String → List Part → Bool
is_key [] [] = true
is_key (w ∷ ws) (word v ∷ k) = w == v && is_key ws k
is_key ws k = false

abbrev pub session_key : List String
session_key = "session" ∷ []

abbrev pub folders_key : List String
folders_key = "folders" ∷ []

abbrev pub folder_key : String → List String
folder_key id = "folders" ∷ id ∷ []

abbrev pub tags_key : List String
tags_key = "tags" ∷ []

abbrev pub documents_key : DocumentListParams → List Part
documents_key params = word "documents" ∷ listing params ∷ []

abbrev pub document_key : String → List String
document_key id = "documents" ∷ id ∷ []

abbrev pub document_content_key : String → List String
document_content_key id = "documents" ∷ id ∷ "content" ∷ []

abbrev pub ask_conversation_key : String → List String
ask_conversation_key document_id = "documents" ∷ document_id ∷ "ask-conversation" ∷ []

abbrev pub folder_documents_key : String → DocumentListParams → List Part
folder_documents_key folder_id params =
    word "folders" ∷ word folder_id ∷ word "documents" ∷ listing params ∷ []

abbrev pub search_key : SearchRequest → List Part
search_key req = word "search" ∷ searching req ∷ []

abbrev pub jobs_key : Option String → Option String → List String
jobs_key status document_id = "jobs" ∷ get_or status "all" ∷ get_or document_id "all" ∷ []

abbrev pub job_key : String → List String
job_key id = "jobs" ∷ id ∷ []

abbrev pub ai_suggestions_key : Option String → List String
ai_suggestions_key document_id = "ai" ∷ "suggestions" ∷ get_or document_id "all" ∷ []

abbrev pub inbox_overview_key : List String
inbox_overview_key = "inbox-overview" ∷ []

abbrev pub inbox_activity_key : InboxActivityParams → List Part
inbox_activity_key params = word "inbox-activity" ∷ activity params ∷ []

abbrev pub library_overview_key : List String
library_overview_key = "library-overview" ∷ []

-- `Session`, whose user only rendering looks at.
pub record Session : Type 0 where
  pub csrf_token : String

pub record AskConversation : Type 0 where
  pub id : Option String
  pub document_id : String
  pub messages : List AskMessage
  pub updated_at : Option String

-- What the hooks put into the cache, and what else requests bring there.
pub data Data : Type 0 where
  session_data : Option Session → Data
  document_data : Document → Data
  conversation_data : AskConversation → Data
  fetched : Data

-- `setQueryData`, `invalidateQueries` and `clear`
pub data Effect : Type 0 where
  set_query_data : List String → Data → Effect
  invalidate_queries : List String → Effect
  clear : Effect
