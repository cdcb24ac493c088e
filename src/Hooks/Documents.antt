-- ===== src/Hooks/Documents.antt =====
-- The document hooks of frontend/src/lib/api/hooks.ts: the queries with their keys and addresses, and
-- the requests that change documents with what they do to the cache. A body is given as
-- `JSON.stringify` writes it.
use folium.Base.{
  ℕ, String, Bool, true, false, Option, none, some, List, [], ◌∷◌, is_truthy, get_or, if◌then◌else◌,
}
use folium.Base.Text.{◌&◌}
use folium.Base.Sets.{}
use folium.Types.{Document}
use folium.Readiness.{document_needs_processing_poll}
use folium.Client.{no_body, json_body, post_options, patch_options, delete_options, upload_options}
use folium.Library.Requests.{DocumentListParams, document_params_to_query}
use folium.Hooks.{
  Effect, set_query_data, invalidate_queries, document_data, conversation_data, AskConversation,
  Part, words, folders_key, tags_key, document_key, document_content_key, documents_key,
  folder_documents_key, ask_conversation_key, ai_suggestions_key,
}
use folium.Hooks.Cache.{invalidate_each}
use folium.Hooks.Folders.{Call}

pub data DocumentQuery : Type 0 where
  documents : DocumentListParams → DocumentQuery
  folder_documents : Option String → DocumentListParams → DocumentQuery
  document document_content ask_conversation : Option String → DocumentQuery

unfoldable pub document_query_key : DocumentQuery → List Part
document_query_key (documents params) = documents_key params
document_query_key (folder_documents folder_id params) =
    folder_documents_key (get_or folder_id "") (record params { folder_id = folder_id })
document_query_key (document id) = words (document_key (get_or id ""))
document_query_key (document_content id) = words (document_content_key (get_or id ""))
document_query_key (ask_conversation document_id) =
    words (ask_conversation_key (get_or document_id ""))

-- The path and the parameters that `buildUrl` is given; `${undefined}` is `undefined`.
unfoldable pub document_query_url : DocumentQuery → String × List (String × Option String)
document_query_url (documents params) = ("/api/documents", document_params_to_query params)
document_query_url (folder_documents folder_id params) = (
  "/api/folders/" & (get_or folder_id "undefined" & "/documents"),
  document_params_to_query params,
)
document_query_url (document id) = ("/api/documents/" & get_or id "undefined", [])
document_query_url (document_content id) =
    ("/api/documents/" & (get_or id "undefined" & "/content"), [])
document_query_url (ask_conversation document_id) =
    ("/api/documents/" & (get_or document_id "undefined" & "/ask/conversation"), [])

-- `enabled`
unfoldable pub document_query_enabled : DocumentQuery → Bool
document_query_enabled (documents params) = true
document_query_enabled (folder_documents folder_id params) = is_truthy folder_id
document_query_enabled (document id) = is_truthy id
document_query_enabled (document_content id) = is_truthy id
document_query_enabled (ask_conversation document_id) = is_truthy document_id

-- `refetchInterval` of `useDocument`; `none` is `false`.
unfoldable pub document_refetch_interval : Option Document → Option ℕ
document_refetch_interval none = none
document_refetch_interval (some doc) =
    if document_needs_processing_poll doc then some 3000 else none

pub data DocumentMutation : Type 0 where
  update_document_metadata move_document : (id body : String) → DocumentMutation
  trash_document restore_document delete_document : (id : String) → DocumentMutation
  bulk_action process_inbox_documents remove_from_queue : (body : String) → DocumentMutation
  retry_preflight retry_ocr reprocess_embeddings reprocess_suggestions :
      (id : String) → DocumentMutation
  upload_document : DocumentMutation

unfoldable pub document_request : DocumentMutation → Call
document_request (update_document_metadata id body) =
    ("/api/documents/" & (id & "/metadata"), patch_options (json_body body))
document_request (move_document id body) =
    ("/api/documents/" & (id & "/move"), post_options (json_body body))
document_request (trash_document id) = ("/api/documents/" & (id & "/trash"), post_options no_body)
document_request (restore_document id) =
    ("/api/documents/" & (id & "/restore"), post_options no_body)
document_request (delete_document id) = ("/api/documents/" & id, delete_options no_body)
document_request (bulk_action body) = ("/api/documents/bulk", post_options (json_body body))
document_request (process_inbox_documents body) =
    ("/api/documents/process", post_options (json_body body))
document_request (remove_from_queue body) =
    ("/api/documents/remove-from-queue", post_options (json_body body))
document_request (retry_preflight id) =
    ("/api/documents/" & (id & "/retry-preflight"), post_options no_body)
document_request (retry_ocr id) = ("/api/documents/" & (id & "/retry-ocr"), post_options no_body)
document_request (reprocess_embeddings id) =
    ("/api/documents/" & (id & "/reprocess-embeddings"), post_options no_body)
document_request (reprocess_suggestions id) =
    ("/api/documents/" & (id & "/reprocess-suggestions"), post_options no_body)
document_request upload_document = ("/api/documents/upload", upload_options)

-- The answer is written into the cache.
unfoldable pub writes_answer : DocumentMutation → Bool
writes_answer (update_document_metadata id body) = true
writes_answer (retry_ocr id) = true
writes_answer (reprocess_embeddings id) = true
writes_answer (reprocess_suggestions id) = true
writes_answer m = false

-- The keys that are invalidated.
unfoldable pub document_invalidates : DocumentMutation → Document → List (List String)
document_invalidates (update_document_metadata id body) doc = ("documents" ∷ []) ∷ []
document_invalidates (move_document id body) doc = ("documents" ∷ []) ∷ folders_key ∷ []
document_invalidates (trash_document id) doc =
    ("documents" ∷ []) ∷ folders_key ∷ ("trash" ∷ []) ∷ []
document_invalidates (restore_document id) doc =
    ("documents" ∷ []) ∷ folders_key ∷ ("trash" ∷ []) ∷ []
document_invalidates (delete_document id) doc = ("documents" ∷ []) ∷ ("trash" ∷ []) ∷ []
document_invalidates (bulk_action body) doc =
    ("documents" ∷ []) ∷ folders_key ∷ tags_key ∷ ("trash" ∷ []) ∷ ("inbox-count" ∷ []) ∷ []
document_invalidates (process_inbox_documents body) doc =
    ("documents" ∷ [])
    ∷ folders_key
    ∷ ("inbox-count" ∷ [])
    ∷ ("inbox-overview" ∷ [])
    ∷ ("inbox-activity" ∷ [])
    ∷ []
document_invalidates (remove_from_queue body) doc =
    ("documents" ∷ [])
    ∷ ("inbox-count" ∷ [])
    ∷ ("inbox-overview" ∷ [])
    ∷ ("inbox-activity" ∷ [])
    ∷ []
document_invalidates (retry_preflight id) doc =
    ("documents" ∷ []) ∷ ("inbox-overview" ∷ []) ∷ ("inbox-activity" ∷ []) ∷ []
document_invalidates (retry_ocr id) doc =
    ("documents" ∷ []) ∷ document_content_key doc.id ∷ ("jobs" ∷ []) ∷ []
document_invalidates (reprocess_embeddings id) doc = ("documents" ∷ []) ∷ ("jobs" ∷ []) ∷ []
document_invalidates (reprocess_suggestions id) doc =
    ("documents" ∷ [])
    ∷ ("jobs" ∷ [])
    ∷ ai_suggestions_key (some doc.id)
    ∷ ai_suggestions_key none
    ∷ []
document_invalidates upload_document doc = ("documents" ∷ []) ∷ folders_key ∷ []

-- `onSuccess`; `doc` is the answer, where the source reads it.
unfoldable pub document_success : DocumentMutation → Document → List Effect
document_success m doc =
    if writes_answer m
    then set_query_data (document_key doc.id) (document_data doc)
      ∷ invalidate_each (document_invalidates m doc)
    else invalidate_each (document_invalidates m doc)

-- `useAskDocument`, `useNewAskConversation` and `useClearAskConversation`
unfoldable pub ask_document_success : String → List Effect
ask_document_success document_id = invalidate_queries (ask_conversation_key document_id) ∷ []

unfoldable pub new_ask_conversation_success : String → AskConversation → List Effect
new_ask_conversation_success document_id answer =
    set_query_data (ask_conversation_key document_id) (conversation_data answer) ∷ []

abbrev pub cleared_conversation : String → AskConversation
cleared_conversation document_id = record {
  id = none;
  document_id = document_id;
  messages = [];
  updated_at = none;
}

unfoldable pub clear_ask_conversation_success : String → List Effect
clear_ask_conversation_success document_id =
    set_query_data (ask_conversation_key document_id)
      (conversation_data (cleared_conversation document_id))
    ∷ []

-- `useAcceptSuggestion`, whose answer has the id of its document.
unfoldable pub accept_suggestion_success : String → List (List String)
accept_suggestion_success document_id =
    ("ai" ∷ "suggestions" ∷ [])
    ∷ ("documents" ∷ [])
    ∷ document_key document_id
    ∷ tags_key
    ∷ folders_key
    ∷ []

-- `useRejectSuggestion`
unfoldable pub reject_suggestion_success : List (List String)
reject_suggestion_success = ("ai" ∷ "suggestions" ∷ []) ∷ []

unfoldable pub accept_suggestion_request : String → Call
accept_suggestion_request id = ("/api/ai/suggestions/" & (id & "/accept"), post_options no_body)

unfoldable pub reject_suggestion_request : String → Call
reject_suggestion_request id = ("/api/ai/suggestions/" & (id & "/reject"), post_options no_body)
