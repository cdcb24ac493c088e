-- ===== src/Hooks/Mutations.antt =====
-- The hooks of frontend/src/lib/api/hooks.ts that change something, as one type: the request of each,
-- and what it does to the cache. `document_id` is that of the suggestion that an acceptance answers.
use folium.Base.{String, Bool, true, false, List, []}
use folium.Types.{Document}
use folium.Hooks.{Effect}
use folium.Hooks.Cache.{invalidate_each}
use folium.Hooks.Folders.{
  Call, FolderMutation, folder_request, folder_success, TagMutation, tag_request, tag_success,
  empty_trash_request, empty_trash_success,
}
use folium.Hooks.Documents.{
  DocumentMutation, upload_document, document_request, document_success, accept_suggestion_request,
  accept_suggestion_success, reject_suggestion_request, reject_suggestion_success,
}
use folium.Hooks.Settings.{
  AccountMutation, UserMutation, EntityMutation, AiMutation, BackupMutation, BootstrapMutation,
  account_request, user_request, entity_request, ai_request, backup_request, bootstrap_request,
  cancel_job_request, clear_application_logs_request, reset_library_statistics_request,
  account_success, user_success, entity_success, ai_success, backup_success, bootstrap_success,
  cancel_job_success, clear_application_logs_success, reset_library_statistics_success,
}

pub data Mutation : Type 0 where
  of_document : DocumentMutation → Mutation
  of_folder : FolderMutation → Mutation
  of_tag : TagMutation → Mutation
  of_trash : Mutation
  acceptance : (id document_id : String) → Mutation
  rejection job_end : (id : String) → Mutation
  of_account : AccountMutation → Mutation
  of_user : UserMutation → Mutation
  of_entity : EntityMutation → Mutation
  of_ai : AiMutation → Mutation
  of_backup : BackupMutation → Mutation
  of_bootstrap : BootstrapMutation → Mutation
  of_logs of_statistics : Mutation

abbrev pub call_of : Mutation → Call
call_of (of_document m) = document_request m
call_of (of_folder m) = folder_request m
call_of (of_tag m) = tag_request m
call_of of_trash = empty_trash_request
call_of (acceptance id document_id) = accept_suggestion_request id
call_of (rejection id) = reject_suggestion_request id
call_of (job_end id) = cancel_job_request id
call_of (of_account m) = account_request m
call_of (of_user m) = user_request m
call_of (of_entity m) = entity_request m
call_of (of_ai m) = ai_request m
call_of (of_backup m) = backup_request m
call_of (of_bootstrap m) = bootstrap_request m
call_of of_logs = clear_application_logs_request
call_of of_statistics = reset_library_statistics_request

abbrev pub is_upload : Mutation → Bool
is_upload (of_document upload_document) = true
is_upload m = false

-- The keys that a hook invalidates, where it does nothing else.
abbrev pub keys_of : Mutation → List (List String)
keys_of (of_document m) = []
keys_of (of_folder m) = folder_success m
keys_of (of_tag m) = tag_success m
keys_of of_trash = empty_trash_success
keys_of (acceptance id document_id) = accept_suggestion_success document_id
keys_of (rejection id) = reject_suggestion_success
keys_of (job_end id) = cancel_job_success
keys_of (of_account m) = account_success m
keys_of (of_user m) = user_success m
keys_of (of_entity m) = entity_success m
keys_of (of_ai m) = ai_success m
keys_of (of_backup m) = backup_success m
keys_of (of_bootstrap m) = bootstrap_success m
keys_of of_logs = clear_application_logs_success
keys_of of_statistics = reset_library_statistics_success

-- `onSuccess`; `doc` is the answer of a document hook.
abbrev pub effects_of : Mutation → Document → List Effect
effects_of (of_document m) doc = document_success m doc
effects_of m doc = invalidate_each (keys_of m)
