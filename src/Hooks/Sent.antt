-- ===== src/Hooks/Sent.antt =====
-- The requests of the hooks that change something, on their way to the server: folders, documents,
-- tags, suggestions, accounts, users, AI providers, jobs, logs and backups.
use folium.Base.{
  ◌≡◌, refl, ◌∙◌, String, Bool, true, false, Option, none, some, [], get_or, is_filled,
  if◌then◌else◌, ◌&&◌,
}
use folium.Base.Sets.{has}
use folium.Query.{get}
use folium.Client.{
  Options, no_body, json_body, Request, request_of, is_mutating, post_options, patch_options,
  delete_options, upload_options,
}
use folium.Client.Laws.{content_of, request_headers}
use folium.Hooks.Folders.{
  create_folder, update_folder, delete_folder, trash_folder, restore_folder, purge_folder,
  folder_request, create_tag, update_tag, delete_tag, merge_tags, tag_request, empty_trash_request,
}
use folium.Hooks.Mutations.{
  Mutation, of_document, of_folder, of_tag, of_trash, acceptance, rejection, job_end, of_account,
  of_user, of_entity, of_ai, of_backup, of_bootstrap, of_logs, of_statistics, call_of, is_upload,
}
use folium.Hooks.Settings.{
  account_request, user_request, entity_request, ai_request, backup_request, bootstrap_request,
  cancel_job_request, clear_application_logs_request, reset_library_statistics_request,
  create_api_token, revoke_api_token, revoke_session, sign_out_other_sessions,
  approve_password_reset, reject_password_reset, update_admin_user, delete_admin_user,
  admin_set_password, create_invite, revoke_invite, create_document_type, create_correspondent,
  create_ai_provider, update_ai_provider, delete_ai_provider, test_ai_provider, update_ai_policy,
  update_ai_assignment, update_backup_settings, create_backup, verify_backup, delete_backup,
  restore_backup, bootstrap_setup, bootstrap_inspect, bootstrap_restore,
}
use folium.Hooks.Documents.{
  update_document_metadata, move_document, trash_document, restore_document, delete_document,
  bulk_action, process_inbox_documents, remove_from_queue, retry_preflight, retry_ocr,
  reprocess_embeddings, reprocess_suggestions, upload_document, document_request,
  accept_suggestion_request, reject_suggestion_request,
}

-- The request as it is sent.
abbrev pub sent : (String → String) → Option String → Mutation → Request
sent upper csrf m = request_of upper csrf (call_of m).0 (call_of m).1

-- `toUpperCase` on the methods that the hooks use.
pub record KeepsCapitals (upper : String → String) : Type 0 where
  pub post : upper "POST" ≡ "POST"
  pub patch : upper "PATCH" ≡ "PATCH"
  pub delete : upper "DELETE" ≡ "DELETE"

-- Options without headers of their own, whose method changes something.
record IsWrite (upper : String → String) (is_form : Bool) (o : Options) : Type 0 where
  headers : o.headers ≡ []
  mutating : is_mutating (upper (get_or o.method "GET")) ≡ true
  content : content_of o.body (o.json && true) ≡ (if is_form then none else some "application/json")

module _ (upper : String → String) (capitals : KeepsCapitals upper) where
  post_body : (s : String) → IsWrite upper false (post_options (json_body s))
  unfolding has
  post_body s = record { headers = refl; mutating = rw capitals.post refl; content = refl }

  post_bare : IsWrite upper false (post_options no_body)
  unfolding has
  post_bare = record { headers = refl; mutating = rw capitals.post refl; content = refl }

  patch_body : (s : String) → IsWrite upper false (patch_options (json_body s))
  unfolding has
  patch_body s = record { headers = refl; mutating = rw capitals.patch refl; content = refl }

  delete_body : (s : String) → IsWrite upper false (delete_options (json_body s))
  unfolding has
  delete_body s = record { headers = refl; mutating = rw capitals.delete refl; content = refl }

  delete_bare : IsWrite upper false (delete_options no_body)
  unfolding has
  delete_bare = record { headers = refl; mutating = rw capitals.delete refl; content = refl }

  upload_form : IsWrite upper true upload_options
  unfolding has
  upload_form = record { headers = refl; mutating = rw capitals.post refl; content = refl }

  writes : (m : Mutation) → IsWrite upper (is_upload m) (call_of m).1
  unfolding document_request folder_request tag_request empty_trash_request
      accept_suggestion_request reject_suggestion_request account_request user_request
      entity_request ai_request backup_request bootstrap_request cancel_job_request
      clear_application_logs_request reset_library_statistics_request
  writes (of_document (update_document_metadata id body)) = patch_body body
  writes (of_document (move_document id body)) = post_body body
  writes (of_document (trash_document id)) = post_bare
  writes (of_document (restore_document id)) = post_bare
  writes (of_document (delete_document id)) = delete_bare
  writes (of_document (bulk_action body)) = post_body body
  writes (of_document (process_inbox_documents body)) = post_body body
  writes (of_document (remove_from_queue body)) = post_body body
  writes (of_document (retry_preflight id)) = post_bare
  writes (of_document (retry_ocr id)) = post_bare
  writes (of_document (reprocess_embeddings id)) = post_bare
  writes (of_document (reprocess_suggestions id)) = post_bare
  writes (of_document upload_document) = upload_form
  writes (of_folder (create_folder body)) = post_body body
  writes (of_folder (update_folder id body)) = patch_body body
  writes (of_folder (delete_folder id body)) = delete_body body
  writes (of_folder (trash_folder id)) = post_bare
  writes (of_folder (restore_folder id)) = post_bare
  writes (of_folder (purge_folder id)) = post_bare
  writes (of_tag (create_tag body)) = post_body body
  writes (of_tag (update_tag id body)) = patch_body body
  writes (of_tag (delete_tag id)) = delete_bare
  writes (of_tag (merge_tags body)) = post_body body
  writes of_trash = post_bare
  writes (acceptance id document_id) = post_bare
  writes (rejection id) = post_bare
  writes (job_end id) = post_bare
  writes of_logs = delete_bare
  writes of_statistics = post_bare
  writes (of_account (create_api_token body)) = post_body body
  writes (of_account (revoke_api_token id)) = delete_bare
  writes (of_account (revoke_session id)) = delete_bare
  writes (of_account sign_out_other_sessions) = post_bare
  writes (of_user (approve_password_reset id)) = post_bare
  writes (of_user (reject_password_reset id)) = post_bare
  writes (of_user (update_admin_user id body)) = patch_body body
  writes (of_user (delete_admin_user id)) = delete_bare
  writes (of_user (admin_set_password id body)) = post_body body
  writes (of_user (create_invite body)) = post_body body
  writes (of_user (revoke_invite id)) = delete_bare
  writes (of_entity (create_document_type body)) = post_body body
  writes (of_entity (create_correspondent body)) = post_body body
  writes (of_ai (create_ai_provider body)) = post_body body
  writes (of_ai (update_ai_provider id body)) = patch_body body
  writes (of_ai (delete_ai_provider id)) = delete_bare
  writes (of_ai (test_ai_provider id)) = post_bare
  writes (of_ai (update_ai_policy body)) = patch_body body
  writes (of_ai (update_ai_assignment body)) = patch_body body
  writes (of_backup (update_backup_settings body)) = patch_body body
  writes (of_backup create_backup) = post_bare
  writes (of_backup (verify_backup id)) = post_bare
  writes (of_backup (delete_backup id body)) = delete_body body
  writes (of_backup (restore_backup id body)) = post_body body
  writes (of_bootstrap bootstrap_setup) = post_bare
  writes (of_bootstrap (bootstrap_inspect body)) = post_body body
  writes (of_bootstrap (bootstrap_restore body)) = post_body body

  as_sent :
      (is_form : Bool) (token path : String) (o : Options)
      → IsWrite upper is_form o
      → is_filled token ≡ true
      → (get "x-csrf-token" (request_of upper (some token) path o).headers ≡ some token)
        × (get "content-type" (request_of upper (some token) path o).headers
            ≡ (if is_form then none else some "application/json"))
  unfolding request_of
  as_sent is_form token path o w filled =
      let both = request_headers upper (some token) path o.method o.body o.json in
      rw w.headers (both.0 ∙ rw (w.mutating, filled) refl, both.1 ∙ rw w.mutating w.content)

  -- Where `toUpperCase` keeps capitals and the token is not empty, every request of these hooks
  -- carries the token, and says that its body is JSON, unless it is an upload, which says nothing of
  -- its body.
  pub sent_lem :
      (token : String) (m : Mutation)
      → is_filled token ≡ true
      → (get "x-csrf-token" (sent upper (some token) m).headers ≡ some token)
        × (get "content-type" (sent upper (some token) m).headers
            ≡ (if is_upload m then none else some "application/json"))
  sent_lem token m filled =
      as_sent (is_upload m) token (call_of m).0 (call_of m).1 (writes m) filled
