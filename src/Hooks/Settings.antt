-- ===== src/Hooks/Settings.antt =====
-- The hooks of frontend/src/lib/api/hooks.ts for an account, users, AI providers, jobs, logs and
-- backups: the requests that change something, and the keys that they invalidate. A body is given
-- as `JSON.stringify` writes it.
use folium.Base.{String, List, [], ◌∷◌}
use folium.Base.Text.{◌&◌}
use folium.Client.{no_body, json_body, post_options, patch_options, delete_options}
use folium.Hooks.{library_overview_key, inbox_overview_key}
use folium.Hooks.Folders.{Call}

pub data AccountMutation : Type 0 where
  create_api_token : (body : String) → AccountMutation
  revoke_api_token revoke_session : (id : String) → AccountMutation
  sign_out_other_sessions : AccountMutation

abbrev pub api_tokens_key : List String
api_tokens_key = "auth" ∷ "api-tokens" ∷ []

unfoldable pub account_request : AccountMutation → Call
account_request (create_api_token body) = ("/api/auth/tokens", post_options (json_body body))
account_request (revoke_api_token id) = ("/api/auth/tokens/" & id, delete_options no_body)
account_request (revoke_session id) = ("/api/auth/me/sessions/" & id, delete_options no_body)
account_request sign_out_other_sessions =
    ("/api/auth/me/sessions/sign-out-others", post_options no_body)

unfoldable pub account_success : AccountMutation → List (List String)
account_success (create_api_token body) = api_tokens_key ∷ []
account_success (revoke_api_token id) = api_tokens_key ∷ []
account_success (revoke_session id) = ("auth" ∷ "sessions" ∷ []) ∷ []
account_success sign_out_other_sessions = ("auth" ∷ "sessions" ∷ []) ∷ []

pub data UserMutation : Type 0 where
  approve_password_reset reject_password_reset : (id : String) → UserMutation
  update_admin_user : (id body : String) → UserMutation
  delete_admin_user : (id : String) → UserMutation
  admin_set_password : (id body : String) → UserMutation
  create_invite : (body : String) → UserMutation
  revoke_invite : (id : String) → UserMutation

unfoldable pub user_request : UserMutation → Call
user_request (approve_password_reset id) =
    ("/api/users/password-resets/" & (id & "/approve"), post_options no_body)
user_request (reject_password_reset id) =
    ("/api/users/password-resets/" & (id & "/reject"), post_options no_body)
user_request (update_admin_user id body) = ("/api/users/" & id, patch_options (json_body body))
user_request (delete_admin_user id) = ("/api/users/" & id, delete_options no_body)
user_request (admin_set_password id body) =
    ("/api/users/" & (id & "/password"), post_options (json_body body))
user_request (create_invite body) = ("/api/users/invites", post_options (json_body body))
user_request (revoke_invite id) = ("/api/users/invites/" & id, delete_options no_body)

unfoldable pub user_success : UserMutation → List (List String)
user_success (approve_password_reset id) = ("password-resets" ∷ []) ∷ []
user_success (reject_password_reset id) = ("password-resets" ∷ []) ∷ []
user_success (update_admin_user id body) = ("users" ∷ []) ∷ []
user_success (delete_admin_user id) = ("users" ∷ []) ∷ []
user_success (admin_set_password id body) = []
user_success (create_invite body) = ("invites" ∷ []) ∷ []
user_success (revoke_invite id) = ("invites" ∷ []) ∷ []

pub data EntityMutation : Type 0 where
  create_document_type create_correspondent : (body : String) → EntityMutation

unfoldable pub entity_request : EntityMutation → Call
entity_request (create_document_type body) = ("/api/document-types", post_options (json_body body))
entity_request (create_correspondent body) = ("/api/correspondents", post_options (json_body body))

unfoldable pub entity_success : EntityMutation → List (List String)
entity_success (create_document_type body) = ("document-types" ∷ []) ∷ []
entity_success (create_correspondent body) = ("correspondents" ∷ []) ∷ []

pub data AiMutation : Type 0 where
  create_ai_provider : (body : String) → AiMutation
  update_ai_provider : (id body : String) → AiMutation
  delete_ai_provider test_ai_provider : (id : String) → AiMutation
  update_ai_policy update_ai_assignment : (body : String) → AiMutation

unfoldable pub ai_request : AiMutation → Call
ai_request (create_ai_provider body) = ("/api/ai/providers", post_options (json_body body))
ai_request (update_ai_provider id body) =
    ("/api/ai/providers/" & id, patch_options (json_body body))
ai_request (delete_ai_provider id) = ("/api/ai/providers/" & id, delete_options no_body)
ai_request (test_ai_provider id) = ("/api/ai/providers/" & (id & "/test"), post_options no_body)
ai_request (update_ai_policy body) = ("/api/ai/policy", patch_options (json_body body))
ai_request (update_ai_assignment body) = ("/api/ai/assignments", patch_options (json_body body))

unfoldable pub ai_success : AiMutation → List (List String)
ai_success (create_ai_provider body) = ("ai" ∷ "providers" ∷ []) ∷ []
ai_success (update_ai_provider id body) = ("ai" ∷ "providers" ∷ []) ∷ []
ai_success (delete_ai_provider id) = ("ai" ∷ "providers" ∷ []) ∷ []
ai_success (test_ai_provider id) = []
ai_success (update_ai_policy body) = ("ai" ∷ "policy" ∷ []) ∷ []
ai_success (update_ai_assignment body) = ("ai" ∷ "assignments" ∷ []) ∷ []

pub data BackupMutation : Type 0 where
  update_backup_settings : (body : String) → BackupMutation
  create_backup : BackupMutation
  verify_backup : (id : String) → BackupMutation
  delete_backup restore_backup : (id body : String) → BackupMutation

abbrev pub backups_key : List String
backups_key = "backups" ∷ []

abbrev pub backup_settings_key : List String
backup_settings_key = "backups" ∷ "settings" ∷ []

abbrev pub backup_restore_status_key : List String
backup_restore_status_key = "backups" ∷ "restore-status" ∷ []

unfoldable pub backup_request : BackupMutation → Call
backup_request (update_backup_settings body) =
    ("/api/backups/settings", patch_options (json_body body))
backup_request create_backup = ("/api/backups", post_options no_body)
backup_request (verify_backup id) = ("/api/backups/" & (id & "/verify"), post_options no_body)
backup_request (delete_backup id body) = ("/api/backups/" & id, delete_options (json_body body))
backup_request (restore_backup id body) =
    ("/api/backups/" & (id & "/restore"), post_options (json_body body))

unfoldable pub backup_success : BackupMutation → List (List String)
backup_success (update_backup_settings body) = backup_settings_key ∷ []
backup_success create_backup = backups_key ∷ backup_settings_key ∷ []
backup_success (verify_backup id) = backups_key ∷ []
backup_success (delete_backup id body) = backups_key ∷ []
backup_success (restore_backup id body) = backup_restore_status_key ∷ backups_key ∷ []

pub data BootstrapMutation : Type 0 where
  bootstrap_setup : BootstrapMutation
  bootstrap_inspect bootstrap_restore : (body : String) → BootstrapMutation

unfoldable pub bootstrap_request : BootstrapMutation → Call
bootstrap_request bootstrap_setup = ("/api/bootstrap/setup", post_options no_body)
bootstrap_request (bootstrap_inspect body) =
    ("/api/bootstrap/backups/inspect", post_options (json_body body))
bootstrap_request (bootstrap_restore body) =
    ("/api/bootstrap/restore", post_options (json_body body))

unfoldable pub bootstrap_success : BootstrapMutation → List (List String)
bootstrap_success bootstrap_setup = ("bootstrap" ∷ "status" ∷ []) ∷ []
bootstrap_success (bootstrap_inspect body) = []
bootstrap_success (bootstrap_restore body) = ("bootstrap" ∷ "status" ∷ []) ∷ []

-- `useCancelJob`, `useClearApplicationLogs` and `useResetLibraryStatistics`
unfoldable pub cancel_job_request : String → Call
cancel_job_request id = ("/api/jobs/" & (id & "/cancel"), post_options no_body)

unfoldable pub cancel_job_success : List (List String)
cancel_job_success = ("jobs" ∷ []) ∷ []

unfoldable pub clear_application_logs_request : Call
clear_application_logs_request = ("/api/logs", delete_options no_body)

unfoldable pub clear_application_logs_success : List (List String)
clear_application_logs_success = ("logs" ∷ []) ∷ []

unfoldable pub reset_library_statistics_request : Call
reset_library_statistics_request = ("/api/library/reset-statistics", post_options no_body)

unfoldable pub reset_library_statistics_success : List (List String)
reset_library_statistics_success = library_overview_key ∷ inbox_overview_key ∷ []
