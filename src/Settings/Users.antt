-- ===== src/Settings/Users.antt =====
-- frontend/src/components/settings/UsersSettings.tsx: the accounts of a deployment, the dialog that
-- confirms what is done to one, and the editors of its quotas. A request stands for the call of a
-- hook; `mutation_of` is the hook with the body that `JSON.stringify` writes.
pub mod Steps
pub mod Laws
mod Examples
use folium.Base.{ℕ, String, Bool, false, Option, none, List, []}
use folium.Hooks.Settings.{
  UserMutation, approve_password_reset, reject_password_reset, update_admin_user, delete_admin_user,
  admin_set_password, create_invite, revoke_invite,
}
use folium.Types.{UserAdmin}

pub data ConfirmAction : Type 0 where
  remove deactivate activate make_admin remove_admin set_password :
      (user : UserAdmin) → ConfirmAction
  approve_reset reject_reset : (id username : String) → ConfirmAction

-- The members of the body of `useUpdateAdminUser`. A quota of requests is what `Number` makes of a
-- draft.
pub data Change : Type 0 where
  active admin : Bool → Change
  clear_storage_quota clear_ai_quota : Change
  storage_quota_bytes : ℕ → Change
  ai_monthly_request_quota : (draft : String) → Change

pub data Request : Type 0 where
  update_user : (id : String) (data_of : Change) → Request
  delete_user : (id : String) → Request
  set_user_password : (id password : String) → Request
  approve reject : (id : String) → Request
  invite : Request
  revoke : (id : String) → Request

-- The hook that a request calls.
module _ (change_body : Change → String) (password_body : String → String) where
  unfoldable pub mutation_of : Request → UserMutation
  mutation_of (update_user id c) = update_admin_user id (change_body c)
  mutation_of (delete_user id) = delete_admin_user id
  mutation_of (set_user_password id password) = admin_set_password id (password_body password)
  mutation_of (approve id) = approve_password_reset id
  mutation_of (reject id) = reject_password_reset id
  mutation_of invite = create_invite "{}"
  mutation_of (revoke id) = revoke_invite id

-- `pending` holds the confirmed actions whose requests have not been answered.
pub record Page : Type 0 where
  pub last_invite : Option String
  pub copied_reset_link : Option String
  pub confirm : Option ConfirmAction
  pub busy : Bool
  pub new_password : String
  pub confirm_password : String
  pub password_error : Option String
  pub pending : List ConfirmAction

abbrev pub mounted : Page
mounted = record {
  last_invite = none;
  copied_reset_link = none;
  confirm = none;
  busy = false;
  new_password = "";
  confirm_password = "";
  password_error = none;
  pending = [];
}

-- What the server answers: the token of a link where it gives one, or the message of an `Error`.
pub data Answer : Type 0 where
  ok : (url_token : Option String) → Answer
  failed : (message : Option String) → Answer

pub data Event : Type 0 where
  -- a button of a row of accounts, of a request for a reset, or of the invitations
  role_pressed status_pressed password_pressed delete_pressed : UserAdmin → Event
  storage_saved : UserAdmin → Option ℕ → Event
  ai_saved : UserAdmin → (draft : String) → Event
  approve_pressed reject_pressed : (id username : String) → Event
  create_pressed : Event
  invite_answered : (url_token : Option String) → Event
  revoke_pressed : (id : String) → Event
  -- the dialog
  new_typed confirm_typed : String → Event
  cancelled closed pressed : Event
  -- the answer to a request that is pending
  answered : (index : ℕ) → Answer → Event
