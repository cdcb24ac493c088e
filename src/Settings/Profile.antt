-- ===== src/Settings/Profile.antt =====
-- frontend/src/components/settings/ProfileSettings.tsx: the own profile, the change of its password,
-- its picture, and its API tokens. A request stands for the call of a hook.
pub mod Laws
mod Examples
use folium.Base.{
  ℕ, String, Bool, true, false, not, ◌&&◌, ◌||◌, ◌==◌, Option, none, some, List, [], ◌∷◌, ◌++◌,
  if◌then◌else◌, ltb, is_filled, get_or, any, remove_at, get_elem?,
}
use folium.Base.Text.{text_length, trim}

pub data Request : Type 0 where
  update_profile : (username display_name : String) → Request
  change_password : (current_password new_password : String) → Request
  upload_avatar delete_avatar sign_out_others : Request
  create_api_token : (name : String) → Request
  revoke_api_token revoke_session : (id : String) → Request

-- `pending` holds the requests that have not been answered; `navigated` is set when the page leaves
-- for the sign-in page.
pub record Page : Type 0 where
  pub has_avatar : Bool
  pub editing : Bool
  pub username : String
  pub display_name : String
  pub current_password : String
  pub new_password : String
  pub confirm_password : String
  pub profile_msg : Option String
  pub password_msg : Option String
  pub avatar_bust : ℕ
  pub token_name : String
  pub new_token_secret : Option String
  pub token_msg : Option String
  pub password_open : Bool
  pub sessions_open : Bool
  pub tokens_open : Bool
  pub navigated : Bool
  pub pending : List Request

abbrev pub mounted : ℕ → Page
mounted now = record {
  has_avatar = false;
  editing = false;
  username = "";
  display_name = "";
  current_password = "";
  new_password = "";
  confirm_password = "";
  profile_msg = none;
  password_msg = none;
  avatar_bust = now;
  token_name = "";
  new_token_secret = none;
  token_msg = none;
  password_open = false;
  sessions_open = false;
  tokens_open = false;
  navigated = false;
  pending = [];
}

-- What the server answers: the secret of a token where one was made, or the message of an `Error`.
pub data Answer : Type 0 where
  ok : (now : ℕ) (token : String) → Answer
  failed : (message : Option String) → Answer

pub data Event : Type 0 where
  session_loaded : (username display_name : String) (has_avatar : Bool) → Event
  edit_pressed save_pressed avatar_selected remove_pressed : Event
  username_typed display_name_typed : String → Event
  password_opened password_closed password_cancelled change_pressed : Event
  current_typed new_typed confirm_typed : String → Event
  sessions_opened sessions_closed sign_out_pressed : Event
  revoke_session_pressed : (id : String) → Event
  tokens_opened tokens_closed create_pressed done_pressed : Event
  token_name_typed : String → Event
  revoke_pressed : (id : String) → Event
  answered : (index : ℕ) → Answer → Event

-- `isPending` of a hook whose button is disabled meanwhile.
abbrev is_update : Request → Bool
is_update (update_profile u d) = true
is_update r = false

abbrev pub is_change : Request → Bool
is_change (change_password c n) = true
is_change r = false

abbrev is_removal : Request → Bool
is_removal delete_avatar = true
is_removal r = false

abbrev is_creation : Request → Bool
is_creation (create_api_token n) = true
is_creation r = false

abbrev is_sign_out : Request → Bool
is_sign_out sign_out_others = true
is_sign_out r = false

abbrev is_revocation : Request → Bool
is_revocation (revoke_api_token id) = true
is_revocation r = false

abbrev is_session_revocation : Request → Bool
is_session_revocation (revoke_session id) = true
is_session_revocation r = false

abbrev send : Request → Page → Page × List Request
send r p = (record p { pending = p.pending ++ r ∷ [] }, r ∷ [])

-- `savePassword` up to its request.
abbrev save_password : Page → Page × List Request
save_password p =
    if not (p.new_password == p.confirm_password)
    then (record p { password_msg = some "New passwords do not match" }, [])
    else if ltb (text_length p.new_password) 8
    then (record p { password_msg = some "New password must be at least 8 characters" }, [])
    else send (change_password p.current_password p.new_password) (record p { password_msg = none })

-- What disables the button that changes the password.
abbrev change_disabled : Page → Bool
change_disabled p =
    (any is_change p.pending || not (is_filled p.current_password))
    || (ltb (text_length p.new_password) 8 || not (is_filled p.confirm_password))

-- `saveProfile`, `savePassword`, `onAvatarSelected`, `removeAvatar` and the making of a token, behind
-- their requests.
unfoldable pub finish : Request → Answer → Page → Page
finish (update_profile u d) (ok now token) p = record p {
  profile_msg = some "Profile updated";
  editing = false;
}
finish (update_profile u d) (failed message) p = record p {
  profile_msg = some (get_or message "Update failed");
}
finish (change_password c n) (ok now token) p = record p { navigated = true }
finish (change_password c n) (failed message) p = record p {
  password_msg = some (get_or message "Password change failed");
}
finish upload_avatar (ok now token) p = record p {
  avatar_bust = now;
  profile_msg = some "Profile picture updated";
}
finish upload_avatar (failed message) p = record p {
  profile_msg = some (get_or message "Avatar upload failed");
}
finish delete_avatar (ok now token) p = record p {
  avatar_bust = now;
  profile_msg = some "Profile picture removed";
}
finish delete_avatar (failed message) p = record p {
  profile_msg = some (get_or message "Could not remove avatar");
}
finish (create_api_token name) (ok now token) p = record p {
  new_token_secret = some token;
  token_name = "";
}
finish (create_api_token name) (failed message) p = record p {
  token_msg = some (get_or message "Could not create token");
}
finish r answer p = p

unfoldable pub settle : Option Request → ℕ → Answer → Page → Page
settle none index answer p = p
settle (some r) index answer p = finish r answer (record p { pending = remove_at index p.pending })

unfoldable pub react : Event → Page → Page × List Request
react (session_loaded u d has) p =
    (record p { username = u; display_name = d; has_avatar = has }, [])
react edit_pressed p = (record p { editing = true }, [])
react (username_typed s) p = if p.editing then (record p { username = s }, []) else (p, [])
react (display_name_typed s) p = if p.editing then (record p { display_name = s }, []) else (p, [])
react save_pressed p =
    if p.editing && not (any is_update p.pending)
    then send (update_profile (trim p.username) (trim p.display_name))
        (record p { profile_msg = none })
    else (p, [])
react avatar_selected p = send upload_avatar (record p { profile_msg = none })
react remove_pressed p =
    if p.has_avatar && not (any is_removal p.pending)
    then send delete_avatar (record p { profile_msg = none })
    else (p, [])
react password_opened p = (record p { password_open = true }, [])
react password_closed p = (
  record p {
    password_open = false;
    current_password = "";
    new_password = "";
    confirm_password = "";
    password_msg = none;
  },
  [],
)
react password_cancelled p = (record p { password_open = false }, [])
react (current_typed s) p = (record p { current_password = s }, [])
react (new_typed s) p = (record p { new_password = s }, [])
react (confirm_typed s) p = (record p { confirm_password = s }, [])
react change_pressed p =
    if p.password_open && not (change_disabled p) then save_password p else (p, [])
react sessions_opened p = (record p { sessions_open = true }, [])
react sessions_closed p = (record p { sessions_open = false }, [])
react sign_out_pressed p = if any is_sign_out p.pending then (p, []) else send sign_out_others p
react (revoke_session_pressed id) p =
    if any is_session_revocation p.pending then (p, []) else send (revoke_session id) p
react tokens_opened p = (record p { tokens_open = true }, [])
react tokens_closed p = (record p { tokens_open = false }, [])
react (token_name_typed s) p = (record p { token_name = s }, [])
react create_pressed p =
    if any is_creation p.pending || not (is_filled (trim p.token_name))
    then (p, [])
    else send (create_api_token (trim p.token_name)) (record p { token_msg = none })
react done_pressed p = (record p { new_token_secret = none }, [])
react (revoke_pressed id) p =
    if any is_revocation p.pending then (p, []) else send (revoke_api_token id) p
react (answered index answer) p = (settle (get_elem? p.pending index) index answer p, [])

-- The state behind a sequence of events, and the requests that were sent on the way.
unfoldable pub run : List Event → Page → Page × List Request
run [] p = (p, [])
run (e ∷ es) p = let (p1, sent) = react e p in let (p2, rest) = run es p1 in (p2, sent ++ rest)
