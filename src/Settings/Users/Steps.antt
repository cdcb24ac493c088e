-- ===== src/Settings/Users/Steps.antt =====
-- What `UsersSettings` does at an event, `runConfirm` before and behind its request included, and the
-- requests that it sends.
use folium.Base.{
  ℕ, String, Bool, true, false, not, ◌||◌, ◌==◌, Option, none, some, List, [], ◌∷◌, ◌++◌,
  if◌then◌else◌, ltb, is_filled, is_truthy, get_or, remove_at, get_elem?,
}
use folium.Base.Text.{◌&◌, text_length, trim}
use folium.Types.{UserAdmin}
use folium.Settings.Users.{
  ConfirmAction, remove, deactivate, activate, make_admin, remove_admin, set_password,
  approve_reset, reject_reset, active, admin, clear_storage_quota, clear_ai_quota,
  storage_quota_bytes, ai_monthly_request_quota, Request, update_user, delete_user,
  set_user_password, approve, reject, invite, revoke, Page, Answer, ok, failed, Event, role_pressed,
  status_pressed, password_pressed, delete_pressed, storage_saved, ai_saved, approve_pressed,
  reject_pressed, create_pressed, invite_answered, revoke_pressed, new_typed, confirm_typed,
  cancelled, closed, pressed, answered,
}

-- `user.id === selfId`, where the session may not be there yet.
abbrev pub is_self : Option String → UserAdmin → Bool
is_self none user = false
is_self (some self_id) user = user.id == self_id

abbrev ask : ConfirmAction → Page → Page
ask action p = record p { confirm = some action }

abbrev pub role_action : UserAdmin → ConfirmAction
role_action user = if user.is_admin then remove_admin user else make_admin user

-- A missing `is_active` counts as false.
abbrev pub status_action : UserAdmin → ConfirmAction
status_action user = if get_or user.is_active false then deactivate user else activate user

abbrev ask_password : UserAdmin → Page → Page
ask_password user p = record p {
  new_password = "";
  confirm_password = "";
  password_error = none;
  confirm = some (set_password user);
}

-- `onOpenChange` of the dialog and its button `Cancel`
abbrev close : Page → Page
close p = record p {
  confirm = none;
  new_password = "";
  confirm_password = "";
  password_error = none;
}

-- The request of an action other than `set_password`, and of that one where nothing is wrong.
abbrev pub request_of : ConfirmAction → (password : String) → Request
request_of (remove user) _ = delete_user user.id
request_of (deactivate user) _ = update_user user.id (active false)
request_of (activate user) _ = update_user user.id (active true)
request_of (make_admin user) _ = update_user user.id (admin true)
request_of (remove_admin user) _ = update_user user.id (admin false)
request_of (set_password user) password = set_user_password user.id password
request_of (approve_reset id username) _ = approve id
request_of (reject_reset id username) _ = reject id

abbrev password_fault : ConfirmAction → Page → Option String
password_fault (set_password user) p =
    if ltb (text_length p.new_password) 8
    then some "Password must be at least 8 characters"
    else if not (p.new_password == p.confirm_password)
    then some "Passwords do not match"
    else none
password_fault action p = none

-- `runConfirm` up to its request: an early return leaves `busy` as `finally` does.
abbrev run_confirm : ConfirmAction → Page → Page × List Request
run_confirm action p = elim (password_fault action p) [
  | some fault ↦ (record p { busy = false; password_error = some fault }, [])
  | none ↦ (
    record p { busy = true; password_error = none; pending = p.pending ++ action ∷ [] },
    request_of action p.new_password ∷ [],
  )
]

-- What disables the button that confirms.
abbrev is_disabled : ConfirmAction → Page → Bool
is_disabled (set_password user) p =
    p.busy || (ltb (text_length p.new_password) 8 || not (is_filled p.confirm_password))
is_disabled action p = p.busy

abbrev press : Page → Page × List Request
press p = elim p.confirm [
  | none ↦ (p, [])
  | some action ↦ if is_disabled action p then (p, []) else run_confirm action p
]

-- `window.location.origin`, and whether the browser has `navigator.clipboard`: without it the copying
-- of a link throws, after the link has been shown.
module _ (origin : String) (has_clipboard : Bool) (self_id : Option String) where
  abbrev reset_link : String → String
  reset_link token = origin & ("/reset-password?token=" & token)

  abbrev invite_link : String → String
  invite_link token = origin & ("/register?invite=" & token)

  -- `runConfirm` behind its request, with `finally`.
  unfoldable pub finish : ConfirmAction → Answer → Page → Page
  finish (set_password user) (ok token) p = record p {
    new_password = "";
    confirm_password = "";
    confirm = none;
    busy = false;
  }
  finish (set_password user) (failed message) p = record p {
    password_error = some (get_or message "Failed to set password");
    busy = false;
  }
  finish (approve_reset id username) (ok token) p =
      if is_truthy token
      then record p {
        copied_reset_link = some (reset_link (get_or token ""));
        confirm = if has_clipboard then none else p.confirm;
        busy = false;
      }
      else record p { confirm = none; busy = false }
  finish action (ok token) p = record p { confirm = none; busy = false }
  finish action (failed message) p = record p { busy = false }

  -- The answer to the pending request at a place, if there is one.
  unfoldable pub settle : Option ConfirmAction → ℕ → Answer → Page → Page
  settle none index answer p = p
  settle (some action) index answer p =
      finish action answer (record p { pending = remove_at index p.pending })

  -- The buttons of a row are there unless the account is one's own.
  abbrev on_row : UserAdmin → Page → Page × List Request → Page × List Request
  on_row user p moved = if is_self self_id user then (p, []) else moved

  unfoldable pub react : Event → Page → Page × List Request
  react (role_pressed user) p = on_row user p (ask (role_action user) p, [])
  react (status_pressed user) p = on_row user p (ask (status_action user) p, [])
  react (password_pressed user) p = on_row user p (ask_password user p, [])
  react (delete_pressed user) p = on_row user p (ask (remove user) p, [])
  react (storage_saved user none) p =
      on_row user p (p, update_user user.id clear_storage_quota ∷ [])
  react (storage_saved user (some bytes)) p =
      on_row user p (p, update_user user.id (storage_quota_bytes bytes) ∷ [])
  react (ai_saved user draft) p = on_row user p (
    p,
    update_user user.id
          (if is_filled (trim draft) then ai_monthly_request_quota draft else clear_ai_quota)
        ∷ [],
  )
  react (approve_pressed id username) p = (ask (approve_reset id username) p, [])
  react (reject_pressed id username) p = (ask (reject_reset id username) p, [])
  react create_pressed p = (p, invite ∷ [])
  react (invite_answered token) p =
      if is_truthy token
      then (record p { last_invite = some (invite_link (get_or token "")) }, [])
      else (p, [])
  react (revoke_pressed id) p = (p, revoke id ∷ [])
  react (new_typed s) p = (record p { new_password = s }, [])
  react (confirm_typed s) p = (record p { confirm_password = s }, [])
  react cancelled p = if p.busy then (p, []) else (close p, [])
  react closed p = (close p, [])
  react pressed p = press p
  react (answered index answer) p = (settle (get_elem? p.pending index) index answer p, [])

  -- The state behind a sequence of events, and the requests that were sent on the way.
  unfoldable pub run : List Event → Page → Page × List Request
  run [] p = (p, [])
  run (e ∷ es) p = let (p1, sent) = react e p in let (p2, rest) = run es p1 in (p2, sent ++ rest)
