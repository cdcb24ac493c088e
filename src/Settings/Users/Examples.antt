-- ===== src/Settings/Users/Examples.antt =====
-- Ann manages the account of Bob.
use folium.Base.{◌≡◌, refl, false, some, none, true, List, [], ◌∷◌, String, All}
use folium.Base.Text.{text_length, trim, trim_start, trim_end, is_space}
use folium.Hooks.Settings.{user_request}
use folium.Types.{UserAdmin}
use folium.Settings.Users.{
  Event, mounted, ok, failed, status_pressed, password_pressed, ai_saved, new_typed, confirm_typed,
  pressed, answered, closed, set_user_password, update_user, active, Change, mutation_of,
}
use folium.Settings.Users.Steps.{run, react, settle, finish}
use folium.Settings.Users.Laws.{Allowed, Single, run-Allowed, run-Single, password_sent}

abbrev account : String → UserAdmin
account id = record {
  id = id;
  username = id;
  display_name = id;
  is_admin = false;
  is_active = some true;
  storage_quota_bytes = none;
  ai_monthly_request_quota = none;
}

-- Ann tries her own account, too, closes the dialog while a request is under way, and opens it again.
abbrev morning : List Event
morning =
    status_pressed (account "ann")
    ∷ pressed
    ∷ status_pressed (account "bob")
    ∷ pressed
    ∷ closed
    ∷ password_pressed (account "bob")
    ∷ new_typed "long enough"
    ∷ confirm_typed "long enough"
    ∷ pressed
    ∷ answered 0 (failed none)
    ∷ pressed
    ∷ answered 0 (ok none)
    ∷ ai_saved (account "bob") "100"
    ∷ []

run-Allowed_example : All (Allowed "ann") (run "https://folium" true (some "ann") morning mounted).1
run-Allowed_example = run-Allowed "https://folium" true "ann" morning

run-Single_example :
    Single
      ((run "https://folium" true none morning mounted).0).pending
      ((run "https://folium" true none morning mounted).0).busy
run-Single_example = run-Single "https://folium" true none morning

password_sent_example :
    (run "https://folium" true
      (some "ann")
      (password_pressed (account "bob")
        ∷ new_typed "long enough"
        ∷ confirm_typed "long enough"
        ∷ pressed
        ∷ [])
      mounted).1
    ≡ set_user_password "bob" "long enough" ∷ []
unfolding text_length
password_sent_example =
    password_sent "https://folium" true "ann" (account "bob") "long enough" "long enough" mounted
      refl refl

-- The status is sent once, since the dialog is busy; the password is not sent before that request has
-- failed.
tests :
    (run "https://folium" true (some "ann") morning mounted).1
    ≡ update_user "bob" (active false)
      ∷ set_user_password "bob" "long enough"
      ∷ update_user "bob" (Change.ai_monthly_request_quota "100")
      ∷ []
unfolding run react settle finish text_length trim trim_start trim_end is_space
tests = refl

paths :
    (user_request
      (mutation_of (λ c. "{}") (λ password. "{}") (set_user_password "bob" "long enough"))).0
    ≡ "/api/users/bob/password"
unfolding user_request mutation_of
paths = refl
