-- ===== src/Settings/Profile/Examples.antt =====
-- A password that is changed in two attempts, and a token whose dialog is opened again.
use folium.Base.{◌≡◌, refl, ◌≤◌, some, none, List, [], ◌∷◌, All}
use folium.Base.Text.{text_length, trim, trim_start, trim_end, is_space}
use folium.Settings.Profile.{
  Event, mounted, ok, failed, password_opened, current_typed, new_typed, confirm_typed,
  change_pressed, answered, tokens_opened, tokens_closed, token_name_typed, create_pressed,
  password_cancelled, change_password, create_api_token, run, react, settle, finish,
}
use folium.Settings.Profile.Laws.{
  IsValid, Holds, changes, run-IsValid, run-changes, cancel_keeps, secret_kept,
}

abbrev session : List Event
session =
    password_opened
    ∷ current_typed "old secret"
    ∷ new_typed "new secret"
    ∷ confirm_typed "new secrets"
    ∷ change_pressed
    ∷ confirm_typed "new secret"
    ∷ change_pressed
    ∷ change_pressed
    ∷ answered 0 (failed none)
    ∷ password_cancelled
    ∷ tokens_opened
    ∷ token_name_typed " cursor "
    ∷ create_pressed
    ∷ answered 0 (ok 5 "token")
    ∷ []

run-IsValid_example : All IsValid (run session (mounted 0)).1
run-IsValid_example = run-IsValid 0 session

run-changes_example : changes ((run session (mounted 0)).0).pending ≤ 1
run-changes_example = run-changes 0 session

abbrev back : List Event
back = Event.edit_pressed ∷ tokens_opened ∷ tokens_closed ∷ password_opened ∷ []

cancel_keeps_example :
    Holds "old secret" "new secret" "new secret"
      (some "Password change failed")
      (run (password_cancelled ∷ back) (run session (mounted 0)).0).0
    × Holds "" "" "" none (run (Event.password_closed ∷ back) (run session (mounted 0)).0).0
unfolding run react settle finish text_length trim trim_start trim_end is_space
cancel_keeps_example =
    cancel_keeps back (run session (mounted 0)).0 (refl, (refl, (refl, (refl, tt))))

secret_kept_example :
    ((run (tokens_closed ∷ tokens_opened ∷ []) (run session (mounted 0)).0).0).new_token_secret
    ≡ ((run session (mounted 0)).0).new_token_secret
secret_kept_example =
    secret_kept (tokens_closed ∷ tokens_opened ∷ []) (run session (mounted 0)).0 (refl, (refl, tt))

tests :
    ((run session (mounted 0)).1
      ≡ change_password "old secret" "new secret" ∷ create_api_token "cursor" ∷ [])
    × (((run session (mounted 0)).0).new_token_secret ≡ some "token")
    × (((run session (mounted 0)).0).current_password ≡ "old secret")
unfolding run react settle finish text_length trim trim_start trim_end is_space
tests = (refl, refl, refl)
