-- ===== src/Settings/Profile/Laws.antt =====
-- What the page of the own profile sends, and what its dialogs keep when they are closed.
use folium.Base.{
  ℕ, zero, suc, ◌+◌, ◌≡◌, refl, ◌≤◌, ◌∙◌, String, Bool, true, false, Option, none, some, List, [],
  ◌∷◌, ◌++◌, if◌then◌else◌, is_filled, All, All-append, arith, any, get_elem?, remove_at,
}
use folium.Base.Text.{text_length}
use folium.Settings.Profile.{
  Request, change_password, create_api_token, Page, mounted, Event, Answer, is_change,
  current_typed, new_typed, confirm_typed, change_pressed, password_closed, password_cancelled,
  done_pressed, answered, react, run, settle, finish,
}

-- A password is changed on the strength of the current one, to one of eight characters at least, and a
-- token has a name.
abbrev pub IsValid : Request → Type 0
IsValid (change_password current new) = (is_filled current ≡ true) × (8 ≤ text_length new)
IsValid (create_api_token name) = is_filled name ≡ true
IsValid r = Unit

react-IsValid : (e : Event) (p : Page) → All IsValid (react e p).1
unfolding react
react-IsValid e p = ground arith

run_from-IsValid : (es : List Event) (p : Page) → All IsValid (run es p).1
unfolding run
run_from-IsValid [] p = tt
run_from-IsValid (e ∷ es) p =
    All-append IsValid (react e p).1 (run es (react e p).0).1 (react-IsValid e p)
      (run_from-IsValid es (react e p).0)

-- Whatever happens on the page, each change of the password that it asks for gives the current password
-- and one of eight characters at least, and each token that it asks for has a name.
pub run-IsValid : (now : ℕ) (es : List Event) → All IsValid (run es (mounted now)).1
run-IsValid now es = run_from-IsValid es (mounted now)

-- How many changes of the password have not been answered.
abbrev pub changes : List Request → ℕ
changes [] = 0
changes (r ∷ rs) = (if is_change r then 1 else 0) + changes rs

changes-append :
    (rs : List Request) (r : Request) → changes (rs ++ r ∷ []) ≡ changes rs + changes (r ∷ [])
changes-append [] r = omega arith
changes-append (x ∷ rs) r = omega (arith, changes-append rs r)

changes-remove_at : (i : ℕ) (rs : List Request) → changes (remove_at i rs) ≤ changes rs
changes-remove_at i [] = ground arith
changes-remove_at zero (x ∷ rs) = omega arith
changes-remove_at (suc i) (x ∷ rs) = omega (arith, changes-remove_at i rs)

no_change : (rs : List Request) → any is_change rs ≡ false → changes rs ≡ 0
no_change [] h = refl
no_change (x ∷ rs) h = ground (arith, no_change rs)

finish-pending :
    (r : Request) (answer : Answer) (p : Page) → (finish r answer p).pending ≡ p.pending
unfolding finish
finish-pending r answer p = ground arith

changes-settle :
    (o : Option Request) (i : ℕ) (answer : Answer) (p : Page)
    → changes (settle o i answer p).pending ≤ changes p.pending
unfolding settle
changes-settle none i answer p = omega arith
changes-settle (some r) i answer p =
    rw (finish-pending r answer (record p { pending = remove_at i p.pending }))
      (changes-remove_at i p.pending)

changes-react : (e : Event) (p : Page) → changes p.pending ≤ 1 → changes ((react e p).0).pending ≤ 1
unfolding react
changes-react (answered i answer) p h =
    omega (arith, h, changes-settle (get_elem? p.pending i) i answer p)
changes-react e p h = grind (arith, changes-append, no_change p.pending)

run_changes :
    (es : List Event) (p : Page) → changes p.pending ≤ 1 → changes ((run es p).0).pending ≤ 1
unfolding run
run_changes [] p h = h
run_changes (e ∷ es) p h = run_changes es (react e p).0 (changes-react e p h)

-- Whatever happens on the page, one change of the password is under way at most.
pub run-changes : (now : ℕ) (es : List Event) → changes ((run es (mounted now)).0).pending ≤ 1
run-changes now es = run_changes es (mounted now) (omega arith)

-- What changes the texts of the dialog for the password, or its message: typing in it, closing it, pressing
-- its button, and an answer.
abbrev pub is_touching : Event → Bool
is_touching (current_typed s) = true
is_touching (new_typed s) = true
is_touching (confirm_typed s) = true
is_touching password_closed = true
is_touching change_pressed = true
is_touching (answered i answer) = true
is_touching e = false

-- The dialog has these texts and this message.
abbrev pub Holds : (current new confirm : String) → Option String → Page → Type 0
Holds current new confirm message p =
    (p.current_password ≡ current)
    × (p.new_password ≡ new)
    × (p.confirm_password ≡ confirm)
    × (p.password_msg ≡ message)

react-Holds :
    (current new confirm : String) (message : Option String) (e : Event) (p : Page)
    → is_touching e ≡ false
    → Holds current new confirm message p
    → Holds current new confirm message (react e p).0
unfolding react
react-Holds current new confirm message e p h held = ground (arith, h, held)

run-Holds :
    (current new confirm : String) (message : Option String) (es : List Event) (p : Page)
    → All (λ e. is_touching e ≡ false) es
    → Holds current new confirm message p
    → Holds current new confirm message (run es p).0
unfolding run
run-Holds current new confirm message [] p h held = held
run-Holds current new confirm message (e ∷ es) p h held =
    run-Holds current new confirm message es (react e p).0 h.1
      (react-Holds current new confirm message e p h.0 held)

-- The button that cancels the change of the password keeps all that was typed, the current password
-- and the message included, and closing the dialog otherwise clears it: whatever happens then, the opening of
-- the dialog included, it is there, or gone, until something is typed in the dialog, the dialog is closed
-- otherwise, its button is pressed or a request is answered.
pub cancel_keeps :
    (es : List Event) (p : Page)
    → All (λ e. is_touching e ≡ false) es
    → Holds p.current_password p.new_password p.confirm_password p.password_msg
        (run (password_cancelled ∷ es) p).0
      × Holds "" "" "" none (run (password_closed ∷ es) p).0
unfolding run react
cancel_keeps es p h = (
  run-Holds p.current_password p.new_password p.confirm_password p.password_msg es
      (record p { password_open = false }) h (refl, refl, refl, refl),
  run-Holds "" "" "" none es
      (record p {
        password_open = false;
        current_password = "";
        new_password = "";
        confirm_password = "";
        password_msg = none;
      })
      h (refl, refl, refl, refl),
)

-- What removes the secret of a token from the page, or replaces it.
abbrev pub is_forgetting : Event → Bool
is_forgetting done_pressed = true
is_forgetting (answered i answer) = true
is_forgetting e = false

react_secret :
    (e : Event) (p : Page)
    → is_forgetting e ≡ false
    → ((react e p).0).new_token_secret ≡ p.new_token_secret
unfolding react
react_secret e p h = ground arith

-- The secret of a token stays on the page, however often its dialog is closed and opened, until its
-- button is pressed or another request is answered.
pub secret_kept :
    (es : List Event) (p : Page)
    → All (λ e. is_forgetting e ≡ false) es
    → ((run es p).0).new_token_secret ≡ p.new_token_secret
unfolding run
secret_kept [] p h = refl
secret_kept (e ∷ es) p h = secret_kept es (react e p).0 h.1 ∙ react_secret e p h.0
