-- ===== src/Settings/Users/Laws.antt =====
-- What `UsersSettings` never sends, and that one confirmed request is under way at most.
use folium.Base.{
  ℕ, ◌≡◌, refl, ◌≤◌, String, Bool, true, false, not, ◌&&◌, ◌==◌, eq_iff, Option, none, some, List,
  [], ◌∷◌, if◌then◌else◌, leb, get_or, All, get_elem?, remove_at, All-append, arith,
}
use folium.Base.Text.{text_length}
use folium.Types.{UserAdmin}
use folium.Settings.Users.{
  ConfirmAction, remove, deactivate, activate, make_admin, remove_admin, set_password,
  approve_reset, reject_reset, active, admin, Request, update_user, delete_user, set_user_password,
  Page, mounted, Answer, Event, role_pressed, status_pressed, password_pressed, new_typed,
  confirm_typed, pressed, answered,
}
use folium.Settings.Users.Steps.{finish, settle, react, run}

-- A request that changes an account is about another one, and a password has eight characters.
abbrev pub Allowed : String → Request → Type 0
Allowed self (update_user id c) = (id == self) ≡ false
Allowed self (delete_user id) = (id == self) ≡ false
Allowed self (set_user_password id password) = ((id == self) ≡ false) × (8 ≤ text_length password)
Allowed self r = Unit

abbrev pub AboutOther : String → Option ConfirmAction → Type 0
AboutOther self none = Unit
AboutOther self (some (approve_reset id username)) = Unit
AboutOther self (some (reject_reset id username)) = Unit
AboutOther self (some (remove user)) = (user.id == self) ≡ false
AboutOther self (some (deactivate user)) = (user.id == self) ≡ false
AboutOther self (some (activate user)) = (user.id == self) ≡ false
AboutOther self (some (make_admin user)) = (user.id == self) ≡ false
AboutOther self (some (remove_admin user)) = (user.id == self) ≡ false
AboutOther self (some (set_password user)) = (user.id == self) ≡ false

-- `busy` says whether a confirmed request is under way, and there is one at most.
abbrev pub Single : List ConfirmAction → Bool → Type 0
Single [] busy = busy ≡ false
Single (a ∷ []) busy = busy ≡ true
Single (a ∷ b ∷ rest) busy = ⊥

none_left :
    (pending : List ConfirmAction) (busy : Bool) (index : ℕ) (a : ConfirmAction)
    → Single pending busy
    → get_elem? pending index ≡ some a
    → remove_at index pending ≡ []
none_left pending busy index a h found = ground arith

length_blank : (s : String) → s ≡ "" → text_length s ≡ 0
unfolding text_length
length_blank s blank = rw blank refl

-- One request at most, whether the session is known or not.
module _ (origin : String) (has_clipboard : Bool) (self : Option String) where
  finish-pending :
      (a : ConfirmAction) (answer : Answer) (p : Page)
      → ((finish origin has_clipboard self a answer p).pending ≡ p.pending)
        × ((finish origin has_clipboard self a answer p).busy ≡ false)
  unfolding finish
  finish-pending a answer p = ground arith

  settle-Single :
      (found : Option ConfirmAction) (index : ℕ) (answer : Answer) (p : Page)
      → get_elem? p.pending index ≡ found
      → Single p.pending p.busy
      → Single
          (settle origin has_clipboard self found index answer p).pending
          (settle origin has_clipboard self found index answer p).busy
  unfolding settle
  settle-Single none index answer p e single = single
  settle-Single (some a) index answer p e single =
      let done = finish-pending a answer (record p { pending = remove_at index p.pending }) in
      rw (done.0, done.1, none_left p.pending p.busy index a single e) refl

  react-Single :
      (e : Event) (p : Page)
      → Single p.pending p.busy
      → Single
          ((react origin has_clipboard self e p).0).pending
          ((react origin has_clipboard self e p).0).busy
  unfolding react
  react-Single (answered index answer) p single =
      settle-Single (get_elem? p.pending index) index answer p refl single
  react-Single e p single = ground arith

  run_from-Single :
      (es : List Event) (p : Page)
      → Single p.pending p.busy
      → Single
          ((run origin has_clipboard self es p).0).pending
          ((run origin has_clipboard self es p).0).busy
  unfolding run
  run_from-Single [] p single = single
  run_from-Single (e ∷ es) p single =
      run_from-Single es (react origin has_clipboard self e p).0 (react-Single e p single)

  -- Whatever happens on the page, whether the session is known or not, one confirmed request is under way
  -- at most, and `busy` says whether there is one.
  pub run-Single :
      (es : List Event)
      → Single
          ((run origin has_clipboard self es mounted).0).pending
          ((run origin has_clipboard self es mounted).0).busy
  run-Single es = run_from-Single es mounted refl

module _ (origin : String) (has_clipboard : Bool) (self_id : String) where
  finish-AboutOther :
      (a : ConfirmAction) (answer : Answer) (p : Page)
      → AboutOther self_id p.confirm
      → AboutOther self_id (finish origin has_clipboard (some self_id) a answer p).confirm
  unfolding finish
  finish-AboutOther a answer p h = ground arith

  settle-AboutOther :
      (found : Option ConfirmAction) (index : ℕ) (answer : Answer) (p : Page)
      → AboutOther self_id p.confirm
      → AboutOther self_id (settle origin has_clipboard (some self_id) found index answer p).confirm
  unfolding settle
  settle-AboutOther none index answer p h = h
  settle-AboutOther (some a) index answer p h =
      finish-AboutOther a answer (record p { pending = remove_at index p.pending }) h

  react_lem :
      (e : Event) (p : Page)
      → AboutOther self_id p.confirm
      → AboutOther self_id ((react origin has_clipboard (some self_id) e p).0).confirm
        × All (Allowed self_id) (react origin has_clipboard (some self_id) e p).1
  unfolding react
  react_lem (answered index answer) p h =
      (settle-AboutOther (get_elem? p.pending index) index answer p h, tt)
  react_lem e p h = ground arith

  run_from-Allowed :
      (es : List Event) (p : Page)
      → AboutOther self_id p.confirm
      → All (Allowed self_id) (run origin has_clipboard (some self_id) es p).1
  unfolding run
  run_from-Allowed [] p h = tt
  run_from-Allowed (e ∷ es) p h =
      let step = react origin has_clipboard (some self_id) e p in
      let now = react_lem e p h in
      All-append (Allowed self_id) step.1 (run origin has_clipboard (some self_id) es step.0).1
        now.1 (run_from-Allowed es step.0 now.0)

  -- Where the session is known, whatever happens on the page, no request that it sends changes the
  -- own account, and every password that it sets has eight characters at least.
  pub run-Allowed :
      (es : List Event)
      → All (Allowed self_id) (run origin has_clipboard (some self_id) es mounted).1
  run-Allowed es = run_from-Allowed es mounted tt

  -- Where no request is under way, the password that is typed twice for another account is sent if
  -- both texts agree and have eight characters, and nothing is sent otherwise.
  pub password_sent :
      (user : UserAdmin) (first second : String) (p : Page)
      → p.busy ≡ false
      → (user.id == self_id) ≡ false
      → (run origin has_clipboard
          (some self_id)
          (password_pressed user ∷ new_typed first ∷ confirm_typed second ∷ pressed ∷ [])
          p).1
        ≡ (if leb 8 (text_length first) && (first == second)
            then set_user_password user.id first ∷ []
            else [])
  unfolding run react
  password_sent user first second p idle other =
      rw (other, idle)
        (ground (arith, length_blank first, eq_iff first "", eq_iff first second, eq_iff second ""))

  -- The buttons of another account's row, confirmed, send the change that turns its role over, and the
  -- one that turns its status over.
  pub toggles_sent :
      (user : UserAdmin) (p : Page)
      → p.busy ≡ false
      → (user.id == self_id) ≡ false
      → ((run origin has_clipboard (some self_id) (role_pressed user ∷ pressed ∷ []) p).1
          ≡ update_user user.id (admin (not user.is_admin)) ∷ [])
        × ((run origin has_clipboard (some self_id) (status_pressed user ∷ pressed ∷ []) p).1
            ≡ update_user user.id (active (not (get_or user.is_active false))) ∷ [])
  unfolding run react
  toggles_sent user p idle other = ground arith
