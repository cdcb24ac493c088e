-- ===== src/Selection/Laws.antt =====
-- What every handler keeps true, and what shift, toggling and select-all do.
use folium.Base.{
  ℕ, zero, suc, ◌+◌, ◌-◌, ◌≤◌, ◌<◌, min, max, ◌≡◌, ◌≢◌, inl, inr, String, true, false, some, List,
  [], ◌∷◌, eq_iff, arith, length, get_elem?, ◌||◌, if◌then◌else◌, Option-cases, eqb_iff,
}
use folium.Base.Sets.{has, add, delete, has-add, has-delete, has-add_all}
use folium.Selection.Range.{select_range_ids_iff}
use folium.Selection.{
  is_editable_keyboard_target, toggle_id_in_set, select_range_ids, select_all_ids, Model, clamp,
  documents_changed, Key, KeyEvent, arrow_down, arrow_up, arrow_right, arrow_left, space, enter,
  letter_a, home, end_key, other, toggle_at, select_range_to, move_to, press, handle_key_down,
}

-- Focus and anchor are on a document (0 if there is none).
pub record IsValid (ids : List String) (m : Model) : Type 0 where
  pub focused : m.focused ≤ length ids - 1
  pub anchor : m.anchor ≤ length ids - 1

-- Every selected document is one of the list.
abbrev pub IsListed : List String → Model → Type 0
IsListed ids m = (id : String) → has id m.selected ≡ true → has id ids ≡ true

-- Whatever the list becomes, the effect puts focus and anchor back on it, and leaves the rest.
pub documents_changed-IsValid :
    (ids : List String) (m : Model)
    → IsValid ids (documents_changed ids m) × ((documents_changed ids m).selected ≡ m.selected)
unfolding documents_changed clamp
documents_changed-IsValid ids m = ground arith

press-IsValid :
    (ids : List String) (cols : ℕ) (event : KeyEvent) (key : Key) (m : Model)
    → IsValid ids m
    → IsValid ids (press ids cols event key m)
unfolding press move_to select_range_to toggle_at
press-IsValid ids cols event arrow_down m v = ground arith
press-IsValid ids cols event key m v = ground arith

-- Where focus and anchor stand on the list, no key moves them off it.
pub handle_key_down-IsValid :
    (ids : List String) (grid_columns : ℕ) (event : KeyEvent) {m : Model}
    → IsValid ids m
    → IsValid ids (handle_key_down ids grid_columns event m)
unfolding handle_key_down
handle_key_down-IsValid ids grid_columns event {m} v =
    ground (arith, press-IsValid ids (max 1 grid_columns) event event.key m v)

-- A key that moves the focus: left and right do so only where there are columns.
abbrev pub Moves : ℕ → Key → Type 0
Moves grid_columns arrow_down = Unit
Moves grid_columns arrow_up = Unit
Moves grid_columns home = Unit
Moves grid_columns end_key = Unit
Moves grid_columns arrow_right = 1 < grid_columns
Moves grid_columns arrow_left = 1 < grid_columns
Moves grid_columns key = ⊥

press-Moves :
    (ids : List String) (grid_columns : ℕ) (event : KeyEvent) (key : Key) (m : Model)
    → Moves grid_columns key
    → length ids ≢ 0
    → ((press ids (max 1 grid_columns) event key m).anchor ≡ m.anchor)
      × ((press ids (max 1 grid_columns) event key m).opened ≡ m.opened)
      × ((press ids (max 1 grid_columns) event key m).selected ≡ (
          if event.shift
          then select_range_ids ids m.anchor (press ids (max 1 grid_columns) event key m).focused
          else m.selected))
unfolding press move_to select_range_to
press-Moves ids grid_columns event arrow_down m mv h = ground arith
press-Moves ids grid_columns event key m mv h = ground arith

-- In a list that is not empty, and outside editable fields, a key that moves the focus selects the
-- range from the anchor to the new focus if shift is held, and leaves the selection if it is not;
-- either way the anchor stays, and nothing is opened.
pub handle_key_down-Moves :
    (ids : List String) (grid_columns : ℕ) (event : KeyEvent) (m : Model)
    → is_editable_keyboard_target event.target ≡ false
    → length ids ≢ 0
    → Moves grid_columns event.key
    → ((handle_key_down ids grid_columns event m).anchor ≡ m.anchor)
      × ((handle_key_down ids grid_columns event m).opened ≡ m.opened)
      × ((handle_key_down ids grid_columns event m).selected ≡ (
          if event.shift
          then select_range_ids ids m.anchor (handle_key_down ids grid_columns event m).focused
          else m.selected))
unfolding handle_key_down
handle_key_down-Moves ids grid_columns event m plain some_docs mv =
    ground
      (arith, press-Moves ids grid_columns event event.key m mv some_docs, eqb_iff (length ids) 0)

has_of_get_elem? :
    (ids : List String) (i : ℕ) (id : String) → get_elem? ids i ≡ some id → has id ids ≡ true
unfolding has
has_of_get_elem? [] i id e = cc
has_of_get_elem? (x ∷ ids) zero id e = ground (arith, eq_iff x id)
has_of_get_elem? (x ∷ ids) (suc i) id e = ground (arith, has_of_get_elem? ids i id e)

range-IsListed :
    (ids : List String) (a b : ℕ) (id : String)
    → has id (select_range_ids ids a b) ≡ true
    → has id ids ≡ true
range-IsListed ids a b id h =
    let (i, low, high, found, filled) = (select_range_ids_iff ids a b id).0 h in
    has_of_get_elem? ids i id found

toggle_at-IsListed :
    (ids : List String) (index : ℕ) (m : Model)
    → IsListed ids m
    → IsListed ids (toggle_at ids index m)
unfolding toggle_at toggle_id_in_set
toggle_at-IsListed ids index m listed id h = elim (Option-cases (get_elem? ids index)) [
  | inl out ↦ ground (arith, listed id)
  | inr (x, found) ↦ ground (
    arith,
    listed id,
    has-add id x m.selected,
    has-delete id x m.selected,
    has_of_get_elem? ids index x found,
    eq_iff x id,
  )
]

press-IsListed :
    (ids : List String) (cols : ℕ) (event : KeyEvent) (key : Key) (m : Model)
    → IsListed ids m
    → IsListed ids (press ids cols event key m)
unfolding press move_to select_range_to has
press-IsListed ids cols event space m listed id h = toggle_at-IsListed ids m.focused m listed id h
press-IsListed ids cols event letter_a m listed id h =
    ground (arith, has-add_all id ids [], listed id)
press-IsListed ids cols event arrow_down m listed id h =
    ground
      (arith, listed id, range-IsListed ids m.anchor (min (length ids - 1) (m.focused + cols)) id)
press-IsListed ids cols event arrow_up m listed id h =
    ground (arith, listed id, range-IsListed ids m.anchor (m.focused - cols) id)
press-IsListed ids cols event arrow_right m listed id h =
    ground (arith, listed id, range-IsListed ids m.anchor (min (length ids - 1) (m.focused + 1)) id)
press-IsListed ids cols event arrow_left m listed id h =
    ground (arith, listed id, range-IsListed ids m.anchor (m.focused - 1) id)
press-IsListed ids cols event home m listed id h =
    ground (arith, listed id, range-IsListed ids m.anchor 0 id)
press-IsListed ids cols event end_key m listed id h =
    ground (arith, listed id, range-IsListed ids m.anchor (length ids - 1) id)
press-IsListed ids cols event enter m listed id h = ground (arith, listed id)
press-IsListed ids cols event other m listed id h = listed id h

-- Where every selected document is one of the list, no key selects another.
pub handle_key_down-IsListed :
    (ids : List String) (grid_columns : ℕ) (event : KeyEvent) (m : Model)
    → IsListed ids m
    → IsListed ids (handle_key_down ids grid_columns event m)
unfolding handle_key_down
handle_key_down-IsListed ids grid_columns event m listed id h =
    ground (arith, listed id, press-IsListed ids (max 1 grid_columns) event event.key m listed id)

-- In a list that is not empty, and outside editable fields, Ctrl or Cmd with A selects every
-- document of the list, and nothing else.
pub select_all_iff :
    (ids : List String) (grid_columns : ℕ) (event : KeyEvent) (m : Model) (id : String)
    → event.key ≡ letter_a
    → (event.meta || event.ctrl) ≡ true
    → is_editable_keyboard_target event.target ≡ false
    → length ids ≢ 0
    → has id (handle_key_down ids grid_columns event m).selected ≡ has id ids
unfolding handle_key_down press select_all_ids has
select_all_iff ids grid_columns event m id key held plain some_docs =
    ground (arith, has-add_all id ids [], eqb_iff (length ids) 0)

-- Toggling a document twice gives back the selection, as a set.
pub toggle_at_twice :
    (ids : List String) (index : ℕ) (m : Model) (id : String)
    → has id (toggle_at ids index (toggle_at ids index m)).selected ≡ has id m.selected
unfolding toggle_at toggle_id_in_set
toggle_at_twice ids index m id = elim (Option-cases (get_elem? ids index)) [
  | inl out ↦ ground arith
  | inr (x, found) ↦ ground (
    arith,
    has-add x x m.selected,
    has-delete x x m.selected,
    has-add id x m.selected,
    has-delete id x m.selected,
    has-add id x (delete x m.selected),
    has-delete id x (add x m.selected),
    eq_iff x id,
    eq_iff x x,
  )
]
