-- ===== src/Selection.antt =====
-- frontend/src/features/documents/documentSelection.ts and useDocumentSelectionModel.ts: the
-- selection of documents in a list or a grid, by pointer, checkbox and keyboard.
-- The hook's two state variables, the set that its owner keeps (`onSelect` replaces it) and the
-- documents that `onOpen` was called with are one record; a handler returns the next one.
pub mod Range
pub mod Laws
mod Examples
use folium.Base.{
  ℕ, zero, suc, ◌+◌, ◌-◌, min, max, String, Bool, true, false, not, ◌&&◌, ◌||◌, Option, none, some,
  List, [], ◌∷◌, ◌++◌, ◌==◌, eqb, leb, if◌then◌else◌, is_filled, length, get_elem?,
}
use folium.Base.Sets.{has, add, delete, add_all}

-- What the code reads of an event's target. `inside_editable` is the answer of
-- `target.closest("[contenteditable='true'], input, textarea, select")`.
pub record EventTarget : Type 0 where
  pub is_html_element : Bool
  pub is_content_editable : Bool
  pub tag_name : String
  pub inside_editable : Bool

unfoldable pub is_editable_keyboard_target : EventTarget → Bool
is_editable_keyboard_target target =
    if not target.is_html_element
    then false
    else if target.is_content_editable
    then true
    else if target.tag_name == "INPUT"
        || target.tag_name == "TEXTAREA"
        || target.tag_name == "SELECT"
    then true
    else target.inside_editable

unfoldable pub toggle_id_in_set : List String → String → Bool → List String
unfolding add delete
toggle_id_in_set selected id checked = if checked then add id selected else delete id selected

-- The loop of `selectRangeIds`: the rounds that are left, and `i`.
range_from : List String → ℕ → ℕ → List String → List String
range_from ids zero i next = next
range_from ids (suc rounds) i next =
    range_from ids rounds (i + 1) (elim (get_elem? ids i) [
      | none ↦ next
      | some id ↦ if is_filled id then add id next else next
    ])

unfoldable pub select_range_ids : List String → ℕ → ℕ → List String
unfolding range_from add
select_range_ids ids from_index to_index =
    let start = min from_index to_index in
    let end = max from_index to_index in range_from ids (end + 1 - start) start []

unfoldable pub select_all_ids : List String → List String
unfolding add_all
select_all_ids ids = add_all ids []

pub record Model : Type 0 where
  pub focused : ℕ
  pub anchor : ℕ
  pub selected : List String
  pub opened : List String

-- The effect that follows a change of `documentIds`.
clamp : List String → ℕ → ℕ
clamp ids i = if eqb (length ids) 0 then 0 else min i (length ids - 1)

unfoldable pub documents_changed : List String → Model → Model
unfolding clamp
documents_changed ids m = record m { focused = clamp ids m.focused; anchor = clamp ids m.anchor }

-- The keys of `handleKeyDown`: `space` is `" "` and `"Spacebar"`, `letter_a` is `"a"` and `"A"`.
pub data Key : Type 0 where
  arrow_down arrow_up arrow_right arrow_left space enter letter_a home end_key other : Key

pub record KeyEvent : Type 0 where
  pub key : Key
  pub shift : Bool
  pub meta : Bool
  pub ctrl : Bool
  pub target : EventTarget

pub data Click : Type 0 where
  select open_it : Click

-- `const id = documentIds[index]; if (!id) return;` in front of a handler's body.
abbrev with_id : List String → ℕ → Model → (String → Model) → Model
with_id ids index m body = elim (get_elem? ids index) [
  | none ↦ m
  | some id ↦ if is_filled id then body id else m
]

module _ (ids : List String) where
  unfoldable pub select_exclusive : ℕ → Model → Model
  select_exclusive index m =
      with_id ids index m (λ id. record m { selected = id ∷ []; focused = index; anchor = index })

  unfoldable pub toggle_at : ℕ → Model → Model
  unfolding toggle_id_in_set has
  toggle_at index m = with_id ids index m (λ id. record m {
    selected = toggle_id_in_set m.selected id (not (has id m.selected));
    focused = index;
    anchor = index;
  })

  unfoldable pub select_range_to : ℕ → Model → Model
  unfolding select_range_ids
  select_range_to index m =
      if eqb (length ids) 0
      then m
      else record m { selected = select_range_ids ids m.anchor index; focused = index }

  unfoldable pub handle_item_pointer : ℕ → (shift meta ctrl : Bool) → Model → Model × Click
  unfolding select_range_to toggle_at
  handle_item_pointer index shift meta ctrl m =
      if shift
      then (select_range_to index m, select)
      else if meta || ctrl
      then (toggle_at index m, select)
      else (record m { focused = index; anchor = index }, open_it)

  unfoldable pub handle_checkbox : ℕ → Bool → Model → Model
  unfolding toggle_id_in_set
  handle_checkbox index checked m = with_id ids index m (λ id. record m {
    selected = toggle_id_in_set m.selected id checked;
    focused = index;
    anchor = index;
  })

  -- `setFocusedIndex(nextIndex); if (event.shiftKey) selectRangeTo(nextIndex);`
  move_to : Bool → ℕ → Model → Model
  unfolding select_range_to
  move_to shift index m =
      let moved = record m { focused = index } in
      if shift then select_range_to index moved else moved

  -- The `switch` of `handleKeyDown`.
  press : ℕ → KeyEvent → Key → Model → Model
  unfolding move_to toggle_at select_all_ids
  press cols event arrow_down m = move_to event.shift (min (length ids - 1) (m.focused + cols)) m
  press cols event arrow_up m = move_to event.shift (m.focused - cols) m
  press cols event arrow_right m =
      if leb cols 1 then m else move_to event.shift (min (length ids - 1) (m.focused + 1)) m
  press cols event arrow_left m = if leb cols 1 then m else move_to event.shift (m.focused - 1) m
  press cols event space m = toggle_at m.focused m
  press cols event enter m =
      with_id ids m.focused m (λ id. record m { opened = m.opened ++ id ∷ [] })
  press cols event letter_a m =
      if event.meta || event.ctrl
      then record m { selected = select_all_ids ids; anchor = 0; focused = 0 }
      else m
  press cols event home m = move_to event.shift 0 m
  press cols event end_key m = move_to event.shift (length ids - 1) m
  press cols event other m = m

  unfoldable pub handle_key_down : ℕ → KeyEvent → Model → Model
  unfolding press is_editable_keyboard_target
  handle_key_down grid_columns event m =
      if is_editable_keyboard_target event.target
      then m
      else if eqb (length ids) 0
      then m
      else press (max 1 grid_columns) event event.key m
