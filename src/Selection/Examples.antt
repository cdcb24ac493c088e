-- ===== src/Selection/Examples.antt =====
-- A list of three documents, and some keys.
use folium.Base.{◌≡◌, refl, String, Bool, true, false, List, [], ◌∷◌, arith}
use folium.Base.Sets.{has, add, delete}
use folium.Selection.{
  EventTarget, is_editable_keyboard_target, select_range_ids, Model, documents_changed, Key,
  KeyEvent, arrow_down, toggle_at, handle_key_down,
}
use folium.Selection.Laws.{IsValid, IsListed, handle_key_down-Moves}

selection : Unit {0}
unfolding handle_key_down toggle_at select_range_ids is_editable_keyboard_target documents_changed
    has add delete
selection = tt

abbrev docs : List String
docs = "a" ∷ "b" ∷ "c" ∷ []

abbrev body : EventTarget
body = record {
  is_html_element = true;
  is_content_editable = false;
  tag_name = "BODY";
  inside_editable = false;
}

abbrev hit : Key → Bool → Bool → KeyEvent
hit key shift ctrl = record { key = key; shift = shift; meta = false; ctrl = ctrl; target = body }

abbrev start : Model
start = record { focused = 1; anchor = 1; selected = "a" ∷ []; opened = [] }

shift_down :
    handle_key_down docs 1 (hit arrow_down true false) start
    ≡ record { focused = 2; anchor = 1; selected = "b" ∷ "c" ∷ []; opened = [] }
unfolding selection
shift_down = refl

start-IsValid : IsValid docs start
start-IsValid = omega arith

start-IsListed : IsListed docs start
unfolding has
start-IsListed id h = ground arith

handle_key_down-Moves_example :
    ((handle_key_down docs 1 (hit arrow_down true false) start).anchor ≡ 1)
    × ((handle_key_down docs 1 (hit arrow_down true false) start).opened ≡ [])
    × ((handle_key_down docs 1 (hit arrow_down true false) start).selected
        ≡ select_range_ids docs 1
            (handle_key_down docs 1 (hit arrow_down true false) start).focused)
unfolding is_editable_keyboard_target
handle_key_down-Moves_example =
    handle_key_down-Moves docs 1 (hit arrow_down true false) start refl (omega arith) tt
