-- ===== src/Settings/Tags.antt =====
-- The tags of frontend/src/features/settings/LibraryPage.tsx: the list that is shown, the dialog, and
-- what it sends. `toLowerCase` and `localeCompare` are parameters; `post` is whether a request
-- succeeds, and no other event comes between the requests of one dialog.
pub mod Laws
mod Examples
use folium.Base.{
  ℕ, String, Bool, true, false, not, ◌&&◌, ◌||◌, ◌==◌, Option, none, some, List, [], ◌∷◌, ◌++◌,
  if◌then◌else◌, eqb, leb, is_filled, filter, map, any,
}
use folium.Base.Sorting.{sort}
use folium.Base.Text.{trim, includes}

pub record Tag : Type 0 where
  pub id : String
  pub name : String
  pub color : String
  pub document_count : ℕ

pub data TagDialog : Type 0 where
  new_tag : TagDialog
  edit merge delete : (tag : Tag) → TagDialog
  delete_unused : TagDialog

pub data TagSort : Type 0 where
  by_name by_documents : TagSort

pub record Page : Type 0 where
  pub tag_search : String
  pub tag_sort : TagSort
  pub tag_dialog : Option TagDialog
  pub tag_name : String
  pub tag_color : String
  pub merge_target_id : String

-- `preset` is the first of TAG_COLOR_PRESETS.
abbrev pub mounted : String → Page
mounted preset = record {
  tag_search = "";
  tag_sort = by_name;
  tag_dialog = none;
  tag_name = "";
  tag_color = preset;
  merge_target_id = "";
}

pub data Request : Type 0 where
  create_tag : (name color : String) → Request
  update_tag : (id name color : String) → Request
  merge_tags : (source_tag_id target_tag_id : String) → Request
  remove_tag : (id : String) → Request

module _ (lower : String → String) (at_most : String → String → Bool) where
  abbrev pub matches : String → Tag → Bool
  matches search t =
      not (is_filled (lower (trim search))) || includes (lower (trim search)) (lower t.name)

  abbrev pub comes_first : TagSort → Tag → Tag → Bool
  comes_first by_name a b = at_most a.name b.name
  comes_first by_documents a b = leb b.document_count a.document_count

  unfoldable pub filtered_tags : List Tag → Page → List Tag
  filtered_tags tags p = sort (comes_first p.tag_sort) (filter (matches p.tag_search) tags)

  -- The tags that another one can be merged into.
  unfoldable pub merge_targets : List Tag → Tag → Page → List Tag
  merge_targets tags tag p = filter (λ (t : Tag). not (t.id == tag.id)) (filtered_tags tags p)

abbrev pub is_unused : Tag → Bool
is_unused t = eqb t.document_count 0

unfoldable pub open_tag_dialog : String → TagDialog → Page → Page
open_tag_dialog preset new_tag p = record p {
  tag_dialog = some new_tag;
  tag_name = "";
  tag_color = preset;
}
open_tag_dialog preset (edit tag) p = record p {
  tag_dialog = some (edit tag);
  tag_name = tag.name;
  tag_color = tag.color;
}
open_tag_dialog preset (merge tag) p = record p {
  tag_dialog = some (merge tag);
  tag_name = tag.name;
  tag_color = tag.color;
  merge_target_id = "";
}
open_tag_dialog preset (delete tag) p = record p {
  tag_dialog = some (delete tag);
  tag_name = tag.name;
  tag_color = tag.color;
}
open_tag_dialog preset delete_unused p = record p { tag_dialog = some delete_unused }

-- The requests of `submitTagDialog`, in order.
unfoldable pub wanted : List Tag → TagDialog → Page → List Request
wanted tags new_tag p = create_tag (trim p.tag_name) p.tag_color ∷ []
wanted tags (edit tag) p = update_tag tag.id (trim p.tag_name) p.tag_color ∷ []
wanted tags (merge tag) p =
    if is_filled p.merge_target_id then merge_tags tag.id p.merge_target_id ∷ [] else []
wanted tags (delete tag) p = remove_tag tag.id ∷ []
wanted tags delete_unused p = map (λ (t : Tag). remove_tag t.id) (filter is_unused tags)

-- What disables the button, where no request is under way.
abbrev pub is_disabled : TagDialog → Page → Bool
is_disabled new_tag p = not (is_filled (trim p.tag_name))
is_disabled (merge tag) p = not (is_filled p.merge_target_id)
is_disabled dialog p = false

-- Each request is sent when the one before has succeeded.
unfoldable pub send_each : (Request → Bool) → List Request → List Request × Bool
send_each post [] = ([], true)
send_each post (r ∷ rs) =
    let rest = send_each post rs in if post r then (r ∷ rest.0, rest.1) else (r ∷ [], false)

unfoldable pub submit : (Request → Bool) → List Tag → Option TagDialog → Page → Page × List Request
submit post tags none p = (p, [])
submit post tags (some dialog) p =
    let (sent, ended) = send_each post (wanted tags dialog p) in
    if is_disabled dialog p
    then (p, [])
    else (if ended then record p { tag_dialog = none } else p, sent)

pub data Event : Type 0 where
  search_typed name_typed color_chosen target_chosen : String → Event
  sort_chosen : TagSort → Event
  dialog_opened : TagDialog → Event
  cancelled submitted : Event

-- A target is chosen among those that the dialog offers.
unfoldable pub choose_target : (Tag → List Tag) → String → Option TagDialog → Page → Page
choose_target offered id (some (merge tag)) p =
    if any (λ (t : Tag). t.id == id) (offered tag) then record p { merge_target_id = id } else p
choose_target offered id dialog p = p

module _ (lower : String → String) (at_most : String → String → Bool) (preset : String)
    (post : Request → Bool) where
  unfoldable pub react : List Tag → Event → Page → Page × List Request
  react tags (search_typed s) p = (record p { tag_search = s }, [])
  react tags (name_typed s) p = (record p { tag_name = s }, [])
  react tags (color_chosen c) p = (record p { tag_color = c }, [])
  react tags (sort_chosen s) p = (record p { tag_sort = s }, [])
  react tags (target_chosen id) p =
      (choose_target (λ tag. merge_targets lower at_most tags tag p) id p.tag_dialog p, [])
  react tags (dialog_opened dialog) p = (open_tag_dialog preset dialog p, [])
  react tags cancelled p = (record p { tag_dialog = none }, [])
  react tags submitted p = submit post tags p.tag_dialog p

  -- Each event comes with the tags that the page has then.
  unfoldable pub run : List (List Tag × Event) → Page → Page × List Request
  run [] p = (p, [])
  run ((tags, e) ∷ es) p =
      let (p1, sent) = react tags e p in let (p2, rest) = run es p1 in (p2, sent ++ rest)
