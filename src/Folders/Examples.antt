-- ===== src/Folders/Examples.antt =====
-- A small tree of folders, with a circle beside it.
use folium.Base.{◌≡◌, refl, ◌↔◌, true, Option, none, some, List, [], ◌∷◌, String}
use folium.Base.Sets.{has, add}
use folium.Types.{Folder, FolderKind}
use folium.Folders.{
  children, children_by_parent, offer, search_from, collect_folder_and_descendant_ids,
}
use folium.Base.{Bool, false, sym, ◌∙◌}
use folium.Folders.Moves.{count_id, destinations, below_not_offered}
use folium.Folders.Tree.{
  TreeEvent, create_opened, name_typed, submitted, submit_done, move_opened, destination_chosen,
  move_confirmed,
}
use folium.Folders.Descendants.{IsBelow, collect_iff, collect_total}

folders : Unit {0}
unfolding collect_folder_and_descendant_ids search_from children_by_parent offer children has add
folders = tt

abbrev folder : String → Option String → Folder
folder id parent = record {
  id = id;
  name = id;
  parent_id = parent;
  kind = FolderKind.normal;
  sort_order = 0;
  path_cache = id;
  document_count = 0;
}

abbrev tree : List Folder
tree =
    folder "root" none
    ∷ folder "tax" (some "root")
    ∷ folder "2024" (some "tax")
    ∷ folder "x" (some "y")
    ∷ folder "y" (some "x")
    ∷ folder "home" (some "root")
    ∷ []

collected : collect_folder_and_descendant_ids tree "tax" ≡ some ("tax" ∷ "2024" ∷ [])
unfolding folders
collected = refl

circle : collect_folder_and_descendant_ids tree "x" ≡ some ("x" ∷ "y" ∷ [])
unfolding folders
circle = refl

collect_iff_example : (has "2024" ("tax" ∷ "2024" ∷ []) ≡ true) ↔ IsBelow tree "tax" "2024"
collect_iff_example = collect_iff tree "tax" "2024" collected

collect_total_example :
    (out : List String) × (collect_folder_and_descendant_ids tree "root" ≡ some out)
collect_total_example = collect_total tree "root"

abbrev at_most : String → String → Bool
at_most a b = true

twenty_four : has "2024" ("tax" ∷ "2024" ∷ []) ≡ true
unfolding folders
twenty_four = refl

below_not_offered_example :
    count_id "2024" (destinations at_most tree ("tax" ∷ "2024" ∷ []) true) ≡ 0
below_not_offered_example =
    below_not_offered at_most tree "tax" true "2024" collected
      ((collect_iff tree "tax" "2024" collected).0 twenty_four)

home_free : has "home" ("tax" ∷ "2024" ∷ []) ≡ false
unfolding folders
home_free = refl

home_apart : ¬ IsBelow tree "tax" "home"
home_apart below =
    let both = sym home_free ∙ (collect_iff tree "tax" "home" collected).1 below in cc

abbrev clicks : List TreeEvent
clicks =
    create_opened tree ""
    ∷ submitted
    ∷ name_typed " Bills "
    ∷ submitted
    ∷ submit_done
    ∷ move_opened (folder "tax" (some "root"))
    ∷ move_confirmed
    ∷ destination_chosen "home"
    ∷ move_confirmed
    ∷ []
