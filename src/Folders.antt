-- ===== src/Folders.antt =====
-- `collectFolderAndDescendantIds` of frontend/src/components/documents/MoveToFolderDialog.tsx: the
-- folders that a folder cannot be moved into.
-- The stack has its top at the head of the list. The `while` loop takes fuel; `none` means that the
-- fuel ran out.
pub mod Descendants
pub mod Moves
pub mod Tree
mod Loop
mod Examples
use folium.Base.{
  ℕ, zero, suc, ◌+◌, String, Bool, true, false, Option, none, some, List, [], ◌∷◌, ◌++◌, ◌==◌,
  if◌then◌else◌, is_filled, length, get_or,
}
use folium.Base.Sets.{has, add}
use folium.Types.{Folder}

abbrev pub ChildrenMap : Type 0
ChildrenMap = List (String × List String)

-- `childrenByParent.get(id) ?? []`
pub children : String → ChildrenMap → List String
children p [] = []
children p ((k, list) ∷ m) = if k == p then list else children p m

-- `list.push(f.id); childrenByParent.set(f.parent_id, list)`
pub push_child : String → String → ChildrenMap → ChildrenMap
push_child p id [] = (p, id ∷ []) ∷ []
push_child p id ((k, list) ∷ m) =
    if k == p then (k, list ++ id ∷ []) ∷ m else (k, list) ∷ push_child p id m

-- One round of the first loop: a folder without a parent is passed over.
pub link : Option String → String → ChildrenMap → ChildrenMap
unfolding push_child
link none id m = m
link (some p) id m = if is_filled p then push_child p id m else m

pub children_by_parent : List Folder → ChildrenMap → ChildrenMap
unfolding link
children_by_parent [] m = m
children_by_parent (f ∷ folders) m = children_by_parent folders (link f.parent_id f.id m)

pub record Search : Type 0 where
  pub excluded : List String
  pub stack : List String

-- The `for` loop over the children of a folder that was popped.
pub offer : List String → Search → Search
offer [] s = s
offer (child ∷ kids) s = offer kids (
    if has child s.excluded
    then s
    else record { excluded = add child s.excluded; stack = child ∷ s.stack })

-- The `while` loop.
pub search_from : ChildrenMap → ℕ → List String → List String → Option (List String)
search_from m fuel excluded [] = some excluded
search_from m zero excluded (id ∷ stack) = none
search_from m (suc fuel) excluded (id ∷ stack) =
    let next = offer (children id m) (record { excluded = excluded; stack = stack }) in
    search_from m fuel next.excluded next.stack

unfoldable pub collect_folder_and_descendant_ids : List Folder → String → Option (List String)
collect_folder_and_descendant_ids folders folder_id =
    search_from (children_by_parent folders []) (length folders + 1) (folder_id ∷ [])
      (folder_id ∷ [])
