-- ===== src/Folders/Moves.antt =====
-- `MoveToFolderDialog` of frontend/src/components/documents/MoveToFolderDialog.tsx: the folders that
-- can be chosen, as the folder tree asks for them when a folder is moved.
-- `at_most` is `a.localeCompare(b) <= 0`.
use folium.Base.{
  ℕ, ◌≡◌, refl, ◌∙◌, String, Bool, true, false, not, ◌&&◌, some, List, [], ◌∷◌, ◌==◌, if◌then◌else◌,
  length, filter, arith, Bool-cases, inl, inr, eq_iff,
}
use folium.Base.Sets.{has}
use folium.Base.Sorting.{sort, count-sort}
use folium.Types.{Folder, FolderKind}
use folium.Folders.{collect_folder_and_descendant_ids}
use folium.Folders.Descendants.{IsBelow, collect_iff}

abbrev pub takes : FolderKind → Bool → Bool
takes FolderKind.trash allow_root = false
takes FolderKind.root allow_root = allow_root
takes FolderKind.inbox allow_root = not allow_root
takes FolderKind.normal allow_root = true

abbrev pub is_destination : List String → Bool → Folder → Bool
is_destination excluded allow_root f = if has f.id excluded then false else takes f.kind allow_root

unfoldable pub destinations :
    (String → String → Bool) → List Folder → List String → Bool → List Folder
destinations at_most folders excluded allow_root =
    sort (λ (a b : Folder). at_most a.path_cache b.path_cache)
      (filter (is_destination excluded allow_root) folders)

-- How many folders with an id are in a list.
abbrev pub count_id : String → List Folder → ℕ
count_id id folders = length (filter (λ f. f.id == id) folders)

-- The same among those that a dialog takes by their kind.
abbrev pub count_kind : Bool → String → List Folder → ℕ
count_kind allow_root id folders =
    length (filter (λ f. f.id == id && takes f.kind allow_root) folders)

count_excluded :
    (excluded : List String) (allow_root : Bool) (id : String) (folders : List Folder)
    → has id excluded ≡ true
    → count_id id (filter (is_destination excluded allow_root) folders) ≡ 0
count_excluded excluded allow_root id [] h = refl
count_excluded excluded allow_root id (f ∷ folders) h = elim (Bool-cases (f.id == id)) [
  | inl same ↦
      let gone : has f.id excluded ≡ true = rw ((eq_iff f.id id).0 same) h in
      rw gone (count_excluded excluded allow_root id folders h)
  | inr other ↦ ground (arith, count_excluded excluded allow_root id folders h)
]

count_kept :
    (excluded : List String) (allow_root : Bool) (id : String) (folders : List Folder)
    → has id excluded ≡ false
    → count_id id (filter (is_destination excluded allow_root) folders)
      ≡ count_kind allow_root id folders
count_kept excluded allow_root id [] h = refl
count_kept excluded allow_root id (f ∷ folders) h = elim (Bool-cases (f.id == id)) [
  | inl same ↦
      let free : has f.id excluded ≡ false = rw ((eq_iff f.id id).0 same) h in
      rw free (ground (arith, count_kept excluded allow_root id folders h))
  | inr other ↦ ground (arith, count_kept excluded allow_root id folders h)
]

-- When a folder is moved, neither the folder itself nor anything below it, at any depth, is offered.
pub below_not_offered :
    (at_most : String → String → Bool) (folders : List Folder) (moved : String) (allow_root : Bool)
    {excluded : List String} (id : String)
    → collect_folder_and_descendant_ids folders moved ≡ some excluded
    → IsBelow folders moved id
    → count_id id (destinations at_most folders excluded allow_root) ≡ 0
unfolding destinations
below_not_offered at_most folders moved allow_root {excluded} id e below =
    count-sort (λ (a b : Folder). at_most a.path_cache b.path_cache) (λ f. f.id == id)
      (filter (is_destination excluded allow_root) folders)
    ∙ count_excluded excluded allow_root id folders ((collect_iff folders moved id e).1 below)

-- When a folder is moved, a folder that is neither it nor below it is offered exactly if it is of a
-- kind that the dialog takes, as often as it is listed.
pub others_offered :
    (at_most : String → String → Bool) (folders : List Folder) (moved : String) (allow_root : Bool)
    {excluded : List String} (id : String)
    → collect_folder_and_descendant_ids folders moved ≡ some excluded
    → ¬ IsBelow folders moved id
    → count_id id (destinations at_most folders excluded allow_root)
      ≡ count_kind allow_root id folders
unfolding destinations
others_offered at_most folders moved allow_root {excluded} id e apart =
    let iff = collect_iff folders moved id e in
    count-sort (λ (a b : Folder). at_most a.path_cache b.path_cache) (λ f. f.id == id)
      (filter (is_destination excluded allow_root) folders)
    ∙ count_kept excluded allow_root id folders (ground (arith, iff, apart))
