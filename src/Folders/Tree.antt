-- ===== src/Folders/Tree.antt =====
-- `FolderTree` of frontend/src/components/folders/FolderTree.tsx: which folders are unfolded, the
-- dialogs that create, rename, delete and move a folder, and the requests that they send. The
-- dialog that moves a folder keeps its choice as `handleConfirm` of MoveToFolderDialog.tsx does.
-- An event is one run of the source between two awaits: a request that succeeds is an event.
use folium.Base.{
  ◌≡◌, String, Bool, true, false, Option, none, some, List, [], ◌∷◌, ◌++◌, if◌then◌else◌, is_filled,
  get_or, arith, Bool-cases, inl, inr, All, All-append,
}
use folium.Base.Text.{trim}
use folium.Base.Sets.{has, add, delete}
use folium.Types.{Folder, FolderKind}

pub data Dialog : Type 0 where
  create : (parent_id : String) → Dialog
  rename erase : Folder → Dialog

-- What is sent.
pub data Request : Type 0 where
  create_folder : (name parent_id : String) → Request
  rename_folder : (id name : String) → Request
  trash_folder : (id : String) → Request
  move_folder : (id parent_id : String) → Request

pub record Tree : Type 0 where
  pub expanded : List String
  pub dialog : Option Dialog
  pub moving : Option Folder
  pub destination : String
  pub name : String
  pub sent : List Request

abbrev pub fresh_tree : Tree
fresh_tree = record {
  expanded = [];
  dialog = none;
  moving = none;
  destination = "";
  name = "";
  sent = [];
}

-- `toggle`
unfoldable pub toggle : String → List String → List String
toggle id expanded = if has id expanded then delete id expanded else add id expanded

abbrev is_root : FolderKind → Bool
is_root FolderKind.root = true
is_root kind = false

-- `folders.find((f) => f.kind === "root")?.id`
unfoldable pub root_id : List Folder → Option String
root_id [] = none
root_id (f ∷ folders) = let rest = root_id folders in if is_root f.kind then some f.id else rest

-- `openCreate`
unfoldable pub open_create : List Folder → String → Tree → Tree
unfolding root_id
open_create folders parent_id t = record t {
  name = "";
  dialog = some (create (if is_filled parent_id then parent_id else get_or (root_id folders) ""));
}

-- The request of `handleSubmit` for a dialog and a name that was typed.
abbrev pub request_of : Option Dialog → String → List Request
request_of none name = []
request_of (some (erase f)) name = trash_folder f.id ∷ []
request_of (some (create parent_id)) name =
    if is_filled (trim name) then create_folder (trim name) parent_id ∷ [] else []
request_of (some (rename f)) name =
    if is_filled (trim name) then rename_folder f.id (trim name) ∷ [] else []

-- The request of `onConfirm` of the dialog that moves a folder.
abbrev pub move_request : Option Folder → String → List Request
move_request none destination = []
move_request (some f) destination =
    if is_filled destination then move_folder f.id destination ∷ [] else []

pub data TreeEvent : Type 0 where
  toggled : (id : String) → TreeEvent
  create_opened : List Folder → (parent_id : String) → TreeEvent
  rename_opened erase_opened move_opened : Folder → TreeEvent
  name_typed : String → TreeEvent
  closed submitted submit_done : TreeEvent
  destination_chosen : (id : String) → TreeEvent
  move_confirmed move_done move_closed : TreeEvent

unfoldable pub react : TreeEvent → Tree → Tree
unfolding toggle open_create
react (toggled id) t = record t { expanded = toggle id t.expanded }
react (create_opened folders parent_id) t = open_create folders parent_id t
react (rename_opened f) t = record t { name = f.name; dialog = some (rename f) }
react (erase_opened f) t = record t { dialog = some (erase f) }
react (move_opened f) t = record t { moving = some f }
react (name_typed text) t = record t { name = text }
react closed t = record t { dialog = none }
react submitted t = record t { sent = t.sent ++ request_of t.dialog t.name }
react submit_done t = record t { dialog = none; name = "" }
react (destination_chosen id) t = record t { destination = id }
react move_confirmed t = record t { sent = t.sent ++ move_request t.moving t.destination }
react move_done t = record t { moving = none; destination = "" }
react move_closed t = record t { moving = none; destination = "" }

unfoldable pub run : List TreeEvent → Tree → Tree
run [] t = t
run (e ∷ events) t = run events (react e t)

-- A request has a name or a destination, where it needs one.
abbrev pub IsComplete : Request → Type 0
IsComplete (create_folder name parent_id) = is_filled name ≡ true
IsComplete (rename_folder id name) = is_filled name ≡ true
IsComplete (trash_folder id) = Unit
IsComplete (move_folder id parent_id) = is_filled parent_id ≡ true

request_of-IsComplete : (o : Option Dialog) (name : String) → All IsComplete (request_of o name)
request_of-IsComplete none name = tt
request_of-IsComplete (some (erase f)) name = (tt, tt)
request_of-IsComplete (some (create parent_id)) name = elim (Bool-cases (is_filled (trim name))) [
  | inl e ↦ rw e (e, tt)
  | inr e ↦ rw e tt
]
request_of-IsComplete (some (rename f)) name = elim (Bool-cases (is_filled (trim name))) [
  | inl e ↦ rw e (e, tt)
  | inr e ↦ rw e tt
]

move_request-IsComplete : (o : Option Folder) (id : String) → All IsComplete (move_request o id)
move_request-IsComplete none id = tt
move_request-IsComplete (some f) id = elim (Bool-cases (is_filled id)) [
  | inl e ↦ rw e (e, tt)
  | inr e ↦ rw e tt
]

react-IsComplete :
    (e : TreeEvent) (t : Tree) → All IsComplete t.sent → All IsComplete (react e t).sent
unfolding react
react-IsComplete submitted t h =
    All-append IsComplete t.sent (request_of t.dialog t.name) h
      (request_of-IsComplete t.dialog t.name)
react-IsComplete move_confirmed t h =
    All-append IsComplete t.sent (move_request t.moving t.destination) h
      (move_request-IsComplete t.moving t.destination)
react-IsComplete e t h = ground arith

-- Whatever is clicked and typed, no folder is created or renamed without a name, and none is moved
-- without a destination.
pub run-IsComplete :
    (events : List TreeEvent) (t : Tree)
    → All IsComplete t.sent
    → All IsComplete (run events t).sent
unfolding run
run-IsComplete [] t h = h
run-IsComplete (e ∷ events) t h = run-IsComplete events (react e t) (react-IsComplete e t h)
