-- ===== src/UploadTree.antt =====
-- frontend/src/lib/uploadTree.ts: the files of a drop or of a file input, with their paths.
-- A directory is what its reader hands out: batches of entries, until an empty one. A reader or a
-- file may fail; the promise is then rejected, and `none` stands for that.
pub mod Laws
use folium.Base.{
  ℕ, zero, suc, ◌+◌, String, Bool, true, false, not, ◌&&◌, ◌||◌, Option, none, some, List, [], ◌∷◌,
  ◌++◌, ◌==◌, eqb, ltb, if◌then◌else◌, is_filled, length, any, map, get_or,
}
use folium.Base.Sets.{has}
use folium.Base.Text.{◌&◌, trim, has_char}
use Prim.Native.Char.{code}

pub record File : Type 0 where
  pub name : String
  pub webkit_relative_path : Option String

pub record UploadEntry : Type 0 where
  pub file : File
  pub relative_path : String

-- A `FileSystemEntry`: `other_entry` is neither a file nor a directory; the file of a `file_entry`
-- is missing if its callback fails.
mutual
  pub data Entry : Type 0 where
    file_entry : String → Option File → Entry
    dir_entry : String → Batches → Entry
    other_entry : String → Entry

  pub data Batches : Type 0 where
    broken : Batches
    batch : Entries → Batches → Batches
    done : Batches

  pub data Entries : Type 0 where
    nil : Entries
    cons : Entry → Entries → Entries

unfoldable pub join_path : String → String → String
join_path prefix name = if is_filled prefix then prefix & ("/" & name) else name

-- `out.push(...)` where the callback for the file succeeded.
abbrev push_file : Option File → String → List UploadEntry → Option (List UploadEntry)
push_file none path out = none
push_file (some file) path out = some (out ++ record { file = file; relative_path = path } ∷ [])

infixl 5 ◌>>=◌
abbrev pub ◌>>=◌ {ℓ κ} : {A : Type ℓ} {B : Type κ} → Option A → (A → Option B) → Option B
none >>= k = none
some a >>= k = k a

-- `readDirectoryEntry`: its `while` loop is `read_batches`, the `for` loop in it `read_children`,
-- and `read_child` the body of that. An empty batch ends the reading.
unfoldable mutual
  pub read_batches : Batches → String → List UploadEntry → Option (List UploadEntry)
  read_batches broken prefix out = none
  read_batches done prefix out = some out
  read_batches (batch nil more) prefix out = some out
  read_batches (batch (cons child kids) more) prefix out =
      read_child child prefix out >>= λ o. read_children kids prefix o >>= read_batches more prefix

  pub read_children : Entries → String → List UploadEntry → Option (List UploadEntry)
  read_children nil prefix out = some out
  read_children (cons child kids) prefix out =
      read_child child prefix out >>= read_children kids prefix

  pub read_child : Entry → String → List UploadEntry → Option (List UploadEntry)
  read_child (file_entry name file) prefix out = push_file file (join_path prefix name) out
  read_child (dir_entry name entries) prefix out = read_batches entries (join_path prefix name) out
  read_child (other_entry name) prefix out = some out

pub data PendingItem : Type 0 where
  file_item : File → String → PendingItem
  directory_item : Batches → String → PendingItem

-- One item of a drop: its kind, and what `webkitGetAsEntry()` and `getAsFile()` return.
pub record TransferItem : Type 0 where
  pub kind : String
  pub entry : Option Entry
  pub as_file : Option File

-- A `DataTransfer`; `has_entries` is whether its items know `webkitGetAsEntry`.
pub record DataTransfer : Type 0 where
  pub items : List TransferItem
  pub has_entries : Bool
  pub files : List File
  pub types : List String

-- `file.webkitRelativePath?.trim() || file.name`
unfoldable pub path_of : File → String
unfolding trim
path_of file = elim file.webkit_relative_path [
  | none ↦ file.name
  | some path ↦ if is_filled (trim path) then trim path else file.name
]

file_items : Option File → List PendingItem
file_items none = []
file_items (some file) = file_item file (path_of file) ∷ []

capture_item : Option Entry → Option File → List PendingItem
capture_item none as_file = []
capture_item (some (file_entry name file)) as_file = file_items as_file
capture_item (some (dir_entry name entries)) as_file = directory_item entries name ∷ []
capture_item (some (other_entry name)) as_file = []

capture_items : List TransferItem → List PendingItem
capture_items [] = []
capture_items (item ∷ items) =
    let rest = capture_items items in
    if item.kind == "file" then capture_item item.entry item.as_file ++ rest else rest

unfoldable pub capture_data_transfer_items : DataTransfer → List PendingItem
unfolding capture_items capture_item file_items path_of
capture_data_transfer_items transfer =
    let pending =
      if ltb 0 (length transfer.items) && transfer.has_entries
      then capture_items transfer.items
      else [] in
    if eqb (length pending) 0
    then map (λ file. file_item file (path_of file)) transfer.files
    else pending

-- `s.replace(/\\/g, "/")`
unfoldable pub slashes : String → String
slashes String.[] = ""
slashes (String.◌∷◌ c s) =
    let rest = slashes s in if eqb (code c) 92 then "/" & rest else String.◌∷◌ c rest

resolve_from : List PendingItem → List UploadEntry → Option (List UploadEntry)
resolve_from [] out = some out
resolve_from (file_item file path ∷ pending) out =
    resolve_from pending (out ++ record { file = file; relative_path = slashes path } ∷ [])
resolve_from (directory_item entries prefix ∷ pending) out =
    read_batches entries prefix out >>= resolve_from pending

unfoldable pub resolve_pending_items : List PendingItem → Option (List UploadEntry)
unfolding resolve_from read_batches slashes
resolve_pending_items pending = resolve_from pending []

unfoldable pub entries_from_data_transfer : DataTransfer → Option (List UploadEntry)
unfolding resolve_pending_items capture_data_transfer_items
entries_from_data_transfer transfer = resolve_pending_items (capture_data_transfer_items transfer)

unfoldable pub entries_from_file_list : List File → List UploadEntry
entries_from_file_list files =
    map (λ file. record { file = file; relative_path = slashes (path_of file) }) files

unfoldable pub is_tree_upload : List UploadEntry → Bool
unfolding has_char
is_tree_upload entries = any (λ e. has_char b'/' e.relative_path) entries

unfoldable pub data_transfer_has_files : Option DataTransfer → Bool
unfolding has
data_transfer_has_files none = false
data_transfer_has_files (some transfer) = has "Files" transfer.types
