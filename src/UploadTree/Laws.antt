-- ===== src/UploadTree/Laws.antt =====
-- The paths that the files of a drop get.
use Prim.Native.Char.{Char, code}
use text.Mathlib.TextLemmas.{append_assoc, cons-append, nil-append, append-eq-nil_iff, cons≢nil}
use mathlib.Core.Path.{subst}
use folium.Base.{
  ℕ, ◌≡◌, refl, sym, ap, ◌∙◌, ◌⊎◌, inl, inr, ◌≢◌, String, true, false, ◌||◌, Option, none, some,
  List, [], ◌∷◌, ◌++◌, eq_iff, arith, is_filled, eqb, Bool-cases, All, All-append, map,
}
use folium.Base.Text.{◌&◌, has_char}
use folium.UploadTree.{
  File, UploadEntry, Entry, file_entry, dir_entry, other_entry, Batches, broken, batch, done,
  Entries, nil, cons, join_path, ◌>>=◌, read_batches, read_children, read_child, directory_item,
  slashes, path_of, resolve_from, resolve_pending_items, entries_from_file_list, is_tree_upload,
}

abbrev slash_char : Char
slash_char = "/"

-- The path leads to something inside the directory `top`.
abbrev pub IsUnder : String → String → Type 0
IsUnder top path = (rest : String) × (path ≡ top & ("/" & rest))

-- The path is that of `top`, or leads to something inside it.
abbrev IsAt : String → String → Type 0
IsAt top path = (path ≡ top) ⊎ IsUnder top path

slash-ne-nil : (t : String) → "/" & t ≢ ""
slash-ne-nil t = λ e.
    cons≢nil (sym (cons-append slash_char "" t ∙ ap (String.◌∷◌ slash_char) (nil-append t)) ∙ e)

is_filled-slash : (s t : String) → is_filled (s & ("/" & t)) ≡ true
is_filled-slash s t = elim (Bool-cases (is_filled (s & ("/" & t)))) [
  | inl filled ↦ filled
  | inr blank ↦
      let e : s & ("/" & t) ≡ "" = (eq_iff (s & ("/" & t)) "").0 (ground arith) in
      absurd (slash-ne-nil t (append-eq-nil_iff.0 e).1)
]

filled_join :
    (prefix name : String) → is_filled prefix ≡ true → join_path prefix name ≡ prefix & ("/" & name)
unfolding join_path
filled_join prefix name h = rw h

join_path-IsUnder :
    (top prefix name : String)
    → is_filled top ≡ true
    → IsAt top prefix
    → IsUnder top (join_path prefix name)
unfolding join_path
join_path-IsUnder top prefix name h (inl same) =
    (name, ground (arith, filled_join prefix name (rw same h), same))
join_path-IsUnder top prefix name h (inr (rest, under)) = (
  rest & ("/" & name),
  filled_join prefix name (rw under (is_filled-slash top rest))
      ∙ (rw (under, append_assoc, append_assoc)),
)

bind-eq-some {ℓ} :
    {A B : Type ℓ} (m : Option A) (k : A → Option B) {b : B}
    → (m >>= k) ≡ some b
    → (a : A) × (m ≡ some a) × (k a ≡ some b)
bind-eq-some none k e = cc
bind-eq-some (some a) k e = (a, refl, e)

module _ (top : String) (filled : is_filled top ≡ true) where
  abbrev Inside : List UploadEntry → Type 0
  Inside out = All (λ e. IsUnder top e.relative_path) out

  Inside-of_some :
      (out : List UploadEntry) {found : List UploadEntry}
      → ◌≡◌ {A = Option (List UploadEntry)} (some out) (some found)
      → Inside out
      → Inside found
  Inside-of_some out {found} e inside = let same : out ≡ found = cc in subst Inside same inside

  mutual
    unfolding read_batches

    read_batches-Inside :
        (b : Batches) (prefix : String) (out : List UploadEntry) {found : List UploadEntry}
        → IsAt top prefix
        → Inside out
        → read_batches b prefix out ≡ some found
        → Inside found
    read_batches-Inside broken prefix out at inside e = cc
    read_batches-Inside done prefix out at inside e = Inside-of_some out e inside
    read_batches-Inside (batch nil more) prefix out at inside e = Inside-of_some out e inside
    read_batches-Inside (batch (cons child kids) more) prefix out at inside e =
        let (o, first, rest) = bind-eq-some (read_child child prefix out) _ e in
        let (o', second, third) = bind-eq-some (read_children kids prefix o) _ rest in
        read_batches-Inside more prefix o' at
          (read_children-Inside kids prefix o at
            (read_child-Inside child prefix out at inside first) second)
          third

    read_children-Inside :
        (kids : Entries) (prefix : String) (out : List UploadEntry) {found : List UploadEntry}
        → IsAt top prefix
        → Inside out
        → read_children kids prefix out ≡ some found
        → Inside found
    read_children-Inside nil prefix out at inside e = Inside-of_some out e inside
    read_children-Inside (cons child kids) prefix out at inside e =
        let (o, first, rest) = bind-eq-some (read_child child prefix out) _ e in
        read_children-Inside kids prefix o at (read_child-Inside child prefix out at inside first)
          rest

    read_child-Inside :
        (child : Entry) (prefix : String) (out : List UploadEntry) {found : List UploadEntry}
        → IsAt top prefix
        → Inside out
        → read_child child prefix out ≡ some found
        → Inside found
    read_child-Inside (file_entry name none) prefix out at inside e = cc
    read_child-Inside (file_entry name (some file)) prefix out at inside e =
        Inside-of_some (out ++ record { file = file; relative_path = join_path prefix name } ∷ []) e
          (All-append (λ e. IsUnder top e.relative_path) out
            (record { file = file; relative_path = join_path prefix name } ∷ []) inside
            (join_path-IsUnder top prefix name filled at, tt))
    read_child-Inside (dir_entry name entries) prefix out at inside e =
        read_batches-Inside entries (join_path prefix name) out
          (inr (join_path-IsUnder top prefix name filled at)) inside e
    read_child-Inside (other_entry name) prefix out at inside e = Inside-of_some out e inside

has_char-append : (c : ℕ) (s t : String) → has_char c (s & t) ≡ (has_char c s || has_char c t)
unfolding has_char
has_char-append c String.[] t = rw nil-append
has_char-append c (String.◌∷◌ d s) t = rw cons-append (ground (arith, has_char-append c s t))

has_slash-IsUnder : (top path : String) → IsUnder top path → has_char b'/' path ≡ true
unfolding has_char
has_slash-IsUnder top path (rest, under) =
    rw (under, has_char-append, has_char-append) (ground arith)

-- Every file that is read out of a dropped directory has a path that begins with the directory's
-- name and a slash, at any depth and however the reader splits the entries into batches.
pub resolve-IsUnder :
    (entries : Batches) (top : String) {found : List UploadEntry}
    → is_filled top ≡ true
    → resolve_pending_items (directory_item entries top ∷ []) ≡ some found
    → All (λ e. IsUnder top e.relative_path) found
unfolding resolve_pending_items
resolve-IsUnder entries top {found} filled e =
    let (o, read, rest) = bind-eq-some (read_batches entries top []) (resolve_from []) e in
    Inside-of_some top filled o rest
      (read_batches-Inside top filled entries top [] (inl refl) tt read)

-- So the drop of a directory with a file in it is a tree upload.
pub is_tree_upload_of_directory :
    (entries : Batches) (top : String) {e : UploadEntry} {rest : List UploadEntry}
    → is_filled top ≡ true
    → resolve_pending_items (directory_item entries top ∷ []) ≡ some (e ∷ rest)
    → is_tree_upload (e ∷ rest) ≡ true
unfolding is_tree_upload
is_tree_upload_of_directory entries top {e} {rest} filled h =
    ground (arith, has_slash-IsUnder top e.relative_path (resolve-IsUnder entries top filled h).0)

slashes-no_backslash : (s : String) → has_char 92 (slashes s) ≡ false
unfolding slashes has_char
slashes-no_backslash String.[] = refl
slashes-no_backslash (String.◌∷◌ c s) = elim (Bool-cases (eqb (code c) 92)) [
  | inl back ↦ rw (back, has_char-append, slashes-no_backslash s) refl
  | inr plain ↦ rw plain (ground (arith, slashes-no_backslash s))
]

-- The files of a file input keep their order and number, and no path has a backslash.
pub entries_from_file_list_lem :
    (files : List File)
    → (map (λ e. e.file) (entries_from_file_list files) ≡ files)
      × All (λ e. has_char 92 e.relative_path ≡ false) (entries_from_file_list files)
unfolding entries_from_file_list
entries_from_file_list_lem [] = (refl, tt)
entries_from_file_list_lem (file ∷ files) =
    let (kept, clean) = entries_from_file_list_lem files in
    (ap (◌∷◌ file) kept, (slashes-no_backslash (path_of file), clean))
