-- ===== src/Trash/Shown.antt =====
-- Nothing in the trash is left out of what the page shows.
use folium.Base.{
  ℕ, zero, suc, ◌<◌, ◌≡◌, refl, ◌⊎◌, inl, inr, String, Bool, true, false, not, ◌==◌, eq_iff, some,
  List, [], ◌∷◌, filter, Bool-cases, arith, ◌∙◌, sym, Option-cases, ap,
}
use folium.Base.Sets.{has}
use folium.Types.{Document, Folder}
use folium.Trash.{ids_of, is_top, root_trashed_folders, loose_documents}

abbrev pub In : {A : Type 0} → A → List A → Type 0
In f [] = ⊥
In f (g ∷ gs) = (f ≡ g) ⊎ In f gs

-- The second folder is the first one, or one of those that it stands in, in the trash throughout.
pub data Below (trashed : List Folder) : String → String → Type 0 where
  here : {id : String} → Below trashed id id
  inside :
      (f : Folder) {parent top : String}
      → In f trashed
      → f.parent_id ≡ some parent
      → Below trashed parent top
      → Below trashed f.id top

In-filter :
    {A : Type 0} (p : A → Bool) (f : A) (fs : List A) → In f fs → p f ≡ true → In f (filter p fs)
In-filter p f [] h t = h
In-filter p f (g ∷ fs) (inl e) t = rw (ap p (sym e) ∙ t) (inl e)
In-filter p f (g ∷ fs) (inr h) t = elim (Bool-cases (p g)) [
  | inl kept ↦ rw kept (inr (In-filter p f fs h t))
  | inr dropped ↦ rw dropped (In-filter p f fs h t)
]

folder_of_id :
    (id : String) (fs : List Folder)
    → has id (ids_of fs) ≡ true
    → (f : Folder) × In f fs × (f.id ≡ id)
unfolding has
folder_of_id id [] h = let none_there : ⊥ = ground arith in elim none_there [ ]
folder_of_id id (g ∷ fs) h = elim (Bool-cases (g.id == id)) [
  | inl e ↦ (g, inl refl, (eq_iff g.id id).0 e)
  | inr other ↦ let (f, there, same) = folder_of_id id fs (rw other at h) in (f, inr there, same)
]

module _ (trashed : List Folder) (depth : String → ℕ)
    (deeper : (f : Folder) (parent : String)
      → In f trashed
      → f.parent_id ≡ some parent
      → depth parent < depth f.id) where
  not_top :
      (f : Folder)
      → is_top trashed f ≡ false
      → (parent : String) × (f.parent_id ≡ some parent) × (has parent (ids_of trashed) ≡ true)
  not_top f h = elim (Option-cases f.parent_id) [
    | inl missing ↦ let none_there : ⊥ = ground arith in elim none_there [ ]
    | inr (parent, e) ↦ (parent, e, ground arith)
  ]

  top_of :
      (bound : ℕ) (f : Folder)
      → In f trashed
      → depth f.id < bound
      → (top : Folder) × In top (root_trashed_folders trashed) × Below trashed f.id top.id
  unfolding root_trashed_folders
  top_of zero f there h = let none_there : ⊥ = omega arith in elim none_there [ ]
  top_of (suc bound) f there h = elim (Bool-cases (is_top trashed f)) [
    | inl top ↦ (f, In-filter (is_top trashed) f trashed there top, here)
    | inr below ↦
        let (parent, e, known) = not_top f below in
        let (g, inside_too, same) = folder_of_id parent trashed known in
        let (top, shown, path) =
          top_of bound g inside_too (omega (arith, h, deeper f parent there e, ap depth same)) in
        (top, shown, inside f there e (rw same at path))
  ]

  -- Where the folders of the trash form no circle, as `depth` says, each of them stands below one that
  -- the page shows, or is one.
  pub folder_shown :
      (f : Folder)
      → In f trashed
      → (top : Folder) × In top (root_trashed_folders trashed) × Below trashed f.id top.id
  folder_shown f there = top_of (suc (depth f.id)) f there (omega arith)

  -- Where the folders of the trash form no circle, as `depth` says, each trashed document is shown, or
  -- it stands in a folder below one that is shown, or in that one.
  pub document_shown :
      (documents : List Document) (d : Document)
      → In d documents
      → In d (loose_documents trashed documents)
        ⊎ ((top : Folder) × In top (root_trashed_folders trashed)
            × Below trashed d.folder_id top.id)
  unfolding loose_documents
  document_shown documents d there = elim (Bool-cases (has d.folder_id (ids_of trashed))) [
    | inr loose ↦ inl (
        In-filter (λ (d : Document). not (has d.folder_id (ids_of trashed))) d documents there
          (ap not loose))
    | inl inner ↦
        let (f, known, same) = folder_of_id d.folder_id trashed inner in
        let (top, shown, path) = folder_shown f known in inr (top, shown, rw same at path)
  ]
