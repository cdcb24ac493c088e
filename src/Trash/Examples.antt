-- ===== src/Trash/Examples.antt =====
-- A folder and the one in it are in the trash, with a document; another document is on its own.
use folium.Base.{
  ap, sym, ◌∙◌, get_or, ℕ, Bool, not, Option, ◌≡◌, refl, ◌⊎◌, ◌<◌, inl, inr, String, true, some,
  List, [], ◌∷◌, ◌==◌, if◌then◌else◌, arith,
}
use folium.Base.Sets.{has, add}
use folium.Types.{Document, Folder, FolderKind, blank_document}
use folium.Trash.{
  Request, Page, mounted, purge_folder, delete_document, restore_folder, bulk_restore,
  root_trashed_folders, loose_documents, doc_toggled, restore_document_pressed, delete_pressed, run,
  handle_restore_selected, handle_delete_selected_forever, ids_of, each, resolved_active_id,
}
use folium.Trash.Shown.{In, Below, document_shown}
use folium.Trash.Laws.{delete_lem, restored_blocks}

abbrev folder : String → Option String → Folder
folder id parent = record {
  id = id;
  name = id;
  parent_id = parent;
  kind = FolderKind.normal;
  sort_order = 0;
  path_cache = id;
  document_count = 0;
}

abbrev bills : Folder
bills = folder "bills" (some "root")

abbrev letters : Folder
letters = folder "letters" (some "bills")

abbrev trashed : List Folder
trashed = bills ∷ letters ∷ []

abbrev note : Document
note = record blank_document { id = "note"; folder_id = "letters" }

abbrev draft : Document
draft = record blank_document { id = "draft"; folder_id = "root" }

abbrev depth : String → ℕ
depth id = if id == "bills" then 1 else if id == "letters" then 2 else 0

deeper :
    (f : Folder) (parent : String)
    → In f trashed
    → f.parent_id ≡ some parent
    → depth parent < depth f.id
deeper f parent (inl same) e =
    let at_root : "root" ≡ parent =
      ap (λ (o : Option String). get_or o "") (sym (ap (λ (g : Folder). g.parent_id) same) ∙ e) in
    rw (sym at_root, same) (omega arith)
deeper f parent (inr (inl same)) e =
    let at_bills : "bills" ≡ parent =
      ap (λ (o : Option String). get_or o "") (sym (ap (λ (g : Folder). g.parent_id) same) ∙ e) in
    rw (sym at_bills, same) (omega arith)
deeper f parent (inr (inr none_there)) e = elim none_there [ ]

document_shown_example :
    In note (loose_documents trashed (note ∷ draft ∷ []))
    ⊎ ((top : Folder) × In top (root_trashed_folders trashed) × Below trashed "letters" top.id)
document_shown_example = document_shown trashed depth deeper (note ∷ draft ∷ []) note (inl refl)

abbrev chosen : Page
chosen = record mounted {
  selected_doc_ids = "draft" ∷ [];
  selected_folder_ids = "bills" ∷ "letters" ∷ [];
}

abbrev refuses_letters : Request → Bool
refuses_letters (purge_folder id) = not (id == "letters")
refuses_letters r = true

delete_lem_example :
    handle_delete_selected_forever refuses_letters true chosen
    ≡ (chosen, purge_folder "bills" ∷ purge_folder "letters" ∷ [])
delete_lem_example = delete_lem refuses_letters chosen

abbrev refuses_draft : Request → Bool
refuses_draft (delete_document id) = not (id == "draft")
refuses_draft r = true

restored_blocks_example :
    (run refuses_draft
      (doc_toggled "draft" true
        ∷ restore_document_pressed "draft"
        ∷ delete_pressed true
        ∷ delete_pressed true
        ∷ [])
      (record mounted { selected_doc_ids = "note" ∷ [] })).0
    ≡ record mounted { selected_doc_ids = add "draft" ("note" ∷ []) }
restored_blocks_example =
    restored_blocks refuses_draft "draft" 2 (record mounted { selected_doc_ids = "note" ∷ [] }) refl

tests :
    (ids_of (root_trashed_folders trashed) ≡ "bills" ∷ [])
    × (loose_documents trashed (note ∷ draft ∷ []) ≡ draft ∷ [])
    × (resolved_active_id (some "note") (loose_documents trashed (note ∷ draft ∷ []))
        ≡ some "draft")
    × (handle_restore_selected (λ r. true) chosen ≡ (
      mounted,
      restore_folder "bills" ∷ restore_folder "letters" ∷ bulk_restore ("draft" ∷ []) ∷ [],
    ))
unfolding root_trashed_folders loose_documents resolved_active_id handle_restore_selected each has
tests = (refl, refl, refl, refl)
