-- ===== src/Library/Legacy/Laws.antt =====
-- What the library page shows for a former address.
use folium.Base.{ℕ, String, ◌&&◌, Option, none, some, List, [], ◌∷◌, ◌==◌, if◌then◌else◌, is_truthy}
use folium.Base.Sets.{has}
use folium.Base.Text.{show}
use folium.Query.{Params, get, put, delete_all}
use folium.Library.{LibraryState, all_documents, parse_library_state, text_of, is_late, number_of}
use folium.Library.Legacy.{remapped}

abbrev written : Option String → Option String → Option ℕ → Params → Params
written folder doc page base = put (is_late page) "viewerPage" (show (number_of page)) (
    put (is_truthy doc) "doc" (text_of doc) (put (is_truthy folder) "folder" (text_of folder) base))

-- What the new address gives for a key.
abbrev found : Option String → Option String → Option ℕ → Params → String → Option String
found folder doc page params k =
    if ("viewerPage" == k) && is_late page
    then some (show (number_of page))
    else if ("doc" == k) && is_truthy doc
    then some (text_of doc)
    else if ("folder" == k) && is_truthy folder
    then some (text_of folder)
    else if has k remapped
    then none
    else get k params

module _ (folder doc : Option String) (page : Option ℕ) (params : Params) where
  abbrev w : Params
  w = written folder doc page (delete_all remapped params)

  -- The state that the new address leads to, but for the page of the viewer.
  abbrev shown : Option ℕ → LibraryState
  shown viewer_page = record (parse_library_state params) {
    view = all_documents;
    folder_id = folder;
    doc_id = doc;
    page = 1;
    viewer_page = viewer_page;
  }

-- The keys that the redirection replaces.
abbrev pub replaced : List String
replaced = "page" ∷ "viewerPage" ∷ "vp" ∷ "doc" ∷ "folder" ∷ "view" ∷ []
