-- ===== src/Library/Legacy.antt =====
-- frontend/src/features/documents/LegacyDocumentsRedirect.tsx: where the former addresses
-- /documents/folder/:folderId/:documentId and /documents/:documentId lead. A parameter of the path
-- that is not there is `none`.
pub mod Laws
mod Examples
use folium.Base.{ℕ, String, Option, none, some, List, [], ◌∷◌, get_or, is_truthy, if◌then◌else◌}
use folium.Base.Numerals.{parse_int}
use folium.Query.{Params, get, set, delete_all}
use folium.Library.{
  LibraryState, defaults, filled_or_none, late, or_else, text_of, library_state_to_search_params,
}

-- `viewerPage`, as it is given to libraryStateToSearchParams.
unfoldable pub legacy_viewer_page : Params → Option ℕ
legacy_viewer_page search_params =
    let page_raw = or_else (get "viewerPage" search_params) (get "page" search_params) in
    if is_truthy page_raw then late (parse_int (text_of page_raw)) else none

abbrev pub legacy_state : Option String → Option String → Params → LibraryState
legacy_state folder_id document_id search_params = record defaults {
  folder_id = filled_or_none folder_id;
  doc_id = filled_or_none document_id;
  viewer_page = legacy_viewer_page search_params;
}

abbrev pub remapped : List String
remapped = "page" ∷ "viewerPage" ∷ "vp" ∷ "doc" ∷ "folder" ∷ "view" ∷ []

-- `for (const [k, v] of next.entries()) preserved.set(k, v)`
unfoldable pub set_each : Params → Params → Params
set_each [] preserved = preserved
set_each ((k, v) ∷ next) preserved = set_each next (set k v preserved)

-- The query of the address that is navigated to.
unfoldable pub redirect : Option String → Option String → Params → Params
redirect folder_id document_id search_params =
    set_each (library_state_to_search_params (legacy_state folder_id document_id search_params) [])
      (delete_all remapped search_params)
