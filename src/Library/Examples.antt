-- ===== src/Library/Examples.antt =====
-- The third page of the documents about taxes.
use folium.Base.{◌≡◌, refl, none, some, [], ◌∷◌, arith, if◌then◌else◌, ltb}
use folium.Base.Text.{trim}
use folium.Library.{
  LibraryState, recent, title, asc, hybrid, parse_library_state, library_state_to_search_params,
  patch, no_patch, open_document, read_tags, split_commas, add_parts,
}
use folium.Base.Sets.{has}
use folium.Query.{get, get_all}
use folium.Library.RoundTrip.{
  IsProper, reopened, filled_differs, parse_library_state-library_state_to_search_params,
  open_document-page, patch-page,
}

abbrev third : LibraryState
third = record {
  view = recent;
  folder_id = some "tax";
  q = " bill ";
  search_mode = hybrid;
  tag_ids = "t" ∷ [];
  sort = title;
  order = asc;
  page = 3;
  page_size = 50;
  doc_id = none;
  viewer_page = none;
}

third-IsProper : IsProper third
third-IsProper = record {
  folder_id = filled_differs "tax" refl;
  doc_id = λ e. ground (arith, e);
  tag_ids = (refl, tt);
  page = omega arith;
  page_size = omega arith;
}

legacy_tags : read_tags (("tag", "a") ∷ ("tags", "b, a,c") ∷ []) ≡ "a" ∷ "b" ∷ "c" ∷ []
unfolding read_tags split_commas trim get add_parts has get_all
legacy_tags = refl

parse_library_state-library_state_to_search_params_example :
    parse_library_state (library_state_to_search_params third (("view", "all") ∷ []))
    ≡ record third { q = trim " bill "; viewer_page = reopened third }
parse_library_state-library_state_to_search_params_example =
    parse_library_state-library_state_to_search_params third (("view", "all") ∷ []) third-IsProper

open_document-page_example :
    (parse_library_state (open_document third "d" none)).viewer_page
    ≡ (if ltb 1 3 then some 3 else none)
open_document-page_example = open_document-page third "d" third-IsProper refl

patch-page_example :
    ((parse_library_state (patch third (record no_patch { folder_id = some none }))).folder_id
      ≡ none)
    × ((parse_library_state (patch third (record no_patch { folder_id = some none }))).page ≡ 3)
patch-page_example = patch-page third third-IsProper
