-- ===== src/Library/Requests.antt =====
-- The requests that the library page makes from its state: `libraryStateToListParams`,
-- `libraryStateToEvidenceSearchRequest` and `libraryStateToSearchSnapshot` of
-- useDocumentsLibraryState.ts, and `documentParamsToQuery` of frontend/src/lib/api/hooks.ts.
pub mod Asked
use folium.Base.{
  ℕ, String, Bool, true, false, not, ◌&&◌, ◌||◌, Option, none, some, List, [], ◌∷◌, ltb,
  if◌then◌else◌, is_filled, is_truthy, is_some,
}
use folium.Base.Text.{trim, show, join}
use folium.Library.{
  LibraryView, recent, unprocessed, LibraryState, LibrarySort, added_date, LibraryOrder, desc,
  SearchMode, sort_text, order_text, text_of,
}

pub record DocumentListParams : Type 0 where
  pub folder_id : Option String
  pub include_descendants : Option Bool
  pub inbox : Option Bool
  pub inbox_status : Option String
  pub trashed : Option Bool
  pub unprocessed : Option Bool
  pub tag_ids : Option (List String)
  pub q : Option String
  pub page : Option ℕ
  pub page_size : Option ℕ
  pub sort : Option LibrarySort
  pub order : Option LibraryOrder

abbrev pub is_recent : LibraryView → Bool
is_recent recent = true
is_recent _ = false

abbrev pub is_unprocessed : LibraryView → Bool
is_unprocessed unprocessed = true
is_unprocessed _ = false

abbrev pub some_tags : List String → Option (List String)
some_tags [] = none
some_tags tags = some tags

unfoldable pub library_state_to_list_params : LibraryState → DocumentListParams
library_state_to_list_params state = record {
  folder_id = state.folder_id;
  include_descendants = some (is_truthy state.folder_id);
  inbox = if is_unprocessed state.view then none else some false;
  inbox_status = none;
  trashed = none;
  unprocessed = if is_unprocessed state.view then some true else none;
  tag_ids = some_tags state.tag_ids;
  q = none;
  page = some state.page;
  page_size = some state.page_size;
  sort = some (if is_recent state.view then added_date else state.sort);
  order = some (if is_recent state.view then desc else state.order);
}

-- The fields of `SearchRequest` and of `SearchScopeSnapshot` that are set; a snapshot has no page.
pub record SearchRequest : Type 0 where
  pub query : String
  pub mode : SearchMode
  pub folder_id : Option String
  pub include_descendants : Bool
  pub tag_ids : Option (List String)
  pub unprocessed : Option Bool
  pub inbox : Option Bool
  pub page : Option ℕ
  pub page_size : Option ℕ

unfoldable pub library_state_to_evidence_search_request : LibraryState → SearchRequest
library_state_to_evidence_search_request state = record {
  query = trim state.q;
  mode = state.search_mode;
  folder_id = state.folder_id;
  include_descendants = is_truthy state.folder_id;
  tag_ids = some_tags state.tag_ids;
  unprocessed = if is_unprocessed state.view then some true else none;
  inbox = if is_unprocessed state.view then none else some false;
  page = some state.page;
  page_size = some state.page_size;
}

unfoldable pub library_state_to_search_snapshot : LibraryState → Option SearchRequest
library_state_to_search_snapshot state =
    let query = trim state.q in
    if not (is_filled query)
    then none
    else some (record {
      query = query;
      mode = state.search_mode;
      folder_id = state.folder_id;
      include_descendants = is_truthy state.folder_id;
      tag_ids = some_tags state.tag_ids;
      unprocessed = if is_unprocessed state.view then some true else none;
      inbox = if is_unprocessed state.view then none else some false;
      page = none;
      page_size = none;
    })

-- `String(flag)`
abbrev pub flag_text : Bool → String
flag_text true = "true"
flag_text false = "false"

-- `if (keep) q[key] = value`
unfoldable pub field :
    Bool → String → String → List (String × Option String) → List (String × Option String)
field keep key value q = if keep then (key, some value) ∷ q else q

abbrev pub is_on : Option Bool → Bool
is_on none = false
is_on (some flag) = flag

abbrev pub flag_of : Option Bool → String
flag_of none = ""
flag_of (some flag) = flag_text flag

abbrev pub tags_of : Option (List String) → List String
tags_of none = []
tags_of (some tags) = tags

abbrev pub has_tags : Option (List String) → Bool
has_tags (some (tag ∷ tags)) = true
has_tags _ = false

abbrev pub is_positive : Option ℕ → Bool
is_positive none = false
is_positive (some n) = ltb 0 n

abbrev pub number_text : Option ℕ → String
number_text none = ""
number_text (some n) = show n

abbrev pub sort_field : Option LibrarySort → String
sort_field none = ""
sort_field (some sort) = sort_text sort

abbrev pub order_field : Option LibraryOrder → String
order_field none = ""
order_field (some order) = order_text order

-- The entries of `q`, with the texts that `buildUrl` makes of their values.
unfoldable pub document_params_to_query : DocumentListParams → List (String × Option String)
document_params_to_query params =
    field (is_truthy params.folder_id) "folder_id" (text_of params.folder_id) (
      field (is_on params.include_descendants) "include_descendants" "true" (
        field (is_some params.inbox) "inbox" (flag_of params.inbox) (
          field (is_truthy params.inbox_status) "inbox_status" (text_of params.inbox_status) (
            field (is_on params.trashed) "trashed" "true" (
              field (is_some params.unprocessed) "unprocessed" (flag_of params.unprocessed) (
                field (has_tags params.tag_ids) "tag_ids" (join "," (tags_of params.tag_ids)) (
                  field (is_truthy params.q) "q" (text_of params.q) (
                    field (is_positive params.page) "page" (number_text params.page) (
                      field (is_positive params.page_size) "page_size"
                        (number_text params.page_size)
                        (field (is_some params.sort) "sort" (sort_field params.sort) (
                          field (is_some params.order) "order" (order_field params.order)
                            [])))))))))))
