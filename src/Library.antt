-- ===== src/Library.antt =====
-- frontend/src/features/documents/useDocumentsLibraryState.ts: the state of the library page, which
-- stands in the query string of its address, and the requests that are made from it.
pub mod RoundTrip
pub mod Requests
pub mod Page
pub mod Legacy
mod Examples
use Prim.Native.Char.{Char, code}
use folium.Base.{
  ℕ, ◌≡◌, refl, String, Bool, true, false, not, ◌&&◌, ◌||◌, Option, none, some, List, [], ◌∷◌, ◌++◌,
  ◌==◌, ltb, leb, eqb, if◌then◌else◌, get_or, is_some, is_filled, is_truthy, length, filter,
}
use folium.Base.Sets.{has}
use folium.Query.{Params, get, get_all, put, append_all, delete_all}
use folium.Base.Text.{trim, show, has_char}
use folium.Base.Numerals.{parse_int}

pub data LibraryView : Type 0 where
  all_documents recent unprocessed : LibraryView

pub data LibrarySort : Type 0 where
  added_date title modified_date created_date : LibrarySort

pub data LibraryOrder : Type 0 where
  asc desc : LibraryOrder

pub data SearchMode : Type 0 where
  keyword semantic hybrid : SearchMode

pub record LibraryState : Type 0 where
  pub view : LibraryView
  pub folder_id : Option String
  pub q : String
  pub search_mode : SearchMode
  pub tag_ids : List String
  pub sort : LibrarySort
  pub order : LibraryOrder
  pub page : ℕ
  pub page_size : ℕ
  pub doc_id : Option String
  pub viewer_page : Option ℕ

abbrev is_raw : Option String → String → Bool
is_raw none s = false
is_raw (some r) s = r == s

unfoldable pub parse_view : Option String → LibraryView
parse_view raw =
    if is_raw raw "recent"
    then recent
    else if is_raw raw "unprocessed"
    then unprocessed
    else all_documents

unfoldable pub parse_sort : Option String → LibrarySort
parse_sort raw =
    if is_raw raw "title"
    then title
    else if is_raw raw "modified_date"
    then modified_date
    else if is_raw raw "created_date"
    then created_date
    else added_date

unfoldable pub parse_order : Option String → LibraryOrder
parse_order raw = if is_raw raw "asc" then asc else desc

unfoldable pub parse_search_mode : Option String → SearchMode
parse_search_mode raw =
    if is_raw raw "keyword" then keyword else if is_raw raw "semantic" then semantic else hybrid

unfoldable pub parse_positive_int : Option String → ℕ → ℕ
parse_positive_int none fallback = fallback
parse_positive_int (some raw) fallback =
    let n = get_or (parse_int raw) 0 in
    if not (is_filled raw) then fallback else if ltb 0 n then n else fallback

abbrev in_front : Char → List String → List String
in_front c [] = []
in_front c (part ∷ parts) = String.◌∷◌ c part ∷ parts

-- `s.split(",")`
unfoldable pub split_commas : String → List String
split_commas String.[] = "" ∷ []
split_commas (String.◌∷◌ c s) =
    let rest = split_commas s in if eqb (code c) 44 then "" ∷ rest else in_front c rest

pub add_parts : List String → List String → List String
add_parts [] tags = tags
add_parts (part ∷ parts) tags =
    let t = trim part in
    add_parts parts (if is_filled t && not (has t tags) then tags ++ t ∷ [] else tags)

-- `params.get(key) || undefined`
abbrev pub filled_or_none : Option String → Option String
filled_or_none none = none
filled_or_none (some s) = if is_filled s then some s else none

abbrev pub or_else : Option String → Option String → Option String
or_else (some s) other = some s
or_else none other = other

abbrev text_of : Option String → String
text_of none = ""
text_of (some s) = s

unfoldable pub read_tags : Params → List String
read_tags params =
    let tags = filter is_filled (get_all "tag" params) in
    if is_truthy (get "tags" params)
    then add_parts (split_commas (text_of (get "tags" params))) tags
    else tags

-- The page of the viewer: `viewerPage`, else `vp`, else, if a document is open, `page`.
unfoldable pub read_viewer_page : Params → Option ℕ
read_viewer_page params =
    let raw = or_else (get "viewerPage" params) (get "vp" params) in
    if is_truthy raw
    then some (parse_positive_int raw 1)
    else if is_some (get "doc" params)
        && is_truthy (get "page" params)
        && not (has_char 45 (text_of (get "page" params)))
    then some (parse_positive_int (get "page" params) 1)
    else none

pub parse_library_state : Params → LibraryState
parse_library_state params = record {
  view = parse_view (get "view" params);
  folder_id = filled_or_none (get "folder" params);
  q = text_of (get "q" params);
  search_mode = parse_search_mode (or_else (get "smode" params) (get "mode" params));
  tag_ids = read_tags params;
  sort = parse_sort (get "sort" params);
  order = parse_order (get "order" params);
  page = parse_positive_int (get "page" params) 1;
  page_size = parse_positive_int (get "pageSize" params) 50;
  doc_id = filled_or_none (get "doc" params);
  viewer_page = read_viewer_page params;
}

abbrev pub keys_to_clear : List String
keys_to_clear =
    "view" ∷ "folder" ∷ "q" ∷ "smode" ∷ "mode" ∷ "tag" ∷ "tags" ∷ "sort" ∷ "order" ∷ "page"
    ∷ "pageSize" ∷ "doc" ∷ "viewerPage" ∷ "vp" ∷ []

abbrev pub view_text : LibraryView → String
view_text all_documents = "all"
view_text recent = "recent"
view_text unprocessed = "unprocessed"

abbrev pub sort_text : LibrarySort → String
sort_text added_date = "added_date"
sort_text title = "title"
sort_text modified_date = "modified_date"
sort_text created_date = "created_date"

abbrev pub order_text : LibraryOrder → String
order_text asc = "asc"
order_text desc = "desc"

abbrev pub mode_text : SearchMode → String
mode_text keyword = "keyword"
mode_text semantic = "semantic"
mode_text hybrid = "hybrid"

abbrev pub is_late : Option ℕ → Bool
is_late none = false
is_late (some n) = ltb 1 n

abbrev pub number_of : Option ℕ → ℕ
number_of none = 0
number_of (some n) = n

-- What is written in front of the tags, and behind them.
pub put_scope : LibraryState → Params → Params
put_scope state next =
    put (not (mode_text state.search_mode == "hybrid")) "smode" (mode_text state.search_mode) (
      put (is_filled (trim state.q)) "q" (trim state.q) (
        put (is_truthy state.folder_id) "folder" (text_of state.folder_id)
          (put (not (view_text state.view == "all")) "view" (view_text state.view) next)))

pub put_list : LibraryState → Params → Params
put_list state next =
    put (is_late state.viewer_page) "viewerPage" (show (number_of state.viewer_page)) (
      put (is_truthy state.doc_id) "doc" (text_of state.doc_id) (
        put (not (eqb state.page_size 50)) "pageSize" (show state.page_size) (
          put (ltb 1 state.page) "page" (show state.page) (
            put (not (order_text state.order == "desc")) "order" (order_text state.order) (
              put (not (sort_text state.sort == "added_date")) "sort" (sort_text state.sort)
                next)))))

pub library_state_to_search_params : LibraryState → Params → Params
library_state_to_search_params state base =
    put_list state
      (append_all "tag" state.tag_ids (put_scope state (delete_all keys_to_clear base)))

-- A patch: a field is missing, or it is there; `folderId` and `docId` may be there as `undefined`.
pub record Patch : Type 0 where
  pub view : Option LibraryView
  pub folder_id : Option (Option String)
  pub q : Option String
  pub search_mode : Option SearchMode
  pub tag_ids : Option (List String)
  pub sort : Option LibrarySort
  pub order : Option LibraryOrder
  pub page : Option ℕ
  pub page_size : Option ℕ
  pub doc_id : Option (Option String)
  pub viewer_page : Option (Option ℕ)

-- `partial.folderId !== undefined`
abbrev pub is_given : Option (Option String) → Bool
is_given none = false
is_given (some value) = is_some value

abbrev pub starts_over : Patch → Bool
starts_over partial =
    not (is_some partial.page)
    && (is_some partial.view
        || is_given partial.folder_id
        || is_some partial.q
        || is_some partial.search_mode
        || is_some partial.tag_ids
        || is_some partial.sort
        || is_some partial.order)

-- The merged state of `patch`.
unfoldable pub merge : LibraryState → Patch → LibraryState
merge state partial = record {
  view = get_or partial.view state.view;
  folder_id = get_or partial.folder_id state.folder_id;
  q = get_or partial.q state.q;
  search_mode = get_or partial.search_mode state.search_mode;
  tag_ids = get_or partial.tag_ids state.tag_ids;
  sort = get_or partial.sort state.sort;
  order = get_or partial.order state.order;
  page = if starts_over partial then 1 else get_or partial.page state.page;
  page_size = get_or partial.page_size state.page_size;
  doc_id = get_or partial.doc_id state.doc_id;
  viewer_page = get_or partial.viewer_page state.viewer_page;
}

-- `patch`, as the query string that it navigates to.
pub patch : LibraryState → Patch → Params
patch state partial = library_state_to_search_params (merge state partial) []

abbrev pub no_patch : Patch
no_patch = record {
  view = none;
  folder_id = none;
  q = none;
  search_mode = none;
  tag_ids = none;
  sort = none;
  order = none;
  page = none;
  page_size = none;
  doc_id = none;
  viewer_page = none;
}

abbrev pub late : Option ℕ → Option ℕ
late none = none
late (some n) = if ltb 1 n then some n else none

pub open_document : LibraryState → String → Option ℕ → Params
open_document state doc_id viewer_page =
    patch state
      (record no_patch { doc_id = some (some doc_id); viewer_page = some (late viewer_page) })

pub close_document : LibraryState → Params
close_document state = patch state (record no_patch { doc_id = some none; viewer_page = some none })

pub set_viewer_page : LibraryState → ℕ → Params
set_viewer_page state viewer_page =
    patch state (record no_patch { viewer_page = some (late (some viewer_page)) })

abbrev pub defaults : LibraryState
defaults = record {
  view = all_documents;
  folder_id = none;
  q = "";
  search_mode = hybrid;
  tag_ids = [];
  sort = added_date;
  order = desc;
  page = 1;
  page_size = 50;
  doc_id = none;
  viewer_page = none;
}

-- `replaceLegacy`, as the query string that it navigates to.
pub replace_legacy : Patch → Params
replace_legacy partial =
    library_state_to_search_params
      (record (merge defaults partial) { page = get_or partial.page defaults.page }) []

-- `isEvidenceSearch`
abbrev pub is_evidence_search : LibraryState → Bool
is_evidence_search state = is_filled (trim state.q)
