-- ===== src/Library/RoundTrip.antt =====
-- What the library page reads of an address that it has written.
pub mod Fields
use folium.Base.{
  ℕ, ◌<◌, ◌≡◌, ◌≢◌, refl, sym, ap, ◌∙◌, String, Bool, true, false, not, ◌&&◌, Option, none, some,
  List, [], ◌∷◌, ◌==◌, arith, ltb, eqb, if◌then◌else◌, eq_iff, Bool-cases, inl, inr, All, filter,
  is_filled, is_truthy, is_some,
}
use folium.Base.Sets.{has}
use folium.Base.Text.{trim, show, has_char}
use folium.Base.Numerals.{parse_int-show, show-has_char, show-is_filled}
use folium.Query.{Params, get, get_all}
use folium.Library.{
  LibraryState, LibraryView, LibrarySort, LibraryOrder, SearchMode, parse_view, parse_sort,
  parse_order, parse_search_mode, parse_positive_int, filled_or_none, or_else, text_of, read_tags,
  read_viewer_page, parse_library_state, put_scope, put_list, library_state_to_search_params,
  view_text, sort_text, order_text, mode_text, is_late, number_of, keys_to_clear, merge, patch,
  no_patch, open_document,
}
use folium.Query.Written.{
  get-put, get_all-put, get-append_all, get_all-append_all, get-delete_all, get_all-delete_all,
}
use folium.Library.RoundTrip.Fields.{
  written, get-written, parse_view_lem, parse_sort_lem, parse_order_lem, parse_mode_lem,
  filter_filled, text_lem, optional_lem, number_lem, legacy_lem, own_lem,
}

-- The texts and numbers of the state are as the page itself sets them.
pub record IsProper (s : LibraryState) : Type 0 where
  pub folder_id : s.folder_id ≢ some ""
  pub doc_id : s.doc_id ≢ some ""
  pub tag_ids : All (λ t. is_filled t ≡ true) s.tag_ids
  pub page : 0 < s.page
  pub page_size : 0 < s.page_size

-- The viewer's page after the address is read: without one of its own, an open document takes the
-- page of the list, if that is not the first.
abbrev pub reopened : LibraryState → Option ℕ
reopened s =
    if is_late s.viewer_page
    then s.viewer_page
    else if is_truthy s.doc_id && ltb 1 s.page
    then some s.page
    else none

module _ (s : LibraryState) (base : Params) where
  abbrev w : Params
  w = library_state_to_search_params s base

  view-written : parse_view (get "view" w) ≡ s.view
  unfolding has
  view-written = rw (get-written s base "view" refl) (parse_view_lem s.view)

  sort-written : parse_sort (get "sort" w) ≡ s.sort
  unfolding has
  sort-written = rw (get-written s base "sort" refl) (parse_sort_lem s.sort)

  order-written : parse_order (get "order" w) ≡ s.order
  unfolding has
  order-written = rw (get-written s base "order" refl) (parse_order_lem s.order)

  mode-written : parse_search_mode (or_else (get "smode" w) (get "mode" w)) ≡ s.search_mode
  unfolding has
  mode-written =
      rw (get-written s base "smode" refl, get-written s base "mode" refl)
        (parse_mode_lem s.search_mode)

  q-written : text_of (get "q" w) ≡ trim s.q
  unfolding has
  q-written = rw (get-written s base "q" refl) (text_lem (trim s.q))

  folder-written : s.folder_id ≢ some "" → filled_or_none (get "folder" w) ≡ s.folder_id
  unfolding has
  folder-written h = rw (get-written s base "folder" refl) (optional_lem s.folder_id h)

  doc-written : s.doc_id ≢ some "" → filled_or_none (get "doc" w) ≡ s.doc_id
  unfolding has
  doc-written h = rw (get-written s base "doc" refl) (optional_lem s.doc_id h)

  page-written : 0 < s.page → parse_positive_int (get "page" w) 1 ≡ s.page
  unfolding has
  page-written h =
      rw (get-written s base "page" refl) (number_lem s.page 1 (ltb 1 s.page) h (λ k. ground arith))

  page_size-written : 0 < s.page_size → parse_positive_int (get "pageSize" w) 50 ≡ s.page_size
  unfolding has
  page_size-written h =
      rw (get-written s base "pageSize" refl)
        (number_lem s.page_size 50 (not (eqb s.page_size 50)) h (λ k. ground arith))

  tags_all : get_all "tag" w ≡ s.tag_ids
  unfolding library_state_to_search_params put_scope put_list has
  tags_all =
      rw
        (
          get_all-put, get_all-put, get_all-put, get_all-put, get_all-put, get_all-put,
          get_all-append_all, get_all-put, get_all-put, get_all-put, get_all-put,
          get_all-delete_all,
        )
        refl

  tags-written : All (λ t. is_filled t ≡ true) s.tag_ids → read_tags w ≡ s.tag_ids
  unfolding has read_tags
  tags-written h = rw (get-written s base "tags" refl) (rw tags_all (filter_filled s.tag_ids h))

  viewer-written : 0 < s.page → read_viewer_page w ≡ reopened s
  unfolding has read_viewer_page
  viewer-written h =
      rw
        (
          get-written s base "viewerPage" refl,
          get-written s base "vp" refl,
          get-written s base "doc" refl,
          get-written s base "page" refl,
        )
        (own_lem s.viewer_page _
          ∙ ap (λ o. if is_late s.viewer_page then s.viewer_page else o)
              (legacy_lem (is_truthy s.doc_id) (text_of s.doc_id) s.page (ltb 1 s.page) h))

  -- Reading an address that was written for a proper state gives the state back, with its query
  -- trimmed, and with the page of the viewer as `reopened` says.
  pub parse_library_state-library_state_to_search_params :
      IsProper s → parse_library_state w ≡ record s { q = trim s.q; viewer_page = reopened s }
  unfolding parse_library_state
  parse_library_state-library_state_to_search_params proper =
      rw
        (
          view-written,
          folder-written proper.folder_id,
          q-written,
          mode-written,
          tags-written proper.tag_ids,
          sort-written,
          order-written,
          page-written proper.page,
          page_size-written proper.page_size,
          doc-written proper.doc_id,
          viewer-written proper.page,
        )
        refl

-- A text that is not empty is no empty text.
pub filled_differs : (t : String) → is_filled t ≡ true → some t ≢ some ""
filled_differs t filled e =
    let same : t ≡ "" = ap text_of e in let bad : is_filled "" ≡ true = rw same at filled in cc

pub filled_or_none_lem : (o : Option String) → filled_or_none o ≢ some ""
filled_or_none_lem none e = ground (arith, e)
filled_or_none_lem (some s) e = elim (Bool-cases (is_filled s)) [
  | inl filled ↦ filled_differs s filled (rw filled at e)
  | inr blank ↦ let gone : none ≡ some "" = rw blank at e in ground (arith, gone)
]

-- From a proper state, a document that is opened without a page of its own is shown at the page of the list, from the
-- second page of the list on; on the first page of the list it has no page.
pub open_document-page :
    (s : LibraryState) (id : String)
    → IsProper s
    → is_filled id ≡ true
    → (parse_library_state (open_document s id none)).viewer_page
      ≡ (if ltb 1 s.page then some s.page else none)
unfolding open_document patch merge
open_document-page s id proper filled =
    ap (λ t. t.viewer_page)
      (parse_library_state-library_state_to_search_params
        (record s { doc_id = some id; viewer_page = none }) []
        (record {
          folder_id = proper.folder_id;
          doc_id = filled_differs id filled;
          tag_ids = proper.tag_ids;
          page = proper.page;
          page_size = proper.page_size;
        }))
    ∙ rw filled refl

-- In a proper state, taking the folder off the filters keeps the page of the list, if the patch has nothing else.
pub patch-page :
    (s : LibraryState)
    → IsProper s
    → ((parse_library_state (patch s (record no_patch { folder_id = some none }))).folder_id ≡ none)
      × ((parse_library_state (patch s (record no_patch { folder_id = some none }))).page ≡ s.page)
unfolding patch merge
patch-page s proper =
    let back =
      parse_library_state-library_state_to_search_params (record s { folder_id = none }) []
        (record {
          folder_id = λ e. ground (arith, e);
          doc_id = proper.doc_id;
          tag_ids = proper.tag_ids;
          page = proper.page;
          page_size = proper.page_size;
        }) in
    (ap (λ t. t.folder_id) back, ap (λ t. t.page) back)
