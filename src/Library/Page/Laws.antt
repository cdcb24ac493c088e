-- ===== src/Library/Page/Laws.antt =====
-- What the library page comes to when something is chosen on it, through its address.
use folium.Base.{
  ℕ, ◌<◌, ◌≡◌, refl, ap, ◌∙◌, String, Bool, true, false, not, ◌==◌, eq_iff, Option, some, List, [],
  ◌∷◌, ◌++◌, if◌then◌else◌, is_filled, is_truthy, is_some, get_or, filter, All, All-append, arith,
  Bool-cases, inl, inr,
}
use folium.Base.Sets.{has, has-append, has-filter, has-nil, has-cons}
use folium.Base.Text.{trim}
use folium.Query.{Params, get, get_all}
use folium.Library.{
  LibraryState, Patch, no_patch, parse_library_state, parse_positive_int, read_tags, add_parts,
  split_commas, text_of, patch, merge, all_documents,
}
use folium.Library.RoundTrip.{
  IsProper, filled_or_none_lem, reopened, filled_differs,
  parse_library_state-library_state_to_search_params,
}
use folium.Library.Page.{
  Request, bulk, BulkAction, BulkOptions, move, tag, is_empty, handle_bulk_action,
  handle_drop_documents, bulk_pressed, react, Page, state_of, Event, folder_from_viewer, toggled,
  chosen, tag_toggle, patch_of, navigate, addresses, last_of, same_scope,
}

parse_positive_int_lem : (o : Option String) (n : ℕ) → 0 < n → 0 < parse_positive_int o n
unfolding parse_positive_int
parse_positive_int_lem o n h = ground arith

filter-is_filled : (xs : List String) → All (λ t. is_filled t ≡ true) (filter is_filled xs)
filter-is_filled [] = tt
filter-is_filled (x ∷ xs) = elim (Bool-cases (is_filled x)) [
  | inl filled ↦ rw filled (filled, filter-is_filled xs)
  | inr blank ↦ rw blank (filter-is_filled xs)
]

add_parts_filled :
    (parts tags : List String)
    → All (λ t. is_filled t ≡ true) tags
    → All (λ t. is_filled t ≡ true) (add_parts parts tags)
unfolding add_parts
add_parts_filled [] tags h = h
add_parts_filled (part ∷ parts) tags h = elim (Bool-cases (is_filled (trim part))) [
  | inr blank ↦ rw blank (add_parts_filled parts tags h)
  | inl filled ↦ elim (Bool-cases (has (trim part) tags)) [
    | inl old ↦ rw (filled, old) (add_parts_filled parts tags h)
    | inr new ↦
        rw (filled, new)
          (add_parts_filled parts (tags ++ trim part ∷ [])
            (All-append (λ t. is_filled t ≡ true) tags (trim part ∷ []) h (filled, tt)))
  ]
]

tags_filled : (params : Params) → All (λ t. is_filled t ≡ true) (read_tags params)
unfolding read_tags
tags_filled params = elim (Bool-cases (is_truthy (get "tags" params))) [
  | inl more ↦ rw more (
      add_parts_filled (split_commas (text_of (get "tags" params)))
        (filter is_filled (get_all "tag" params)) (filter-is_filled (get_all "tag" params)))
  | inr none_there ↦ rw none_there (filter-is_filled (get_all "tag" params))
]

-- Every state that is read off an address is a proper one.
pub parse-IsProper : (params : Params) → IsProper (parse_library_state params)
unfolding parse_library_state
parse-IsProper params = record {
  folder_id = filled_or_none_lem (get "folder" params);
  doc_id = filled_or_none_lem (get "doc" params);
  tag_ids = tags_filled params;
  page = parse_positive_int_lem (get "page" params) 1 (omega arith);
  page_size = parse_positive_int_lem (get "pageSize" params) 50 (omega arith);
}

-- Whatever the address of the page, a patch of its state that is proper is what the page then shows,
-- with the query trimmed.
patched :
    (params : Params) (partial : Patch)
    → IsProper (merge (parse_library_state params) partial)
    → parse_library_state (patch (parse_library_state params) partial)
      ≡ record (merge (parse_library_state params) partial) {
        q = trim (merge (parse_library_state params) partial).q;
        viewer_page = reopened (merge (parse_library_state params) partial);
      }
unfolding patch
patched params partial proper =
    parse_library_state-library_state_to_search_params (merge (parse_library_state params) partial)
      [] proper

navigate-address :
    (e : Event) (p : Page) → (navigate e p).address ≡ last_of (addresses e (state_of p)) p.address
unfolding navigate
navigate-address e p =
    let next = record p { address = last_of (addresses e (state_of p)) p.address } in
    elim (Bool-cases (same_scope (state_of p) (state_of next))) [
      | inl same ↦ rw same refl
      | inr other ↦ rw other refl
    ]

-- A folder that is chosen in the viewer of a document becomes the folder of the page, but the document
-- stays open.
pub folder_from_viewer_lem :
    (p : Page) (folder_id : String)
    → is_filled folder_id ≡ true
    → ((state_of (navigate (folder_from_viewer (some folder_id)) p)).folder_id ≡ some folder_id)
      × ((state_of (navigate (folder_from_viewer (some folder_id)) p)).doc_id ≡ (state_of p).doc_id)
unfolding merge
folder_from_viewer_lem p folder_id filled =
    let proper = parse-IsProper p.address in
    let partial = record no_patch {
      folder_id = some (some folder_id);
      view = some all_documents;
    } in
    let shown =
      ap parse_library_state (navigate-address (folder_from_viewer (some folder_id)) p)
      ∙ patched p.address partial (record {
        folder_id = filled_differs folder_id filled;
        doc_id = proper.doc_id;
        tag_ids = proper.tag_ids;
        page = omega arith;
        page_size = proper.page_size;
      }) in
    (ap (λ (s : LibraryState). s.folder_id) shown, ap (λ (s : LibraryState). s.doc_id) shown)

kept_filled :
    (tag_id : String) (tags : List String)
    → All (λ t. is_filled t ≡ true) tags
    → All (λ t. is_filled t ≡ true) (filter (λ id. not (id == tag_id)) tags)
kept_filled tag_id [] h = tt
kept_filled tag_id (t ∷ tags) h = elim (Bool-cases (t == tag_id)) [
  | inl same ↦ rw same (kept_filled tag_id tags h.1)
  | inr other ↦ rw other (h.0, kept_filled tag_id tags h.1)
]

toggled_filled :
    (tag_id : String) (tags : List String)
    → is_filled tag_id ≡ true
    → All (λ t. is_filled t ≡ true) tags
    → All (λ t. is_filled t ≡ true) (toggled tag_id tags)
toggled_filled tag_id tags filled h = elim (Bool-cases (has tag_id tags)) [
  | inl old ↦ rw old (kept_filled tag_id tags h)
  | inr new ↦ rw new (All-append (λ t. is_filled t ≡ true) tags (tag_id ∷ []) h (filled, tt))
]

has-toggled :
    (tag_id other : String) (tags : List String)
    → has other (toggled tag_id tags)
      ≡ (if other == tag_id then not (has tag_id tags) else has other tags)
has-toggled tag_id other tags = ground (
  arith,
  has-filter (λ id. not (id == tag_id)) other tags,
  has-append other tags (tag_id ∷ []),
  has-cons other tag_id [],
  has-nil other,
  eq_iff other tag_id,
  eq_iff tag_id other,
)

-- A tag that is pressed is added to the tags of the page, or taken off, and the other tags stay.
pub tag_toggle_lem :
    (p : Page) (tag_id other : String)
    → is_filled tag_id ≡ true
    → has other (state_of (navigate (chosen (tag_toggle tag_id)) p)).tag_ids ≡ (
        if other == tag_id
        then not (has tag_id (state_of p).tag_ids)
        else has other (state_of p).tag_ids)
unfolding merge patch_of
tag_toggle_lem p tag_id other filled =
    let proper = parse-IsProper p.address in
    let partial = patch_of (tag_toggle tag_id) (state_of p) in
    let shown =
      ap parse_library_state (navigate-address (chosen (tag_toggle tag_id)) p)
      ∙ patched p.address partial (record {
        folder_id = proper.folder_id;
        doc_id = proper.doc_id;
        tag_ids = toggled_filled tag_id (state_of p).tag_ids filled proper.tag_ids;
        page = omega arith;
        page_size = proper.page_size;
      }) in
    ap (λ (s : LibraryState). has other s.tag_ids) shown
    ∙ has-toggled tag_id other (state_of p).tag_ids

-- A request for several documents names one at least, a move names its folder, and tags are given where
-- some are to be added.
abbrev pub IsComplete : Request → Type 0
IsComplete (bulk ids move options) = (is_empty ids ≡ false) × (is_some options.folder_id ≡ true)
IsComplete (bulk ids tag options) =
    (is_empty ids ≡ false) × (is_empty (get_or options.tag_ids []) ≡ false)
IsComplete (bulk ids action options) = is_empty ids ≡ false

bulk-IsComplete :
    (action : BulkAction) (options : BulkOptions) (answered : Bool) (p : Page)
    → All IsComplete (handle_bulk_action action options answered p).1
unfolding handle_bulk_action
bulk-IsComplete action options answered p = ground arith

-- Whatever happens on the page, a request that it sends for several documents is complete.
pub react-IsComplete : (e : Event) (p : Page) → All IsComplete (react e p).1
unfolding react handle_drop_documents
react-IsComplete (bulk_pressed action options answered) p =
    bulk-IsComplete action options answered p
react-IsComplete e p = ground arith
