-- ===== src/Library/Page.antt =====
-- frontend/src/features/documents/DocumentsPage.tsx: the address of the library page, the selection,
-- and what the page sends. A handler works with the state that the page was drawn with; of several
-- addresses that it navigates to, the last one stays.
pub mod Laws
mod Examples
use folium.Base.{
  ℕ, ◌+◌, ◌-◌, String, Bool, true, false, not, ◌&&◌, ◌||◌, ◌==◌, Option, none, some, List, [], ◌∷◌,
  ◌++◌, if◌then◌else◌, eqb, leb, is_filled, is_truthy, get_or, filter,
}
use folium.Base.Sets.{has}
use folium.Base.Text.{trim, join}
use folium.Query.{Params}
use folium.Library.{
  LibraryView, all_documents, LibrarySort, LibraryOrder, LibraryState, Patch, no_patch,
  parse_library_state, patch, open_document, close_document, set_viewer_page, view_text, mode_text,
  text_of,
}

pub record Page : Type 0 where
  pub address : Params
  pub selected_ids : List String

abbrev pub state_of : Page → LibraryState
state_of p = parse_library_state p.address

pub data BulkAction : Type 0 where
  tag untag move trash restore archive unarchive : BulkAction

-- `options.folder_id` and `options.tag_ids`, where they are there.
pub record BulkOptions : Type 0 where
  pub folder_id : Option String
  pub tag_ids : Option (List String)

pub data Request : Type 0 where
  bulk : (document_ids : List String) → BulkAction → BulkOptions → Request

abbrev pub is_empty : List String → Bool
is_empty [] = true
is_empty (x ∷ xs) = false

-- The early returns of `handleBulkAction`.
abbrev is_refused : BulkAction → BulkOptions → Bool
is_refused move options = not (is_truthy options.folder_id)
is_refused tag options = is_empty (get_or options.tag_ids [])
is_refused action options = false

-- `answered` is whether the request succeeds.
unfoldable pub handle_bulk_action : BulkAction → BulkOptions → Bool → Page → Page × List Request
handle_bulk_action action options answered p =
    if is_empty p.selected_ids || is_refused action options then (p, []) else (
      if answered then record p { selected_ids = [] } else p,
      bulk p.selected_ids action options ∷ [],
    )

unfoldable pub handle_drop_documents : String → List String → Bool → Page → Page × List Request
handle_drop_documents folder_id document_ids answered p =
    if is_empty document_ids then (p, []) else (
      if answered then record p { selected_ids = [] } else p,
      bulk document_ids move (record { folder_id = some folder_id; tag_ids = none }) ∷ [],
    )

abbrev pub toggled : String → List String → List String
toggled tag_id tag_ids =
    if has tag_id tag_ids then filter (λ id. not (id == tag_id)) tag_ids else tag_ids ++ tag_id ∷ []

-- What is chosen in the sidebar, the header, the breadcrumbs, the chips and the toolbar.
pub data Choice : Type 0 where
  sidebar_view header_view : LibraryView → Choice
  folder_select : (folder_id : Option String) → Choice
  tag_toggle : (tag_id : String) → Choice
  clear_query : Choice
  clear_tag : (tag_id : String) → Choice
  clear_folder : Choice
  sort_change : LibrarySort → LibraryOrder → Choice
  page_change : ℕ → Choice

unfoldable pub patch_of : Choice → LibraryState → Patch
patch_of (sidebar_view view) state = record no_patch { view = some view; folder_id = some none }
patch_of (header_view view) state = record no_patch { view = some view }
patch_of (folder_select folder_id) state = record no_patch {
  folder_id = some folder_id;
  view = some (if is_truthy folder_id then all_documents else state.view);
}
patch_of (tag_toggle tag_id) state = record no_patch {
  tag_ids = some (toggled tag_id state.tag_ids);
}
patch_of clear_query state = record no_patch { q = some "" }
patch_of (clear_tag tag_id) state = record no_patch {
  tag_ids = some (filter (λ id. not (id == tag_id)) state.tag_ids);
}
patch_of clear_folder state = record no_patch { folder_id = some none }
patch_of (sort_change sort order) state = record no_patch { sort = some sort; order = some order }
patch_of (page_change page) state = record no_patch { page = some page }

pub data Event : Type 0 where
  chosen : Choice → Event
  document_opened : (id : String) (page : Option ℕ) → Event
  document_closed : Event
  viewer_page_set : ℕ → Event
  folder_from_viewer : (folder_id : Option String) → Event
  selected : List String → Event
  bulk_pressed : BulkAction → BulkOptions → (answered : Bool) → Event
  documents_dropped : (folder_id : String) (document_ids : List String) (answered : Bool) → Event

-- The addresses that a handler navigates to, in order, all from the state of one drawing.
abbrev pub addresses : Event → LibraryState → List Params
addresses (chosen choice) s = patch s (patch_of choice s) ∷ []
addresses (document_opened id page) s = open_document s id page ∷ []
addresses document_closed s = close_document s ∷ []
addresses (viewer_page_set page) s = set_viewer_page s page ∷ []
addresses (folder_from_viewer folder_id) s =
    close_document s
    ∷ patch s (record no_patch { folder_id = some folder_id; view = some all_documents })
    ∷ []
addresses e s = []

abbrev pub last_of : List Params → Params → Params
last_of [] address = address
last_of (a ∷ more) address = last_of more a

-- What the effect that clears the selection depends on.
abbrev pub same_scope : LibraryState → LibraryState → Bool
same_scope s t =
    view_text s.view == view_text t.view
    && text_of s.folder_id == text_of t.folder_id
    && s.q == t.q
    && mode_text s.search_mode == mode_text t.search_mode
    && join "," s.tag_ids == join "," t.tag_ids
    && eqb s.page t.page

unfoldable pub navigate : Event → Page → Page
unfolding patch_of
navigate e p =
    let next = record p { address = last_of (addresses e (state_of p)) p.address } in
    if same_scope (state_of p) (state_of next) then next else record next { selected_ids = [] }

unfoldable pub react : Event → Page → Page × List Request
react (selected ids) p = (record p { selected_ids = ids }, [])
react (bulk_pressed action options answered) p = handle_bulk_action action options answered p
react (documents_dropped folder_id ids answered) p = handle_drop_documents folder_id ids answered p
react e p = (navigate e p, [])
