-- ===== src/Library/Requests/Asked.antt =====
-- What the server is asked for a state of the library page.
use folium.Base.{
  ◌<◌, ◌≡◌, refl, ◌∙◌, String, Bool, true, false, ◌&&◌, ◌||◌, Option, none, some, List, ◌==◌, arith,
  if◌then◌else◌, is_filled, is_truthy,
}
use folium.Base.Sets.{has, IsDistinct}
use folium.Base.Text.{trim, show}
use folium.Base.Numerals.{show-is_filled}
use folium.Query.{Params, get}
use folium.Client.{build_url}
use folium.Client.Laws.{entry_of, keys, filled_or_none, get-build_url}
use folium.Library.{
  LibraryState, LibrarySort, LibraryOrder, sort_text, order_text, added_date, desc,
}
use folium.Library.Requests.{
  DocumentListParams, library_state_to_list_params, library_state_to_evidence_search_request,
  library_state_to_search_snapshot, document_params_to_query, field, is_recent, is_unprocessed,
}

has-field :
    (k j v : String) (keep : Bool) (rest : List (String × Option String))
    → has k (keys (field keep j v rest)) ≡ ((j == k) && keep) || has k (keys rest)
unfolding has field
has-field k j v true rest = ground arith
has-field k j v false rest = ground arith

-- No key stands twice.
record Apart (params : List (String × Option String)) : Type 0 where
  distinct : IsDistinct (keys params)

field-Apart :
    (keep : Bool) (j v : String) (rest : List (String × Option String))
    → Apart rest
    → has j (keys rest) ≡ false
    → Apart (field keep j v rest)
unfolding field
field-Apart true j v rest a h = record { distinct = (h, a.distinct) }
field-Apart false j v rest a h = a

entry_of-field :
    (k j v : String) (keep : Bool) (rest : List (String × Option String))
    → entry_of k (field keep j v rest) ≡ (if (j == k) && keep then some v else entry_of k rest)
unfolding field
entry_of-field k j v true rest = ground arith
entry_of-field k j v false rest = ground arith

params-Apart : (params : DocumentListParams) → Apart (document_params_to_query params)
unfolding document_params_to_query has
params-Apart params =
    field-Apart _ _ _ _
      (field-Apart _ _ _ _
        (field-Apart _ _ _ _
          (field-Apart _ _ _ _
            (field-Apart _ _ _ _
              (field-Apart _ _ _ _
                (field-Apart _ _ _ _
                  (field-Apart _ _ _ _
                    (field-Apart _ _ _ _
                      (field-Apart _ _ _ _
                        (field-Apart _ _ _ _ (field-Apart _ _ _ _ (record { distinct = tt }) refl)
                          (simp has-field refl))
                        (simp has-field refl))
                      (simp has-field refl))
                    (simp has-field refl))
                  (simp has-field refl))
                (simp has-field refl))
              (simp has-field refl))
            (simp has-field refl))
          (simp has-field refl))
        (simp has-field refl))
      (simp has-field refl)

-- The query of the address that lists the documents of a state.
abbrev pub list_query : LibraryState → Params
list_query s = build_url (document_params_to_query (library_state_to_list_params s))

asked :
    (k : String) (s : LibraryState)
    → get k (list_query s)
      ≡ filled_or_none (entry_of k (document_params_to_query (library_state_to_list_params s)))
asked k s =
    get-build_url k (document_params_to_query (library_state_to_list_params s))
      (params-Apart (library_state_to_list_params s)).distinct

sort_kept : (sort : LibrarySort) → filled_or_none (some (sort_text sort)) ≡ some (sort_text sort)
sort_kept LibrarySort.added_date = refl
sort_kept LibrarySort.title = refl
sort_kept LibrarySort.modified_date = refl
sort_kept LibrarySort.created_date = refl

order_kept :
    (order : LibraryOrder) → filled_or_none (some (order_text order)) ≡ some (order_text order)
order_kept LibraryOrder.asc = refl
order_kept LibraryOrder.desc = refl

-- What the server is asked for a state whose page and page size are not 0: the folder, if one is
-- chosen, with its descendants; documents outside the inbox, or in the view of unprocessed
-- documents those instead; the page; and the order of the state, or in the view of recent
-- documents the newest first. It is never asked for a text or for the trash.
pub list_query_lem :
    (s : LibraryState)
    → 0 < s.page
    → 0 < s.page_size
    → (get "folder_id" (list_query s) ≡ filled_or_none s.folder_id)
      × (get "include_descendants" (list_query s)
          ≡ (if is_truthy s.folder_id then some "true" else none))
      × (get "inbox" (list_query s) ≡ (if is_unprocessed s.view then none else some "false"))
      × (get "unprocessed" (list_query s) ≡ (if is_unprocessed s.view then some "true" else none))
      × (get "page" (list_query s) ≡ some (show s.page))
      × (get "page_size" (list_query s) ≡ some (show s.page_size))
      × (get "sort" (list_query s)
          ≡ some (sort_text (if is_recent s.view then added_date else s.sort)))
      × (get "order" (list_query s)
          ≡ some (order_text (if is_recent s.view then desc else s.order)))
      × (get "q" (list_query s) ≡ none)
      × (get "trashed" (list_query s) ≡ none)
unfolding document_params_to_query library_state_to_list_params
list_query_lem s p z = (
  asked "folder_id" s ∙ simp entry_of-field (ground arith),
  asked "include_descendants" s ∙ simp entry_of-field (ground arith),
  asked "inbox" s ∙ simp entry_of-field (ground arith),
  asked "unprocessed" s ∙ simp entry_of-field (ground arith),
  asked "page" s ∙ simp entry_of-field (ground (arith, show-is_filled s.page)),
  asked "page_size" s ∙ simp entry_of-field (ground (arith, show-is_filled s.page_size)),
  asked "sort" s
      ∙ simp entry_of-field (sort_kept (if is_recent s.view then added_date else s.sort)),
  asked "order" s ∙ simp entry_of-field (order_kept (if is_recent s.view then desc else s.order)),
  asked "q" s ∙ simp entry_of-field refl,
  asked "trashed" s ∙ simp entry_of-field refl,
)

-- The search, the question about a search and the list ask for the same documents: folder,
-- descendants, tags, view and inbox agree; a question can be asked exactly if the query is not empty.
pub requests_agree :
    (s : LibraryState)
    → ((library_state_to_evidence_search_request s).folder_id
        ≡ (library_state_to_list_params s).folder_id)
      × (some (library_state_to_evidence_search_request s).include_descendants
          ≡ (library_state_to_list_params s).include_descendants)
      × ((library_state_to_evidence_search_request s).tag_ids
          ≡ (library_state_to_list_params s).tag_ids)
      × ((library_state_to_evidence_search_request s).unprocessed
          ≡ (library_state_to_list_params s).unprocessed)
      × ((library_state_to_evidence_search_request s).inbox
          ≡ (library_state_to_list_params s).inbox)
      × (library_state_to_search_snapshot s ≡ (
          if is_filled (trim s.q)
          then some (record (library_state_to_evidence_search_request s) {
            page = none;
            page_size = none;
          })
          else none))
unfolding library_state_to_list_params library_state_to_evidence_search_request
    library_state_to_search_snapshot
requests_agree s = ground arith
