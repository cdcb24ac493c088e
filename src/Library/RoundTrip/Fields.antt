-- ===== src/Library/RoundTrip/Fields.antt =====
-- What an address that the library page has written gives for each key, and how each field is read.
use folium.Base.{
  ℕ, ◌<◌, ◌≡◌, ◌≢◌, refl, sym, ap, String, Bool, true, false, not, ◌&&◌, Option, none, some, List,
  [], ◌∷◌, ◌==◌, arith, ltb, eqb, if◌then◌else◌, eq_iff, Bool-cases, inl, inr, All, filter,
  is_filled, is_truthy, is_some,
}
use folium.Base.Sets.{has}
use folium.Base.Text.{trim, show, has_char}
use folium.Base.Numerals.{parse_int-show, show-has_char, show-is_filled}
use folium.Query.{Params, get}
use folium.Library.{
  LibraryState, LibraryView, LibrarySort, LibraryOrder, SearchMode, parse_view, parse_sort,
  parse_order, parse_search_mode, parse_positive_int, filled_or_none, or_else, text_of, put_scope,
  put_list, library_state_to_search_params, view_text, sort_text, order_text, mode_text, is_late,
  number_of, keys_to_clear,
}
use folium.Query.Written.{get-put, get-append_all, get-delete_all}

-- What the address gives for a key.
abbrev pub written : LibraryState → Params → String → Option String
written s base k =
    if ("viewerPage" == k) && is_late s.viewer_page
    then some (show (number_of s.viewer_page))
    else if ("doc" == k) && is_truthy s.doc_id
    then some (text_of s.doc_id)
    else if ("pageSize" == k) && not (eqb s.page_size 50)
    then some (show s.page_size)
    else if ("page" == k) && ltb 1 s.page
    then some (show s.page)
    else if ("order" == k) && not (order_text s.order == "desc")
    then some (order_text s.order)
    else if ("sort" == k) && not (sort_text s.sort == "added_date")
    then some (sort_text s.sort)
    else if ("smode" == k) && not (mode_text s.search_mode == "hybrid")
    then some (mode_text s.search_mode)
    else if ("q" == k) && is_filled (trim s.q)
    then some (trim s.q)
    else if ("folder" == k) && is_truthy s.folder_id
    then some (text_of s.folder_id)
    else if ("view" == k) && not (view_text s.view == "all")
    then some (view_text s.view)
    else if has k keys_to_clear
    then none
    else get k base

pub get-written :
    (s : LibraryState) (base : Params) (k : String)
    → ("tag" == k) ≡ false
    → get k (library_state_to_search_params s base) ≡ written s base k
unfolding library_state_to_search_params put_scope put_list
get-written s base k h =
    rw
      (
        get-put,
        get-put,
        get-put,
        get-put,
        get-put,
        get-put,
        get-append_all k "tag" s.tag_ids _ h,
        get-put,
        get-put,
        get-put,
        get-put,
        get-delete_all,
      )
      refl

pub parse_view_lem :
    (v : LibraryView)
    → parse_view (if not (view_text v == "all") then some (view_text v) else none) ≡ v
unfolding parse_view
parse_view_lem LibraryView.all_documents = refl
parse_view_lem LibraryView.recent = refl
parse_view_lem LibraryView.unprocessed = refl

pub parse_sort_lem :
    (v : LibrarySort)
    → parse_sort (if not (sort_text v == "added_date") then some (sort_text v) else none) ≡ v
unfolding parse_sort
parse_sort_lem LibrarySort.added_date = refl
parse_sort_lem LibrarySort.title = refl
parse_sort_lem LibrarySort.modified_date = refl
parse_sort_lem LibrarySort.created_date = refl

pub parse_order_lem :
    (v : LibraryOrder)
    → parse_order (if not (order_text v == "desc") then some (order_text v) else none) ≡ v
unfolding parse_order
parse_order_lem LibraryOrder.asc = refl
parse_order_lem LibraryOrder.desc = refl

pub parse_mode_lem :
    (v : SearchMode)
    → parse_search_mode
        (or_else (if not (mode_text v == "hybrid") then some (mode_text v) else none) none)
      ≡ v
unfolding parse_search_mode
parse_mode_lem SearchMode.keyword = refl
parse_mode_lem SearchMode.semantic = refl
parse_mode_lem SearchMode.hybrid = refl

parse_shown : (n fallback : ℕ) → 0 < n → parse_positive_int (some (show n)) fallback ≡ n
unfolding parse_positive_int
parse_shown n fallback h = rw (parse_int-show n, show-is_filled n) (ground arith)

pub filter_filled :
    (tags : List String) → All (λ t. is_filled t ≡ true) tags → filter is_filled tags ≡ tags
filter_filled [] h = refl
filter_filled (t ∷ tags) (f, h) = rw f (ap (λ l. t ∷ l) (filter_filled tags h))

pub text_lem : (t : String) → text_of (if is_filled t then some t else none) ≡ t
text_lem t = elim (Bool-cases (t == "")) [
  | inl e ↦ rw e (sym ((eq_iff t "").0 e))
  | inr f ↦ rw f refl
]

pub optional_lem :
    (o : Option String)
    → o ≢ some ""
    → filled_or_none (if is_truthy o then some (text_of o) else none) ≡ o
optional_lem none h = refl
optional_lem (some t) h = elim (Bool-cases (t == "")) [
  | inl e ↦ elim (h (ap some ((eq_iff t "").0 e))) [ ]
  | inr f ↦ rw (f, f) refl
]

pub number_lem :
    (n fallback : ℕ) (keep : Bool)
    → 0 < n
    → (keep ≡ false → n ≡ fallback)
    → parse_positive_int (if keep then some (show n) else none) fallback ≡ n
unfolding parse_positive_int
number_lem n fallback true h k = parse_shown n fallback h
number_lem n fallback false h k = sym (k refl)

-- The page of the viewer, as it is read of what was written for `doc` and `page`.
pub legacy_lem :
    (doc : Bool) (t : String) (page : ℕ) (paged : Bool)
    → 0 < page
    → (if is_some (if doc then some t else none)
          && is_truthy (if paged then some (show page) else none)
          && not (has_char 45 (text_of (if paged then some (show page) else none)))
        then some (parse_positive_int (if paged then some (show page) else none) 1)
        else none)
      ≡ (if doc && paged then some page else none)
legacy_lem true t page true h =
    rw (show-is_filled page, show-has_char page, parse_shown page 1 h) refl
legacy_lem true t page false h = refl
legacy_lem false t page paged h = refl

pub own_lem :
    (v : Option ℕ) (other : Option ℕ)
    → (if is_truthy (or_else (if is_late v then some (show (number_of v)) else none) none)
        then some (
            parse_positive_int
              (or_else (if is_late v then some (show (number_of v)) else none) none)
              1)
        else other)
      ≡ (if is_late v then v else other)
own_lem none other = refl
own_lem (some n) other = elim (Bool-cases (ltb 1 n)) [
  | inl after ↦ rw (after, show-is_filled n, parse_shown n 1 (ground arith)) refl
  | inr first ↦ rw first refl
]
