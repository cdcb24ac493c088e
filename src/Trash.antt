-- ===== src/Trash.antt =====
-- frontend/src/features/trash/TrashPage.tsx: what the trash shows, the selection, and the requests
-- that restore or delete for good. A request stands for the call of a hook; `post` is whether it
-- succeeds. No other event comes between the requests of one handler.
pub mod Shown
pub mod Laws
mod Examples
use folium.Base.{
  ℕ, ◌+◌, String, Bool, true, false, not, ◌&&◌, ◌||◌, ◌==◌, Option, none, some, List, [], ◌∷◌, ◌++◌,
  if◌then◌else◌, eqb, length, filter, map, any, is_truthy, get_or,
}
use folium.Base.Sets.{has, add, delete}
use folium.Types.{Document, Folder}

pub data Request : Type 0 where
  restore_folder purge_folder restore_document delete_document : (id : String) → Request
  bulk_restore : (document_ids : List String) → Request
  empty_trash : Request

pub record Page : Type 0 where
  pub selected_doc_ids : List String
  pub selected_folder_ids : List String
  pub active_id : Option String

abbrev pub mounted : Page
mounted = record { selected_doc_ids = []; selected_folder_ids = []; active_id = none }

abbrev pub ids_of : List Folder → List String
ids_of folders = map (λ (f : Folder). f.id) folders

-- Neither a parent nor one in the trash.
abbrev pub is_top : List Folder → Folder → Bool
is_top trashed f = not (is_truthy f.parent_id) || not (has (get_or f.parent_id "") (ids_of trashed))

unfoldable pub root_trashed_folders : List Folder → List Folder
root_trashed_folders trashed = filter (is_top trashed) trashed

unfoldable pub loose_documents : List Folder → List Document → List Document
loose_documents trashed documents =
    filter (λ (d : Document). not (has d.folder_id (ids_of trashed))) documents

abbrev first_id : List Document → Option String
first_id [] = none
first_id (d ∷ docs) = some d.id

-- `resolvedActiveId`
unfoldable pub resolved_active_id : Option String → List Document → Option String
resolved_active_id active loose =
    if is_truthy active && any (λ (d : Document). d.id == get_or active "") loose
    then active
    else first_id loose

abbrev chosen : Bool → String → List String → List String
chosen checked id ids = if checked then add id ids else delete id ids

unfoldable pub toggle_doc : String → Bool → Page → Page
toggle_doc id checked p = record p { selected_doc_ids = chosen checked id p.selected_doc_ids }

unfoldable pub toggle_folder : String → Bool → Page → Page
toggle_folder id checked p = record p {
  selected_folder_ids = chosen checked id p.selected_folder_ids;
}

abbrev pub is_empty : List String → Bool
is_empty [] = true
is_empty (x ∷ xs) = false

module _ (post : Request → Bool) where
  -- A loop over ids that awaits a request for each: the requests that were sent, and whether the loop
  -- came to its end.
  unfoldable pub each : (String → Request) → List String → List Request × Bool
  each request [] = ([], true)
  each request (id ∷ ids) =
      let rest = each request ids in
      if post (request id) then (request id ∷ rest.0, rest.1) else (request id ∷ [], false)

  -- A request behind the loop.
  abbrev then_send : Request → List Request × Bool → List Request × Bool
  then_send r (sent, ended) = if ended then (sent ++ r ∷ [], post r) else (sent, false)

  abbrev then_each : (String → Request) → List String → List Request × Bool → List Request × Bool
  then_each request ids (sent, ended) =
      let rest = each request ids in if ended then (sent ++ rest.0, rest.1) else (sent, false)

  abbrev then_bulk : List String → List Request × Bool → List Request × Bool
  then_bulk [] folders = folders
  then_bulk (id ∷ ids) folders = then_send (bulk_restore (id ∷ ids)) folders

  unfoldable pub handle_restore_selected : Page → Page × List Request
  unfolding each
  handle_restore_selected p =
      let (sent, ended) =
        then_bulk p.selected_doc_ids (each restore_folder p.selected_folder_ids) in
      (if ended then record p { selected_doc_ids = []; selected_folder_ids = [] } else p, sent)

  -- `confirmed` is the answer of `confirm`.
  unfoldable pub handle_delete_selected_forever : Bool → Page → Page × List Request
  unfolding each
  handle_delete_selected_forever confirmed p =
      let (sent, ended) =
        then_each delete_document p.selected_doc_ids (each purge_folder p.selected_folder_ids) in
      if not confirmed then (p, []) else (if ended then mounted else p, sent)

  unfoldable pub handle_empty_trash : Bool → Page → Page × List Request
  handle_empty_trash confirmed p =
      if not confirmed then (p, []) else (if post empty_trash then mounted else p, empty_trash ∷ [])

pub data Event : Type 0 where
  doc_toggled folder_toggled : (id : String) (checked : Bool) → Event
  doc_clicked : (id : String) → Event
  restore_folder_pressed restore_document_pressed : (id : String) → Event
  restore_pressed : Event
  delete_pressed empty_pressed : (confirmed : Bool) → Event

-- Each event with what the server answers then; a button is disabled where nothing is selected.
module _ (post : Request → Bool) where
  unfoldable pub react : Event → Page → Page × List Request
  react (doc_toggled id checked) p = (toggle_doc id checked p, [])
  react (folder_toggled id checked) p = (toggle_folder id checked p, [])
  react (doc_clicked id) p = (record p { active_id = some id }, [])
  react (restore_folder_pressed id) p = (p, restore_folder id ∷ [])
  react (restore_document_pressed id) p = (p, restore_document id ∷ [])
  react restore_pressed p =
      if is_empty p.selected_doc_ids && is_empty p.selected_folder_ids
      then (p, [])
      else handle_restore_selected post p
  react (delete_pressed confirmed) p =
      if is_empty p.selected_doc_ids && is_empty p.selected_folder_ids
      then (p, [])
      else handle_delete_selected_forever post confirmed p
  react (empty_pressed confirmed) p = handle_empty_trash post confirmed p

  unfoldable pub run : List Event → Page → Page × List Request
  run [] p = (p, [])
  run (e ∷ es) p = let (p1, sent) = react e p in let (p2, rest) = run es p1 in (p2, sent ++ rest)
