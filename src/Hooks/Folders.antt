-- ===== src/Hooks/Folders.antt =====
-- The folder, trash and tag hooks of frontend/src/lib/api/hooks.ts: the request of each, and what it
-- does to the cache when the request succeeds. A body is given as `JSON.stringify` writes it.
use folium.Base.{String, Bool, true, false, Option, some, List, [], ◌∷◌, is_truthy, get_or}
use folium.Base.Text.{◌&◌}
use folium.Client.{Options, no_body, json_body, post_options, patch_options, delete_options}
use folium.Hooks.{folders_key, folder_key, tags_key, library_overview_key}

-- The path of a request and its options.
abbrev pub Call : Type 0
Call = String × Options

-- `useFolders` and `useFolder`
pub data FolderQuery : Type 0 where
  folders : (trashed : Bool) → FolderQuery
  folder : Option String → FolderQuery

abbrev pub folder_query_key : FolderQuery → List String
folder_query_key (folders true) = "folders" ∷ "trashed" ∷ []
folder_query_key (folders false) = folders_key
folder_query_key (folder id) = folder_key (get_or id "")

-- The path and the parameters that `buildUrl` is given.
abbrev pub folder_query_url : FolderQuery → String × List (String × Option String)
folder_query_url (folders true) = ("/api/folders", ("trashed", some "true") ∷ [])
folder_query_url (folders false) = ("/api/folders", [])
folder_query_url (folder id) = ("/api/folders/" & get_or id "undefined", [])

-- `enabled`
abbrev pub folder_query_enabled : FolderQuery → Bool
folder_query_enabled (folders trashed) = true
folder_query_enabled (folder id) = is_truthy id

pub data FolderMutation : Type 0 where
  create_folder : (body : String) → FolderMutation
  update_folder delete_folder : (id body : String) → FolderMutation
  trash_folder restore_folder purge_folder : (id : String) → FolderMutation

unfoldable pub folder_request : FolderMutation → Call
folder_request (create_folder body) = ("/api/folders", post_options (json_body body))
folder_request (update_folder id body) = ("/api/folders/" & id, patch_options (json_body body))
folder_request (delete_folder id body) = ("/api/folders/" & id, delete_options (json_body body))
folder_request (trash_folder id) = ("/api/folders/" & (id & "/trash"), post_options no_body)
folder_request (restore_folder id) = ("/api/folders/" & (id & "/restore"), post_options no_body)
folder_request (purge_folder id) = ("/api/folders/" & (id & "/purge"), post_options no_body)

abbrev pub everything_of_trash : List (List String)
everything_of_trash = ("folders" ∷ []) ∷ ("documents" ∷ []) ∷ ("trash" ∷ []) ∷ []

-- The keys that are invalidated.
unfoldable pub folder_success : FolderMutation → List (List String)
folder_success (create_folder body) = folders_key ∷ []
folder_success (update_folder id body) = folders_key ∷ []
folder_success (delete_folder id body) = everything_of_trash
folder_success (trash_folder id) = everything_of_trash
folder_success (restore_folder id) = everything_of_trash
folder_success (purge_folder id) = everything_of_trash

abbrev pub trash_count_key : List String
trash_count_key = "trash" ∷ "count" ∷ []

-- `useEmptyTrash`
unfoldable pub empty_trash_request : Call
empty_trash_request = ("/api/trash/empty", post_options no_body)

unfoldable pub empty_trash_success : List (List String)
empty_trash_success = everything_of_trash

pub data TagMutation : Type 0 where
  create_tag : (body : String) → TagMutation
  update_tag : (id body : String) → TagMutation
  delete_tag : (id : String) → TagMutation
  merge_tags : (body : String) → TagMutation

unfoldable pub tag_request : TagMutation → Call
tag_request (create_tag body) = ("/api/tags", post_options (json_body body))
tag_request (update_tag id body) = ("/api/tags/" & id, patch_options (json_body body))
tag_request (delete_tag id) = ("/api/tags/" & id, delete_options no_body)
tag_request (merge_tags body) = ("/api/tags/merge", post_options (json_body body))

unfoldable pub tag_success : TagMutation → List (List String)
tag_success (create_tag body) = tags_key ∷ library_overview_key ∷ []
tag_success (update_tag id body) = tags_key ∷ library_overview_key ∷ []
tag_success (delete_tag id) = tags_key ∷ library_overview_key ∷ []
tag_success (merge_tags body) = tags_key ∷ library_overview_key ∷ []
