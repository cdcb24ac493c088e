-- ===== src/Upload.antt =====
-- frontend/src/lib/api/upload.ts: a batch of uploads, one after the other, and its summary.
-- What the server answers is a parameter: the reply to the request for each entry of the batch.
pub mod Laws
pub mod Rejections
mod Examples
use folium.Base.{
  ℕ, zero, suc, ◌+◌, String, Bool, true, false, not, ◌&&◌, ◌||◌, Option, none, some, List, [], ◌∷◌,
  ◌++◌, eqb, ltb, if◌then◌else◌, is_truthy, is_text, length,
}
use folium.Base.Text.{◌&◌, has_char}
use folium.UploadTree.{
  File, UploadEntry, DataTransfer, is_tree_upload, entries_from_file_list,
  entries_from_data_transfer,
}

pub record UploadBatchSummary : Type 0 where
  pub created : ℕ
  pub duplicates : ℕ
  pub failed : ℕ
  pub total : ℕ
  pub errors : List String

unfoldable pub empty_summary : ℕ → UploadBatchSummary
empty_summary total = record { created = 0; duplicates = 0; failed = 0; total = total; errors = [] }

-- The fields of the `FormData`; a field that is not appended is missing.
pub record Form : Type 0 where
  pub file : File
  pub folder_id : Option String
  pub relative_path : Option String
  pub on_duplicate : Option String

-- What `api.upload` throws: an `ApiError`, with whether its body is an object, another `Error`, or
-- something else.
pub data Thrown : Type 0 where
  api_error : (status : ℕ) (object_body : Bool) (message : String) → Thrown
  error : (message : String) → Thrown
  no_error : Thrown

-- What `api.upload` does: it returns a body, with its `status` field if it has one, or throws.
pub data Reply : Type 0 where
  answered : Option String → Reply
  thrown : Thrown → Reply

pub data Status : Type 0 where
  created duplicate : Status

pub data Outcome : Type 0 where
  uploaded : Status → Outcome
  rejected : Thrown → Outcome

unfoldable pub is_duplicate_result : Option String → Bool
is_duplicate_result status = is_text status "duplicate"

-- `err instanceof ApiError && err.duplicate`, as a Boolean
unfoldable pub is_duplicate_error : Thrown → Bool
is_duplicate_error (api_error status object_body message) = eqb status 409 && object_body
is_duplicate_error (error message) = false
is_duplicate_error no_error = false

unfoldable pub form_of : UploadEntry → Option String → Bool → Form
form_of entry folder_id skip_duplicates = record {
  file = entry.file;
  folder_id = if is_truthy folder_id then folder_id else none;
  relative_path = if has_char b'/' entry.relative_path then some entry.relative_path else none;
  on_duplicate = if skip_duplicates then some "skip" else none;
}

settle : Reply → Outcome
settle (answered status) = uploaded (if is_duplicate_result status then duplicate else created)
settle (thrown err) = if is_duplicate_error err then uploaded duplicate else rejected err

unfoldable pub upload_one : (Form → Reply) → UploadEntry → Option String → Bool → Outcome
unfolding settle is_duplicate_result is_duplicate_error
upload_one send entry folder_id skip_duplicates =
    settle (send (form_of entry folder_id skip_duplicates))

-- `err instanceof Error ? err.message : "upload failed"`
unfoldable pub message_of : Thrown → String
message_of (api_error status object_body message) = message
message_of (error message) = message
message_of no_error = "upload failed"

-- One round of the loop in `uploadEntries`, without the progress.
pub record_outcome : UploadEntry → Outcome → UploadBatchSummary → UploadBatchSummary
unfolding message_of
record_outcome entry (uploaded created) s = record s { created = s.created + 1 }
record_outcome entry (uploaded duplicate) s = record s { duplicates = s.duplicates + 1 }
record_outcome entry (rejected err) s = record s {
  failed = s.failed + 1;
  errors = s.errors ++ (entry.relative_path & (": " & message_of err)) ∷ [];
}

-- The state of the hook, with every value that `setProgress` was given, and how often the lists of
-- documents and folders were invalidated.
pub record Uploader : Type 0 where
  pub busy : Bool
  pub progress : Option (ℕ × ℕ)
  pub last_summary : Option UploadBatchSummary
  pub shown : List (ℕ × ℕ)
  pub invalidated : ℕ

abbrev set_progress : ℕ × ℕ → Uploader → Uploader
set_progress p u = record u { progress = some p; shown = u.shown ++ p ∷ [] }

module _ (send : ℕ → Form → Reply) (folder_id : Option String) (skip_duplicates : Bool)
    (total : ℕ) where
  -- The loop of `uploadEntries`, from entry `i` on.
  pub upload_from :
      ℕ → List UploadEntry → UploadBatchSummary → Uploader → UploadBatchSummary × Uploader
  upload_from i [] s u = (s, u)
  upload_from i (entry ∷ entries) s u =
      upload_from (i + 1) entries
        (record_outcome entry (upload_one (send i) entry folder_id skip_duplicates) s)
        (set_progress (i + 1, total) u)

-- `send i` answers the request for the `i`-th entry.
unfoldable pub upload_entries :
    (ℕ → Form → Reply) → List UploadEntry → Option String → Uploader → UploadBatchSummary × Uploader
upload_entries send entries folder_id u =
    let skip_duplicates = is_tree_upload entries || ltb 1 (length entries) in
    let started =
      set_progress (0, length entries) (record u { busy = true; last_summary = none }) in
    let (summary, u') =
      upload_from send folder_id skip_duplicates (length entries) 0 entries
        (empty_summary (length entries)) started in
    (
      summary,
      record u' {
        busy = false;
        progress = none;
        last_summary = some summary;
        invalidated = u'.invalidated + 1;
      },
    )

unfoldable pub clear_summary : Uploader → Uploader
clear_summary u = record u { last_summary = none }

unfoldable pub upload_file_list :
    (ℕ → Form → Reply) → List File → Option String → Uploader → UploadBatchSummary × Uploader
upload_file_list send files folder_id u =
    upload_entries send (entries_from_file_list files) folder_id u

-- A rejected promise, when a directory cannot be read, is `none`; nothing has changed then.
unfoldable pub upload_data_transfer :
    (ℕ → Form → Reply)
    → DataTransfer
    → Option String
    → Uploader
    → Option (UploadBatchSummary × Uploader)
upload_data_transfer send transfer folder_id u = elim (entries_from_data_transfer transfer) [
  | none ↦ none
  | some entries ↦ some (upload_entries send entries folder_id u)
]
