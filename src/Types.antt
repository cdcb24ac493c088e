-- ===== src/Types.antt =====
-- frontend/src/lib/api/types.ts: the shapes that the backend's answers have. A record holds the
-- fields that the modelled code reads; an optional field, and one that may be null, is an `Option`.
-- Each union of literals is a data type, and its `tag` numbers the literals for `===`.
use folium.Base.{ℕ, String, Bool, true, false, Option, eqb}

-- `processing_status`
pub data ProcessingStatus : Type 0 where
  pending processing ready failed partial : ProcessingStatus

abbrev processing_tag : ProcessingStatus → ℕ
processing_tag ProcessingStatus.pending = 0
processing_tag ProcessingStatus.processing = 1
processing_tag ProcessingStatus.ready = 2
processing_tag ProcessingStatus.failed = 3
processing_tag ProcessingStatus.partial = 4

abbrev pub is_processing : ProcessingStatus → ProcessingStatus → Bool
is_processing s t = eqb (processing_tag s) (processing_tag t)

pub data InboxStatus : Type 0 where
  preparing ready needs_review failed : InboxStatus

abbrev inbox_tag : InboxStatus → ℕ
inbox_tag InboxStatus.preparing = 0
inbox_tag InboxStatus.ready = 1
inbox_tag InboxStatus.needs_review = 2
inbox_tag InboxStatus.failed = 3

-- `doc.inbox_status === t`, where the field may be missing
abbrev pub is_inbox : Option InboxStatus → InboxStatus → Bool
is_inbox Option.none t = false
is_inbox (Option.some s) t = eqb (inbox_tag s) (inbox_tag t)

pub record Document : Type 0 where
  pub id : String
  pub title : String
  pub original_filename : String
  pub mime_type : String
  pub file_size : ℕ
  pub page_count : Option ℕ
  pub folder_id : String
  pub folder_path : Option String
  pub document_type_name : Option String
  pub added_date : String
  pub processing_status : ProcessingStatus
  pub ocr_pages_done : Option ℕ
  pub ocr_pages_total : Option ℕ
  pub text_extracted : Bool
  pub document_indexed : Bool
  pub has_embeddings : Bool
  pub chunks_total : Option ℕ
  pub chunks_embedded : Option ℕ
  pub chunks_failed : Option ℕ
  pub embedding_error : Option String
  pub embedding_started_at : Option String
  pub inbox : Bool
  pub needs_review : Bool
  pub inbox_status : Option InboxStatus
  pub pending_folder_path : Option String

-- `status` of a job
pub data JobStatus : Type 0 where
  queued running completed failed cancelled : JobStatus

abbrev job_tag : JobStatus → ℕ
job_tag JobStatus.queued = 0
job_tag JobStatus.running = 1
job_tag JobStatus.completed = 2
job_tag JobStatus.failed = 3
job_tag JobStatus.cancelled = 4

abbrev pub is_job : JobStatus → JobStatus → Bool
is_job s t = eqb (job_tag s) (job_tag t)

pub record Job : Type 0 where
  pub id : String
  pub job_type : String
  pub status : JobStatus
  pub document_id : Option String
  pub created_at : String
  pub started_at : Option String
  pub completed_at : Option String

-- `kind` of a folder
pub data FolderKind : Type 0 where
  root inbox trash normal : FolderKind

abbrev kind_tag : FolderKind → ℕ
kind_tag FolderKind.root = 0
kind_tag FolderKind.inbox = 1
kind_tag FolderKind.trash = 2
kind_tag FolderKind.normal = 3

abbrev pub is_kind : FolderKind → FolderKind → Bool
is_kind s t = eqb (kind_tag s) (kind_tag t)

pub record Folder : Type 0 where
  pub id : String
  pub name : String
  pub parent_id : Option String
  pub kind : FolderKind
  pub sort_order : ℕ
  pub path_cache : String
  pub document_count : ℕ

pub record Suggestion : Type 0 where
  pub id : String
  pub document_id : String
  pub field : String
  pub status : String

-- A blank document and a blank job, for examples to change.
abbrev pub blank_document : Document
blank_document = record {
  id = "d";
  title = "";
  original_filename = "";
  mime_type = "";
  file_size = 0;
  page_count = Option.none;
  folder_id = "";
  folder_path = Option.none;
  document_type_name = Option.none;
  added_date = "";
  processing_status = ProcessingStatus.ready;
  ocr_pages_done = Option.none;
  ocr_pages_total = Option.none;
  text_extracted = true;
  document_indexed = false;
  has_embeddings = false;
  chunks_total = Option.none;
  chunks_embedded = Option.none;
  chunks_failed = Option.none;
  embedding_error = Option.none;
  embedding_started_at = Option.none;
  inbox = false;
  needs_review = false;
  inbox_status = Option.none;
  pending_folder_path = Option.none;
}

abbrev pub blank_job : Job
blank_job = record {
  id = "j";
  job_type = "ocr";
  status = JobStatus.running;
  document_id = Option.some "d";
  created_at = "";
  started_at = Option.none;
  completed_at = Option.none;
}

-- `User` and `UserAdmin`
pub record UserAdmin : Type 0 where
  pub id : String
  pub username : String
  pub display_name : String
  pub is_admin : Bool
  pub is_active : Option Bool
  pub storage_quota_bytes : Option ℕ
  pub ai_monthly_request_quota : Option ℕ
