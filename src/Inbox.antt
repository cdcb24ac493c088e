-- ===== src/Inbox.antt =====
-- frontend/src/features/inbox/inboxPreparingPhases.ts, inboxReviewActions.ts, inboxAiFiling.ts and
-- inboxPresentation.ts: what the inbox shows of a document that is being prepared, which documents
-- can be acted on, and the counts of a batch.
pub mod Phases
pub mod Metrics
pub mod Filing
pub mod Jobs
pub mod Work
mod Examples
use folium.Base.{
  ℕ, ◌+◌, ◌-◌, min, max, String, Bool, true, false, not, ◌&&◌, ◌||◌, Option, none, some, List, [],
  ◌∷◌, ◌==◌, ltb, eqb, if◌then◌else◌, get_or, is_some, is_text, length, any, filter,
}
use folium.Base.Sets.{has}
use folium.Base.Text.{◌&◌, show}
use folium.Percent.{Percent}
use folium.Types.{
  Document, ProcessingStatus, is_processing, InboxStatus, is_inbox, Job, JobStatus, is_job,
}

-- The jobs as the callers have them: `jobs?` is missing until they are loaded.
abbrev pub Jobs? : Type 0
Jobs? = Option (List Job)

-- `!jobs?.length`
abbrev no_jobs : Jobs? → Bool
no_jobs none = true
no_jobs (some jobs) = eqb (length jobs) 0

includes_status : List JobStatus → JobStatus → Bool
includes_status statuses status = any (λ s. is_job s status) statuses

unfoldable pub has_job : Jobs? → String → List String → List JobStatus → Bool
unfolding includes_status has
has_job none document_id types statuses = false
has_job (some jobs) document_id types statuses =
    any
      (λ j.
        is_text j.document_id document_id
        && has j.job_type types
        && includes_status statuses j.status)
      jobs

unfoldable pub has_active_job : Jobs? → String → List String → Bool
has_active_job jobs document_id types =
    has_job jobs document_id types (JobStatus.queued ∷ JobStatus.running ∷ [])

abbrev pub ocr_job_types : List String
ocr_job_types = "text_extraction" ∷ "ocr" ∷ []

abbrev pub indexing_job_types : List String
indexing_job_types = "metadata_suggestion" ∷ []

unfoldable pub has_running_ocr_job : Jobs? → String → Bool
has_running_ocr_job jobs document_id =
    has_job jobs document_id ocr_job_types (JobStatus.running ∷ [])

pub data PhaseState : Type 0 where
  pending running done : PhaseState

abbrev pub is_done : PhaseState → Bool
is_done done = true
is_done phase = false

unfoldable pub ocr_phase_state : Document → Jobs? → PhaseState
ocr_phase_state doc jobs =
    if has_active_job jobs doc.id ocr_job_types
    then running
    else if doc.text_extracted
    then done
    else pending

unfoldable pub indexing_phase_state : Document → Jobs? → PhaseState
indexing_phase_state doc jobs =
    if not (is_done (ocr_phase_state doc jobs))
    then pending
    else if has_active_job jobs doc.id indexing_job_types
    then running
    else if is_inbox doc.inbox_status InboxStatus.preparing
        || is_processing doc.processing_status ProcessingStatus.pending
        || is_processing doc.processing_status ProcessingStatus.processing
    then (if no_jobs jobs
        then running
        else if has_active_job jobs doc.id ("thumbnail" ∷ [])
        then pending
        else running)
    else done

-- A stage of the preparation, or the status of the inbox.
pub data ProcessingLabel : Type 0 where
  queued ocr indexing : ProcessingLabel
  status : InboxStatus → ProcessingLabel

unfoldable pub resolve_processing_label : Document → Jobs? → ProcessingLabel
resolve_processing_label doc jobs =
    let preparing =
      if has_running_ocr_job jobs doc.id
      then ocr
      else if not doc.text_extracted
      then queued
      else if not (is_done (ocr_phase_state doc jobs))
      then ocr
      else indexing in
    elim doc.inbox_status [
      | some InboxStatus.failed ↦ status InboxStatus.failed
      | some InboxStatus.ready ↦ status InboxStatus.ready
      | some InboxStatus.needs_review ↦ status InboxStatus.needs_review
      | _ ↦ preparing
    ]

unfoldable pub processing_label_text : ProcessingLabel → String
processing_label_text queued = "Queued"
processing_label_text ocr = "OCR"
processing_label_text indexing = "Indexing"
processing_label_text (status InboxStatus.preparing) = "Preparing"
processing_label_text (status InboxStatus.ready) = "Ready"
processing_label_text (status InboxStatus.needs_review) = "Needs review"
processing_label_text (status InboxStatus.failed) = "Failed"

pub record InboxRowProgress : Type 0 where
  pub label : String
  pub percent : Option ℕ

-- The page that the label names.
abbrev pub shown_page : ℕ → ℕ → ℕ
shown_page pages total = min (max pages 1) total

pub ocr_progress : Percent → Option ℕ → Option ℕ → InboxRowProgress
ocr_progress p (some pages) (some total) =
    if ltb 0 total
    then record {
      label = "OCR · Processing page " & (show (shown_page pages total) & (" of " & show total));
      percent = some (p.percent (min (max pages 0) total) total);
    }
    else record { label = "OCR · Extracting…"; percent = none }
ocr_progress p pages total = record { label = "OCR · Extracting…"; percent = none }

-- `queued` has no progress, `ocr` has its own, and any other label that of the indexing.
phase_progress : Percent → Document → ProcessingLabel → Option InboxRowProgress
phase_progress p doc queued = none
phase_progress p doc ocr = some (ocr_progress p doc.ocr_pages_done doc.ocr_pages_total)
phase_progress p doc label = some (record { label = "Indexing…"; percent = none })

unfoldable pub inbox_row_progress : Percent → Document → Jobs? → Option InboxRowProgress
unfolding phase_progress
inbox_row_progress p doc jobs =
    if not (is_inbox doc.inbox_status InboxStatus.preparing)
    then none
    else phase_progress p doc (resolve_processing_label doc jobs)

pub record InboxBatchProgress : Type 0 where
  pub total : ℕ
  pub completed : ℕ
  pub active : ℕ
  pub queued : ℕ
  pub percent : ℕ
  pub visible : Bool

abbrev pub is_completed : Document → Bool
is_completed doc = is_some doc.inbox_status && not (is_inbox doc.inbox_status InboxStatus.preparing)

abbrev pub is_preparing : Document → Bool
is_preparing doc = is_inbox doc.inbox_status InboxStatus.preparing

unfoldable pub inbox_batch_progress : Percent → List Document → Jobs? → InboxBatchProgress
inbox_batch_progress p docs jobs =
    let total = length docs in
    let completed = length (filter is_completed docs) in
    let preparing = filter is_preparing docs in
    let active = length (filter (λ d. has_running_ocr_job jobs d.id) preparing) in
    record {
      total = total;
      completed = completed;
      active = active;
      queued = length preparing - active;
      percent = if eqb total 0 then 0 else p.percent completed total;
      visible = ltb 0 (length preparing);
    }

unfoldable pub is_doc_settled : Document → Bool
is_doc_settled doc =
    if is_inbox doc.inbox_status InboxStatus.preparing
    then false
    else if is_processing doc.processing_status ProcessingStatus.pending
        || is_processing doc.processing_status ProcessingStatus.processing
    then false
    else true

unfoldable pub can_retry_suggestions : Document → Bool
can_retry_suggestions doc =
    is_inbox doc.inbox_status InboxStatus.ready
    || is_inbox doc.inbox_status InboxStatus.needs_review

unfoldable pub visible_selected_docs : List Document → List String → List Document
visible_selected_docs documents selected_ids = filter (λ d. has d.id selected_ids) documents
