-- ===== src/Inbox/Examples.antt =====
-- A batch of documents, its jobs, and its suggestions.
use folium.Base.{
  ◌+◌, ◌≤◌, ◌≡◌, refl, String, Bool, true, false, Option, none, some, List, [], ◌∷◌, ◌==◌,
  if◌then◌else◌, length, filter, any,
}
use folium.Percent.{exact}
use folium.Types.{Document, blank_document, InboxStatus, blank_job, Suggestion, ProcessingStatus}
use folium.Inbox.{
  Jobs?, has_job, has_active_job, has_running_ocr_job, ocr_phase_state, indexing_phase_state,
  resolve_processing_label, inbox_row_progress, ocr_progress, is_preparing, inbox_batch_progress,
  is_doc_settled,
}
use folium.Inbox.Phases.{inbox_batch_progress_lem}
use folium.Inbox.Metrics.{Calendar}
use folium.Inbox.Filing.{
  is_system_inbox_path, accept_all_suggestions, FilingReason, inbox_ai_filing_state, AiHealth,
}
use folium.Inbox.Filing.Laws.{is_for, is_sent, targets_of, accept_all_order}

inbox : Unit {0}
unfolding resolve_processing_label ocr_phase_state indexing_phase_state has_running_ocr_job
    has_active_job has_job inbox_row_progress is_doc_settled ocr_progress
inbox = tt

abbrev scanning : Document
scanning = record blank_document {
  inbox_status = some InboxStatus.preparing;
  processing_status = ProcessingStatus.processing;
  text_extracted = false;
  ocr_pages_done = some 3;
  ocr_pages_total = some 4;
}

abbrev extracted : Document
extracted = record scanning { id = "e"; text_extracted = true }

abbrev filed : Document
filed = record blank_document {
  id = "f";
  inbox_status = some InboxStatus.ready;
  folder_path = some "Documents/Tax";
}

abbrev jobs : Jobs?
jobs = some (blank_job ∷ [])

abbrev both : List Document
both = scanning ∷ filed ∷ extracted ∷ []

inbox_batch_progress_lem_example :
    ((inbox_batch_progress exact both jobs).completed
        + (inbox_batch_progress exact both jobs).active
        + (inbox_batch_progress exact both jobs).queued
      ≤ (inbox_batch_progress exact both jobs).total)
    × ((inbox_batch_progress exact both jobs).active + (inbox_batch_progress exact both jobs).queued
        ≡ length (filter is_preparing both))
    × ((inbox_batch_progress exact both jobs).percent ≤ 100)
    × ((inbox_batch_progress exact both jobs).visible ≡ any is_preparing both)
inbox_batch_progress_lem_example = inbox_batch_progress_lem exact both jobs

abbrev calendar : Calendar
calendar = record {
  parse = λ text. if text == "" then some 5 else none;
  midnight_before = λ now days. 0;
}

-- The examples write their paths in lower case.
abbrev same : String → String
same s = s

paths :
    (is_system_inbox_path same (some "/ documents / inbox/") ≡ true)
    × (is_system_inbox_path same (some "documents/tax") ≡ false)
unfolding is_system_inbox_path
paths = (refl, refl)

abbrev folder_for : String → Suggestion
folder_for id = record { id = "s"; document_id = id; field = "folder"; status = "pending" }

abbrev by_id : String → Option Document
by_id id = if id == "f" then some filed else if id == "d" then some scanning else none

abbrev answers : Suggestion → Bool
answers s = s.field == "folder"

abbrev pending : List Suggestion
pending =
    folder_for "d"
    ∷ folder_for "f"
    ∷ record (folder_for "d") { field = "title" }
    ∷ folder_for "x"
    ∷ []

accept_all_order_example :
    filter (is_for "d") (accept_all_suggestions same by_id answers pending ("f" ∷ "d" ∷ [])).posted
    ≡ filter
        (is_sent same by_id answers)
        (filter (is_for "d") (targets_of same by_id answers pending ("f" ∷ "d" ∷ [])))
accept_all_order_example = accept_all_order same by_id answers pending ("f" ∷ "d" ∷ []) "d"

abbrev health : AiHealth
health = record { auto_tagging = some false; indexing_status = some "available" }

filing : (inbox_ai_filing_state (some health)).reason ≡ FilingReason.controls_off
unfolding inbox_ai_filing_state
filing = refl
