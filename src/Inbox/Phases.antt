-- ===== src/Inbox/Phases.antt =====
-- The stages of a document that is being prepared, and the progress that its row and its batch show.
use folium.Base.{
  ℕ, ◌+◌, ◌≤◌, min, max, ◌≡◌, ◌↔◌, ◌⊎◌, ◌≢◌, String, true, false, ◌&&◌, Option, none, some, List,
  [], ◌∷◌, arith, ltb, length, filter, any, length-filter-le, is_text,
}
use folium.Base.Sets.{has}
use folium.Percent.{Percent}
use folium.Types.{Document, InboxStatus, Job, JobStatus}
use folium.Inbox.{
  Jobs?, includes_status, has_job, has_active_job, has_running_ocr_job, ocr_job_types, pending,
  done, ocr_phase_state, indexing_phase_state, ProcessingLabel, queued, ocr, indexing, status,
  resolve_processing_label, InboxRowProgress, ocr_progress, inbox_row_progress, is_completed,
  is_preparing, inbox_batch_progress,
}

running_is_active-any :
    (list : List Job) (document_id : String) (types : List String)
    → any
        (λ j.
          is_text j.document_id document_id
          && has j.job_type types
          && includes_status (JobStatus.running ∷ []) j.status)
        list
      ≡ true
    → any
        (λ j.
          is_text j.document_id document_id
          && has j.job_type types
          && includes_status (JobStatus.queued ∷ JobStatus.running ∷ []) j.status)
        list
      ≡ true
unfolding includes_status
running_is_active-any [] document_id types h = cc
running_is_active-any (j ∷ list) document_id types h =
    ground (arith, running_is_active-any list document_id types)

-- A running OCR job is an active one.
running_is_active :
    (jobs : Jobs?) (document_id : String)
    → has_running_ocr_job jobs document_id ≡ true
    → has_active_job jobs document_id ocr_job_types ≡ true
unfolding has_running_ocr_job has_active_job has_job
running_is_active none document_id h = cc
running_is_active (some list) document_id h = running_is_active-any list document_id ocr_job_types h

-- What the label says of a document whose inbox status is missing or `preparing`.
abbrev pub Labels : Document → Jobs? → ProcessingLabel → Type 0
Labels doc jobs ocr =
    (has_running_ocr_job jobs doc.id ≡ true)
    ⊎ ((doc.text_extracted ≡ true) × (has_active_job jobs doc.id ocr_job_types ≡ true))
Labels doc jobs queued = (has_running_ocr_job jobs doc.id ≡ false) × (doc.text_extracted ≡ false)
Labels doc jobs indexing =
    (doc.text_extracted ≡ true) × (has_active_job jobs doc.id ocr_job_types ≡ false)
Labels doc jobs (status s) = ⊥

-- While a document is prepared its label is `ocr` exactly if an OCR job runs, or one waits although
-- there is text; `queued` if there is no text and no OCR job runs; and `indexing` if there is text
-- and no OCR job is active.
pub resolve_processing_label_iff :
    (doc : Document) (jobs : Jobs?) (label : ProcessingLabel)
    → (doc.inbox_status ≡ none) ⊎ (doc.inbox_status ≡ some InboxStatus.preparing)
    → (resolve_processing_label doc jobs ≡ label) ↔ Labels doc jobs label
unfolding resolve_processing_label ocr_phase_state
resolve_processing_label_iff doc jobs ocr h = ground (arith, running_is_active jobs doc.id)
resolve_processing_label_iff doc jobs label h = ground (arith, running_is_active jobs doc.id)

-- The indexing stage leaves `pending` only after the OCR stage is done, and a document whose label
-- is `indexing` has finished OCR.
pub indexing_after_ocr :
    (doc : Document) (jobs : Jobs?)
    → (indexing_phase_state doc jobs ≢ pending) ⊎ (resolve_processing_label doc jobs ≡ indexing)
    → (ocr_phase_state doc jobs ≡ done) × (doc.text_extracted ≡ true)
unfolding indexing_phase_state resolve_processing_label ocr_phase_state
indexing_after_ocr doc jobs h = ground arith

ocr_progress_bounds :
    (p : Percent) (pages total : Option ℕ) {q : ℕ}
    → (ocr_progress p pages total).percent ≡ some q
    → q ≤ 100
unfolding ocr_progress
ocr_progress_bounds p (some pages) (some total) e =
    grind (arith, p.percent_full total, p.percent_mono (min (max pages 0) total) total total)
ocr_progress_bounds p (some pages) none e = cc
ocr_progress_bounds p none total e = cc

-- A row that shows a percentage belongs to a document that is being prepared and whose label is
-- `ocr`, and the percentage never passes 100.
pub row_percent-le_100 :
    (p : Percent) (doc : Document) (jobs : Jobs?) {r : InboxRowProgress} {q : ℕ}
    → inbox_row_progress p doc jobs ≡ some r
    → r.percent ≡ some q
    → (doc.inbox_status ≡ some InboxStatus.preparing)
      × (resolve_processing_label doc jobs ≡ ocr)
      × (q ≤ 100)
unfolding inbox_row_progress
row_percent-le_100 p doc jobs {r} {q} e h =
    ground (arith, ocr_progress_bounds p doc.ocr_pages_done doc.ocr_pages_total {q = q})

partition :
    (docs : List Document)
    → length (filter is_completed docs) + length (filter is_preparing docs) ≤ length docs
partition [] = omega arith
partition (doc ∷ docs) = ground (arith, partition docs)

visible_any :
    (docs : List Document) → ltb 0 (length (filter is_preparing docs)) ≡ any is_preparing docs
visible_any [] = ground arith
visible_any (doc ∷ docs) = ground (arith, visible_any docs)

-- The batch's numbers fit together: completed and preparing documents are not counted twice, the
-- active and the queued ones are those that are being prepared, the percentage is at most 100, and
-- the progress is visible exactly while some document is being prepared.
pub inbox_batch_progress_lem :
    (p : Percent) (docs : List Document) (jobs : Jobs?)
    → ((inbox_batch_progress p docs jobs).completed
          + (inbox_batch_progress p docs jobs).active
          + (inbox_batch_progress p docs jobs).queued
        ≤ (inbox_batch_progress p docs jobs).total)
      × ((inbox_batch_progress p docs jobs).active + (inbox_batch_progress p docs jobs).queued
          ≡ length (filter is_preparing docs))
      × ((inbox_batch_progress p docs jobs).percent ≤ 100)
      × ((inbox_batch_progress p docs jobs).visible ≡ any is_preparing docs)
unfolding inbox_batch_progress
inbox_batch_progress_lem p docs jobs = (
  ground (arith, partition docs, fewer),
  ground (arith, fewer),
  ground (
    arith,
    p.percent_full (length docs),
    p.percent_mono (length (filter is_completed docs)) (length docs) (length docs),
    length-filter-le is_completed docs,
  ),
  visible_any docs,
)
  where
    fewer :
        length (filter (λ (d : Document). has_running_ocr_job jobs d.id) (filter is_preparing docs))
        ≤ length (filter is_preparing docs)
    fewer =
        length-filter-le (λ (d : Document). has_running_ocr_job jobs d.id)
          (filter is_preparing docs)
