-- ===== src/Inbox/Metrics.antt =====
-- frontend/src/features/inbox/inboxPresentation.ts: how the overview names, filters and counts the
-- documents of the inbox. Dates are a parameter, `Calendar`; `toLowerCase` and `includes` are in
-- `Search`; the success rate is the fraction whose hundredfold the source computes.
use folium.Base.{
  ℕ, ◌+◌, ◌-◌, ◌≤◌, ◌≡◌, refl, String, Bool, true, false, not, ◌&&◌, ◌||◌, Option, none, some, List,
  [], ◌∷◌, arith, leb, eqb, if◌then◌else◌, length, filter, is_filled,
}
use folium.Base.Text.{trim}
use folium.Types.{Document, ProcessingStatus, is_processing, InboxStatus, is_inbox}

pub data PresentationStatus : Type 0 where
  queued processing processed needs_review failed : PresentationStatus

unfoldable pub to_presentation_status : Document → Option PresentationStatus
to_presentation_status doc = elim doc.inbox_status [
  | none ↦ none
  | some InboxStatus.failed ↦ some failed
  | some InboxStatus.ready ↦ some processed
  | some InboxStatus.needs_review ↦ some needs_review
  | some InboxStatus.preparing ↦
      if is_processing doc.processing_status ProcessingStatus.processing
      then some processing
      else some queued
]

unfoldable pub presentation_label : PresentationStatus → String
presentation_label queued = "Queued"
presentation_label processing = "Processing"
presentation_label processed = "Processed"
presentation_label needs_review = "Needs review"
presentation_label failed = "Failed"

abbrev presentation_tag : PresentationStatus → ℕ
presentation_tag queued = 0
presentation_tag processing = 1
presentation_tag processed = 2
presentation_tag needs_review = 3
presentation_tag failed = 4

-- A filter that is `none` is `"all"`.
unfoldable pub matches_presentation_filter : Document → Option PresentationStatus → Bool
matches_presentation_filter doc none = true
matches_presentation_filter doc (some wanted) = elim (to_presentation_status doc) [
  | none ↦ false
  | some status ↦ eqb (presentation_tag status) (presentation_tag wanted)
]

-- `new Date(text).getTime()`, `none` for an invalid date; and local midnight, some days before.
pub record Calendar : Type 0 where
  pub parse : String → Option ℕ
  pub midnight_before : ℕ → ℕ → ℕ

unfoldable pub in_date_range : Calendar → Document → ℕ → ℕ → Bool
in_date_range calendar doc days now = elim (calendar.parse doc.added_date) [
  | none ↦ false
  | some added ↦ leb (calendar.midnight_before now (days - 1)) added && leb added now
]

pub data ActivityTab : Type 0 where
  recent processed failed : ActivityTab

abbrev is_failed_doc : Document → Bool
is_failed_doc d = is_inbox d.inbox_status InboxStatus.failed

abbrev is_processed_doc : Document → Bool
is_processed_doc d =
    is_inbox d.inbox_status InboxStatus.ready || is_inbox d.inbox_status InboxStatus.needs_review

unfoldable pub filter_by_activity_tab : List Document → ActivityTab → List Document
filter_by_activity_tab docs ActivityTab.recent = docs
filter_by_activity_tab docs ActivityTab.failed = filter is_failed_doc docs
filter_by_activity_tab docs ActivityTab.processed = filter is_processed_doc docs

pub record OverviewMetrics : Type 0 where
  pub processed : ℕ
  pub failed : ℕ
  pub processing : ℕ
  pub total_ingested : ℕ
  pub success_rate : Option (ℕ × ℕ)

pub record Tally : Type 0 where
  pub processed : ℕ
  pub failed : ℕ
  pub processing : ℕ

-- One round of the loop in `computeOverviewMetrics`.
count : Tally → Document → Tally
count t doc =
    if is_inbox doc.inbox_status InboxStatus.ready
      || is_inbox doc.inbox_status InboxStatus.needs_review
    then record t { processed = t.processed + 1 }
    else if is_inbox doc.inbox_status InboxStatus.failed
    then record t { failed = t.failed + 1 }
    else if is_inbox doc.inbox_status InboxStatus.preparing
    then record t { processing = t.processing + 1 }
    else t

tally : Tally → List Document → Tally
tally t [] = t
tally t (doc ∷ docs) = tally (count t doc) docs

pub compute_overview_metrics : Calendar → List Document → ℕ → ℕ → OverviewMetrics
compute_overview_metrics calendar docs days now =
    let in_range = filter (λ d. in_date_range calendar d days now) docs in
    let t = tally (record { processed = 0; failed = 0; processing = 0 }) in_range in
    let terminal = t.processed + t.failed in
    record {
      processed = t.processed;
      failed = t.failed;
      processing = t.processing;
      total_ingested = length in_range;
      success_rate = if eqb terminal 0 then none else some (t.processed, terminal);
    }

-- `toLowerCase()` and `includes(...)` on texts
pub record Search : Type 0 where
  pub lower : String → String
  pub includes : String → String → Bool

unfoldable pub matches_search : Search → Document → String → Bool
unfolding trim
matches_search search doc query =
    let q = search.lower (trim query) in
    if not (is_filled q)
    then true
    else search.includes (search.lower doc.original_filename) q
      || search.includes (search.lower doc.title) q
      || elim doc.document_type_name [
        | none ↦ false
        | some name ↦ search.includes (search.lower name) q
      ]

tally_lem :
    (t : Tally) (docs : List Document)
    → ((tally t docs).processed ≡ t.processed + length (filter is_processed_doc docs))
      × ((tally t docs).failed ≡ t.failed + length (filter is_failed_doc docs))
      × ((tally t docs).processed + (tally t docs).failed + (tally t docs).processing
          ≤ t.processed + t.failed + t.processing + length docs)
unfolding tally count
tally_lem t [] = ground arith
tally_lem t (doc ∷ docs) = ground (arith, tally_lem (count t doc) docs)

-- The documents of the range that the overview looks at.
abbrev pub in_range : Calendar → List Document → ℕ → ℕ → List Document
in_range calendar docs days now = filter (λ d. in_date_range calendar d days now) docs

-- The overview counts what its tabs list: as many processed and failed documents of the range as
-- the tabs show, no document twice; and there is a success rate exactly if something ended, the
-- processed ones out of those and of the failed.
pub compute_overview_metrics_lem :
    (calendar : Calendar) (docs : List Document) (days now : ℕ)
    → ((compute_overview_metrics calendar docs days now).processed
        ≡ length (filter_by_activity_tab (in_range calendar docs days now) ActivityTab.processed))
      × ((compute_overview_metrics calendar docs days now).failed
          ≡ length (filter_by_activity_tab (in_range calendar docs days now) ActivityTab.failed))
      × ((compute_overview_metrics calendar docs days now).processed
            + (compute_overview_metrics calendar docs days now).failed
            + (compute_overview_metrics calendar docs days now).processing
          ≤ (compute_overview_metrics calendar docs days now).total_ingested)
      × ((compute_overview_metrics calendar docs days now).success_rate ≡ (
          if eqb
            ((compute_overview_metrics calendar docs days now).processed
              + (compute_overview_metrics calendar docs days now).failed)
            0
          then none
          else some (
            (compute_overview_metrics calendar docs days now).processed,
            (compute_overview_metrics calendar docs days now).processed
                + (compute_overview_metrics calendar docs days now).failed,
          )))
unfolding compute_overview_metrics filter_by_activity_tab
compute_overview_metrics_lem calendar docs days now =
    let (a, b, c) =
      tally_lem (record { processed = 0; failed = 0; processing = 0 })
        (in_range calendar docs days now) in
    (omega (arith, a), omega (arith, b), omega (arith, c), refl)

-- The tab `processed` lists a document exactly if it passes the filter `processed` or the filter
-- `needs_review`, and the tab `failed` lists it exactly if it passes the filter `failed`.
pub filters_agree :
    (doc : Document)
    → (filter_by_activity_tab (doc ∷ []) ActivityTab.processed ≡ (
        if matches_presentation_filter doc (some PresentationStatus.processed)
          || matches_presentation_filter doc (some needs_review)
        then doc ∷ []
        else []))
      × (filter_by_activity_tab (doc ∷ []) ActivityTab.failed ≡ (
          if matches_presentation_filter doc (some PresentationStatus.failed)
          then doc ∷ []
          else []))
unfolding matches_presentation_filter to_presentation_status filter_by_activity_tab
filters_agree doc = ground arith
