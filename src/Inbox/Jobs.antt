-- ===== src/Inbox/Jobs.antt =====
-- frontend/src/features/inbox/suggestionJobStatus.ts: what the inbox shows of the latest job that
-- suggests metadata for a document. `at_most a b` is `a.localeCompare(b) <= 0`.
pub mod Latest
mod Examples
use Prim.Native.Char.{code}
use folium.Base.{
  leb, ℕ, suc, ◌≡◌, ◌⊎◌, refl, sym, String, Bool, true, false, ◌&&◌, ◌||◌, Option, none, some, List,
  [], ◌∷◌, ◌==◌, eqb, arith, if◌then◌else◌, get_or, filter, All, is_text, Bool-cases, inl, inr,
}
use folium.Types.{Job, JobStatus, is_job}

-- `idle` is the source's "none".
pub data SuggestionJobStatus : Type 0 where
  idle running failed empty : SuggestionJobStatus

-- What is asked of `localeCompare`: it orders any two texts, consistently.
pub record Locale : Type 0 where
  pub at_most : String → String → Bool
  pub at_most_total : (a b : String) → at_most a b ≡ false → at_most b a ≡ true
  pub at_most_trans :
      (a b c : String) → at_most a b ≡ true → at_most b c ≡ true → at_most a c ≡ true

abbrev pub job_time : Job → String
job_time j = get_or j.completed_at (get_or j.started_at j.created_at)

abbrev pub is_metadata_job : String → Job → Bool
is_metadata_job document_id j =
    is_text j.document_id document_id && j.job_type == "metadata_suggestion"

-- The stable sort of the source, latest first: a job goes before the first that is not later.
pub insert : Locale → Job → List Job → List Job
insert locale j [] = j ∷ []
insert locale j (k ∷ jobs) =
    if locale.at_most (job_time k) (job_time j) then j ∷ k ∷ jobs else k ∷ insert locale j jobs

pub sort : Locale → List Job → List Job
sort locale [] = []
sort locale (j ∷ jobs) = insert locale j (sort locale jobs)

abbrev pub first : List Job → Option Job
first [] = none
first (j ∷ jobs) = some j

unfoldable pub latest_metadata_suggestion_job : Locale → List Job → String → Option Job
latest_metadata_suggestion_job locale jobs document_id =
    first (sort locale (filter (is_metadata_job document_id) jobs))

unfoldable pub suggestion_job_status_for_doc : Locale → List Job → String → ℕ → SuggestionJobStatus
suggestion_job_status_for_doc locale jobs document_id suggestions_count =
    elim (latest_metadata_suggestion_job locale jobs document_id) [
      | none ↦ idle
      | some latest ↦
          if is_job latest.status JobStatus.queued || is_job latest.status JobStatus.running
          then running
          else if is_job latest.status JobStatus.failed
          then failed
          else if is_job latest.status JobStatus.completed && eqb suggestions_count 0
          then empty
          else idle
    ]

unfoldable pub show_suggestion_failure : SuggestionJobStatus → Bool
show_suggestion_failure failed = true
show_suggestion_failure status = false

-- An order of texts that meets the laws: by the first character.
abbrev rank : String → ℕ
rank String.[] = 0
rank (String.◌∷◌ c s) = suc (code c)

pub rank_total : (a b : String) → leb (rank a) (rank b) ≡ false → leb (rank b) (rank a) ≡ true
rank_total a b h = ground arith

pub rank_trans :
    (a b c : String)
    → leb (rank a) (rank b) ≡ true
    → leb (rank b) (rank c) ≡ true
    → leb (rank a) (rank c) ≡ true
rank_trans a b c h k = ground arith

abbrev pub earlier : Locale
earlier = record {
  at_most = λ a b. leb (rank a) (rank b);
  at_most_total = rank_total;
  at_most_trans = rank_trans;
}
