-- ===== src/Inbox/Jobs/Latest.antt =====
-- Which job of a document the inbox looks at: the latest that suggests metadata.
use folium.Base.{
  ℕ, ◌≡◌, ◌⊎◌, refl, String, true, Option, none, some, List, [], ◌∷◌, arith, filter, All,
  Bool-cases, inl, inr,
}
use folium.Types.{Job, JobStatus}
use folium.Inbox.Jobs.{
  Locale, job_time, is_metadata_job, insert, sort, first, latest_metadata_suggestion_job,
  suggestion_job_status_for_doc, show_suggestion_failure,
}

abbrev pub In : Job → List Job → Type 0
In j [] = ⊥
In j (k ∷ jobs) = (k ≡ j) ⊎ In j jobs

-- No job of the list is later.
abbrev pub IsLatest : Locale → Job → List Job → Type 0
IsLatest locale j jobs = All (λ k. locale.at_most (job_time k) (job_time j) ≡ true) jobs

insert-In :
    (locale : Locale) (x j : Job) (jobs : List Job)
    → In x (insert locale j jobs)
    → (j ≡ x) ⊎ In x jobs
unfolding insert
insert-In locale x j [] h = h
insert-In locale x j (k ∷ jobs) h = elim (Bool-cases (locale.at_most (job_time k) (job_time j))) [
  | inl later ↦ rw later at h
  | inr other ↦ ground (arith, insert-In locale x j jobs)
]

sort-In : (locale : Locale) (x : Job) (jobs : List Job) → In x (sort locale jobs) → In x jobs
unfolding sort
sort-In locale x [] h = h
sort-In locale x (j ∷ jobs) h =
    ground (arith, insert-In locale x j (sort locale jobs) h, sort-In locale x jobs)

insert-All {ℓ} :
    (P : Job → Type ℓ) (locale : Locale) (j : Job) (jobs : List Job)
    → P j
    → All P jobs
    → All P (insert locale j jobs)
unfolding insert
insert-All P locale j [] p h = (p, h)
insert-All P locale j (k ∷ jobs) p (q, h) =
    elim (Bool-cases (locale.at_most (job_time k) (job_time j))) [
      | inl later ↦ rw later (p, (q, h))
      | inr other ↦ rw other (q, insert-All P locale j jobs p h)
    ]

IsLatest-mono :
    (locale : Locale) (j k : Job) (jobs : List Job)
    → locale.at_most (job_time j) (job_time k) ≡ true
    → IsLatest locale j jobs
    → IsLatest locale k jobs
IsLatest-mono locale j k [] e h = h
IsLatest-mono locale j k (i ∷ jobs) e (p, h) = (
  locale.at_most_trans (job_time i) (job_time j) (job_time k) p e,
  IsLatest-mono locale j k jobs e h,
)

-- The head of the list is the latest.
abbrev HeadIsLatest : Locale → List Job → Type 0
HeadIsLatest locale [] = Unit
HeadIsLatest locale (j ∷ jobs) = IsLatest locale j (j ∷ jobs)

at_most_refl : (locale : Locale) (a : String) → locale.at_most a a ≡ true
at_most_refl locale a = ground (arith, locale.at_most_total a a)

insert-HeadIsLatest :
    (locale : Locale) (j : Job) (jobs : List Job)
    → HeadIsLatest locale jobs
    → HeadIsLatest locale (insert locale j jobs)
unfolding insert
insert-HeadIsLatest locale j [] h = (at_most_refl locale (job_time j), tt)
insert-HeadIsLatest locale j (k ∷ jobs) h =
    elim (Bool-cases (locale.at_most (job_time k) (job_time j))) [
      | inl later ↦
          rw later (at_most_refl locale (job_time j), IsLatest-mono locale k j (k ∷ jobs) later h)
      | inr other ↦ rw other (
        at_most_refl locale (job_time k),
        insert-All (λ i. locale.at_most (job_time i) (job_time k) ≡ true) locale j jobs
            (locale.at_most_total (job_time k) (job_time j) other) h.1,
      )
    ]

sort-HeadIsLatest : (locale : Locale) (jobs : List Job) → HeadIsLatest locale (sort locale jobs)
unfolding sort
sort-HeadIsLatest locale [] = tt
sort-HeadIsLatest locale (j ∷ jobs) =
    insert-HeadIsLatest locale j (sort locale jobs) (sort-HeadIsLatest locale jobs)

All-insert {ℓ} :
    (P : Job → Type ℓ) (locale : Locale) (j : Job) (jobs : List Job)
    → All P (insert locale j jobs)
    → P j × All P jobs
unfolding insert
All-insert P locale j [] h = h
All-insert P locale j (k ∷ jobs) h = elim (Bool-cases (locale.at_most (job_time k) (job_time j))) [
  | inl later ↦ rw later at h
  | inr other ↦
      let (q, r) : P k × All P (insert locale j jobs) = rw other at h in
      let (a, b) = All-insert P locale j jobs r in (a, (q, b))
]

All-sort {ℓ} :
    (P : Job → Type ℓ) (locale : Locale) (jobs : List Job) → All P (sort locale jobs) → All P jobs
unfolding sort
All-sort P locale [] h = tt
All-sort P locale (j ∷ jobs) h =
    let (a, b) = All-insert P locale j (sort locale jobs) h in (a, All-sort P locale jobs b)

filter-In :
    (document_id : String) (j : Job) (jobs : List Job)
    → In j (filter (is_metadata_job document_id) jobs)
    → In j jobs × (is_metadata_job document_id j ≡ true)
filter-In document_id j [] h = elim h [ ]
filter-In document_id j (k ∷ jobs) h = elim (Bool-cases (is_metadata_job document_id k)) [
  | inl mine ↦
      let h' : In j (k ∷ filter (is_metadata_job document_id) jobs) = rw mine at h in
      elim h' [
        | inl e ↦ let m : is_metadata_job document_id j ≡ true = rw e at mine in (inl e, m)
        | inr rest ↦ let (a, b) = filter-In document_id j jobs rest in (inr a, b)
      ]
  | inr other ↦
      let h' : In j (filter (is_metadata_job document_id) jobs) = rw other at h in
      let (a, b) = filter-In document_id j jobs h' in (inr a, b)
]

-- The job is one of the document's and none of those is later; or there is none.
abbrev pub IsLatestJob : Locale → List Job → String → Option Job → Type 0
IsLatestJob locale jobs document_id none = filter (is_metadata_job document_id) jobs ≡ []
IsLatestJob locale jobs document_id (some j) =
    In j jobs
    × (is_metadata_job document_id j ≡ true)
    × IsLatest locale j (filter (is_metadata_job document_id) jobs)

insert-cons : (locale : Locale) (j : Job) (jobs : List Job) → insert locale j jobs ≡ [] → ⊥
unfolding insert
insert-cons locale j [] e = cc
insert-cons locale j (k ∷ jobs) e = ground arith

sort-nil : (locale : Locale) (jobs : List Job) → sort locale jobs ≡ [] → jobs ≡ []
unfolding sort
sort-nil locale [] e = refl
sort-nil locale (j ∷ jobs) e = elim (insert-cons locale j (sort locale jobs) e) [ ]

first-IsLatestJob :
    (locale : Locale) (jobs : List Job) (document_id : String) (sorted : List Job)
    → sort locale (filter (is_metadata_job document_id) jobs) ≡ sorted
    → IsLatestJob locale jobs document_id (first sorted)
first-IsLatestJob locale jobs document_id [] e =
    sort-nil locale (filter (is_metadata_job document_id) jobs) e
first-IsLatestJob locale jobs document_id (j ∷ sorted) e =
    let mine = filter (is_metadata_job document_id) jobs in
    let listed : In j (sort locale mine) = rw e (inl refl) in
    let (a, b) = filter-In document_id j jobs (sort-In locale j mine listed) in
    let head : HeadIsLatest locale (j ∷ sorted) = rw e at (sort-HeadIsLatest locale mine) in
    let all : IsLatest locale j (sort locale mine) = rw e head in
    (a, b, All-sort (λ k. locale.at_most (job_time k) (job_time j) ≡ true) locale mine all)

-- The job that is looked at is a metadata job of the document, and none of its metadata jobs is
-- later; there is none exactly if the document has no metadata job.
pub latest_metadata_suggestion_job_lem :
    (locale : Locale) (jobs : List Job) (document_id : String)
    → IsLatestJob locale jobs document_id (latest_metadata_suggestion_job locale jobs document_id)
unfolding latest_metadata_suggestion_job
latest_metadata_suggestion_job_lem locale jobs document_id =
    first-IsLatestJob locale jobs document_id
      (sort locale (filter (is_metadata_job document_id) jobs)) refl

-- A failure is shown exactly if the job that is looked at has failed.
shown_iff :
    (locale : Locale) (jobs : List Job) (document_id : String) (count : ℕ)
    → show_suggestion_failure (suggestion_job_status_for_doc locale jobs document_id count) ≡ true
    → (j : Job) × (latest_metadata_suggestion_job locale jobs document_id ≡ some j)
      × (j.status ≡ JobStatus.failed)
unfolding suggestion_job_status_for_doc show_suggestion_failure
shown_iff locale jobs document_id count h = ground arith

-- A failure is shown only if a metadata job of the document has failed, and none of its metadata
-- jobs is later.
pub failure_shown :
    (locale : Locale) (jobs : List Job) (document_id : String) (count : ℕ)
    → show_suggestion_failure (suggestion_job_status_for_doc locale jobs document_id count) ≡ true
    → (j : Job) × In j jobs
      × (is_metadata_job document_id j ≡ true)
      × IsLatest locale j (filter (is_metadata_job document_id) jobs)
      × (j.status ≡ JobStatus.failed)
failure_shown locale jobs document_id count h =
    let (j, e, f) = shown_iff locale jobs document_id count h in
    let found : IsLatestJob locale jobs document_id (some j) =
      rw e at (latest_metadata_suggestion_job_lem locale jobs document_id) in
    let (a, b, c) = found in (j, a, b, c, f)
