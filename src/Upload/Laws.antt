-- ===== src/Upload/Laws.antt =====
-- What the summary of a batch counts, and what the progress shows.
use folium.Base.{
  ℕ, zero, suc, ◌+◌, ◌≡◌, refl, String, Bool, true, false, ◌||◌, Option, none, some, List, [], ◌∷◌,
  ◌++◌, arith, length, ltb, ◌∙◌, sym, ap,
}
use mathlib.Core.List.{append-nil, append_assoc}
use folium.Base.Text.{◌&◌}
use folium.UploadTree.{UploadEntry, is_tree_upload}
use folium.Upload.{
  UploadBatchSummary, empty_summary, Form, Reply, Status, Outcome, uploaded, rejected, upload_one,
  message_of, record_outcome, Uploader, set_progress, upload_from, upload_entries,
}

-- The outcomes of a batch, in order: entry by entry, the `i`-th with the `i`-th reply.
pub outcomes :
    (ℕ → Form → Reply) → Option String → Bool → ℕ → List UploadEntry → List (UploadEntry × Outcome)
outcomes send folder_id skip i [] = []
outcomes send folder_id skip i (entry ∷ entries) =
    (entry, upload_one (send i) entry folder_id skip) ∷ outcomes send folder_id skip (i + 1) entries

abbrev pub is_status : Status → Outcome → ℕ
is_status Status.created (uploaded Status.created) = 1
is_status Status.duplicate (uploaded Status.duplicate) = 1
is_status s o = 0

-- How many of the outcomes are uploads with a status.
pub count_status : Status → List (UploadEntry × Outcome) → ℕ
count_status s [] = 0
count_status s ((e, o) ∷ os) = is_status s o + count_status s os

-- The messages of the rejected ones.
pub failures : List (UploadEntry × Outcome) → List String
failures [] = []
failures ((e, uploaded s) ∷ os) = failures os
failures ((e, rejected err) ∷ os) = (e.relative_path & (": " & message_of err)) ∷ failures os

-- `k` pairs of the numbers from `i + 1` on with `total`.
pub steps : ℕ → ℕ → ℕ → List (ℕ × ℕ)
steps zero i total = []
steps (suc k) i total = (i + 1, total) ∷ steps k (i + 1) total

-- What the loop does to a summary and to the hook's state.
record Accounts (os : List (UploadEntry × Outcome)) (s t : UploadBatchSummary) : Type 0 where
  created : t.created ≡ s.created + count_status Status.created os
  duplicates : t.duplicates ≡ s.duplicates + count_status Status.duplicate os
  failed : t.failed ≡ s.failed + length (failures os)
  total : t.total ≡ s.total
  errors : t.errors ≡ s.errors ++ failures os

Accounts-cons :
    (entry : UploadEntry) (o : Outcome) (os : List (UploadEntry × Outcome))
    (s t : UploadBatchSummary)
    → Accounts os (record_outcome entry o s) t
    → Accounts ((entry, o) ∷ os) s t
unfolding record_outcome count_status failures
Accounts-cons entry (uploaded Status.created) os s t a = ground arith
Accounts-cons entry (uploaded Status.duplicate) os s t a = ground arith
Accounts-cons entry (rejected err) os s t a = record {
  created = omega (arith, a.created);
  duplicates = omega (arith, a.duplicates);
  failed = omega (arith, a.failed);
  total = a.total;
  errors = a.errors ∙ append_assoc s.errors _ (failures os);
}

module _ (send : ℕ → Form → Reply) (folder_id : Option String) (skip : Bool) (total : ℕ) where
  upload_from-Accounts :
      (i : ℕ) (entries : List UploadEntry) (s : UploadBatchSummary) (u : Uploader)
      → Accounts
          (outcomes send folder_id skip i entries)
          s
          (upload_from send folder_id skip total i entries s u).0
  unfolding upload_from outcomes count_status failures
  upload_from-Accounts i [] s u = ground (arith, append-nil s.errors)
  upload_from-Accounts i (entry ∷ entries) s u =
      Accounts-cons entry (upload_one (send i) entry folder_id skip) _ s _
        (upload_from-Accounts (i + 1) entries _ _)

  upload_from_shown :
      (i : ℕ) (entries : List UploadEntry) (s : UploadBatchSummary) (u : Uploader)
      → (upload_from send folder_id skip total i entries s u).1.shown
        ≡ u.shown ++ steps (length entries) i total
  unfolding upload_from steps
  upload_from_shown i [] s u = sym (append-nil u.shown)
  upload_from_shown i (entry ∷ entries) s u =
      upload_from_shown (i + 1) entries _ _
      ∙ append_assoc u.shown ((i + 1, total) ∷ []) (steps (length entries) (i + 1) total)

  upload_from_invalidated :
      (i : ℕ) (entries : List UploadEntry) (s : UploadBatchSummary) (u : Uploader)
      → (upload_from send folder_id skip total i entries s u).1.invalidated ≡ u.invalidated
  unfolding upload_from
  upload_from_invalidated i [] s u = refl
  upload_from_invalidated i (entry ∷ entries) s u = upload_from_invalidated (i + 1) entries _ _

-- The skip flag of a batch.
abbrev pub skips : List UploadEntry → Bool
skips entries = is_tree_upload entries || ltb 1 (length entries)

pub length-outcomes :
    (send : ℕ → Form → Reply) (folder_id : Option String) (skip : Bool) (i : ℕ)
    (entries : List UploadEntry)
    → length (outcomes send folder_id skip i entries) ≡ length entries
unfolding outcomes
length-outcomes send folder_id skip i [] = refl
length-outcomes send folder_id skip i (entry ∷ entries) =
    omega (arith, length-outcomes send folder_id skip (i + 1) entries)

count_statuses :
    (os : List (UploadEntry × Outcome))
    → count_status Status.created os + count_status Status.duplicate os + length (failures os)
      ≡ length os
unfolding count_status failures
count_statuses [] = omega arith
count_statuses ((e, uploaded Status.created) ∷ os) = omega (arith, count_statuses os)
count_statuses ((e, uploaded Status.duplicate) ∷ os) = omega (arith, count_statuses os)
count_statuses ((e, rejected err) ∷ os) = omega (arith, count_statuses os)

pub record IsSummary (os : List (UploadEntry × Outcome)) (s : UploadBatchSummary) : Type 0 where
  pub created : s.created ≡ count_status Status.created os
  pub duplicates : s.duplicates ≡ count_status Status.duplicate os
  pub errors : s.errors ≡ failures os
  pub failed : s.failed ≡ length s.errors
  pub total : s.total ≡ length os
  pub each_once : s.created + s.duplicates + s.failed ≡ s.total

-- The summary of a batch counts its outcomes, entry by entry: the created, the duplicates and the
-- failed, with one message for each that failed, in order. Every entry is counted exactly once.
pub upload_entries-IsSummary :
    (send : ℕ → Form → Reply) (entries : List UploadEntry) (folder_id : Option String)
    (u : Uploader)
    → IsSummary
        (outcomes send folder_id (skips entries) 0 entries)
        (upload_entries send entries folder_id u).0
unfolding upload_entries empty_summary
upload_entries-IsSummary send entries folder_id u =
    let os = outcomes send folder_id (skips entries) 0 entries in
    let a =
      upload_from-Accounts send folder_id (skips entries) (length entries) 0 entries
        (empty_summary (length entries))
        (set_progress (0, length entries) (record u { busy = true; last_summary = none })) in
    ground (arith, a, count_statuses os, length-outcomes send folder_id (skips entries) 0 entries)

-- However the requests end, the hook is idle afterwards: not busy, without progress, with the
-- batch's summary as the last one, and the lists invalidated once more. The progress that it
-- showed went through 0, 1, ... up to the number of entries.
pub upload_entries_lem :
    (send : ℕ → Form → Reply) (entries : List UploadEntry) (folder_id : Option String)
    (u : Uploader)
    → ((upload_entries send entries folder_id u).1.busy ≡ false)
      × ((upload_entries send entries folder_id u).1.progress ≡ none)
      × ((upload_entries send entries folder_id u).1.last_summary
          ≡ some (upload_entries send entries folder_id u).0)
      × ((upload_entries send entries folder_id u).1.invalidated ≡ u.invalidated + 1)
      × ((upload_entries send entries folder_id u).1.shown
          ≡ u.shown ++ (0, length entries) ∷ steps (length entries) 0 (length entries))
unfolding upload_entries
upload_entries_lem send entries folder_id u =
    let start = set_progress (0, length entries) (record u { busy = true; last_summary = none }) in
    let s = empty_summary (length entries) in
    (
      refl,
      refl,
      refl,
      ap (λ n. n + 1)
          (upload_from_invalidated send folder_id (skips entries) (length entries) 0 entries s
            start),
      upload_from_shown send folder_id (skips entries) (length entries) 0 entries s start
          ∙ append_assoc u.shown ((0, length entries) ∷ []) _,
    )
