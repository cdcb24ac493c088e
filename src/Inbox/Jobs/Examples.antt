-- ===== src/Inbox/Jobs/Examples.antt =====
-- Jobs of one document, the latest of which has failed.
use folium.Base.{◌≡◌, refl, true, [], ◌∷◌, filter}
use folium.Types.{Job, blank_job, JobStatus}
use folium.Inbox.Jobs.{
  latest_metadata_suggestion_job, suggestion_job_status_for_doc, show_suggestion_failure,
  is_metadata_job, sort, insert, earlier,
}
use folium.Inbox.Jobs.Latest.{In, IsLatest, failure_shown}

abbrev suggesting : Job
suggesting = record blank_job {
  id = "s";
  job_type = "metadata_suggestion";
  status = JobStatus.failed;
  created_at = "2";
}

abbrev suggested : Job
suggested = record suggesting { id = "t"; status = JobStatus.completed; created_at = "1" }

failed_last :
    show_suggestion_failure
      (suggestion_job_status_for_doc earlier (suggested ∷ blank_job ∷ suggesting ∷ []) "d" 0)
    ≡ true
unfolding latest_metadata_suggestion_job suggestion_job_status_for_doc show_suggestion_failure sort
    insert
failed_last = refl

failure_shown_example :
    (j : Job) × In j (suggested ∷ blank_job ∷ suggesting ∷ [])
    × (is_metadata_job "d" j ≡ true)
    × IsLatest earlier j (filter (is_metadata_job "d") (suggested ∷ blank_job ∷ suggesting ∷ []))
    × (j.status ≡ JobStatus.failed)
unfolding latest_metadata_suggestion_job suggestion_job_status_for_doc show_suggestion_failure sort
    insert
failure_shown_example = failure_shown earlier (suggested ∷ blank_job ∷ suggesting ∷ []) "d" 0 refl
