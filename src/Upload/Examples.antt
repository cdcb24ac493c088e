-- ===== src/Upload/Examples.antt =====
-- A drop with a directory, a batch of three files, and its messages.
use folium.Base.{
  ℕ, ◌≡◌, refl, String, true, false, none, some, List, [], ◌∷◌, All, eqb, if◌then◌else◌,
}
use folium.Base.Text.{join, show}
use folium.UploadTree.{
  File, UploadEntry, file_entry, dir_entry, batch, done, nil, cons, Batches, directory_item,
  join_path, read_batches, resolve_pending_items, is_tree_upload,
}
use folium.UploadTree.Laws.{IsUnder, resolve-IsUnder}
use folium.Upload.{
  Form, Reply, answered, thrown, api_error, Uploader, upload_one, record_outcome, upload_from,
  empty_summary, upload_entries,
}
use folium.Upload.Laws.{IsSummary, outcomes, skips, upload_entries-IsSummary}
use folium.Upload.Rejections.{toast_parts, format_upload_toast}

upload : Unit {0}
unfolding resolve_pending_items read_batches join_path is_tree_upload upload_entries upload_from
    upload_one record_outcome empty_summary format_upload_toast join toast_parts show
upload = tt

abbrev file : String → File
file name = record { name = name; webkit_relative_path = none }

abbrev dropped : Batches
dropped = batch (cons (file_entry "a.pdf" (some (file "a.pdf"))) nil) (
    batch
      (cons (dir_entry "tax" (batch (cons (file_entry "b.pdf" (some (file "b.pdf"))) nil) done))
        nil)
      done)

abbrev found : List UploadEntry
found =
    record { file = file "a.pdf"; relative_path = "docs/a.pdf" }
    ∷ record { file = file "b.pdf"; relative_path = "docs/tax/b.pdf" }
    ∷ []

read : resolve_pending_items (directory_item dropped "docs" ∷ []) ≡ some found
unfolding upload
read = refl

resolve-IsUnder_example : All (λ e. IsUnder "docs" e.relative_path) found
resolve-IsUnder_example = resolve-IsUnder dropped "docs" refl read

abbrev replies : ℕ → Form → Reply
replies i form =
    if eqb i 0 then answered none else thrown (api_error 415 true "Unsupported MIME type")

abbrev idle : Uploader
idle = record { busy = false; progress = none; last_summary = none; shown = []; invalidated = 0 }

toast :
    format_upload_toast (upload_entries replies found none idle).0 ≡ "Uploaded 1 file · rejected 1"
unfolding upload
toast = refl

upload_entries-IsSummary_example :
    IsSummary
      (outcomes replies none (skips found) 0 found)
      (upload_entries replies found none idle).0
upload_entries-IsSummary_example = upload_entries-IsSummary replies found none idle
