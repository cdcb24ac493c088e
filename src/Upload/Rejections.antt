-- ===== src/Upload/Rejections.antt =====
-- frontend/src/features/inbox/sessionRejections.ts: the rows for the files that failed, and the
-- toast. `Date.now()` is a parameter; the module's counter is passed along.
use Prim.Native.Char.{Char, code}
use text.Mathlib.TextLemmas.{cons-append, nil-append}
use folium.Base.{
  ℕ, ◌+◌, ◌≡◌, refl, ◌↔◌, ap, ◌∙◌, String, Option, none, some, List, [], ◌∷◌, ◌++◌, arith, length,
  if◌then◌else◌, ltb, eqb,
}
use folium.Base.Text.{◌&◌, show, join}
use folium.UploadTree.{UploadEntry}
use folium.Upload.{UploadBatchSummary, Form, Reply, Thrown, message_of, Uploader, upload_entries}
use folium.Upload.Laws.{skips, length-outcomes, upload_entries-IsSummary}

pub record SessionRejection : Type 0 where
  pub id : String
  pub filename : String
  pub message : String

abbrev after_space : String → Option String
after_space String.[] = none
after_space (String.◌∷◌ c s) = if eqb (code c) b' ' then some s else none

abbrev in_front : Char → Option (String × String) → Option (String × String)
in_front c none = none
in_front c (some (s, t)) = some (String.◌∷◌ c s, t)

-- The text before the first ": " and the text behind it: `indexOf` with the two `slice`s.
unfoldable pub split_message : String → Option (String × String)
split_message String.[] = none
split_message (String.◌∷◌ c s) =
    let later = in_front c (split_message s) in
    if eqb (code c) b':'
    then elim (after_space s) [ some t ↦ some ("", t) | none ↦ later ]
    else later

-- One row of `parseSessionRejections`, with the counter's new value.
pub row_of : ℕ → ℕ → String → SessionRejection
row_of now seq raw = elim (split_message raw) [
  | some (filename, message) ↦ record {
    id = "reject-" & (show now & ("-" & show seq));
    filename = filename;
    message = message;
  }
  | none ↦ record {
    id = "reject-" & (show now & ("-" & show seq));
    filename = raw;
    message = "Upload failed";
  }
]

rows_from : ℕ → ℕ → List String → ℕ × List SessionRejection
rows_from now seq [] = (seq, [])
rows_from now seq (raw ∷ errors) =
    let (last, rows) = rows_from now (seq + 1) errors in (last, row_of now (seq + 1) raw ∷ rows)

unfoldable pub parse_session_rejections : ℕ → ℕ → UploadBatchSummary → ℕ × List SessionRejection
unfolding rows_from
parse_session_rejections now seq summary = rows_from now seq summary.errors

abbrev plural : ℕ → String
plural n = if eqb n 1 then "" else "s"

-- The parts of the toast.
unfoldable pub toast_parts : UploadBatchSummary → List String
toast_parts summary =
    (if ltb 0 summary.created
      then ("Uploaded " & (show summary.created & (" file" & plural summary.created))) ∷ []
      else [])
    ++ ((if ltb 0 summary.failed then ("rejected " & show summary.failed) ∷ [] else [])
        ++ (if ltb 0 summary.duplicates
            then ("skipped "
                & (show summary.duplicates & (" duplicate" & plural summary.duplicates)))
              ∷ []
            else []))

unfoldable pub format_upload_toast : UploadBatchSummary → String
format_upload_toast summary =
    if eqb (length (toast_parts summary)) 0
    then (if eqb summary.total 0 then "No files uploaded" else "Upload finished")
    else join " · " (toast_parts summary)

-- A text without ": " in it.
abbrev pub IsWhole : String → Type 0
IsWhole path = split_message path ≡ none

colon-append : (t : String) → ": " & t ≡ String.◌∷◌ ":" (String.◌∷◌ " " t)
colon-append t =
    cons-append ":" " " t
    ∙ ap (String.◌∷◌ ":") (cons-append " " "" t ∙ ap (String.◌∷◌ " ") (nil-append t))

after_space-append : (s t : String) → after_space s ≡ none → after_space (s & (": " & t)) ≡ none
after_space-append String.[] t h = rw (nil-append, colon-append) refl
after_space-append (String.◌∷◌ d s) t h = rw cons-append (ground arith)

none_of_in_front : (c : Char) (o : Option (String × String)) → in_front c o ≡ none → o ≡ none
none_of_in_front c none h = refl
none_of_in_front c (some p) h = cc

split_message_lem :
    (path message : String)
    → IsWhole path
    → split_message (path & (": " & message)) ≡ some (path, message)
unfolding split_message
split_message_lem String.[] message h = rw (nil-append, colon-append) refl
split_message_lem (String.◌∷◌ c s) message h = rw cons-append (
    ground (
      arith,
      none_of_in_front c (split_message s),
      split_message_lem s message,
      after_space-append s message,
    ))

length-rows_from :
    (now seq : ℕ) (errors : List String)
    → (length (rows_from now seq errors).1 ≡ length errors)
      × ((rows_from now seq errors).0 ≡ seq + length errors)
unfolding rows_from
length-rows_from now seq [] = omega arith
length-rows_from now seq (raw ∷ errors) = omega (arith, length-rows_from now (seq + 1) errors)

-- After a batch there is one row for each file that failed, and the counter grows by as many.
pub rows_of_batch :
    (now seq : ℕ) (send : ℕ → Form → Reply) (entries : List UploadEntry) (folder_id : Option String)
    (u : Uploader)
    → (length (parse_session_rejections now seq (upload_entries send entries folder_id u).0).1
        ≡ (upload_entries send entries folder_id u).0.failed)
      × ((parse_session_rejections now seq (upload_entries send entries folder_id u).0).0
          ≡ seq + (upload_entries send entries folder_id u).0.failed)
unfolding parse_session_rejections
rows_of_batch now seq send entries folder_id u =
    let v = upload_entries-IsSummary send entries folder_id u in
    omega
      (arith, length-rows_from now seq (upload_entries send entries folder_id u).0.errors, v.failed)

-- The row of the message that the uploader writes for a failed file shows the file's path and the
-- error's message again, if the path holds no ": ".
pub row_of-failure :
    (now seq : ℕ) (entry : UploadEntry) (err : Thrown)
    → IsWhole entry.relative_path
    → ((row_of now seq (entry.relative_path & (": " & message_of err))).filename
        ≡ entry.relative_path)
      × ((row_of now seq (entry.relative_path & (": " & message_of err))).message ≡ message_of err)
unfolding row_of
row_of-failure now seq entry err whole =
    ground (arith, split_message_lem entry.relative_path (message_of err) whole)

toast_parts-empty_iff :
    (s : UploadBatchSummary)
    → (length (toast_parts s) ≡ 0) ↔ (s.created + s.duplicates + s.failed ≡ 0)
unfolding toast_parts
toast_parts-empty_iff s = ground arith

-- For a batch's summary the toast never falls back to "Upload finished": it says that no files
-- were uploaded exactly when there were none, and lists its parts otherwise.
pub format_upload_toast_of_batch :
    (send : ℕ → Form → Reply) (entries : List UploadEntry) (folder_id : Option String)
    (u : Uploader)
    → format_upload_toast (upload_entries send entries folder_id u).0 ≡ (
        if eqb (length entries) 0
        then "No files uploaded"
        else join " · " (toast_parts (upload_entries send entries folder_id u).0))
unfolding format_upload_toast
format_upload_toast_of_batch send entries folder_id u =
    let v = upload_entries-IsSummary send entries folder_id u in
    ground (
      arith,
      v.each_once,
      v.total,
      toast_parts-empty_iff (upload_entries send entries folder_id u).0,
      length-outcomes send folder_id (skips entries) 0 entries,
    )
