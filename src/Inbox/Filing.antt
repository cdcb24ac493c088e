-- ===== src/Inbox/Filing.antt =====
-- frontend/src/features/inbox/formatMeta.ts, suggestionAcceptFilter.ts, acceptAllSuggestions.ts,
-- inboxAiFiling.ts, and `isProcessable` of InboxWorkView.tsx: where a document is to be filed, and
-- which suggestions are accepted for it. `toLowerCase` is a parameter.
pub mod Laws
pub mod Posted
use Prim.Native.Char.{code}
use folium.Base.{
  ℕ, ◌+◌, ◌≤◌, ◌≡◌, refl, ◌⊎◌, String, Bool, true, false, not, ◌&&◌, ◌||◌, Option, none, some, List,
  [], ◌∷◌, ◌++◌, ◌==◌, eq_iff, arith, ltb, eqb, if◌then◌else◌, length, filter, find, is_filled,
  is_truthy, is_text, All, All-append,
}
use folium.Base.Sets.{has}
use folium.Base.Text.{◌&◌, is_space, trim_start}
use folium.Types.{Document, Suggestion, InboxStatus, is_inbox}

abbrev starts_with_slash : String → Bool
starts_with_slash String.[] = false
starts_with_slash (String.◌∷◌ c s) = eqb (code c) b'/'

-- `s.replace(/\s*\/\s*/g, "/")`: no white space stays beside a slash.
tighten : String → String
unfolding is_space trim_start
tighten String.[] = ""
tighten (String.◌∷◌ c s) =
    let rest = tighten s in
    if eqb (code c) b'/'
    then String.◌∷◌ c (trim_start rest)
    else if is_space (code c) && starts_with_slash rest
    then rest
    else String.◌∷◌ c rest

-- `s.replace(/^\/+|\/+$/g, "")`
strip_start : String → String
strip_start String.[] = ""
strip_start (String.◌∷◌ c s) =
    let rest = strip_start s in if eqb (code c) b'/' then rest else String.◌∷◌ c s

strip_end : String → String
strip_end String.[] = ""
strip_end (String.◌∷◌ c s) =
    let rest = strip_end s in if rest == "" && eqb (code c) b'/' then "" else String.◌∷◌ c rest

-- `s.endsWith(t)`
ends_with : String → String → Bool
ends_with t String.[] = t == ""
ends_with t (String.◌∷◌ c s) = t == String.◌∷◌ c s || ends_with t s

module _ (lower : String → String) where
  unfoldable pub is_system_inbox_path : Option String → Bool
  unfolding tighten strip_start strip_end ends_with
  is_system_inbox_path none = false
  is_system_inbox_path (some path) =
      let normalized = lower (strip_end (strip_start (tighten path))) in
      if not (is_filled path)
      then false
      else normalized == "inbox" || normalized == "documents/inbox" || ends_with "/inbox" normalized

  unfoldable pub folder_display_label : Document → String
  folder_display_label doc = elim doc.pending_folder_path [
    | some pending ↦
        if is_filled pending
        then "+ New: " & pending
        else (if not (is_truthy doc.folder_path) || is_system_inbox_path doc.folder_path
            then "—"
            else elim doc.folder_path [ none ↦ "—" | some path ↦ path ])
    | none ↦
        if not (is_truthy doc.folder_path) || is_system_inbox_path doc.folder_path
        then "—"
        else elim doc.folder_path [ none ↦ "—" | some path ↦ path ]
  ]

  unfoldable pub has_manual_destination : Document → Bool
  has_manual_destination doc =
      if is_truthy doc.pending_folder_path
      then true
      else if is_truthy doc.folder_path && not (is_system_inbox_path doc.folder_path)
      then true
      else false

  unfoldable pub should_accept_suggestion : Document → Suggestion → Bool
  should_accept_suggestion doc suggestion =
      if suggestion.field == "folder" && has_manual_destination doc then false else true

  unfoldable pub is_processable : Document → Bool
  is_processable doc =
      if is_inbox doc.inbox_status InboxStatus.preparing
        || is_inbox doc.inbox_status InboxStatus.failed
      then false
      else if is_truthy doc.pending_folder_path
      then true
      else if is_truthy doc.folder_path && not (is_system_inbox_path doc.folder_path)
      then true
      else false

-- The groups of `byDoc`, in the order in which their documents first appear.
abbrev pub Groups : Type 0
Groups = List (String × List Suggestion)

-- `(byDoc.get(id) ?? byDoc.set(id, []).get(id)!).push(s)`
pub push : Suggestion → Groups → Groups
push s [] = (s.document_id, s ∷ []) ∷ []
push s ((id, rows) ∷ groups) =
    if id == s.document_id then (id, rows ++ s ∷ []) ∷ groups else (id, rows) ∷ push s groups

pub group : List Suggestion → Groups → Groups
group [] groups = groups
group (s ∷ targets) groups = group targets (push s groups)

pub flatten : Groups → List Suggestion
flatten [] = []
flatten ((id, rows) ∷ groups) = rows ++ flatten groups

-- `map[id] ?? []`
abbrev pub rows_of : Groups → String → List Suggestion
rows_of [] id = []
rows_of ((key, rows) ∷ groups) id = let rest = rows_of groups id in if key == id then rows else rest

pub record AcceptResult : Type 0 where
  pub accepted : ℕ
  pub failed : ℕ
  pub skipped : ℕ
  -- the suggestions that were posted, in order
  pub posted : List Suggestion

-- `documentsById` is a `Map`, given by its `get`; `post s` is whether the request for `s` succeeds.
module _ (lower : String → String) (documents_by_id : String → Option Document)
    (post : Suggestion → Bool) where
  -- `doc && !shouldAcceptSuggestion(doc, s)`
  unfoldable pub is_skipped : Suggestion → Bool
  is_skipped s = elim (documents_by_id s.document_id) [
    | none ↦ false
    | some doc ↦ not (should_accept_suggestion lower doc s)
  ]

  -- One round of the inner loop.
  pub accept_one : Suggestion → AcceptResult → AcceptResult
  accept_one s r =
      if is_skipped s
      then record r { skipped = r.skipped + 1 }
      else if post s
      then record r { accepted = r.accepted + 1; posted = r.posted ++ s ∷ [] }
      else record r { failed = r.failed + 1; posted = r.posted ++ s ∷ [] }

  pub accept_rows : List Suggestion → AcceptResult → AcceptResult
  accept_rows [] r = r
  accept_rows (s ∷ rows) r = accept_rows rows (accept_one s r)

  pub accept_groups : Groups → AcceptResult → AcceptResult
  accept_groups [] r = r
  accept_groups ((id, rows) ∷ groups) r = accept_groups groups (accept_rows rows r)

  pub accept_all_suggestions : List Suggestion → List String → AcceptResult
  accept_all_suggestions pending document_ids =
      let targets = filter (λ s. has s.document_id document_ids) pending in
      accept_groups (group targets [])
        (record { accepted = 0; failed = 0; skipped = 0; posted = [] })

pub data FilingReason : Type 0 where
  ready controls_off not_assigned : FilingReason

pub record InboxAiFilingState : Type 0 where
  pub indexing_ready : Bool
  pub ai_suggestions_available : Bool
  pub reason : FilingReason

-- The fields of `health` that are read; `indexing_status` is `health.indexing.status`.
pub record AiHealth : Type 0 where
  pub auto_tagging : Option Bool
  pub indexing_status : Option String

unfoldable pub inbox_ai_filing_state : Option AiHealth → InboxAiFilingState
inbox_ai_filing_state health =
    let indexing_ready : Bool = elim health [
      | none ↦ false
      | some h ↦ is_text h.indexing_status "available"
    ] in
    let auto_tagging : Bool = elim health [
      | none ↦ false
      | some h ↦ elim h.auto_tagging [ none ↦ false | some on ↦ on ]
    ] in
    if indexing_ready && auto_tagging
    then record { indexing_ready = true; ai_suggestions_available = true; reason = ready }
    else if indexing_ready
    then record { indexing_ready = true; ai_suggestions_available = false; reason = controls_off }
    else record { indexing_ready = false; ai_suggestions_available = false; reason = not_assigned }
