-- ===== src/Ask/Conversation.antt =====
-- `DocumentAskPanel` of frontend/src/components/ask/DocumentAskPanel.tsx: a conversation about one
-- document, with the questions that wait while another is being answered.
-- An event is one run of the source between two awaits: an answer arrives as the event `settled`.
-- The clock, the random ids and the order of ids are parameters.
pub mod Steps
pub mod Shown
pub mod Pending
pub mod Queue
pub mod Progress
pub mod Faults
mod Examples
use folium.Base.{
  ℕ, suc, ◌+◌, String, Bool, true, false, not, ◌&&◌, ◌||◌, Option, none, some, List, [], ◌∷◌, ◌++◌,
  ◌==◌, eqb, ltb, if◌then◌else◌, get_or, is_some, is_filled, length, filter,
}
use folium.Base.Sorting.{sort}
use folium.Base.Text.{trim}

pub data Role : Type 0 where
  user assistant : Role

pub record Citation : Type 0 where
  pub display_number : Option ℕ
  pub chunk_id : String
  pub document_id : String
  pub page_number : Option ℕ
  pub title : Option String
  pub quote : Option String

-- `created_at` in milliseconds
pub record AskMessage : Type 0 where
  pub id : String
  pub role : Role
  pub content : String
  pub citations : List Citation
  pub created_at : ℕ

abbrev pub is_same_role : Role → Role → Bool
is_same_role user user = true
is_same_role assistant assistant = true
is_same_role _ _ = false

abbrev pub is_user : Role → Bool
is_user user = true
is_user assistant = false

-- `compare(a, b) <= 0` of `sortMessages`; `id_at_most` is `a.localeCompare(b) <= 0`.
abbrev pub in_order : (String → String → Bool) → AskMessage → AskMessage → Bool
in_order id_at_most a b =
    if not (eqb a.created_at b.created_at)
    then ltb a.created_at b.created_at
    else if not (is_same_role a.role b.role)
    then is_user a.role
    else id_at_most a.id b.id

unfoldable pub sort_messages : (String → String → Bool) → List AskMessage → List AskMessage
sort_messages id_at_most messages = sort (in_order id_at_most) messages

-- What an answer brings.
pub record AskResponse : Type 0 where
  pub answer : String
  pub citations : List Citation
  pub user_message_id : Option String
  pub assistant_message_id : Option String
  pub persist_failed : Bool

-- How a request ends: `forbidden` is an `ApiError` with status 403; `failed` has the message of an
-- `Error`, or none.
pub data Ending : Type 0 where
  answered : AskResponse → Ending
  aborted : Ending
  forbidden : (message : String) → Ending
  failed : (message : Option String) → Ending

-- A run of `runAskAndDrain` that waits for its answer, with its optimistic message.
pub record Turn : Type 0 where
  pub number : ℕ
  pub question : String
  pub confirm_remote : Bool
  pub message : AskMessage

-- The state and the refs of the panel; `abort` is the number of the turn whose controller it is,
-- `in_flight` the runs that wait, and `asked` every question that was sent, in order.
pub record Panel : Type 0 where
  pub draft : String
  pub local_messages : Option (List AskMessage)
  pub server_messages : List AskMessage
  pub pending : Bool
  pub queue : List String
  pub queue_ref : List String
  pub error : Option String
  pub pending_remote : Bool
  pub persist_warning : Option String
  pub active_citation : Option ℕ
  pub processing : Bool
  pub skip_drain : Bool
  pub abort : Option ℕ
  pub in_flight : List Turn
  pub asked : List String
  pub turns : ℕ

-- What the panel holds when it is made, before its effects run.
abbrev pub fresh_panel : List AskMessage → Panel
fresh_panel server_messages = record {
  draft = "";
  local_messages = none;
  server_messages = server_messages;
  pending = false;
  queue = [];
  queue_ref = [];
  error = none;
  pending_remote = false;
  persist_warning = none;
  active_citation = none;
  processing = false;
  skip_drain = false;
  abort = none;
  in_flight = [];
  asked = [];
  turns = 0;
}

pub data Event : Type 0 where
  typed : String → Event
  submitted : (confirm_remote : Bool) → (override_question : Option String) → Event
  stopped : Event
  settled : ℕ → Ending → Event
  new_chat new_chat_done : Event
  clear clear_done : Event
  document_changed : Event
  server_answered : List AskMessage → Event
  activated : Citation → Event

-- `c.display_number ?? i + 1`
number_citations : ℕ → List Citation → List Citation
number_citations i [] = []
number_citations i (c ∷ cs) =
    record c { display_number = some (get_or c.display_number (i + 1)) }
    ∷ number_citations (i + 1) cs

abbrev pub without : String → List AskMessage → List AskMessage
without id messages = filter (λ m. not (m.id == id)) messages

abbrev pub base_of : Panel → List AskMessage
base_of p = get_or p.local_messages p.server_messages

abbrev pub is_empty {ℓ} : {A : Type ℓ} → List A → Bool
is_empty [] = true
is_empty _ = false

pub find_turn : ℕ → List Turn → Option Turn
find_turn n [] = none
find_turn n (t ∷ ts) = let rest = find_turn n ts in if eqb t.number n then some t else rest

pub drop_turn : ℕ → List Turn → List Turn
drop_turn n [] = []
drop_turn n (t ∷ ts) = let rest = drop_turn n ts in if eqb t.number n then rest else t ∷ rest

abbrev is_aborted : Ending → Bool
is_aborted aborted = true
is_aborted _ = false

-- `shouldDrain`
abbrev pub drains : Ending → Bool
drains (answered r) = true
drains aborted = true
drains _ = false

abbrev is_number : Option ℕ → ℕ → Bool
is_number none n = false
is_number (some m) n = eqb m n

-- `finally`
pub finish : Turn → Ending → Panel → Panel
finish t ending p = record p {
  abort = if is_number p.abort t.number then none else p.abort;
  pending = false;
  processing = false;
  draft =
      if is_aborted ending && not (is_filled (trim p.draft) || not (is_empty p.queue_ref))
      then t.question
      else p.draft;
  in_flight = drop_turn t.number p.in_flight;
}

-- `handleNewChat` and `handleClear` up to the request.
pub start_over : Panel → Panel
start_over p = record p { skip_drain = true; queue_ref = []; queue = [] }

-- The same two behind the request, if it succeeds.
pub started_over : Panel → Panel
started_over p = record p {
  local_messages = some [];
  error = none;
  persist_warning = none;
  active_citation = none;
}

-- The effect of a changed `documentId`, which also runs when the panel appears.
pub change_document : Panel → Panel
change_document p = record p {
  local_messages = none;
  error = none;
  pending_remote = false;
  persist_warning = none;
  active_citation = none;
  draft = "";
  queue = [];
  queue_ref = [];
  skip_drain = true;
  abort = none;
  processing = false;
  pending = false;
}

-- The effect that drops the local messages once the server has as many.
pub catch_up : Panel → Panel
catch_up p = elim p.local_messages [
  | none ↦ p
  | some messages ↦
      if p.pending || not (is_empty p.queue) || p.processing
      then p
      else if ltb (length p.server_messages) (length messages)
      then p
      else record p { local_messages = none }
]

-- The panel as its user meets it first: its effect has run.
unfoldable pub mounted : List AskMessage → Panel
unfolding change_document
mounted server_messages = change_document (fresh_panel server_messages)
