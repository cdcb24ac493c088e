-- ===== src/Ask/Conversation/Examples.antt =====
-- A conversation in its second turn, with a question that waits.
use folium.Base.{ℕ, ◌≡◌, refl, String, Bool, true, false, some, List, [], ◌∷◌, ◌++◌, map}
use folium.Base.Sorting.{sort}
use folium.Base.Text.{trim, trim_start, trim_end, is_space}
use folium.Ask.Conversation.{
  AskResponse, answered, aborted, Turn, Panel, fresh_panel, user, typed, submitted, settled,
  document_changed, mounted,
}
use folium.Ask.Conversation.Steps.{run, step, react, submit, settle, settle_turn}
use folium.Ask.Conversation.Shown.{Agrees}
use folium.Ask.Conversation.Pending.{Waits, run-Waits}
use folium.Ask.Conversation.Queue.{InOrder, accepted_all, run-InOrder}
use folium.Ask.Conversation.Progress.{Runs, answers, all_answered}
use folium.Ask.Conversation.Faults.{first_follow_up_waits}

abbrev at_most : String → String → Bool
at_most a b = true

abbrev clock : ℕ → ℕ
clock n = n

abbrev temp_user : ℕ → String
temp_user n = "temp-user"

abbrev temp_assistant : ℕ → String
temp_assistant n = "temp-assistant"

abbrev thanks : AskResponse
thanks = record {
  answer = "May 4";
  citations = [];
  user_message_id = some "u";
  assistant_message_id = some "a";
  persist_failed = false;
}

abbrev second : Turn
second = record {
  number = 1;
  question = "When is it due?";
  confirm_remote = false;
  message = record {
    id = "temp-user";
    role = user;
    content = "When is it due?";
    citations = [];
    created_at = 1;
  };
}

abbrev busy : Panel
busy = record (fresh_panel []) {
  queue = "Who sent it?" ∷ [];
  queue_ref = "Who sent it?" ∷ [];
  pending = true;
  processing = true;
  local_messages = some (second.message ∷ []);
  abort = some 1;
  in_flight = second ∷ [];
  asked = "What is it?" ∷ "When is it due?" ∷ [];
  turns = 2;
}

abbrev questions : List String
questions = "What is it?" ∷ "When is it due?" ∷ "Who sent it?" ∷ []

busy-InOrder : InOrder busy questions
busy-InOrder = record {
  agrees = record { queue = refl; pending = refl };
  drains = refl;
  order = refl;
  filled = (refl, tt);
  waits = tt;
}

busy-Runs : Runs busy second ("Who sent it?" ∷ [])
busy-Runs = record { in_flight = refl; turns = refl; queue = refl; processing = refl }

abbrev asked_once : Panel
asked_once =
    run at_most clock temp_user temp_assistant
      (submitted false (some "What is it?") ∷ typed "x" ∷ []) (mounted [])

run-Waits_example : Agrees asked_once × Waits true asked_once.in_flight asked_once.pending
run-Waits_example =
    run-Waits at_most clock temp_user temp_assistant []
      (submitted false (some "What is it?") ∷ typed "x" ∷ [])

-- With a change of the document the sign may be gone while a run waits: here the aborted run ends after
-- the next question.
lost_sign :
    let p =
      run at_most clock temp_user temp_assistant
        (submitted false (some "What is it?")
          ∷ document_changed
          ∷ submitted false (some "Paid?")
          ∷ settled 0 aborted
          ∷ [])
        (mounted []) in
    (p.pending ≡ false) × (map (λ (t : Turn). t.question) p.in_flight ≡ "Paid?" ∷ [])
unfolding run step react submit settle settle_turn mounted trim sort trim_start trim_end is_space
lost_sign = (refl, refl)

run-InOrder_example :
    InOrder
      (run at_most clock temp_user temp_assistant
        (submitted false (some "Paid?") ∷ settled 1 aborted ∷ settled 2 (answered thanks) ∷ [])
        busy)
      (questions
        ++ accepted_all at_most clock temp_user temp_assistant
            (submitted false (some "Paid?") ∷ settled 1 aborted ∷ settled 2 (answered thanks) ∷ [])
            busy)
run-InOrder_example =
    run-InOrder at_most clock temp_user temp_assistant
      (submitted false (some "Paid?") ∷ settled 1 aborted ∷ settled 2 (answered thanks) ∷ []) busy
      questions (tt, (refl, (refl, tt))) busy-InOrder

all_answered_example :
    ((run at_most clock temp_user temp_assistant (answers 2 1 thanks) busy).asked ≡ questions)
    × ((run at_most clock temp_user temp_assistant (answers 2 1 thanks) busy).queue_ref ≡ [])
    × ((run at_most clock temp_user temp_assistant (answers 2 1 thanks) busy).processing ≡ false)
all_answered_example =
    all_answered at_most clock temp_user temp_assistant busy questions second ("Who sent it?" ∷ [])
      thanks busy-InOrder busy-Runs

first_follow_up_waits_example :
    let p =
      run at_most clock temp_user temp_assistant
        (submitted false (some "What is it?")
          ∷ submitted false (some " Who sent it?")
          ∷ settled 0 (answered thanks)
          ∷ [])
        (mounted []) in
    (p.asked ≡ trim "What is it?" ∷ [])
    × (p.queue ≡ trim " Who sent it?" ∷ [])
    × (p.processing ≡ false)
unfolding trim
first_follow_up_waits_example =
    first_follow_up_waits at_most clock temp_user temp_assistant [] "What is it?" " Who sent it?"
      thanks refl refl
