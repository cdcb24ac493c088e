-- ===== src/Ask/Conversation/Steps.antt =====
-- What `DocumentAskPanel` does at an event: `submit`, `runAskAndDrain` before and behind its request,
-- and the other handlers.
use folium.Base.{
  ℕ, suc, ◌+◌, String, Bool, true, false, not, ◌&&◌, ◌||◌, Option, none, some, List, [], ◌∷◌, ◌++◌,
  if◌then◌else◌, get_or, is_filled,
}
use folium.Base.Text.{trim}
use folium.Ask.Conversation.{
  AskMessage, sort_messages, Ending, Turn, Panel, Event, number_citations, without, base_of,
  find_turn, drop_turn, is_empty, drains, finish, start_over, started_over, change_document,
  catch_up, user, assistant, answered, aborted, forbidden, failed, typed, submitted, stopped,
  settled, new_chat, new_chat_done, clear, clear_done, document_changed, server_answered, activated,
}

module _ (id_at_most : String → String → Bool) (now : ℕ → ℕ)
    (temp_user temp_assistant : ℕ → String) where
  abbrev pub message_of : ℕ → String → AskMessage
  message_of n question = record {
    id = temp_user n;
    role = user;
    content = question;
    citations = [];
    created_at = now n;
  }

  -- `runAskAndDrain` up to the request.
  unfoldable pub run_ask : String → Bool → Panel → Panel
  unfolding sort_messages
  run_ask question confirm_remote p =
      let message = message_of p.turns question in
      if p.processing then p else record p {
        processing = true;
        error = none;
        persist_warning = none;
        pending_remote = false;
        local_messages = some (sort_messages id_at_most (base_of p ++ message ∷ []));
        pending = true;
        abort = some p.turns;
        in_flight =
            record {
              number = p.turns;
              question = question;
              confirm_remote = confirm_remote;
              message = message;
            }
            ∷ p.in_flight;
        asked = p.asked ++ question ∷ [];
        turns = suc p.turns;
      }

  unfoldable pub submit : Bool → Option String → Panel → Panel
  unfolding run_ask
  submit confirm_remote override_question p =
      let question = trim (get_or override_question p.draft) in
      if not (is_filled question)
      then p
      else if p.pending || p.processing
      then record p {
        queue_ref = p.queue_ref ++ question ∷ [];
        queue = p.queue_ref ++ question ∷ [];
        draft = "";
      }
      else run_ask question confirm_remote (record p { draft = "" })

  -- The `try` and `catch` of a run, without `finally`.
  unfoldable pub take_ending : Turn → Ending → Panel → Panel
  unfolding sort_messages number_citations
  take_ending t (answered r) p = record p {
    local_messages = some (
        sort_messages id_at_most (
          without t.message.id (base_of p)
          ++ record t.message { id = get_or r.user_message_id t.message.id }
            ∷ record {
              id = get_or r.assistant_message_id (temp_assistant t.number);
              role = assistant;
              content = r.answer;
              citations = number_citations 0 r.citations;
              created_at = t.message.created_at + 1;
            }
            ∷ []));
    persist_warning =
        if r.persist_failed
        then some "Your answer was generated, but the conversation could not be saved."
        else p.persist_warning;
  }
  take_ending t aborted p = record p {
    local_messages =
        if is_empty (without t.message.id (base_of p))
        then none
        else some (sort_messages id_at_most (without t.message.id (base_of p)));
  }
  take_ending t (forbidden message) p = record p {
    local_messages =
        if is_empty (without t.message.id (base_of p))
        then none
        else some (sort_messages id_at_most (without t.message.id (base_of p)));
    draft = t.question;
    pending_remote = true;
    error = some (
        if is_filled message
        then message
        else "This provider is remote. Confirm to send the question outside your host.");
  }
  take_ending t (failed message) p = record p {
    local_messages =
        if is_empty (without t.message.id (base_of p))
        then none
        else some (sort_messages id_at_most (without t.message.id (base_of p)));
    draft = t.question;
    error = some (get_or message "I couldn't complete that request.");
  }

  unfoldable pub run_next : List String → Panel → Panel
  unfolding run_ask
  run_next [] p = p
  run_next (next ∷ rest) p =
      if is_filled next then run_ask next false (record p { queue_ref = rest; queue = rest }) else p

  -- What a run does behind `finally`.
  unfoldable pub drain : Ending → Panel → Panel
  unfolding run_next
  drain ending p =
      if drains ending && not p.skip_drain
      then run_next p.queue_ref p
      else if p.skip_drain
      then record p { skip_drain = false }
      else p

  unfoldable pub settle_turn : Option Turn → Ending → Panel → Panel
  unfolding take_ending finish drain
  settle_turn none ending p = p
  settle_turn (some t) ending p = drain ending (finish t ending (take_ending t ending p))

  unfoldable pub settle : ℕ → Ending → Panel → Panel
  unfolding settle_turn find_turn drop_turn
  settle n ending p = settle_turn (find_turn n p.in_flight) ending p

  unfoldable pub react : Event → Panel → Panel
  unfolding submit settle start_over started_over change_document
  react (typed text) p = record p { draft = text }
  react (submitted confirm_remote override_question) p = submit confirm_remote override_question p
  react stopped p = record p { skip_drain = false }
  react (settled n ending) p = settle n ending p
  react new_chat p = start_over p
  react new_chat_done p = started_over p
  react clear p = start_over p
  react clear_done p = started_over p
  react document_changed p = change_document p
  react (server_answered messages) p = record p { server_messages = messages }
  react (activated citation) p = record p { active_citation = citation.display_number }

  -- An event, and the effect that runs when the panel is shown again.
  unfoldable pub step : Event → Panel → Panel
  unfolding react catch_up
  step e p = catch_up (react e p)

  unfoldable pub run : List Event → Panel → Panel
  run [] p = p
  run (e ∷ events) p = run events (step e p)
