-- ===== src/Ask/Conversation/Shown.antt =====
-- What the panel shows of a conversation agrees with what it goes by.
use folium.Base.{
  ℕ, ◌≡◌, inl, inr, refl, sym, ◌∙◌, String, Bool, false, Option, none, some, List, [], ◌∷◌, arith,
  get_or, is_filled, Bool-cases,
}
use folium.Base.Text.{trim}
use folium.Ask.Conversation.{
  AskMessage, Ending, answered, Turn, Panel, Event, submitted, settled, mounted, finish, catch_up,
  find_turn, drop_turn,
}
use folium.Ask.Conversation.Steps.{
  run_ask, submit, take_ending, settle_turn, drain, settle, react, step, run, run_next,
}

-- What the panel shows of the queue and of a run in progress is what it goes by.
pub record Agrees (p : Panel) : Type 0 where
  pub queue : p.queue ≡ p.queue_ref
  pub pending : p.pending ≡ p.processing

catch_up-Agrees : (p : Panel) → Agrees p → Agrees (catch_up p)
unfolding catch_up
catch_up-Agrees p h = ground arith

module _ (id_at_most : String → String → Bool) (now : ℕ → ℕ)
    (temp_user temp_assistant : ℕ → String) where
  run_ask-Agrees :
      (question : String) (confirm_remote : Bool) (p : Panel)
      → Agrees p
      → Agrees (run_ask id_at_most now temp_user temp_assistant question confirm_remote p)
  unfolding run_ask
  run_ask-Agrees question confirm_remote p h = ground arith

  run_next-Agrees :
      (rest : List String) (p : Panel)
      → Agrees p
      → Agrees (run_next id_at_most now temp_user temp_assistant rest p)
  unfolding run_next
  run_next-Agrees [] p h = h
  run_next-Agrees (next ∷ rest) p h = elim (Bool-cases (is_filled next)) [
    | inl e ↦ rw e (
        run_ask-Agrees next false (record p { queue_ref = rest; queue = rest })
          (record { queue = refl; pending = h.pending }))
    | inr e ↦ rw e h
  ]

  -- A run that has ended leaves what waits as it is.
  pub record Ended (t : Turn) (ending : Ending) (p q : Panel) : Type 0 where
    pub queue : q.queue ≡ p.queue
    pub queue_ref : q.queue_ref ≡ p.queue_ref
    pub pending : q.pending ≡ false
    pub processing : q.processing ≡ false
    pub skip_drain : q.skip_drain ≡ p.skip_drain
    pub in_flight : q.in_flight ≡ drop_turn t.number p.in_flight
    pub asked : q.asked ≡ p.asked
    pub turns : q.turns ≡ p.turns

  unfoldable pub ended : Turn → Ending → Panel → Panel
  ended t ending p =
      finish t ending (take_ending id_at_most now temp_user temp_assistant t ending p)

  pub ended-Ended : (t : Turn) (ending : Ending) (p : Panel) → Ended t ending p (ended t ending p)
  unfolding ended finish take_ending
  ended-Ended t (answered r) p = ground arith
  ended-Ended t ending p = ground arith

  drain-Agrees :
      (ending : Ending) (p : Panel)
      → Agrees p
      → Agrees (drain id_at_most now temp_user temp_assistant ending p)
  unfolding drain
  drain-Agrees ending p h = ground (arith, run_next-Agrees p.queue_ref p h)

  settle_turn-Agrees :
      (o : Option Turn) (ending : Ending) (p : Panel)
      → Agrees p
      → Agrees (settle_turn id_at_most now temp_user temp_assistant o ending p)
  unfolding settle_turn ended
  settle_turn-Agrees none ending p h = h
  settle_turn-Agrees (some t) ending p h =
      let e = ended-Ended t ending p in
      drain-Agrees ending (ended t ending p) (record {
        queue = e.queue ∙ h.queue ∙ sym e.queue_ref;
        pending = e.pending ∙ sym e.processing;
      })

  react-Agrees :
      (e : Event) (p : Panel)
      → Agrees p
      → Agrees (react id_at_most now temp_user temp_assistant e p)
  unfolding react submit settle
  react-Agrees (settled n ending) p h = settle_turn-Agrees (find_turn n p.in_flight) ending p h
  react-Agrees (submitted confirm_remote override_question) p h = ground (
    arith,
    run_ask-Agrees (trim (get_or override_question p.draft)) confirm_remote
        (record p { draft = "" }),
  )
  react-Agrees e p h = ground arith

  run-Agrees :
      (events : List Event) (p : Panel)
      → Agrees p
      → Agrees (run id_at_most now temp_user temp_assistant events p)
  unfolding run step
  run-Agrees [] p h = h
  run-Agrees (e ∷ events) p h =
      run-Agrees events (catch_up (react id_at_most now temp_user temp_assistant e p))
        (catch_up-Agrees (react id_at_most now temp_user temp_assistant e p) (react-Agrees e p h))

  -- Whatever happens, the queue that is shown is the one that is worked off, and a pending answer is
  -- shown exactly while the panel takes a run to be in progress.
  pub run-Agrees-mounted :
      (server_messages : List AskMessage) (events : List Event)
      → Agrees (run id_at_most now temp_user temp_assistant events (mounted server_messages))
  unfolding mounted
  run-Agrees-mounted server_messages events =
      run-Agrees events (mounted server_messages) (record { queue = refl; pending = refl })
