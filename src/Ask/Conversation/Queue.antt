-- ===== src/Ask/Conversation/Queue.antt =====
-- The order in which the questions of a conversation are sent.
use folium.Base.{
  ℕ, ◌≡◌, inl, inr, refl, sym, ap, ◌∙◌, String, Bool, true, false, ◌||◌, Option, none, some, List,
  [], ◌∷◌, ◌++◌, eqb, arith, if◌then◌else◌, get_or, is_filled, All, All-append, Bool-cases,
}
use mathlib.Core.List.{append-nil, append_assoc}
use folium.Base.Text.{trim}
use folium.Ask.Conversation.{
  Ending, Turn, Panel, Event, typed, submitted, stopped, settled, new_chat, new_chat_done, clear,
  clear_done, document_changed, server_answered, activated, catch_up, find_turn, drop_turn, drains,
}
use folium.Ask.Conversation.Steps.{
  run_ask, submit, settle_turn, drain, settle, react, step, run, run_next,
}
use folium.Ask.Conversation.Shown.{Agrees, ended, ended-Ended}

-- The queue is empty unless a run is in progress, of which there is at most one.
abbrev pub Waits : Bool → List String → List Turn → Type 0
Waits false [] [] = Unit
Waits true queue (t ∷ []) = Unit
Waits _ _ _ = ⊥

-- The questions that were sent and those that wait are the given ones, in order, and what waits will
-- be sent when the run in progress ends.
pub record InOrder (p : Panel) (questions : List String) : Type 0 where
  pub agrees : Agrees p
  pub drains : p.skip_drain ≡ false
  pub order : p.asked ++ p.queue_ref ≡ questions
  pub filled : All (λ q. is_filled q ≡ true) p.queue_ref
  pub waits : Waits p.processing p.queue_ref p.in_flight

-- The question that an event gives to the panel.
abbrev pub accepted : Event → Panel → List String
accepted (submitted confirm_remote override_question) p =
    if is_filled (trim (get_or override_question p.draft))
    then trim (get_or override_question p.draft) ∷ []
    else []
accepted _ p = []

-- Neither a failure, nor another conversation or document.
abbrev pub IsPlain : Event → Type 0
IsPlain (typed text) = Unit
IsPlain (submitted confirm_remote override_question) = Unit
IsPlain stopped = Unit
IsPlain (settled n ending) = drains ending ≡ true
IsPlain (server_answered messages) = Unit
IsPlain (activated citation) = Unit
IsPlain _ = ⊥

pub catch_up-InOrder : (p : Panel) (qs : List String) → InOrder p qs → InOrder (catch_up p) qs
unfolding catch_up
catch_up-InOrder p qs h = ground arith

Waits-idle :
    (b : Bool) (queue : List String) (turns : List Turn)
    → b ≡ false
    → Waits b queue turns
    → (queue ≡ []) × (turns ≡ [])
Waits-idle true queue turns e w = cc
Waits-idle false [] [] e w = (refl, refl)
Waits-idle false [] (t ∷ turns) e w = elim w [ ]
Waits-idle false (q ∷ queue) turns e w = elim w [ ]

Waits-longer :
    (b : Bool) (queue : List String) (turns : List Turn) (q : String)
    → b ≡ true
    → Waits b queue turns
    → Waits b (queue ++ q ∷ []) turns
Waits-longer true queue (t ∷ []) q e w = tt
Waits-longer false queue turns q e w = cc
Waits-longer true queue [] q e w = elim w [ ]
Waits-longer true queue (t ∷ s ∷ turns) q e w = elim w [ ]

busy_test : (p : Panel) → p.processing ≡ true → (p.pending || p.processing) ≡ true
busy_test p busy = ground arith

idle_test : (p : Panel) → p.processing ≡ false → Agrees p → (p.pending || p.processing) ≡ false
idle_test p idle a = ground arith

abbrev FoundIn : Option Turn → List Turn → Type 0
FoundIn none turns = Unit
FoundIn (some t) turns = turns ≡ t ∷ []

found-Waits :
    (n : ℕ) (b : Bool) (queue : List String) (turns : List Turn)
    → Waits b queue turns
    → FoundIn (find_turn n turns) turns
unfolding find_turn
found-Waits n false [] [] w = tt
found-Waits n true queue (t ∷ []) w = elim (Bool-cases (eqb t.number n)) [
  | inl e ↦ rw e refl
  | inr e ↦ rw e tt
]
found-Waits n false [] (t ∷ turns) w = elim w [ ]
found-Waits n false (q ∷ queue) turns w = elim w [ ]
found-Waits n true queue [] w = elim w [ ]
found-Waits n true queue (t ∷ s ∷ turns) w = elim w [ ]

pub dropped : (t : Turn) → drop_turn t.number (t ∷ []) ≡ []
unfolding drop_turn
dropped t = ground arith

module _ (id_at_most : String → String → Bool) (now : ℕ → ℕ)
    (temp_user temp_assistant : ℕ → String) where
  -- A question is sent at once if nothing is in progress.
  run_ask-InOrder :
      (question : String) (confirm_remote : Bool) (p : Panel) (rest : List String)
      (qs : List String)
      → p.processing ≡ false
      → p.queue_ref ≡ rest
      → p.queue ≡ rest
      → p.skip_drain ≡ false
      → p.in_flight ≡ []
      → All (λ q. is_filled q ≡ true) rest
      → p.asked ++ question ∷ rest ≡ qs
      → InOrder (run_ask id_at_most now temp_user temp_assistant question confirm_remote p) qs
  unfolding run_ask
  run_ask-InOrder question confirm_remote p rest qs idle r q s f filled order =
      ground (arith, append_assoc p.asked (question ∷ []) rest)

  run_next-InOrder :
      (rest : List String) (p : Panel) (qs : List String)
      → p.processing ≡ false
      → p.pending ≡ false
      → p.queue_ref ≡ rest
      → p.queue ≡ rest
      → p.skip_drain ≡ false
      → p.in_flight ≡ []
      → All (λ q. is_filled q ≡ true) rest
      → p.asked ++ rest ≡ qs
      → InOrder (run_next id_at_most now temp_user temp_assistant rest p) qs
  unfolding run_next
  run_next-InOrder [] p qs idle pending r q s f filled order = ground arith
  run_next-InOrder (next ∷ rest) p qs idle pending r q s f (e, filled) order = rw e (
      run_ask-InOrder next false (record p { queue_ref = rest; queue = rest }) rest qs idle refl
        refl s f filled order)

  pub drain_plain :
      (ending : Ending) (p : Panel)
      → drains ending ≡ true
      → p.skip_drain ≡ false
      → drain id_at_most now temp_user temp_assistant ending p
        ≡ run_next id_at_most now temp_user temp_assistant p.queue_ref p
  unfolding drain
  drain_plain ending p d skip = ground arith

  settle_turn-InOrder :
      (t : Turn) (ending : Ending) (p : Panel) (qs : List String)
      → drains ending ≡ true
      → p.in_flight ≡ t ∷ []
      → InOrder p qs
      → InOrder (settle_turn id_at_most now temp_user temp_assistant (some t) ending p) qs
  unfolding settle_turn ended
  settle_turn-InOrder t ending p qs d f h =
      let e = ended-Ended id_at_most now temp_user temp_assistant t ending p in
      let left = ended id_at_most now temp_user temp_assistant t ending p in
      let skip : left.skip_drain ≡ false = e.skip_drain ∙ h.drains in
      let none_left : left.in_flight ≡ [] = e.in_flight ∙ rw f (dropped t) in
      let filled : All (λ q. is_filled q ≡ true) left.queue_ref = rw e.queue_ref h.filled in
      rw (drain_plain ending left d skip) (
        run_next-InOrder left.queue_ref left qs e.processing e.pending refl
          (e.queue ∙ h.agrees.queue ∙ sym e.queue_ref) skip none_left filled
          (rw (e.asked, e.queue_ref) h.order))

  send_or_queue :
      (confirm_remote : Bool) (q : String) (p : Panel) (qs : List String)
      → is_filled q ≡ true
      → InOrder p qs
      → InOrder
          (if p.pending || p.processing
            then record p {
              queue_ref = p.queue_ref ++ q ∷ [];
              queue = p.queue_ref ++ q ∷ [];
              draft = "";
            }
            else run_ask id_at_most now temp_user temp_assistant q confirm_remote
                (record p { draft = "" }))
          (qs ++ q ∷ [])
  send_or_queue confirm_remote q p qs e h = elim (Bool-cases p.processing) [
    | inl busy ↦ rw (busy_test p busy) (record {
      agrees = record { queue = refl; pending = h.agrees.pending };
      drains = h.drains;
      order = sym (append_assoc p.asked p.queue_ref (q ∷ [])) ∙ ap (λ l. l ++ q ∷ []) h.order;
      filled = All-append (λ x. is_filled x ≡ true) p.queue_ref (q ∷ []) h.filled (e, tt);
      waits = Waits-longer p.processing p.queue_ref p.in_flight q busy h.waits;
    })
    | inr idle ↦
        let (empty, rests) = Waits-idle p.processing p.queue_ref p.in_flight idle h.waits in
        let at_front : p.asked ≡ qs = sym (append-nil p.asked) ∙ rw empty at h.order in
        rw (idle_test p idle h.agrees) (
          run_ask-InOrder q confirm_remote (record p { draft = "" }) [] (qs ++ q ∷ []) idle empty
            (h.agrees.queue ∙ empty) h.drains rests tt (ap (λ l. l ++ q ∷ []) at_front))
  ]

  submit-InOrder :
      (confirm_remote : Bool) (o : Option String) (p : Panel) (qs : List String)
      → InOrder p qs
      → InOrder
          (submit id_at_most now temp_user temp_assistant confirm_remote o p)
          (qs ++ accepted (submitted confirm_remote o) p)
  unfolding submit
  submit-InOrder confirm_remote o p qs h = elim (Bool-cases (is_filled (trim (get_or o p.draft)))) [
    | inl e ↦ rw e (send_or_queue confirm_remote (trim (get_or o p.draft)) p qs e h)
    | inr e ↦ rw e (rw (append-nil qs) h)
  ]

  settle_found :
      (o : Option Turn) (ending : Ending) (p : Panel) (qs : List String)
      → drains ending ≡ true
      → FoundIn o p.in_flight
      → InOrder p qs
      → InOrder (settle_turn id_at_most now temp_user temp_assistant o ending p) qs
  unfolding settle_turn
  settle_found none ending p qs d f h = h
  settle_found (some t) ending p qs d f h = settle_turn-InOrder t ending p qs d f h

  pub settle-InOrder :
      (n : ℕ) (ending : Ending) (p : Panel) (qs : List String)
      → drains ending ≡ true
      → InOrder p qs
      → InOrder (settle id_at_most now temp_user temp_assistant n ending p) qs
  unfolding settle
  settle-InOrder n ending p qs d h =
      settle_found (find_turn n p.in_flight) ending p qs d
        (found-Waits n p.processing p.queue_ref p.in_flight h.waits) h

  pub react-InOrder :
      (e : Event) (p : Panel) (qs : List String)
      → IsPlain e
      → InOrder p qs
      → InOrder (react id_at_most now temp_user temp_assistant e p) (qs ++ accepted e p)
  unfolding react
  react-InOrder (typed text) p qs plain h = rw (append-nil qs) (record {
    agrees = record { queue = h.agrees.queue; pending = h.agrees.pending };
    drains = h.drains;
    order = h.order;
    filled = h.filled;
    waits = h.waits;
  })
  react-InOrder (submitted confirm_remote o) p qs plain h = submit-InOrder confirm_remote o p qs h
  react-InOrder stopped p qs plain h = rw (append-nil qs) (record {
    agrees = record { queue = h.agrees.queue; pending = h.agrees.pending };
    drains = refl;
    order = h.order;
    filled = h.filled;
    waits = h.waits;
  })
  react-InOrder (settled n ending) p qs plain h =
      rw (append-nil qs) (settle-InOrder n ending p qs plain h)
  react-InOrder (server_answered messages) p qs plain h = rw (append-nil qs) (record {
    agrees = record { queue = h.agrees.queue; pending = h.agrees.pending };
    drains = h.drains;
    order = h.order;
    filled = h.filled;
    waits = h.waits;
  })
  react-InOrder (activated citation) p qs plain h = rw (append-nil qs) (record {
    agrees = record { queue = h.agrees.queue; pending = h.agrees.pending };
    drains = h.drains;
    order = h.order;
    filled = h.filled;
    waits = h.waits;
  })
  react-InOrder new_chat p qs plain h = elim plain [ ]
  react-InOrder new_chat_done p qs plain h = elim plain [ ]
  react-InOrder clear p qs plain h = elim plain [ ]
  react-InOrder clear_done p qs plain h = elim plain [ ]
  react-InOrder document_changed p qs plain h = elim plain [ ]

  -- The questions that a run of events gives to the panel.
  abbrev pub accepted_all : List Event → Panel → List String
  accepted_all [] p = []
  accepted_all (e ∷ events) p =
      accepted e p ++ accepted_all events (step id_at_most now temp_user temp_assistant e p)

  -- From a panel that keeps the order, as long as no answer fails and neither the conversation nor
  -- the document changes, every question is sent in the order in which it was given, or waits behind
  -- those that were; and none waits unless an answer is pending.
  pub run-InOrder :
      (events : List Event) (p : Panel) (qs : List String)
      → All IsPlain events
      → InOrder p qs
      → InOrder (run id_at_most now temp_user temp_assistant events p) (qs ++ accepted_all events p)
  unfolding run step
  run-InOrder [] p qs plain h = rw (append-nil qs) h
  run-InOrder (e ∷ events) p qs (plain, rest) h =
      let next = catch_up (react id_at_most now temp_user temp_assistant e p) in
      rw (← append_assoc qs (accepted e p) (accepted_all events next)) (
        run-InOrder events next (qs ++ accepted e p) rest (
          catch_up-InOrder (react id_at_most now temp_user temp_assistant e p) (qs ++ accepted e p)
            (react-InOrder e p qs plain h)))
