-- ===== src/Ask/Conversation/Pending.antt =====
-- When the panel shows that an answer is pending.
use folium.Base.{
  ℕ, ◌≡◌, inl, inr, refl, sym, ◌∙◌, String, Bool, true, false, not, ◌&&◌, Option, none, some, List,
  [], ◌∷◌, arith, get_or, is_filled, eqb, Bool-cases, any,
}
use folium.Base.Text.{trim}
use folium.Ask.Conversation.{
  AskMessage, Ending, Turn, Panel, Event, submitted, settled, document_changed, mounted, catch_up,
  find_turn, drop_turn,
}
use folium.Ask.Conversation.Steps.{
  run_ask, submit, settle_turn, drain, settle, react, step, run, run_next,
}
use folium.Ask.Conversation.Shown.{Agrees, ended, ended-Ended, run-Agrees-mounted}

-- Of the runs that wait for an answer, there is one exactly if one is shown, and never a second; where
-- the document may have changed, there is one if one is shown.
abbrev pub Waits : (same_document : Bool) → List Turn → Bool → Type 0
Waits true [] pending = pending ≡ false
Waits true (t ∷ []) pending = pending ≡ true
Waits true (t ∷ u ∷ turns) pending = ⊥
Waits false [] pending = pending ≡ false
Waits false (t ∷ turns) pending = Unit

abbrev pub is_change : Event → Bool
is_change document_changed = true
is_change e = false

-- What the panel shows and goes by.
abbrev pub IsShown : Bool → Panel → Type 0
IsShown same p = (p.pending ≡ p.processing) × Waits same p.in_flight p.pending

-- With none shown, no run waits, or the document may have changed.
Waits-idle : (turns : List Turn) → Waits false turns false
Waits-idle [] = refl
Waits-idle (t ∷ turns) = tt

Waits-asked :
    (same : Bool) (turns : List Turn) (pending : Bool) (t : Turn)
    → pending ≡ false
    → Waits same turns pending
    → Waits same (t ∷ turns) true
Waits-asked false turns pending t e h = tt
Waits-asked true [] pending t e h = refl
Waits-asked true (u ∷ []) pending t e h = ground (arith, e, h)
Waits-asked true (u ∷ v ∷ turns) pending t e h = elim h [ ]

Waits-dropped :
    (same : Bool) (n : ℕ) (turns : List Turn) (pending : Bool) (t : Turn)
    → Waits same turns pending
    → find_turn n turns ≡ some t
    → Waits same (drop_turn t.number turns) false
unfolding find_turn drop_turn
Waits-dropped false n turns pending t h found = Waits-idle (drop_turn t.number turns)
Waits-dropped true n [] pending t h found = refl
Waits-dropped true n (u ∷ []) pending t h found = elim (Bool-cases (eqb u.number n)) [
  | inl this ↦ ground (arith, this, found)
  | inr other ↦ ground (arith, other, found)
]
Waits-dropped true n (u ∷ v ∷ turns) pending t h found = elim h [ ]

catch_up-IsShown : (same : Bool) (p : Panel) → IsShown same p → IsShown same (catch_up p)
unfolding catch_up
catch_up-IsShown same p h = ground arith

nil-Waits : (same : Bool) → Waits same [] false
nil-Waits true = refl
nil-Waits false = refl

module _ (id_at_most : String → String → Bool) (now : ℕ → ℕ)
    (temp_user temp_assistant : ℕ → String) where
  run_ask-IsShown :
      (same : Bool) (question : String) (confirm_remote : Bool) (p : Panel)
      → IsShown same p
      → IsShown same (run_ask id_at_most now temp_user temp_assistant question confirm_remote p)
  unfolding run_ask
  run_ask-IsShown same question confirm_remote p h = elim (Bool-cases p.processing) [
    | inl busy ↦ rw busy (h.0 ∙ busy, h.1)
    | inr idle ↦ rw idle (refl, Waits-asked same p.in_flight p.pending _ (h.0 ∙ idle) h.1)
  ]

  run_next-IsShown :
      (same : Bool) (rest : List String) (p : Panel)
      → IsShown same p
      → IsShown same (run_next id_at_most now temp_user temp_assistant rest p)
  unfolding run_next
  run_next-IsShown same [] p h = h
  run_next-IsShown same (next ∷ rest) p h = elim (Bool-cases (is_filled next)) [
    | inl e ↦ rw e (run_ask-IsShown same next false (record p { queue_ref = rest; queue = rest }) h)
    | inr e ↦ rw e h
  ]

  drain-IsShown :
      (same : Bool) (ending : Ending) (p : Panel)
      → IsShown same p
      → IsShown same (drain id_at_most now temp_user temp_assistant ending p)
  unfolding drain
  drain-IsShown same ending p h = ground (arith, run_next-IsShown same p.queue_ref p h)

  settle_turn-IsShown :
      (same : Bool) (n : ℕ) (o : Option Turn) (ending : Ending) (p : Panel)
      → find_turn n p.in_flight ≡ o
      → IsShown same p
      → IsShown same (settle_turn id_at_most now temp_user temp_assistant o ending p)
  unfolding settle_turn ended
  settle_turn-IsShown same n none ending p found h = h
  settle_turn-IsShown same n (some t) ending p found h =
      let e = ended-Ended id_at_most now temp_user temp_assistant t ending p in
      drain-IsShown same ending (ended id_at_most now temp_user temp_assistant t ending p) (
        e.pending ∙ sym e.processing,
        rw (e.in_flight, e.pending) (Waits-dropped same n p.in_flight p.pending t h.1 found),
      )

  react-IsShown :
      (same : Bool) (e : Event) (p : Panel)
      → (is_change e && same) ≡ false
      → IsShown same p
      → IsShown same (react id_at_most now temp_user temp_assistant e p)
  unfolding react submit settle
  react-IsShown same (settled n ending) p k h =
      settle_turn-IsShown same n (find_turn n p.in_flight) ending p refl h
  react-IsShown same (submitted confirm_remote override_question) p k h = ground (
    arith,
    run_ask-IsShown same (trim (get_or override_question p.draft)) confirm_remote
        (record p { draft = "" }),
  )
  react-IsShown false document_changed p k h = (refl, Waits-idle p.in_flight)
  react-IsShown true document_changed p k h = ground (arith, k)
  react-IsShown same e p k h = ground arith

  run-IsShown :
      (same : Bool) (events : List Event) (p : Panel)
      → (any is_change events && same) ≡ false
      → IsShown same p
      → IsShown same (run id_at_most now temp_user temp_assistant events p)
  unfolding run step
  run-IsShown same [] p k h = h
  run-IsShown same (e ∷ events) p k h =
      let next = react id_at_most now temp_user temp_assistant e p in
      run-IsShown same events (catch_up next) (ground (arith, k))
        (catch_up-IsShown same next (react-IsShown same e p (ground (arith, k)) h))

  -- Whatever happens, the queue that is shown is the one that is worked off, and an answer is shown as
  -- pending only while a run waits for its answer. As long as the document does not change, no two runs
  -- wait at once, and an answer is shown as pending exactly while one does.
  pub run-Waits :
      (server_messages : List AskMessage) (events : List Event)
      → Agrees (run id_at_most now temp_user temp_assistant events (mounted server_messages))
        × Waits
            (not (any is_change events))
            (run id_at_most now temp_user temp_assistant events (mounted server_messages)).in_flight
            (run id_at_most now temp_user temp_assistant events (mounted server_messages)).pending
  unfolding mounted
  run-Waits server_messages events = (
    run-Agrees-mounted id_at_most now temp_user temp_assistant server_messages events,
    (run-IsShown (not (any is_change events)) events (mounted server_messages) (ground arith)
        (refl, nil-Waits (not (any is_change events)))).1,
  )
