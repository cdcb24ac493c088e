-- ===== src/Ask/Conversation/Progress.antt =====
-- Every question that waits is sent and answered.
use folium.Base.{
  ℕ, zero, suc, ◌+◌, ◌≡◌, refl, sym, ap, ◌∙◌, String, Bool, true, false, Option, some, List, [],
  ◌∷◌, arith, is_filled, length, All,
}
use mathlib.Core.List.{append-nil}
use folium.Ask.Conversation.{
  AskResponse, answered, Turn, Panel, Event, settled, catch_up, find_turn, drop_turn,
}
use folium.Ask.Conversation.Steps.{
  message_of, run_ask, settle_turn, settle, react, step, run, run_next,
}
use folium.Ask.Conversation.Shown.{ended, ended-Ended}
use folium.Ask.Conversation.Queue.{InOrder, settle-InOrder, catch_up-InOrder, drain_plain, dropped}

-- The answers to a number of runs, one after the other.
abbrev pub answers : ℕ → ℕ → AskResponse → List Event
answers zero n r = []
answers (suc k) n r = settled n (answered r) ∷ answers k (n + 1) r

-- The run in progress, what waits behind it, and how many runs were begun.
pub record Runs (p : Panel) (turn : Turn) (waiting : List String) : Type 0 where
  pub in_flight : p.in_flight ≡ turn ∷ []
  pub turns : p.turns ≡ turn.number + 1
  pub queue : p.queue_ref ≡ waiting
  pub processing : p.processing ≡ true

catch_up-Runs :
    (p : Panel) (t : Turn) (waiting : List String) → Runs p t waiting → Runs (catch_up p) t waiting
unfolding catch_up
catch_up-Runs p t waiting h = ground arith

arith_suc : (n : ℕ) → suc n ≡ n + 1
arith_suc n = omega arith

found : (t : Turn) → find_turn t.number (t ∷ []) ≡ some t
unfolding find_turn
found t = ground arith

module _ (id_at_most : String → String → Bool) (now : ℕ → ℕ)
    (temp_user temp_assistant : ℕ → String) where
  settle-run_next :
      (p : Panel) (qs : List String) (t : Turn) (waiting : List String) (r : AskResponse)
      → InOrder p qs
      → Runs p t waiting
      → settle id_at_most now temp_user temp_assistant t.number (answered r) p
        ≡ run_next id_at_most now temp_user temp_assistant waiting
            (ended id_at_most now temp_user temp_assistant t (answered r) p)
  unfolding settle settle_turn ended
  settle-run_next p qs t waiting r o h =
      let e = ended-Ended id_at_most now temp_user temp_assistant t (answered r) p in
      let left = ended id_at_most now temp_user temp_assistant t (answered r) p in
      ap
        (λ (found_turn : Option Turn).
          settle_turn id_at_most now temp_user temp_assistant found_turn (answered r) p)
        (ap (find_turn t.number) h.in_flight ∙ found t)
      ∙ drain_plain id_at_most now temp_user temp_assistant (answered r) left refl
          (e.skip_drain ∙ o.drains)
      ∙ ap (λ l. run_next id_at_most now temp_user temp_assistant l left) (e.queue_ref ∙ h.queue)

  abbrev next_turn : ℕ → String → Turn
  next_turn n q = record {
    number = n;
    question = q;
    confirm_remote = false;
    message = message_of id_at_most now temp_user temp_assistant n q;
  }

  run_next-Runs :
      (p : Panel) (n : ℕ) (q : String) (waiting : List String)
      → p.turns ≡ n
      → is_filled q ≡ true
      → p.processing ≡ false
      → p.in_flight ≡ []
      → Runs
          (run_next id_at_most now temp_user temp_assistant (q ∷ waiting) p)
          (next_turn n q)
          waiting
  unfolding run_next run_ask
  run_next-Runs p n q waiting begun filled idle none_left =
      rw (filled, idle)
        (record {
          in_flight =
              ap (λ l. next_turn p.turns q ∷ l) none_left ∙ ap (λ k. next_turn k q ∷ []) begun;
          turns = arith_suc p.turns ∙ ap (λ k. k + 1) begun;
          queue = refl;
          processing = refl;
        })

  -- The answer to a run starts the first question that waits.
  settle-Runs :
      (p : Panel) (qs : List String) (t : Turn) (q : String) (waiting : List String)
      (r : AskResponse)
      → InOrder p qs
      → Runs p t (q ∷ waiting)
      → Runs
          (settle id_at_most now temp_user temp_assistant t.number (answered r) p)
          (next_turn (t.number + 1) q)
          waiting
  settle-Runs p qs t q waiting r o h =
      let e = ended-Ended id_at_most now temp_user temp_assistant t (answered r) p in
      let left = ended id_at_most now temp_user temp_assistant t (answered r) p in
      let filled : All (λ x. is_filled x ≡ true) (q ∷ waiting) = rw h.queue at o.filled in
      rw (settle-run_next p qs t (q ∷ waiting) r o h) (
        run_next-Runs left (t.number + 1) q waiting (e.turns ∙ h.turns) filled.0 e.processing
          (e.in_flight ∙ ap (drop_turn t.number) h.in_flight ∙ dropped t))

  catch_up_keeps :
      (p : Panel)
      → ((catch_up p).asked ≡ p.asked)
        × ((catch_up p).queue_ref ≡ p.queue_ref)
        × ((catch_up p).processing ≡ p.processing)
  unfolding catch_up
  catch_up_keeps p = ground arith

  -- The answer to the last one leaves nothing.
  settle_last :
      (p : Panel) (qs : List String) (t : Turn) (r : AskResponse)
      → InOrder p qs
      → Runs p t []
      → ((catch_up (settle id_at_most now temp_user temp_assistant t.number (answered r) p)).asked
          ≡ qs)
        × ((catch_up
              (settle id_at_most now temp_user temp_assistant t.number (answered r) p)).queue_ref
            ≡ [])
        × ((catch_up
              (settle id_at_most now temp_user temp_assistant t.number (answered r) p)).processing
            ≡ false)
  unfolding run_next
  settle_last p qs t r o h =
      let e = ended-Ended id_at_most now temp_user temp_assistant t (answered r) p in
      let next = settle id_at_most now temp_user temp_assistant t.number (answered r) p in
      let after = settle-run_next p qs t [] r o h in
      let (asked, queue_ref, processing) = catch_up_keeps next in
      let all : p.asked ≡ qs = sym (append-nil p.asked) ∙ rw h.queue at o.order in
      (
        asked ∙ ap (λ (x : Panel). x.asked) after ∙ e.asked ∙ all,
        queue_ref ∙ ap (λ (x : Panel). x.queue_ref) after ∙ e.queue_ref ∙ h.queue,
        processing ∙ ap (λ (x : Panel). x.processing) after ∙ e.processing,
      )

  -- From a panel that keeps the order, with a run in progress: if the answers to it and to the runs
  -- behind it arrive one after the other, every question is sent, none waits any more, and nothing is
  -- in progress.
  pub all_answered :
      (p : Panel) (qs : List String) (t : Turn) (waiting : List String) (r : AskResponse)
      → InOrder p qs
      → Runs p t waiting
      → let q =
          run id_at_most now temp_user temp_assistant
            (answers (suc (length waiting)) t.number r)
            p in
        (q.asked ≡ qs) × (q.queue_ref ≡ []) × (q.processing ≡ false)
  unfolding run step react
  all_answered p qs t [] r o h = settle_last p qs t r o h
  all_answered p qs t (q ∷ waiting) r o h =
      let next = settle id_at_most now temp_user temp_assistant t.number (answered r) p in
      let kept : InOrder next qs =
        settle-InOrder id_at_most now temp_user temp_assistant t.number (answered r) p qs refl o in
      all_answered (catch_up next) qs (next_turn (t.number + 1) q) waiting r
        (catch_up-InOrder next qs kept)
        (catch_up-Runs next (next_turn (t.number + 1) q) waiting
          (settle-Runs p qs t q waiting r o h))
