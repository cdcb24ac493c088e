-- ===== src/Ask/Conversation/Faults.antt =====
-- Two ways in which a conversation does not do what its panel means to.
use folium.Base.{
  ℕ, ◌≡◌, ap, ◌∙◌, String, Bool, true, false, Option, none, some, List, [], ◌∷◌, arith, is_filled,
}
use folium.Base.Text.{trim}
use folium.Ask.Conversation.{
  AskMessage, AskResponse, answered, aborted, Turn, Panel, submitted, settled, document_changed,
  finish, catch_up, change_document, find_turn, mounted,
}
use folium.Ask.Conversation.Steps.{
  run_ask, submit, take_ending, settle_turn, drain, settle, react, step, run,
}

module _ (id_at_most : String → String → Bool) (now : ℕ → ℕ)
    (temp_user temp_assistant : ℕ → String) where
  -- If two questions that are not empty are asked of a new panel, the second while the first is being
  -- answered, then the second is not sent when the answer arrives: it stays in the queue, and nothing
  -- is in progress.
  pub first_follow_up_waits :
      (server_messages : List AskMessage) (question follow_up : String) (r : AskResponse)
      → is_filled (trim question) ≡ true
      → is_filled (trim follow_up) ≡ true
      → let p =
          run id_at_most now temp_user temp_assistant
            (submitted false (some question)
              ∷ submitted false (some follow_up)
              ∷ settled 0 (answered r)
              ∷ [])
            (mounted server_messages) in
        (p.asked ≡ trim question ∷ []) × (p.queue ≡ trim follow_up ∷ []) × (p.processing ≡ false)
  unfolding run step react submit run_ask settle settle_turn take_ending finish drain catch_up
      mounted find_turn
  first_follow_up_waits server_messages question follow_up r a b = ground arith

  catch_up_draft : (p : Panel) → (catch_up p).draft ≡ p.draft
  unfolding catch_up
  catch_up_draft p = ground arith

  -- A question that was being answered when the document changed comes back as the draft of the new
  -- document, once its request is aborted.
  pub draft_of_left_document :
      (p : Panel) (t : Turn)
      → find_turn t.number p.in_flight ≡ some t
      → (run id_at_most now temp_user temp_assistant
          (document_changed ∷ settled t.number aborted ∷ [])
          p).draft
        ≡ t.question
  unfolding run step react change_document settle settle_turn take_ending finish drain trim
  draft_of_left_document p t found =
      catch_up_draft
        (settle id_at_most now temp_user temp_assistant t.number aborted (change_document p))
      ∙ returned (find_turn t.number p.in_flight) found
    where
      returned :
          (o : Option Turn)
          → o ≡ some t
          → (settle_turn id_at_most now temp_user temp_assistant o aborted
              (change_document p)).draft
            ≡ t.question
      returned none e = cc
      returned (some u) e =
          ap (λ (o : Option Turn). elim o [ none ↦ t.question | some v ↦ v.question ]) e
