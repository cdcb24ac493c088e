-- ===== src/Ask/Chat/Scopes.antt =====
-- What is asked of the library: every question has its scope, and what a confirmation sends.
use folium.Base.{
  ◌≡◌, refl, ap, ◌∙◌, String, Bool, true, false, not, ◌&&◌, Option, none, some, List, [], ◌∷◌, ◌++◌,
  get_or, is_filled, is_truthy, All, All-append, arith, Bool-cases, inl, inr,
}
use folium.Base.Text.{trim}
use folium.Ask.Conversation.{AskResponse, is_empty}
use folium.Ask.Chat.{
  ScopeKind, library, folder, folder_tree, documents, document, search, Scope, AskRequest, query_in,
  scope_to_request, Chat, missing, send, submit, settle, answered, forbidden, failed, ChatEvent,
  typed, submitted, answer_arrived, opened, kind_chosen, folder_chosen, context_chosen, ask_another,
  react, run,
}

-- The request has a question, and what its scope needs.
abbrev pub names_scope : ScopeKind → AskRequest → Bool
names_scope library r = true
names_scope folder r = is_truthy r.folder_id
names_scope folder_tree r = is_truthy r.folder_id
names_scope documents r = not (is_empty (get_or r.document_ids []))
names_scope document r = is_truthy r.document_id
names_scope search r = is_truthy (query_in r.search) && is_truthy r.search_query

abbrev pub IsScoped : AskRequest → Type 0
IsScoped r = (is_filled r.question ≡ true) × (names_scope r.kind r ≡ true)

scoped :
    (kind : ScopeKind) (scope : Scope) (question : String) (confirm_remote : Bool)
    → scope.kind ≡ kind
    → is_filled question ≡ true
    → missing scope ≡ none
    → IsScoped (scope_to_request scope question confirm_remote)
unfolding scope_to_request missing
scoped kind scope question confirm_remote k f m = ground arith

send-IsScoped :
    (confirm_remote : Bool) (o : Option String) (p : Chat)
    → missing p.scope ≡ o
    → is_filled (trim p.question) ≡ true
    → All IsScoped p.asked
    → All IsScoped (send o (scope_to_request p.scope (trim p.question) confirm_remote) p).asked
send-IsScoped confirm_remote none p m f h =
    All-append IsScoped p.asked (scope_to_request p.scope (trim p.question) confirm_remote ∷ []) h
      (scoped p.scope.kind p.scope (trim p.question) confirm_remote refl f m, tt)
send-IsScoped confirm_remote (some message) p m f h = h

submit-IsScoped :
    (confirm_remote : Bool) (p : Chat)
    → All IsScoped p.asked
    → All IsScoped (submit confirm_remote p).asked
unfolding submit
submit-IsScoped confirm_remote p h = elim (Bool-cases (is_filled (trim p.question))) [
  | inl f ↦ rw f (send-IsScoped confirm_remote (missing p.scope) p refl f h)
  | inr e ↦ rw e h
]

react-IsScoped : (e : ChatEvent) (p : Chat) → All IsScoped p.asked → All IsScoped (react e p).asked
unfolding react settle
react-IsScoped (submitted confirm_remote) p h = submit-IsScoped confirm_remote p h
react-IsScoped (answer_arrived body (answered r)) p h = h
react-IsScoped (answer_arrived body (forbidden message)) p h = h
react-IsScoped (answer_arrived body (failed message)) p h = h
react-IsScoped (typed text) p h = h
react-IsScoped (opened initial) p h = h
react-IsScoped (kind_chosen kind initial) p h = h
react-IsScoped (folder_chosen folder_id) p h = h
react-IsScoped (context_chosen scope) p h = h
react-IsScoped ask_another p h = h

-- Whatever the user does and the server answers, every request that the panel sends has a question
-- and names what its scope needs (a folder, at least one document, the document, or the query of a
-- search), if those do that it has sent before.
pub run-IsScoped :
    (events : List ChatEvent) (p : Chat) → All IsScoped p.asked → All IsScoped (run events p).asked
unfolding run
run-IsScoped [] p h = h
run-IsScoped (e ∷ events) p h = run-IsScoped events (react e p) (react-IsScoped e p h)

submit_sends :
    (confirm_remote : Bool) (p : Chat)
    → is_filled (trim p.question) ≡ true
    → missing p.scope ≡ none
    → submit confirm_remote p ≡ record p {
      error = none;
      asked = p.asked ++ scope_to_request p.scope (trim p.question) confirm_remote ∷ [];
    }
unfolding submit
submit_sends confirm_remote p f m = rw (f, m) refl

confirmed :
    (scope : Scope) (question : String)
    → scope_to_request scope question true
      ≡ record (scope_to_request scope question false) { confirm_remote = true }
unfolding scope_to_request
confirmed scope question = cases scope.kind refl
  where
    cases :
        (k : ScopeKind)
        → scope.kind ≡ k
        → scope_to_request scope question true
          ≡ record (scope_to_request scope question false) { confirm_remote = true }
    cases library e = ground arith
    cases k e = ground arith

-- A question that is refused because its provider is remote is sent once more, the same but for the
-- confirmation, when the user confirms it without a change of the question or the scope.
pub confirmation_resends :
    (p : Chat) (message : String)
    → is_filled (trim p.question) ≡ true
    → missing p.scope ≡ none
    → let body = scope_to_request p.scope (trim p.question) false in
      (run
        (submitted false ∷ answer_arrived body (forbidden message) ∷ submitted true ∷ [])
        p).asked
      ≡ (p.asked ++ body ∷ []) ++ record body { confirm_remote = true } ∷ []
unfolding run react settle
confirmation_resends p message f m =
    let body = scope_to_request p.scope (trim p.question) false in
    let refused : Chat =
      settle body (forbidden message) (record p { error = none; asked = p.asked ++ body ∷ [] }) in
    ap (λ (q : Chat). (submit true (settle body (forbidden message) q)).asked)
      (submit_sends false p f m)
    ∙ ap (λ (q : Chat). q.asked) (submit_sends true refused f m)
    ∙ ap (λ (b : AskRequest). (p.asked ++ body ∷ []) ++ b ∷ [])
        (confirmed p.scope (trim p.question))

-- An answer that arrives after the panel was opened for another scope is shown there, under an empty
-- question.
pub late_answer_shown :
    (p : Chat) (scope : Scope) (body : AskRequest) (r : AskResponse)
    → ((run (opened scope ∷ answer_arrived body (answered r) ∷ []) p).response ≡ some r)
      × ((run (opened scope ∷ answer_arrived body (answered r) ∷ []) p).scope ≡ scope)
      × ((run (opened scope ∷ answer_arrived body (answered r) ∷ []) p).question ≡ "")
unfolding run react settle
late_answer_shown p scope body r = (refl, refl, refl)
