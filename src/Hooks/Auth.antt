-- ===== src/Hooks/Auth.antt =====
-- The session hooks of frontend/src/lib/api/hooks.ts, with `handleSessionResponse` and `clearSession`
-- of client.ts: the session in the cache and the token that requests carry.
-- An event is what happens when an answer has arrived, with the `onSuccess` that follows it.
use folium.Base.{
  ◌≡◌, refl, sym, ap, ◌∙◌, String, true, Option, none, some, List, [], ◌∷◌, is_filled, arith, All,
}
use folium.Types.{Document}
use folium.Client.Csrf.{get_csrf_token, set_csrf_token, clear_csrf_token}
use folium.Hooks.{
  Part, words, is_key, Data, session_data, Session, session_key, Effect, set_query_data, clear,
}
use folium.Hooks.Cache.{QueryClient, perform, perform_one, data_of-perform, invalidate_each}
use folium.Hooks.Documents.{DocumentMutation, document_success}
use folium.Hooks.Mutations.{Mutation, of_document, effects_of, keys_of}
use folium.Hooks.Stale.{data_of-document_success}

-- The cache and `csrfToken`.
pub record App (C : Type 0) : Type 0 where
  pub cache : C
  pub csrf : Option String

pub data AuthEvent : Type 0 where
  me_answered : Session → AuthEvent
  me_failed : AuthEvent
  login_answered register_answered : Session → AuthEvent
  logged_out password_changed : AuthEvent
  profile_updated avatar_uploaded avatar_deleted : AuthEvent
  token_needed : (cookie : String) → AuthEvent
  succeeded : Mutation → Document → AuthEvent

-- `onSuccess` of `useLogin` and `useRegister`
unfoldable pub login_success : Session → List Effect
login_success session = set_query_data session_key (session_data (some session)) ∷ []

-- `onSuccess` of `useLogout` and `useChangePassword`, behind `clearSession`
unfoldable pub logout_success : List Effect
logout_success = set_query_data session_key (session_data none) ∷ clear ∷ []

-- `onSuccess` of `useUpdateProfile`, `useUploadAvatar` and `useDeleteAvatar`
unfoldable pub profile_success : List (List String)
profile_success = session_key ∷ []

module _ {C : Type 0} (qc : QueryClient C) (decode : String → String) where
  unfoldable pub act : AuthEvent → App C → App C
  act (me_answered session) a = record {
    cache = qc.set session_key (session_data (some session)) a.cache;
    csrf = set_csrf_token session.csrf_token;
  }
  act me_failed a = record {
    cache = qc.set session_key (session_data none) a.cache;
    csrf = clear_csrf_token;
  }
  act (login_answered session) a = record {
    cache = perform qc (login_success session) a.cache;
    csrf = set_csrf_token session.csrf_token;
  }
  act (register_answered session) a = record {
    cache = perform qc (login_success session) a.cache;
    csrf = set_csrf_token session.csrf_token;
  }
  act logged_out a = record { cache = perform qc logout_success a.cache; csrf = clear_csrf_token }
  act password_changed a = record {
    cache = perform qc logout_success a.cache;
    csrf = clear_csrf_token;
  }
  act profile_updated a = record a { cache = perform qc (invalidate_each profile_success) a.cache }
  act avatar_uploaded a = record a { cache = perform qc (invalidate_each profile_success) a.cache }
  act avatar_deleted a = record a { cache = perform qc (invalidate_each profile_success) a.cache }
  act (token_needed cookie) a = record a { csrf = get_csrf_token decode cookie a.csrf }
  act (succeeded m doc) a = record a { cache = perform qc (effects_of m doc) a.cache }

  unfoldable pub act_all : List AuthEvent → App C → App C
  act_all [] a = a
  act_all (e ∷ events) a = act_all events (act e a)

  -- The token of a session that the cache holds is the one that requests carry, and is not empty.
  pub record Held (a : App C) : Type 0 where
    pub held :
        (session : Session)
        → qc.data_of a.cache (words session_key) ≡ some (session_data (some session))
        → (a.csrf ≡ some session.csrf_token) × (is_filled session.csrf_token ≡ true)

  -- The server never gives an empty token.
  abbrev pub IsFilledToken : AuthEvent → Type 0
  IsFilledToken (me_answered session) = is_filled session.csrf_token ≡ true
  IsFilledToken (login_answered session) = is_filled session.csrf_token ≡ true
  IsFilledToken (register_answered session) = is_filled session.csrf_token ≡ true
  IsFilledToken e = Unit

  abbrev token_in : Option Data → Option String
  token_in (some (session_data (some session))) = some session.csrf_token
  token_in o = none

  set_session :
      (o : Option Session) (c : C)
      → qc.data_of (qc.set session_key (session_data o) c) (words session_key)
        ≡ some (session_data o)
  unfolding is_key
  set_session o c = qc.data_of-set session_key (session_data o) c (words session_key)

  Held-given :
      (session : Session) (c : C)
      → is_filled session.csrf_token ≡ true
      → Held (record {
        cache = qc.set session_key (session_data (some session)) c;
        csrf = some session.csrf_token;
      })
  Held-given session c filled = record {
    held = λ other e.
        let same = ap token_in (sym (set_session (some session) c) ∙ e) in
        let tokens : session.csrf_token ≡ other.csrf_token = cc in (same, rw tokens at filled);
  }

  Held-none :
      (a : App C) → qc.data_of a.cache (words session_key) ≡ some (session_data none) → Held a
  Held-none a h = record { held = λ session e. let both = ap token_in (sym h ∙ e) in cc }

  Held-cleared : (a : App C) → qc.data_of a.cache (words session_key) ≡ none → Held a
  Held-cleared a h = record { held = λ session e. let both = sym h ∙ e in cc }

  Held-kept :
      (a : App C) (c : C)
      → Held a
      → qc.data_of c (words session_key) ≡ qc.data_of a.cache (words session_key)
      → Held (record a { cache = c })
  Held-kept a c h same = record { held = λ session e. h.held session (sym same ∙ e) }

  cleared : (c : C) (k : List Part) → qc.data_of (perform qc logout_success c) k ≡ none
  unfolding logout_success perform perform_one
  cleared c k = qc.data_of-clear (qc.set session_key (session_data none) c) k

  Held-token :
      (cookie : String) (a : App C)
      → Held a
      → Held (record a { csrf = get_csrf_token decode cookie a.csrf })
  unfolding get_csrf_token
  Held-token cookie a h = record {
    held = λ session e. let (there, filled) = h.held session e in (rw (there, filled) refl, filled);
  }

  document_elsewhere :
      (m : DocumentMutation) (doc : Document) (c : C)
      → qc.data_of (perform qc (document_success m doc) c) (words session_key)
        ≡ qc.data_of c (words session_key)
  unfolding is_key
  document_elsewhere m doc c =
      data_of-document_success qc m doc c (words session_key) ∙ ground arith

  -- No hook but those of the session changes the session in the cache.
  elsewhere :
      (m : Mutation) (doc : Document) (c : C)
      → qc.data_of (perform qc (effects_of m doc) c) (words session_key)
        ≡ qc.data_of c (words session_key)
  elsewhere (of_document m) doc c = document_elsewhere m doc c
  elsewhere m doc c = data_of-perform qc (keys_of m) c (words session_key)

  act-Held : (e : AuthEvent) (a : App C) → IsFilledToken e → Held a → Held (act e a)
  unfolding act login_success profile_success set_csrf_token clear_csrf_token perform perform_one
  act-Held (me_answered session) a f h = Held-given session a.cache f
  act-Held (login_answered session) a f h = Held-given session a.cache f
  act-Held (register_answered session) a f h = Held-given session a.cache f
  act-Held me_failed a f h =
      Held-none (record { cache = qc.set session_key (session_data none) a.cache; csrf = none })
        (set_session none a.cache)
  act-Held logged_out a f h =
      Held-cleared (record { cache = perform qc logout_success a.cache; csrf = none })
        (cleared a.cache (words session_key))
  act-Held password_changed a f h =
      Held-cleared (record { cache = perform qc logout_success a.cache; csrf = none })
        (cleared a.cache (words session_key))
  act-Held profile_updated a f h =
      Held-kept a (perform qc (invalidate_each profile_success) a.cache) h
        (data_of-perform qc profile_success a.cache (words session_key))
  act-Held avatar_uploaded a f h =
      Held-kept a (perform qc (invalidate_each profile_success) a.cache) h
        (data_of-perform qc profile_success a.cache (words session_key))
  act-Held avatar_deleted a f h =
      Held-kept a (perform qc (invalidate_each profile_success) a.cache) h
        (data_of-perform qc profile_success a.cache (words session_key))
  act-Held (token_needed cookie) a f h = Held-token cookie a h
  act-Held (succeeded m doc) a f h =
      Held-kept a (perform qc (effects_of m doc) a.cache) h (elsewhere m doc a.cache)

  -- If it is so at first and the server gives no empty token, then whatever answers arrive, the token
  -- of the session that the cache holds, if it holds one, is the token that requests carry.
  pub act_all-Held :
      (events : List AuthEvent) (a : App C)
      → All IsFilledToken events
      → Held a
      → Held (act_all events a)
  unfolding act_all
  act_all-Held [] a f h = h
  act_all-Held (e ∷ events) a (f, fs) h = act_all-Held events (act e a) fs (act-Held e a f h)

  -- After a logout or a change of the password, the cache holds nothing and the token is gone.
  pub logged_out_lem :
      (a : App C) (k : List Part)
      → ((qc.data_of (act logged_out a).cache k ≡ none) × ((act logged_out a).csrf ≡ none))
        × ((qc.data_of (act password_changed a).cache k ≡ none)
            × ((act password_changed a).csrf ≡ none))
  unfolding act clear_csrf_token
  logged_out_lem a k = ((cleared a.cache k, refl), (cleared a.cache k, refl))
