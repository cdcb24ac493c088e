-- ===== src/Client/Laws.antt =====
-- The headers of a request, and how an answer settles the promise.
use folium.Base.{
  ℕ, ◌≡◌, ◌⊎◌, inl, inr, refl, ◌∙◌, String, Bool, true, false, not, ◌&&◌, ◌||◌, Option, none, some,
  List, [], ◌∷◌, ◌==◌, eqb, arith, if◌then◌else◌, get_or, is_filled, is_truthy, map, eq_iff,
  Bool-cases,
}
use folium.Base.Sets.{has, IsDistinct}
use folium.Query.{Params, get, set}
use folium.Query.Written.{get-set}
use folium.Client.{
  Json, null, text, object, value, Response, is_ok, parse_error_body, Body, no_body, form_data,
  json_body, Request, Outcome, undefined, api_error, is_mutating, request_of, read_response,
  extract_message, filled_or, with_type, with_token, query_of, build_url,
}
use folium.Client.Csrf.{get_csrf_token, set_csrf_token, clear_csrf_token, read_cookie}

-- The content type that belongs to a body.
abbrev pub content_of : Body → Bool → Option String
content_of no_body wanted = if wanted then some "application/json" else none
content_of form_data wanted = none
content_of (json_body s) wanted = some "application/json"

-- The request with no headers of its own.
abbrev pub plain_request :
    (String → String) → Option String → String → Option String → Body → Bool → Request
plain_request upper csrf path method body json =
    request_of upper csrf path (record { method = method; headers = []; body = body; json = json })

token_free :
    (body : Body) (wanted : Bool)
    → (get "x-csrf-token" (with_type body wanted []) ≡ none)
      × (get "content-type" (with_type body wanted []) ≡ content_of body wanted)
unfolding get set
token_free no_body true = (refl, refl)
token_free no_body false = (refl, refl)
token_free form_data wanted = (refl, refl)
token_free (json_body s) wanted = (refl, refl)

token_kept :
    (token : String) (body : Body) (wanted : Bool)
    → (get "x-csrf-token" (with_type body wanted (set "x-csrf-token" token [])) ≡ some token)
      × (get "content-type" (with_type body wanted (set "x-csrf-token" token []))
          ≡ content_of body wanted)
unfolding get set
token_kept token no_body true = (refl, refl)
token_kept token no_body false = (refl, refl)
token_kept token form_data wanted = (refl, refl)
token_kept token (json_body s) wanted = (refl, refl)

headers_of :
    (csrf : Option String) (body : Body) (json mutating : Bool)
    → (get "x-csrf-token" (with_type body (json && mutating) (with_token mutating csrf []))
        ≡ (if mutating && is_truthy csrf then csrf else none))
      × (get "content-type" (with_type body (json && mutating) (with_token mutating csrf []))
          ≡ content_of body (json && mutating))
unfolding get
headers_of csrf body json false = token_free body (json && false)
headers_of none body json true = token_free body (json && true)
headers_of (some token) body json true = elim (Bool-cases (is_filled token)) [
  | inl e ↦ rw e (token_kept token body (json && true))
  | inr e ↦ rw e (token_free body (json && true))
]

-- In a request that brings no headers of its own, the token is there exactly if the method changes
-- something and the token is not empty; the type of the content is that of JSON exactly if the body
-- is JSON, or there is no body, the method changes something and the caller did not forbid it.
pub request_headers :
    (upper : String → String) (csrf : Option String) (path : String) (method : Option String)
    (body : Body) (json : Bool)
    → (get "x-csrf-token" (plain_request upper csrf path method body json).headers ≡ (
        if is_mutating (plain_request upper csrf path method body json).method && is_truthy csrf
        then csrf
        else none))
      × (get "content-type" (plain_request upper csrf path method body json).headers
          ≡ content_of body
              (json && is_mutating (plain_request upper csrf path method body json).method))
unfolding request_of get
request_headers upper csrf path method body json =
    headers_of csrf body json (is_mutating (upper (get_or method "GET")))

-- After a session was answered, every request that changes something carries its token, whatever
-- the cookie is; after the session was cleared, it carries what the cookie holds.
pub token_of_session :
    (decode upper : String → String) (cookie token path : String) (method : Option String)
    (body : Body) (json : Bool)
    → is_filled token ≡ true
    → is_mutating (upper (get_or method "GET")) ≡ true
    → (get "x-csrf-token"
          (plain_request upper
            (get_csrf_token decode cookie (set_csrf_token token))
            path
            method
            body
            json).headers
        ≡ some token)
      × (get "x-csrf-token"
            (plain_request upper
              (get_csrf_token decode cookie clear_csrf_token)
              path
              method
              body
              json).headers
          ≡ (if is_truthy (read_cookie decode cookie "folium_csrf")
              then read_cookie decode cookie "folium_csrf"
              else none))
unfolding request_of get_csrf_token set_csrf_token clear_csrf_token
token_of_session decode upper cookie token path method body json filled mutating = (
  rw filled
      ((request_headers upper (some token) path method body json).0 ∙ rw (mutating, filled) refl),
  (request_headers upper (read_cookie decode cookie "folium_csrf") path method body json).0
      ∙ rw mutating refl,
)

-- The promise is rejected with an `ApiError`.
abbrev pub is_rejected : Outcome → Bool
is_rejected (api_error message status body) = true
is_rejected _ = false

abbrev pub is_object : Json → Bool
is_object (object d message) = true
is_object _ = false

abbrev pub is_undefined : Outcome → Bool
is_undefined undefined = true
is_undefined _ = false

-- The body is `null` or an empty text.
abbrev pub is_empty : Json → Bool
is_empty null = true
is_empty (text s) = not (is_filled s)
is_empty _ = false

-- An answer rejects the promise exactly if its status is not one of success, and gives no value
-- exactly if its status is 204, or one of success and its body is `null`, an empty text, or not to
-- be read.
pub read_response_lem :
    (response : Response)
    → (is_rejected (read_response response) ≡ not (is_ok response))
      × (is_undefined (read_response response)
          ≡ (eqb response.status 204 || (is_ok response && is_empty (parse_error_body response))))
unfolding read_response
read_response_lem response = ground arith

fallback_filled : (s : String) → is_filled (filled_or s "Request failed") ≡ true
fallback_filled s = elim (Bool-cases (is_filled s)) [ inl e ↦ rw (e, e) refl | inr e ↦ rw e refl ]

message_filled :
    (body : Json) (fallback : String)
    → is_filled fallback ≡ true
    → (is_filled (extract_message body fallback) ≡ true) ⊎ (is_object body ≡ true)
unfolding extract_message
message_filled null fallback h = inl h
message_filled (text s) fallback h = elim (Bool-cases (is_filled s)) [
  | inl e ↦ inl (rw (e, e) refl)
  | inr e ↦ inl (rw (e, h) refl)
]
message_filled (object d message) fallback h = inr refl
message_filled (value b) fallback h = inl h

-- The error of an answer has its status and its body, and its message is not empty unless the body
-- is an object.
pub read_response_error :
    (response : Response) {message : String} {status : ℕ} {body : Json}
    → read_response response ≡ api_error message status body
    → (status ≡ response.status)
      × (body ≡ parse_error_body response)
      × ((is_filled message ≡ true) ⊎ (is_object body ≡ true))
unfolding read_response
read_response_error response h = ground (
  arith,
  message_filled (parse_error_body response) (filled_or response.status_text "Request failed"),
  fallback_filled response.status_text,
)

-- The value of a key among the entries, if it stands there.
abbrev pub entry_of : String → List (String × Option String) → Option String
entry_of k [] = none
entry_of k ((j, v) ∷ params) = if j == k then v else entry_of k params

abbrev pub filled_or_none : Option String → Option String
filled_or_none v = if is_truthy v then v else none

abbrev pub keys : List (String × Option String) → List String
keys params = map (λ e. e.0) params

abbrev written_with : String → Option String → Params → Params
written_with j v ps = if is_truthy v then set j (get_or v "") ps else ps

query_of-get :
    (k : String) (params : List (String × Option String)) (ps : Params)
    → has k (keys params) ≡ false
    → get k (query_of params ps) ≡ get k ps
unfolding query_of has
query_of-get k [] ps h = refl
query_of-get k ((j, none) ∷ params) ps h = ground (arith, query_of-get k params ps)
query_of-get k ((j, some v) ∷ params) ps h =
    ground (arith, query_of-get k params ps, query_of-get k params (set j v ps), get-set k j v ps)

query_of-entry :
    (k : String) (params : List (String × Option String)) (ps : Params)
    → IsDistinct (keys params)
    → get k ps ≡ none
    → get k (query_of params ps) ≡ filled_or_none (entry_of k params)
unfolding query_of
query_of-entry k [] ps d h = h
query_of-entry k ((j, v) ∷ params) ps (apart, d) h = elim (Bool-cases (j == k)) [
  | inl same ↦
      let e : j ≡ k = (eq_iff j k).0 same in
      let gone : has k (keys params) ≡ false = rw e at apart in
      query_of-get k params (written_with j v ps) gone ∙ rw same (kept same v)
  | inr other ↦
      query_of-entry k params (written_with j v ps) d (rw (left other v) h) ∙ rw other refl
]
  where
    kept : (j == k) ≡ true → (v : Option String) → get k (written_with j v ps) ≡ filled_or_none v
    kept same none = h
    kept same (some w) = ground (arith, get-set k j w ps)

    left : (j == k) ≡ false → (v : Option String) → get k (written_with j v ps) ≡ get k ps
    left other none = refl
    left other (some w) = ground (arith, get-set k j w ps)

-- Where no key stands twice, the query of an address has exactly the entries with a value that is
-- not empty.
pub get-build_url :
    (k : String) (params : List (String × Option String))
    → IsDistinct (keys params)
    → get k (build_url params) ≡ filled_or_none (entry_of k params)
unfolding build_url get
get-build_url k params d = query_of-entry k params [] d refl
