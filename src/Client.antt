-- ===== src/Client.antt =====
-- frontend/src/lib/api/client.ts and frontend/src/lib/csrf.ts: the requests that the client sends,
-- what it makes of the answers, and the token that protects them.
-- The network, the parser of JSON and `decodeURIComponent` are parameters; the names of headers are
-- in lower case, as `Headers` keeps them.
pub mod Csrf
pub mod Laws
mod Examples
use folium.Base.{
  ℕ, ◌≤◌, String, Bool, true, false, not, ◌&&◌, ◌||◌, Option, none, some, List, [], ◌∷◌, ◌==◌, leb,
  eqb, if◌then◌else◌, get_or, is_filled, is_truthy, map,
}
use folium.Base.Sets.{has}
use folium.Base.Text.{◌&◌, includes, join}
use folium.Query.{Params, get, set}

-- `detail` of an error's body; an element of a list shows its `msg` if it has one, else itself.
pub data Detail : Type 0 where
  missing : Detail
  detail_text : String → Detail
  detail_list : List String → Detail
  other : Detail

-- A value that was parsed: of an object its `detail`, and its `message` if that is a text; of any
-- other value whether it counts as true.
pub data Json : Type 0 where
  null : Json
  text : String → Json
  object : Detail → Option String → Json
  value : Bool → Json

-- `!body`
abbrev pub is_falsy : Json → Bool
is_falsy null = true
is_falsy (text s) = not (is_filled s)
is_falsy (object d message) = false
is_falsy (value b) = not b

-- `s || other`
abbrev pub filled_or : String → String → String
filled_or s fallback = if is_filled s then s else fallback

message_in : Detail → Option String → String → String
message_in (detail_text s) message fallback = s
message_in (detail_list items) none fallback = join ", " items
message_in d (some message) fallback = message
message_in d none fallback = fallback

unfoldable pub extract_message : Json → String → String
unfolding message_in
extract_message null fallback = fallback
extract_message (text s) fallback = filled_or s fallback
extract_message (object d message) fallback = message_in d message fallback
extract_message (value b) fallback = fallback

-- An answer: `json` is `none` if its text is not JSON, `body_text` if it cannot be read.
pub record Response : Type 0 where
  pub status : ℕ
  pub status_text : String
  pub content_type : Option String
  pub json : Option Json
  pub body_text : Option String

-- `response.ok`
abbrev pub is_ok : Response → Bool
is_ok response = leb 200 response.status && leb response.status 299

unfoldable pub parse_error_body : Response → Json
parse_error_body response =
    if includes "application/json" (get_or response.content_type "")
    then get_or response.json null
    else elim response.body_text [ none ↦ null | some s ↦ text s ]

-- The body that a caller gives; `json_body` holds what `JSON.stringify` makes of it.
pub data Body : Type 0 where
  no_body form_data : Body
  json_body : String → Body

pub record Options : Type 0 where
  pub method : Option String
  pub headers : Params
  pub body : Body
  pub json : Bool

pub record Request : Type 0 where
  pub path : String
  pub method : String
  pub headers : Params
  pub body : Body

pub data Outcome : Type 0 where
  undefined : Outcome
  resolved : Json → Outcome
  api_error : (message : String) (status : ℕ) (body : Json) → Outcome
  thrown : Outcome

abbrev pub is_mutating : String → Bool
is_mutating method = not (has method ("GET" ∷ "HEAD" ∷ "OPTIONS" ∷ []))

abbrev pub with_token : Bool → Option String → Params → Params
with_token mutating csrf headers =
    if mutating && is_truthy csrf then set "x-csrf-token" (get_or csrf "") headers else headers

abbrev pub content_header : Params → Params
content_header headers = set "content-type" "application/json" headers

abbrev pub with_type : Body → Bool → Params → Params
with_type form_data keep headers = headers
with_type (json_body s) keep headers = content_header headers
with_type no_body keep headers = if keep then content_header headers else headers

-- The request that is sent; `upper` is `toUpperCase`, `csrf` the token.
unfoldable pub request_of : (String → String) → Option String → String → Options → Request
request_of upper csrf path options =
    let method = upper (get_or options.method "GET") in
    let mutating = is_mutating method in
    record {
      path = path;
      method = method;
      headers =
          with_type options.body (options.json && mutating)
            (with_token mutating csrf options.headers);
      body = options.body;
    }

-- `responseBody === null || responseBody === undefined || responseBody === ""`
abbrev settled : Json → Outcome
settled null = undefined
settled (text s) = if is_filled s then resolved (text s) else undefined
settled body = resolved body

-- What `apiFetch` makes of an answer.
unfoldable pub read_response : Response → Outcome
read_response response =
    let body = parse_error_body response in
    if eqb response.status 204
    then undefined
    else if not (is_ok response)
    then api_error (extract_message body (filled_or response.status_text "Request failed"))
        response.status body
    else settled body

-- A promise that the network rejects is `none`.
unfoldable pub api_fetch :
    (String → String) → (Request → Option Response) → Option String → String → Options → Outcome
api_fetch upper fetch csrf path options = elim (fetch (request_of upper csrf path options)) [
  | none ↦ thrown
  | some response ↦ read_response response
]

-- `api.get`, `api.post`, `api.patch`, `api.delete` and `api.upload`, as the options they give.
abbrev options_of : Option String → Body → Bool → Options
options_of method body json = record { method = method; headers = []; body = body; json = json }

abbrev pub get_options : Options
get_options = options_of none no_body true

abbrev pub post_options : Body → Options
post_options body = options_of (some "POST") body true

abbrev pub patch_options : Body → Options
patch_options body = options_of (some "PATCH") body true

abbrev pub delete_options : Body → Options
delete_options body = options_of (some "DELETE") body true

abbrev pub upload_options : Options
upload_options = options_of (some "POST") form_data false

-- The query of `buildUrl`, from the entries of `params`; a value that is `null` or `undefined` is
-- `none`. The paths that are called with parameters have no query of their own.
unfoldable pub query_of : List (String × Option String) → Params → Params
query_of [] ps = ps
query_of ((k, v) ∷ params) ps = query_of params (if is_truthy v then set k (get_or v "") ps else ps)

unfoldable pub build_url : List (String × Option String) → Params
unfolding query_of
build_url params = query_of params []
