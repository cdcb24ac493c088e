-- ===== src/Client/Csrf.antt =====
-- frontend/src/lib/csrf.ts: the token is kept once it was read from the cookie or given.
use Prim.Native.Char.{code}
use folium.Base.{String, Option, none, some, eqb, if◌then◌else◌, is_truthy}
use folium.Base.Text.{◌&◌, starts_with}

-- `[^;]*`
unfoldable pub until_semicolon : String → String
until_semicolon String.[] = ""
until_semicolon (String.◌∷◌ c s) =
    let rest = until_semicolon s in if eqb (code c) b';' then "" else String.◌∷◌ c rest

-- What stands behind a text that begins another.
unfoldable pub behind : String → String → String
behind String.[] s = s
behind (String.◌∷◌ c t) String.[] = ""
behind (String.◌∷◌ c t) (String.◌∷◌ d s) = behind t s

-- The first `; ` that the name and `=` follow.
unfoldable pub find_later : String → String → Option String
find_later mark String.[] = none
find_later mark (String.◌∷◌ c s) =
    let rest = find_later mark s in
    if starts_with (("; " & mark)) (String.◌∷◌ c s)
    then some (until_semicolon (behind ("; " & mark) (String.◌∷◌ c s)))
    else rest

-- `cookie.match(new RegExp("(?:^|; )name=([^;]*)"))`, the group
unfoldable pub find_cookie : String → String → Option String
find_cookie name cookie =
    if starts_with (name & "=") cookie
    then some (until_semicolon (behind (name & "=") cookie))
    else find_later (name & "=") cookie

-- `decode` is `decodeURIComponent` on what browsers and the server write there, which it can read.
module _ (decode : String → String) (cookie : String) where
  unfoldable pub read_cookie : String → Option String
  read_cookie name = elim (find_cookie name cookie) [
    | none ↦ none
    | some value ↦ some (decode value)
  ]

  -- The new value of `csrfToken`, which is also the result.
  unfoldable pub get_csrf_token : Option String → Option String
  get_csrf_token csrf_token = if is_truthy csrf_token then csrf_token else read_cookie "folium_csrf"

unfoldable pub set_csrf_token : String → Option String
set_csrf_token token = some token

unfoldable pub clear_csrf_token : Option String
clear_csrf_token = none
