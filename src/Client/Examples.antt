-- ===== src/Client/Examples.antt =====
-- A session, an upload and a refusal.
use folium.Base.{◌≡◌, refl, String, Option, none, some, List, [], ◌∷◌}
use folium.Client.{
  object, detail_text, Response, parse_error_body, api_error, read_response, extract_message,
}
use folium.Base.Text.{includes, starts_with}
use folium.Client.Csrf.{find_cookie, find_later, until_semicolon, behind, read_cookie}

abbrev same : String → String
same s = s

abbrev refusal : Response
refusal = record {
  status = 409;
  status_text = "Conflict";
  content_type = some "application/json";
  json = some (object (detail_text "Folder exists") none);
  body_text = none;
}

abbrev entries : List (String × Option String)
entries = ("q", some "bill") ∷ ("folder_id", none) ∷ ("page", some "2") ∷ []

cookie_of_others : read_cookie same "a=1; folium_csrf=c; b=2" "folium_csrf" ≡ some "c"
unfolding read_cookie find_cookie starts_with find_later until_semicolon behind
cookie_of_others = refl

refused :
    read_response refusal
    ≡ api_error "Folder exists" 409 (object (detail_text "Folder exists") none)
unfolding read_response parse_error_body extract_message includes
refused = refl
