-- ===== src/Hooks/Examples.antt =====
-- A cache with a session, a document and a listing.
use folium.Base.{◌≡◌, refl, String, true, false, none, some, List, [], ◌∷◌, if◌then◌else◌}
use folium.Types.{Document, blank_document}
use folium.Query.{get}
use folium.Hooks.{is_key, session_data, document_data, session_key, document_key}
use folium.Hooks.Cache.{Table, table_client, perform}
use folium.Hooks.Documents.{
  document, document_query_key, retry_ocr, upload_document, document_success,
}
use folium.Hooks.Stale.{document_success-stale}
use folium.Hooks.Auth.{
  AuthEvent, me_failed, login_answered, token_needed, succeeded, act_all, Held, act_all-Held,
}
use folium.Hooks.Mutations.{of_document}
use folium.Hooks.Sent.{sent, KeepsCapitals, sent_lem}

abbrev same : String → String
same s = s

abbrev bill : Document
bill = record blank_document { id = "b" }

abbrev cached : Table
cached = λ k.
    if is_key session_key k
    then some (session_data (some (record { csrf_token = "t" })), false)
    else if is_key (document_key "b") k
    then some (document_data bill, false)
    else none

abbrev session_events : List AuthEvent
session_events =
    me_failed
    ∷ login_answered (record { csrf_token = "u" })
    ∷ token_needed "folium_csrf=c"
    ∷ succeeded (of_document (retry_ocr "b")) bill
    ∷ []

same-KeepsCapitals : KeepsCapitals same
same-KeepsCapitals = record { post = refl; patch = refl; delete = refl }

document_success-stale_example :
    table_client.is_stale
      (perform table_client (document_success (retry_ocr "b") bill) cached)
      (document_query_key (document (some "b")))
    ≡ true
unfolding document_query_key is_key
document_success-stale_example =
    document_success-stale table_client (retry_ocr "b") bill cached (document (some "b")) refl

cached-Held : Held table_client same (record { cache = λ k. none; csrf = none })
cached-Held = record { held = λ session e. cc }

act_all-Held_example :
    Held table_client same
      (act_all table_client same session_events (record { cache = λ k. none; csrf = none }))
act_all-Held_example =
    act_all-Held table_client same session_events (record { cache = λ k. none; csrf = none })
      (tt, (refl, (tt, (tt, tt)))) cached-Held

sent_lem_example :
    (get "x-csrf-token" (sent same (some "t") (of_document upload_document)).headers ≡ some "t")
    × (get "content-type" (sent same (some "t") (of_document upload_document)).headers ≡ none)
sent_lem_example = sent_lem same same-KeepsCapitals "t" (of_document upload_document) refl
