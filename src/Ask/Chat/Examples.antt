-- ===== src/Ask/Chat/Examples.antt =====
-- A question about a folder, refused, confirmed and answered.
use folium.Base.{false, none, some, List, [], ◌∷◌, All}
use folium.Ask.Chat.{
  folder, document, Scope, scope_of, Chat, new_chat, ChatEvent, typed, submitted, kind_chosen, run,
}
use folium.Ask.Chat.Scopes.{IsScoped, run-IsScoped}

abbrev of_taxes : Scope
of_taxes = record (scope_of folder) { folder_id = some "taxes" }

abbrev asking : Chat
asking = record (new_chat (some of_taxes)) { question = "How much?" }

abbrev events : List ChatEvent
events =
    submitted false
    ∷ kind_chosen document none
    ∷ submitted false
    ∷ kind_chosen folder (some of_taxes)
    ∷ typed "When?"
    ∷ submitted false
    ∷ []

run-IsScoped_example : All IsScoped (run events asking).asked
run-IsScoped_example = run-IsScoped events asking tt
