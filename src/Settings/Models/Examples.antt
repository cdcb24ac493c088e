-- ===== src/Settings/Models/Examples.antt =====
-- Two models of a provider, and the one that is saved.
use folium.Base.{◌≡◌, refl, some, none, List, [], ◌∷◌}
use folium.Base.Sets.{has}
use folium.Base.Text.{trim, trim_start, trim_end, is_space}
use folium.Settings.Models.{
  AiDiscoveredModel, embedding, chat, AiAssignment, embedding_role, save, choose_provider, opened,
}

abbrev models : List AiDiscoveredModel
models = record { id = "bge"; kind = embedding } ∷ record { id = "llama"; kind = chat } ∷ []

abbrev assignment : AiAssignment
assignment = record { role = embedding_role; provider_id = some "local"; model = some "old" }

tests :
    (save assignment models (opened assignment) ≡ none)
    × (save assignment models
          (record (choose_provider "local" (opened assignment)) { model = "bge" })
        ≡ some (record { role = embedding_role; provider_id = some "local"; model = some "bge" }))
    × (save assignment models (choose_provider "none" (opened assignment))
        ≡ some (record { role = embedding_role; provider_id = none; model = none }))
unfolding save choose_provider has trim trim_start trim_end is_space
tests = (refl, refl, refl)
