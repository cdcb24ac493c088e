-- ===== src/Settings/Models/Laws.antt =====
-- In which order models are offered, and which one is saved.
use folium.Base.{◌≡◌, String, Bool, true, false, some, List, is_filled, map, length, filter, arith}
use folium.Base.Sets.{has}
use folium.Base.Sorting.{IsSorted, sort-IsSorted, count-sort}
use folium.Base.Text.{trim}
use folium.Settings.Models.{
  AiWorkloadRole, AiDiscoveredModel, AiAssignment, ranks_at_most, rank_discovered_models, Dialog,
  save,
}

-- Models are offered by their rank for the workload, and by name within a rank, where `localeCompare`
-- orders names; none is left out or added.
pub rank-IsSorted :
    (at_most : String → String → Bool) (models : List AiDiscoveredModel) (role : AiWorkloadRole)
    → ((a b : String) → at_most a b ≡ false → at_most b a ≡ true)
    → ((a b c : String) → at_most a b ≡ true → at_most b c ≡ true → at_most a c ≡ true)
    → IsSorted (ranks_at_most at_most role) (rank_discovered_models at_most models role)
      × ((test : AiDiscoveredModel → Bool)
          → length (filter test (rank_discovered_models at_most models role))
            ≡ length (filter test models))
unfolding rank_discovered_models
rank-IsSorted at_most models role total transitive = (
  sort-IsSorted (ranks_at_most at_most role) (λ x y h. ground (arith, h, total x.id y.id))
      (λ x y z h k. ground (arith, h, k, transitive x.id y.id z.id)) models,
  λ test. count-sort (ranks_at_most at_most role) test models,
)

-- What is saved with a provider names it, and a model that it offers.
pub save_lem :
    (a : AiAssignment) (models : List AiDiscoveredModel) (d : Dialog) (body : AiAssignment)
    → is_filled d.provider_id ≡ true
    → save a models d ≡ some body
    → (body.provider_id ≡ some d.provider_id)
      × (body.model ≡ some (trim d.model))
      × (has d.model (map (λ (m : AiDiscoveredModel). m.id) models) ≡ true)
unfolding save
save_lem a models d body filled e = ground (arith, filled, e)
