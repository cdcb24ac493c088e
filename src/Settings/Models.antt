-- ===== src/Settings/Models.antt =====
-- frontend/src/features/settings/ai/AssignmentDialog.tsx: the model that is assigned to a workload.
-- `localeCompare` is a parameter.
pub mod Laws
mod Examples
use folium.Base.{
  ℕ, String, Bool, true, false, not, ◌&&◌, ◌||◌, ◌==◌, Option, none, some, List, [], ◌∷◌,
  if◌then◌else◌, ltb, eqb, is_filled, get_or, filter, map, any,
}
use folium.Base.Sets.{has}
use folium.Base.Sorting.{sort}
use folium.Base.Text.{trim}

pub data AiWorkloadRole : Type 0 where
  indexing_role embedding_role chat_role vision_role : AiWorkloadRole

pub data AiDiscoveredModelKind : Type 0 where
  embedding chat other : AiDiscoveredModelKind

pub record AiDiscoveredModel : Type 0 where
  pub id : String
  pub kind : AiDiscoveredModelKind

pub record AiProvider : Type 0 where
  pub id : String
  pub enabled : Bool

pub record AiAssignment : Type 0 where
  pub role : AiWorkloadRole
  pub provider_id : Option String
  pub model : Option String

abbrev pub assignment_provider_choices : List AiProvider → List AiProvider
assignment_provider_choices providers = filter (λ (p : AiProvider). p.enabled) providers

abbrev pub kind_rank : AiDiscoveredModelKind → AiWorkloadRole → ℕ
kind_rank embedding embedding_role = 0
kind_rank other role = 1
kind_rank chat embedding_role = 2
kind_rank chat role = 0
kind_rank embedding role = 2

module _ (at_most : String → String → Bool) where
  -- `compare(a, b) <= 0`
  abbrev pub ranks_at_most : AiWorkloadRole → AiDiscoveredModel → AiDiscoveredModel → Bool
  ranks_at_most role a b =
      ltb (kind_rank a.kind role) (kind_rank b.kind role)
      || (eqb (kind_rank a.kind role) (kind_rank b.kind role) && at_most a.id b.id)

  unfoldable pub rank_discovered_models :
      List AiDiscoveredModel → AiWorkloadRole → List AiDiscoveredModel
  rank_discovered_models models role = sort (ranks_at_most role) models

pub record Dialog : Type 0 where
  pub provider_id : String
  pub model : String

abbrev pub opened : AiAssignment → Dialog
opened a = record { provider_id = get_or a.provider_id ""; model = get_or a.model "" }

unfoldable pub choose_provider : String → Dialog → Dialog
choose_provider value d = record d {
  provider_id = if value == "none" then "" else value;
  model = "";
}

abbrev or_null : String → Option String
or_null s = if is_filled s then some s else none

-- The body of the request.
abbrev pub saved : AiAssignment → Dialog → AiAssignment
saved a d = record {
  role = a.role;
  provider_id = or_null d.provider_id;
  model = if is_filled d.provider_id then or_null (trim d.model) else none;
}

abbrev ids_of : List AiDiscoveredModel → List String
ids_of models = map (λ (m : AiDiscoveredModel). m.id) models

-- `selectedValid`
abbrev pub selected_valid : List AiDiscoveredModel → Dialog → Bool
selected_valid models d = is_filled d.model && has d.model (ids_of models)

-- The button that saves, where no request is under way; `models` are those of the provider.
unfoldable pub save : AiAssignment → List AiDiscoveredModel → Dialog → Option AiAssignment
save a models d =
    if is_filled d.provider_id && (not (is_filled (trim d.model)) || not (selected_valid models d))
    then none
    else some (saved a d)
