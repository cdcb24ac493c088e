-- ===== src/Library/Legacy/Examples.antt =====
-- A link to a page of a document in a folder, with a search that is kept.
use folium.Base.{[], ◌∷◌}
use folium.Query.{Params}

abbrev link : Params
link = ("page", "7") ∷ ("flag", "on") ∷ ("q", "rent") ∷ []
