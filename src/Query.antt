-- ===== src/Query.antt =====
-- `URLSearchParams`, as its list of pairs, with the loops and the conditional `set` that
-- frontend/src/features/documents/useDocumentsLibraryState.ts writes with.
pub mod Written
use folium.Base.{String, Bool, Option, none, some, List, [], ◌∷◌, ◌++◌, ◌==◌, if◌then◌else◌}

abbrev pub Params : Type 0
Params = List (String × String)

unfoldable pub get : String → Params → Option String
get k [] = none
get k ((j, v) ∷ ps) = if j == k then some v else get k ps

unfoldable pub get_all : String → Params → List String
get_all k [] = []
get_all k ((j, v) ∷ ps) = let rest = get_all k ps in if j == k then v ∷ rest else rest

unfoldable pub delete : String → Params → Params
delete k [] = []
delete k ((j, v) ∷ ps) = let rest = delete k ps in if j == k then rest else (j, v) ∷ rest

-- `set` puts the value where the key first stands, and drops what else the key has.
unfoldable pub set : String → String → Params → Params
unfolding delete
set k v [] = (k, v) ∷ []
set k v ((j, w) ∷ ps) = if j == k then (k, v) ∷ delete k ps else (j, w) ∷ set k v ps

unfoldable pub append : String → String → Params → Params
append k v ps = ps ++ (k, v) ∷ []

-- `if (keep) next.set(k, v)`
unfoldable pub put : Bool → String → String → Params → Params
put keep k v ps = if keep then set k v ps else ps

unfoldable pub append_all : String → List String → Params → Params
append_all k [] ps = ps
append_all k (v ∷ vs) ps = append_all k vs (append k v ps)

unfoldable pub delete_all : List String → Params → Params
delete_all [] ps = ps
delete_all (k ∷ keys) ps = delete_all keys (delete k ps)
