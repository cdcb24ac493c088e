-- ===== src/Hooks/Cache.antt =====
-- The query client as frontend/src/lib/api/hooks.ts uses it: a parameter, with its documented laws.
-- A key that `invalidateQueries` is given marks every cached query whose key begins with it; the data
-- stays until a request brings new data.
use folium.Base.{
  ◌≡◌, refl, ◌∙◌, String, Bool, true, false, ◌||◌, Option, none, some, List, [], ◌∷◌, is_some,
  if◌then◌else◌, map,
}
use folium.Hooks.{
  Part, begins_with, is_key, Data, Effect, set_query_data, invalidate_queries, clear,
}

pub record QueryClient (C : Type 0) : Type 0 where
  pub data_of : C → List Part → Option Data
  pub is_stale : C → List Part → Bool
  pub set : List String → Data → C → C
  pub invalidate : List String → C → C
  pub clear_all : C → C
  pub data_of-set :
      (ws : List String) (d : Data) (c : C) (k : List Part)
      → data_of (set ws d c) k ≡ (if is_key ws k then some d else data_of c k)
  pub is_stale-set :
      (ws : List String) (d : Data) (c : C) (k : List Part)
      → is_stale (set ws d c) k ≡ (if is_key ws k then false else is_stale c k)
  pub data_of-invalidate :
      (ws : List String) (c : C) (k : List Part) → data_of (invalidate ws c) k ≡ data_of c k
  pub is_stale-invalidate :
      (ws : List String) (c : C) (k : List Part)
      → is_some (data_of c k) ≡ true
      → is_stale (invalidate ws c) k ≡ begins_with ws k || is_stale c k
  pub data_of-clear : (c : C) (k : List Part) → data_of (clear_all c) k ≡ none

-- A cache as a function meets the laws.
abbrev pub Table : Type 0
Table = List Part → Option (Data × Bool)

abbrev pub table_data : Option (Data × Bool) → Option Data
table_data none = none
table_data (some (d, stale)) = some d

abbrev pub table_stale : Option (Data × Bool) → Bool
table_stale none = false
table_stale (some (d, stale)) = stale

abbrev pub table_mark : Bool → Option (Data × Bool) → Option (Data × Bool)
table_mark b none = none
table_mark b (some (d, stale)) = some (d, b || stale)

pub marked_data : (b : Bool) (o : Option (Data × Bool)) → table_data (table_mark b o) ≡ table_data o
marked_data b none = refl
marked_data b (some (d, stale)) = refl

pub marked_stale :
    (b : Bool) (o : Option (Data × Bool))
    → is_some (table_data o) ≡ true
    → table_stale (table_mark b o) ≡ b || table_stale o
marked_stale b none h = cc
marked_stale b (some (d, stale)) h = refl

pub set_table :
    (b : Bool) (d : Data) (o : Option (Data × Bool))
    → (table_data (if b then some (d, false) else o) ≡ (if b then some d else table_data o))
      × (table_stale (if b then some (d, false) else o) ≡ (if b then false else table_stale o))
set_table true d o = (refl, refl)
set_table false d o = (refl, refl)

abbrev pub table_client : QueryClient Table
table_client = record {
  data_of = λ c k. table_data (c k);
  is_stale = λ c k. table_stale (c k);
  set = λ ws d c k. if is_key ws k then some (d, false) else c k;
  invalidate = λ ws c k. table_mark (begins_with ws k) (c k);
  clear_all = λ c k. none;
  data_of-set = λ ws d c k. (set_table (is_key ws k) d (c k)).0;
  is_stale-set = λ ws d c k. (set_table (is_key ws k) d (c k)).1;
  data_of-invalidate = λ ws c k. marked_data (begins_with ws k) (c k);
  is_stale-invalidate = λ ws c k h. marked_stale (begins_with ws k) (c k) h;
  data_of-clear = λ c k. refl;
}

-- The keys that are invalidated.
abbrev pub invalidate_each : List (List String) → List Effect
invalidate_each keys = map invalidate_queries keys

-- One of the keys begins the other.
unfoldable pub any_begins : List (List String) → List Part → Bool
any_begins [] k = false
any_begins (ws ∷ keys) k = begins_with ws k || any_begins keys k

module _ {C : Type 0} (qc : QueryClient C) where
  unfoldable pub perform_one : Effect → C → C
  perform_one (set_query_data ws d) c = qc.set ws d c
  perform_one (invalidate_queries ws) c = qc.invalidate ws c
  perform_one clear c = qc.clear_all c

  unfoldable pub perform : List Effect → C → C
  perform [] c = c
  perform (e ∷ es) c = perform es (perform_one e c)

  pub data_of-perform :
      (keys : List (List String)) (c : C) (k : List Part)
      → qc.data_of (perform (invalidate_each keys) c) k ≡ qc.data_of c k
  unfolding perform perform_one
  data_of-perform [] c k = refl
  data_of-perform (ws ∷ keys) c k =
      data_of-perform keys (qc.invalidate ws c) k ∙ qc.data_of-invalidate ws c k

  pub is_stale-perform :
      (keys : List (List String)) (c : C) (k : List Part)
      → is_some (qc.data_of c k) ≡ true
      → qc.is_stale (perform (invalidate_each keys) c) k ≡ any_begins keys k || qc.is_stale c k
  unfolding perform perform_one any_begins
  is_stale-perform [] c k h = refl
  is_stale-perform (ws ∷ keys) c k h =
      is_stale-perform keys (qc.invalidate ws c) k (rw (qc.data_of-invalidate ws c k) h)
      ∙ rw (qc.is_stale-invalidate ws c k h)
          (swapped (any_begins keys k) (begins_with ws k) (qc.is_stale c k))
    where
      swapped : (a b s : Bool) → (a || (b || s)) ≡ ((b || a) || s)
      swapped true true s = refl
      swapped true false s = refl
      swapped false true s = refl
      swapped false false s = refl
