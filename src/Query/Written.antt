-- ===== src/Query/Written.antt =====
-- What can be read of a query string after it was written.
use folium.Base.{
  ◌≡◌, refl, sym, ap, ◌∙◌, String, Bool, false, ◌&&◌, none, some, List, [], ◌∷◌, ◌++◌, ◌==◌, arith,
  if◌then◌else◌, eq_iff, eq_refl,
}
use mathlib.Core.List.{append-nil, append_assoc}
use folium.Base.Sets.{has}
use folium.Query.{Params, get, get_all, delete, set, append, put, append_all, delete_all}

pub get-delete :
    (k j : String) (ps : Params) → get k (delete j ps) ≡ (if j == k then none else get k ps)
unfolding get delete
get-delete k j [] = ground arith
get-delete k j ((i, v) ∷ ps) = ground (arith, get-delete k j ps, eq_iff i j, eq_iff j k, eq_iff i k)

pub get_all-delete :
    (k j : String) (ps : Params) → get_all k (delete j ps) ≡ (if j == k then [] else get_all k ps)
unfolding get_all delete
get_all-delete k j [] = ground arith
get_all-delete k j ((i, v) ∷ ps) =
    ground (arith, get_all-delete k j ps, eq_iff i j, eq_iff j k, eq_iff i k)

pub get-set :
    (k j v : String) (ps : Params) → get k (set j v ps) ≡ (if j == k then some v else get k ps)
unfolding get set
get-set k j v [] = refl
get-set k j v ((i, w) ∷ ps) =
    ground (arith, get-set k j v ps, get-delete k j ps, eq_iff i j, eq_iff j k, eq_iff i k)

pub get-put :
    (k j v : String) (keep : Bool) (ps : Params)
    → get k (put keep j v ps) ≡ (if (j == k) && keep then some v else get k ps)
unfolding put
get-put k j v keep ps = ground (arith, get-set k j v ps)

get_all-set :
    (k j v : String) (ps : Params) → (j == k) ≡ false → get_all k (set j v ps) ≡ get_all k ps
unfolding get_all set
get_all-set k j v [] h = ground arith
get_all-set k j v ((i, w) ∷ ps) h =
    ground (arith, get_all-set k j v ps, get_all-delete k j ps, eq_iff i j, eq_iff j k, eq_iff i k)

pub get_all-put :
    (k j v : String) (keep : Bool) (ps : Params)
    → (j == k) ≡ false
    → get_all k (put keep j v ps) ≡ get_all k ps
unfolding put
get_all-put k j v keep ps h = ground (arith, get_all-set k j v ps)

get-append : (k j v : String) (ps : Params) → (j == k) ≡ false → get k (append j v ps) ≡ get k ps
unfolding get append
get-append k j v [] h = ground arith
get-append k j v ((i, w) ∷ ps) h = ground (arith, get-append k j v ps)

pub get-append_all :
    (k j : String) (vs : List String) (ps : Params)
    → (j == k) ≡ false
    → get k (append_all j vs ps) ≡ get k ps
unfolding append_all
get-append_all k j [] ps h = refl
get-append_all k j (v ∷ vs) ps h = get-append_all k j vs (append j v ps) h ∙ get-append k j v ps h

get_all-append : (k v : String) (ps : Params) → get_all k (append k v ps) ≡ get_all k ps ++ v ∷ []
unfolding get_all append
get_all-append k v [] = ground (arith, eq_refl k)
get_all-append k v ((i, w) ∷ ps) = ground (arith, get_all-append k v ps)

pub get_all-append_all :
    (k : String) (vs : List String) (ps : Params)
    → get_all k (append_all k vs ps) ≡ get_all k ps ++ vs
unfolding append_all
get_all-append_all k [] ps = sym (append-nil (get_all k ps))
get_all-append_all k (v ∷ vs) ps =
    get_all-append_all k vs (append k v ps)
    ∙ ap (λ l. l ++ vs) (get_all-append k v ps)
    ∙ append_assoc (get_all k ps) (v ∷ []) vs

pub get-delete_all :
    (k : String) (keys : List String) (ps : Params)
    → get k (delete_all keys ps) ≡ (if has k keys then none else get k ps)
unfolding delete_all has
get-delete_all k [] ps = refl
get-delete_all k (j ∷ keys) ps =
    ground (arith, get-delete_all k keys (delete j ps), get-delete k j ps)

pub get_all-delete_all :
    (k : String) (keys : List String) (ps : Params)
    → get_all k (delete_all keys ps) ≡ (if has k keys then [] else get_all k ps)
unfolding delete_all has
get_all-delete_all k [] ps = refl
get_all-delete_all k (j ∷ keys) ps =
    ground (arith, get_all-delete_all k keys (delete j ps), get_all-delete k j ps)
