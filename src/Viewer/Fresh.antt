-- ===== src/Viewer/Fresh.antt =====
-- What it is for the viewer to show and to hold nothing but what its current run has made, and the
-- changes that keep it so.
use folium.Base.{
  ℕ, suc, zero, ◌≤◌, ◌≡◌, refl, String, true, Option, none, some, List, [], ◌∷◌, ◌++◌, eqb, eqb_iff,
  remove_at, get_elem?, All, All-append, arith,
}
use mathlib.Core.Path.{subst}
use mathlib.Core.Option.{some-injective}
use folium.Viewer.{Flight, Resource, Viewer, without_run, destroyed, start_over, clean_up}

-- Made by the current run, for the document of the viewer.
abbrev pub IsCurrent : ℕ → Option String → Resource → Type 0
IsCurrent run doc_id r = (r.number ≡ run) × (doc_id ≡ some r.doc_id)

abbrev pub Shown : ℕ → Option String → Option Resource → Type 0
Shown run doc_id none = Unit
Shown run doc_id (some r) = IsCurrent run doc_id r

-- A run is not later than the current one, and the current one loads the document of the viewer.
abbrev pub IsKnown : ℕ → Option String → Flight → Type 0
IsKnown run doc_id f = (f.number ≤ run) × (eqb f.number run ≡ true → doc_id ≡ some f.doc_id)

-- The PDF that is shown is the one that the cleanup destroys.
pub record IsFresh (run : ℕ) (doc_id : Option String) (flights : List Flight)
    (urls proxies : List Resource) (fallback_url pdf pdf_ref : Option Resource) : Type 0 where
  pub known : All (IsKnown run doc_id) flights
  pub urls_current : All (IsCurrent run doc_id) urls
  pub proxies_current : All (IsCurrent run doc_id) proxies
  pub url_shown : Shown run doc_id fallback_url
  pub pdf_shown : Shown run doc_id pdf
  pub ref_shown : Shown run doc_id pdf_ref
  pub ref_held : pdf_ref ≡ none → proxies ≡ []

abbrev pub Fresh : Viewer → Type 0
Fresh v = IsFresh v.run v.doc_id v.flights v.urls v.proxies v.fallback_url v.pdf v.pdf_ref

none_without :
    (run : ℕ) (doc_id : Option String) (rs : List Resource)
    → All (IsCurrent run doc_id) rs
    → without_run run rs ≡ []
none_without run doc_id [] h = refl
none_without run doc_id (r ∷ rs) h =
    rw ((eqb_iff r.number run).1 h.0.0) (none_without run doc_id rs h.1)

older :
    (run : ℕ) (doc_id next : Option String) (fs : List Flight)
    → All (IsKnown run doc_id) fs
    → All (IsKnown (suc run) next) fs
older run doc_id next [] h = tt
older run doc_id next (f ∷ fs) h = (
  (omega (arith, h.0.0), λ same. let none_there : ⊥ = ground (arith, h.0.0) in elim none_there [ ]),
  older run doc_id next fs h.1,
)

pub All_at :
    {A : Type 0} (P : A → Type 0) (i : ℕ) (xs : List A)
    → All P xs
    → (x : A) → get_elem? xs i ≡ some x
    → P x
All_at P i [] h x e = let none_there : ⊥ = ground arith in elim none_there [ ]
All_at P zero (y ∷ xs) h x e = subst P (some-injective y x e) h.0
All_at P (suc i) (y ∷ xs) h x e = All_at P i xs h.1 x e

pub All-remove_at :
    {A : Type 0} (P : A → Type 0) (i : ℕ) (xs : List A) → All P xs → All P (remove_at i xs)
All-remove_at P i [] h = tt
All-remove_at P zero (x ∷ xs) h = h.1
All-remove_at P (suc i) (x ∷ xs) h = (h.0, All-remove_at P i xs h.1)

none_after :
    (run : ℕ) (doc_id : Option String) (ref : Option Resource) (rs : List Resource)
    → Shown run doc_id ref
    → All (IsCurrent run doc_id) rs
    → (ref ≡ none → rs ≡ [])
    → destroyed ref rs ≡ []
none_after run doc_id none rs shown h held = held refl
none_after run doc_id (some r) rs shown h held = rw shown.0 (none_without run doc_id rs h)

pub Fresh-start :
    (next : Option String) (v : Viewer) → Fresh v → Fresh (start_over next (clean_up v))
unfolding clean_up
Fresh-start next v h =
    let no_urls = none_without v.run v.doc_id v.urls h.urls_current in
    let no_proxies =
      none_after v.run v.doc_id v.pdf_ref v.proxies h.ref_shown h.proxies_current h.ref_held in
    record {
      known = older v.run v.doc_id next v.flights h.known;
      urls_current = rw no_urls tt;
      proxies_current = rw no_proxies tt;
      url_shown = tt;
      pdf_shown = tt;
      ref_shown = tt;
      ref_held = λ e. no_proxies;
    }

-- One more flight that is known.
pub Fresh-flight :
    (f : Flight) (v : Viewer)
    → IsKnown v.run v.doc_id f
    → Fresh v
    → Fresh (record v { flights = v.flights ++ f ∷ [] })
Fresh-flight f v k h = record {
  known = All-append (IsKnown v.run v.doc_id) v.flights (f ∷ []) h.known (k, tt);
  urls_current = h.urls_current;
  proxies_current = h.proxies_current;
  url_shown = h.url_shown;
  pdf_shown = h.pdf_shown;
  ref_shown = h.ref_shown;
  ref_held = h.ref_held;
}

pub Fresh-url :
    (r : Resource) (v : Viewer)
    → IsCurrent v.run v.doc_id r
    → Fresh v
    → Fresh (record v { urls = v.urls ++ r ∷ [] })
Fresh-url r v k h = record {
  known = h.known;
  urls_current = All-append (IsCurrent v.run v.doc_id) v.urls (r ∷ []) h.urls_current (k, tt);
  proxies_current = h.proxies_current;
  url_shown = h.url_shown;
  pdf_shown = h.pdf_shown;
  ref_shown = h.ref_shown;
  ref_held = h.ref_held;
}

pub Fresh-fallback :
    (r : Resource) (v : Viewer)
    → IsCurrent v.run v.doc_id r
    → Fresh v
    → Fresh (record v { fallback_url = some r })
Fresh-fallback r v k h = record {
  known = h.known;
  urls_current = h.urls_current;
  proxies_current = h.proxies_current;
  url_shown = k;
  pdf_shown = h.pdf_shown;
  ref_shown = h.ref_shown;
  ref_held = h.ref_held;
}

pub Fresh-pdf :
    (r : Resource) (v : Viewer)
    → IsCurrent v.run v.doc_id r
    → Fresh v
    → Fresh (record v { proxies = v.proxies ++ r ∷ []; pdf_ref = some r; pdf = some r })
Fresh-pdf r v k h = record {
  known = h.known;
  urls_current = h.urls_current;
  proxies_current =
      All-append (IsCurrent v.run v.doc_id) v.proxies (r ∷ []) h.proxies_current (k, tt);
  url_shown = h.url_shown;
  pdf_shown = k;
  ref_shown = k;
  ref_held = λ e. let none_there : ⊥ = ground arith in elim none_there [ ];
}
