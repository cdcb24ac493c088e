-- ===== src/Base/Sets.antt =====
-- A `Set<string>` as the list of its members in the order of insertion.
use Prim.Native.Nat.{◌≤◌, ◌<◌}
use Prim.Native.String.{String}
use mathlib.Core.Path.{◌≡◌, refl}
use mathlib.Core.Logic.{inl, inr}
use mathlib.Core.Bool.{Bool, true, false, not, ◌&&◌, ◌||◌}
use mathlib.Core.List.{List, [], ◌∷◌, ◌++◌}
use native.Mathlib.Omega.{arith}
use text.Mathlib.Text.{◌==◌}
use text.Mathlib.TextEquality.{eq_iff}
use text.Mathlib.TextPositions.{eq_refl}
use folium.Base.Tests.{if◌then◌else◌, Bool-cases}
use folium.Base.Lists.{length, filter}

-- `set.has(id)`, and `xs.includes(id)` on an array
unfoldable pub has : String → List String → Bool
has id [] = false
has id (x ∷ xs) = x == id || has id xs

-- `set.add(id)`
unfoldable pub add : String → List String → List String
unfolding has
add id xs = if has id xs then xs else xs ++ id ∷ []

-- `set.delete(id)`
unfoldable pub delete : String → List String → List String
delete id [] = []
delete id (x ∷ xs) = let rest = delete id xs in if x == id then rest else x ∷ rest

-- `new Set(xs)`, added to a set that is there already
unfoldable pub add_all : List String → List String → List String
add_all [] set = set
add_all (x ∷ xs) set = add_all xs (add x set)

-- No member stands twice.
abbrev pub IsDistinct : List String → Type 0
IsDistinct [] = Unit
IsDistinct (x ∷ xs) = (has x xs ≡ false) × IsDistinct xs

pub has-nil : (id : String) → has id [] ≡ false
unfolding has
has-nil id = refl

pub has-cons : (id x : String) (xs : List String) → has id (x ∷ xs) ≡ (x == id || has id xs)
unfolding has
has-cons id x xs = refl

pub has-append : (id : String) (xs ys : List String) → has id (xs ++ ys) ≡ (has id xs || has id ys)
unfolding has
has-append id [] ys = refl
has-append id (x ∷ xs) ys = ground (arith, has-append id xs ys)

pub has-add : (id x : String) (xs : List String) → has id (add x xs) ≡ (x == id || has id xs)
unfolding add
has-add id x xs = ground (arith, has-append id xs (x ∷ []), eq_iff x id)

pub has-delete :
    (id x : String) (xs : List String) → has id (delete x xs) ≡ (not (x == id) && has id xs)
unfolding has delete
has-delete id x [] = ground arith
has-delete id x (y ∷ xs) = ground (arith, has-delete id x xs, eq_iff x id, eq_iff y id, eq_iff y x)

pub has-add_all :
    (id : String) (xs set : List String) → has id (add_all xs set) ≡ (has id xs || has id set)
unfolding has add_all
has-add_all id [] set = refl
has-add_all id (x ∷ xs) set = ground (arith, has-add_all id xs (add x set), has-add id x set)

pub has-filter :
    (p : String → Bool) (id : String) (xs : List String)
    → has id (filter p xs) ≡ (p id && has id xs)
unfolding has
has-filter p id [] = ground arith
has-filter p id (x ∷ xs) = elim (Bool-cases (x == id)) [
  | inl same ↦ rw ((eq_iff x id).0 same) (ground (arith, has-filter p id xs, eq_refl id))
  | inr other ↦ ground (arith, has-filter p id xs)
]

IsDistinct-concat :
    (x : String) (xs : List String) → IsDistinct xs → has x xs ≡ false → IsDistinct (xs ++ x ∷ [])
unfolding has
IsDistinct-concat x [] d h = (refl, tt)
IsDistinct-concat x (y ∷ xs) d h = (
  ground (arith, has-append y xs (x ∷ []), eq_iff x y, eq_iff y x),
  IsDistinct-concat x xs d.1 (ground arith),
)

pub add-IsDistinct : (x : String) (xs : List String) → IsDistinct xs → IsDistinct (add x xs)
unfolding add
add-IsDistinct x xs d = elim (Bool-cases (has x xs)) [
  | inl old ↦ rw old d
  | inr new ↦ rw new (IsDistinct-concat x xs d new)
]

pub length-delete-le : (x : String) (xs : List String) → length (delete x xs) ≤ length xs
unfolding delete
length-delete-le x [] = omega arith
length-delete-le x (y ∷ xs) = ground (arith, length-delete-le x xs)

length-delete-lt :
    (x : String) (xs : List String) → has x xs ≡ true → length (delete x xs) < length xs
unfolding has delete
length-delete-lt x [] h = cc
length-delete-lt x (y ∷ xs) h = elim (Bool-cases (y == x)) [
  | inl same ↦ ground (arith, length-delete-le x xs)
  | inr other ↦ ground (arith, length-delete-lt x xs)
]

-- A list without duplicates whose members are all in another is no longer than that.
pub length-le_of_subset :
    (xs ys : List String)
    → IsDistinct xs
    → ((id : String) → has id xs ≡ true → has id ys ≡ true)
    → length xs ≤ length ys
unfolding has
length-le_of_subset [] ys d h = omega arith
length-le_of_subset (x ∷ xs) ys d h = omega (
  arith,
  length-delete-lt x ys (h x (rw (eq_refl x) refl)),
  length-le_of_subset xs (delete x ys) d.1 (kept xs ys d.0 h),
)
  where
    kept :
        (xs ys : List String)
        → has x xs ≡ false
        → ((id : String) → has id (x ∷ xs) ≡ true → has id ys ≡ true)
        → (id : String) → has id xs ≡ true
        → has id (delete x ys) ≡ true
    kept xs ys new h id m = ground (arith, has-delete id x ys, h id, eq_iff x id, eq_iff id x)
