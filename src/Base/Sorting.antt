-- ===== src/Base/Sorting.antt =====
-- `xs.sort(compare)`: stable. `at_most a b` is `compare(a, b) <= 0`.
use Prim.Native.Nat.{suc}
use mathlib.Core.Path.{◌≡◌, refl}
use mathlib.Core.Bool.{Bool, true, false}
use mathlib.Core.Logic.{inl, inr}
use mathlib.Core.List.{List, [], ◌∷◌}
use native.Mathlib.Omega.{arith}
use folium.Base.Tests.{if◌then◌else◌, Bool-cases}
use folium.Base.Lists.{All, length, filter}

module _ {ℓ} {A : Type ℓ} (at_most : A → A → Bool) where
  pub insert : A → List A → List A
  insert x [] = x ∷ []
  insert x (y ∷ ys) = let rest = insert x ys in if at_most x y then x ∷ y ∷ ys else y ∷ rest

  unfoldable pub sort : List A → List A
  unfolding insert
  sort [] = []
  sort (x ∷ xs) = insert x (sort xs)

  length-insert : (x : A) (ys : List A) → length (insert x ys) ≡ suc (length ys)
  unfolding insert
  length-insert x [] = refl
  length-insert x (y ∷ ys) = ground (arith, length-insert x ys)

  pub length-sort : (xs : List A) → length (sort xs) ≡ length xs
  unfolding sort
  length-sort [] = refl
  length-sort (x ∷ xs) = ground (arith, length-insert x (sort xs), length-sort xs)

  -- How often a test holds is not changed, so a sorted list has the same elements.
  count-insert :
      (p : A → Bool) (x : A) (ys : List A)
      → length (filter p (insert x ys)) ≡ length (filter p (x ∷ ys))
  unfolding insert
  count-insert p x [] = refl
  count-insert p x (y ∷ ys) = ground (arith, count-insert p x ys)

  pub count-sort : (p : A → Bool) (xs : List A) → length (filter p (sort xs)) ≡ length (filter p xs)
  unfolding sort
  count-sort p [] = refl
  count-sort p (x ∷ xs) = ground (arith, count-insert p x (sort xs), count-sort p xs)

  -- Each element is at most every later one.
  abbrev pub IsSorted : List A → Type ℓ
  IsSorted [] = Unit
  IsSorted (x ∷ xs) = All (λ y. at_most x y ≡ true) xs × IsSorted xs

  -- Where any two elements compare, and the comparison is transitive, sorting sorts.
  module _ (total : (x y : A) → at_most x y ≡ false → at_most y x ≡ true)
      (transitive : (x y z : A)
        → at_most x y ≡ true
        → at_most y z ≡ true
        → at_most x z ≡ true) where
    below-All :
        (x y : A) (ys : List A)
        → at_most x y ≡ true
        → All (λ z. at_most y z ≡ true) ys
        → All (λ z. at_most x z ≡ true) ys
    below-All x y [] h k = tt
    below-All x y (z ∷ ys) h k = (transitive x y z h k.0, below-All x y ys h k.1)

    above_insert :
        (y x : A) (ys : List A)
        → at_most y x ≡ true
        → All (λ z. at_most y z ≡ true) ys
        → All (λ z. at_most y z ≡ true) (insert x ys)
    unfolding insert
    above_insert y x [] h k = (h, tt)
    above_insert y x (z ∷ ys) h k = elim (Bool-cases (at_most x z)) [
      | inl low ↦ rw low (h, k)
      | inr high ↦ rw high (k.0, above_insert y x ys h k.1)
    ]

    insert-IsSorted : (x : A) (ys : List A) → IsSorted ys → IsSorted (insert x ys)
    unfolding insert
    insert-IsSorted x [] h = (tt, tt)
    insert-IsSorted x (y ∷ ys) h = elim (Bool-cases (at_most x y)) [
      | inl low ↦ rw low ((low, below-All x y ys low h.0), h)
      | inr high ↦ rw high (above_insert y x ys (total x y high) h.0, insert-IsSorted x ys h.1)
    ]

    pub sort-IsSorted : (xs : List A) → IsSorted (sort xs)
    unfolding sort
    sort-IsSorted [] = tt
    sort-IsSorted (x ∷ xs) = insert-IsSorted x (sort xs) (sort-IsSorted xs)
