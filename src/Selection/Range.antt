-- ===== src/Selection/Range.antt =====
-- Which documents a range holds.
use folium.Base.{
  ℕ, zero, suc, ◌+◌, ◌-◌, ◌≤◌, ◌<◌, min, max, ◌≡◌, ◌↔◌, ◌⊎◌, inl, inr, String, true, Option, none,
  some, List, [], eq_iff, arith, if◌then◌else◌, is_filled, get_elem?, Option-cases, Bool-cases, eqb,
  eqb_iff,
}
use folium.Base.Sets.{has, add, has-add, IsDistinct, add-IsDistinct}
use folium.Selection.{range_from, select_range_ids}

-- `id` stands at an index from `low`, below `high`, and is no empty text.
abbrev pub StandsIn : List String → ℕ → ℕ → String → Type 0
StandsIn ids low high id =
    (i : ℕ) × (low ≤ i) × (i < high) × (get_elem? ids i ≡ some id) × (is_filled id ≡ true)

abbrev pick : List String → ℕ → List String → List String
pick ids i next = elim (get_elem? ids i) [
  | none ↦ next
  | some id ↦ if is_filled id then add id next else next
]

has-pick :
    (ids : List String) (i : ℕ) (next : List String) (id : String)
    → (has id (pick ids i next) ≡ true)
      ↔ ((has id next ≡ true) ⊎ ((get_elem? ids i ≡ some id) × (is_filled id ≡ true)))
has-pick ids i next id = elim (Option-cases (get_elem? ids i)) [
  | inl out ↦ ground arith
  | inr (x, found) ↦ ground (arith, has-add id x next, eq_iff x id)
]

-- The first index of an interval, or one of the others.
StandsIn-split :
    (ids : List String) (i rounds : ℕ) (id : String)
    → StandsIn ids i (i + suc rounds) id
    → ((get_elem? ids i ≡ some id) × (is_filled id ≡ true))
      ⊎ StandsIn ids (i + 1) (i + 1 + rounds) id
StandsIn-split ids i rounds id (j, low, high, found, filled) = elim (Bool-cases (eqb i j)) [
  | inl same ↦ let e : i ≡ j = (eqb_iff i j).0 same in inl (rw e found, filled)
  | inr other ↦ inr (j, ground arith, omega arith, found, filled)
]

StandsIn-later :
    (ids : List String) (i rounds : ℕ) (id : String)
    → StandsIn ids (i + 1) (i + 1 + rounds) id
    → StandsIn ids i (i + suc rounds) id
StandsIn-later ids i rounds id (j, low, high, found, filled) =
    (j, omega arith, omega arith, found, filled)

range_from_sound :
    (ids : List String) (rounds i : ℕ) (next : List String) (id : String)
    → has id (range_from ids rounds i next) ≡ true
    → (has id next ≡ true) ⊎ StandsIn ids i (i + rounds) id
unfolding range_from
range_from_sound ids zero i next id h = inl h
range_from_sound ids (suc rounds) i next id h =
    elim (range_from_sound ids rounds (i + 1) (pick ids i next) id h) [
      | inr later ↦ inr (StandsIn-later ids i rounds id later)
      | inl picked ↦ elim ((has-pick ids i next id).0 picked) [
        | inl old ↦ inl old
        | inr (found, filled) ↦ inr (i, omega arith, omega arith, found, filled)
      ]
    ]

range_from_complete :
    (ids : List String) (rounds i : ℕ) (next : List String) (id : String)
    → (has id next ≡ true) ⊎ StandsIn ids i (i + rounds) id
    → has id (range_from ids rounds i next) ≡ true
unfolding range_from
range_from_complete ids zero i next id (inl h) = h
range_from_complete ids zero i next id (inr (j, low, high, found, filled)) = absurd (omega arith)
range_from_complete ids (suc rounds) i next id (inl h) =
    range_from_complete ids rounds (i + 1) (pick ids i next) id
      (inl ((has-pick ids i next id).1 (inl h)))
range_from_complete ids (suc rounds) i next id (inr s) =
    range_from_complete ids rounds (i + 1) (pick ids i next) id
      (elim (StandsIn-split ids i rounds id s) [
        | inl here ↦ inl ((has-pick ids i next id).1 (inr here))
        | inr later ↦ inr later
      ])

-- A range holds exactly the documents, with an id that is not empty, that stand between the two
-- indices, both included, whichever of them comes first.
pub select_range_ids_iff :
    (ids : List String) (a b : ℕ) (id : String)
    → (has id (select_range_ids ids a b) ≡ true) ↔ StandsIn ids (min a b) (max a b + 1) id
unfolding select_range_ids has
select_range_ids_iff ids a b id =
    let e : min a b + (max a b + 1 - min a b) ≡ max a b + 1 = omega arith in
    (
      λ h. elim (range_from_sound ids (max a b + 1 - min a b) (min a b) [] id h) [
        | inl none_yet ↦ cc
        | inr s ↦ rw e at s
      ],
      λ s. range_from_complete ids (max a b + 1 - min a b) (min a b) [] id (inr (rw (← e) at s)),
    )

picked-IsDistinct :
    (o : Option String) (next : List String)
    → IsDistinct next
    → IsDistinct (elim o [ none ↦ next | some id ↦ if is_filled id then add id next else next ])
picked-IsDistinct none next d = d
picked-IsDistinct (some x) next d = elim (Bool-cases (is_filled x)) [
  | inl filled ↦ rw filled (add-IsDistinct x next d)
  | inr blank ↦ rw blank d
]

range_from-IsDistinct :
    (ids : List String) (rounds i : ℕ) (next : List String)
    → IsDistinct next
    → IsDistinct (range_from ids rounds i next)
unfolding range_from
range_from-IsDistinct ids zero i next d = d
range_from-IsDistinct ids (suc rounds) i next d =
    range_from-IsDistinct ids rounds (i + 1) (pick ids i next)
      (picked-IsDistinct (get_elem? ids i) next d)

pub select_range_ids-IsDistinct :
    (ids : List String) (a b : ℕ) → IsDistinct (select_range_ids ids a b)
unfolding select_range_ids
select_range_ids-IsDistinct ids a b =
    range_from-IsDistinct ids (max a b + 1 - min a b) (min a b) [] tt

-- The order in which the two ends of a range are given makes no difference.
pub select_range_ids_comm :
    (ids : List String) (a b : ℕ) → select_range_ids ids a b ≡ select_range_ids ids b a
unfolding select_range_ids
select_range_ids_comm ids a b =
    let e : min a b ≡ min b a = omega arith in let f : max a b ≡ max b a = omega arith in rw (e, f)
