-- ===== src/Folders/Descendants.antt =====
-- The folders that are collected are the folder itself and those below it, at any depth.
use folium.Base.{
  ℕ, zero, suc, ◌+◌, ◌≤◌, ◌≡◌, refl, ◌↔◌, inl, inr, String, true, false, not, some, List, [], ◌∷◌,
  eq_iff, eq_refl, arith, length, ◌&&◌, ◌||◌, map, Bool-cases, length-map,
}
use folium.Base.Sets.{has, has-cons, has-nil, IsDistinct, length-le_of_subset}
use folium.Types.{Folder}
use folium.Folders.{
  ChildrenMap, children, children_by_parent, Search, offer, search_from,
  collect_folder_and_descendant_ids,
}
use folium.Folders.Loop.{
  is_child, is_child-has, has-children_by_parent, has-offer_excluded, has-offer_stack, length-offer,
  offer-IsDistinct,
}

-- `id` is the folder `top`, or a child of a folder that is at or below `top`.
pub data IsBelow (folders : List Folder) (top : String) : String → Type 0 where
  here : IsBelow folders top top
  child :
      {p c : String} → IsBelow folders top p → is_child folders p c ≡ true → IsBelow folders top c

module _ (folders : List Folder) (m : ChildrenMap)
    (known : (p c : String) → has c (children p m) ≡ is_child folders p c) where
  -- The search after its top was popped and its children were offered.
  abbrev next : List String → String → List String → Search
  next excluded id stack = offer (children id m) (record { excluded = excluded; stack = stack })

  next_excluded :
      (excluded : List String) (x : String) (stack : List String) (c : String)
      → has c (next excluded x stack).excluded ≡ (is_child folders x c || has c excluded)
  next_excluded excluded x stack c = ground (
    arith,
    has-offer_excluded (children x m) (record { excluded = excluded; stack = stack }) c,
    known x c,
  )

  next_stack :
      (excluded : List String) (x : String) (stack : List String) (c : String)
      → has c (next excluded x stack).stack
        ≡ ((is_child folders x c && not (has c excluded)) || has c stack)
  next_stack excluded x stack c = ground (
    arith,
    has-offer_stack (children x m) (record { excluded = excluded; stack = stack }) c,
    known x c,
  )

  next-IsBelow :
      (top : String) (excluded : List String) (x : String) (stack : List String)
      → ((id : String) → has id excluded ≡ true → IsBelow folders top id)
      → has x excluded ≡ true
      → (c : String) → has c (next excluded x stack).excluded ≡ true
      → IsBelow folders top c
  next-IsBelow top excluded x stack below hx c hc = elim (Bool-cases (has c excluded)) [
    | inl old ↦ below c old
    | inr new ↦ IsBelow.child (below x hx) (ground (arith, next_excluded excluded x stack c))
  ]

  search_from_sound :
      (top : String) (fuel : ℕ) (excluded stack out : List String)
      → ((id : String) → has id excluded ≡ true → IsBelow folders top id)
      → ((id : String) → has id stack ≡ true → has id excluded ≡ true)
      → search_from m fuel excluded stack ≡ some out
      → (id : String) → has id out ≡ true
      → IsBelow folders top id
  unfolding search_from
  search_from_sound top fuel excluded [] out below sub e id h = below id (ground arith)
  search_from_sound top zero excluded (x ∷ stack) out below sub e id h = cc
  search_from_sound top (suc fuel) excluded (x ∷ stack) out below sub e id h =
      search_from_sound top fuel (next excluded x stack).excluded (next excluded x stack).stack out
        (next-IsBelow top excluded x stack below
          (sub x (ground (arith, has-cons x x stack, eq_refl x))))
        (λ c hc. ground (
          arith,
          next_excluded excluded x stack c,
          next_stack excluded x stack c,
          sub c,
          has-cons c x stack,
        ))
        e id h

  search_from_closed :
      (fuel : ℕ) (excluded stack out : List String)
      → ((p c : String)
          → has p excluded ≡ true
          → has p stack ≡ false
          → is_child folders p c ≡ true
          → has c excluded ≡ true)
      → search_from m fuel excluded stack ≡ some out
      → (p c : String) → has p out ≡ true
      → is_child folders p c ≡ true
      → has c out ≡ true
  unfolding search_from
  search_from_closed fuel excluded [] out closed e p c h k =
      let same : excluded ≡ out = ground arith in rw (← same) (closed p c (rw same h) (has-nil p) k)
  search_from_closed zero excluded (x ∷ stack) out closed e p c h k = cc
  search_from_closed (suc fuel) excluded (x ∷ stack) out closed e p c h k =
      search_from_closed fuel (next excluded x stack).excluded (next excluded x stack).stack out
        (λ p c hp hs hc. ground (
          arith,
          next_excluded excluded x stack p,
          next_excluded excluded x stack c,
          next_stack excluded x stack p,
          closed p c,
          has-cons p x stack,
          eq_iff x p,
        ))
        e p c h k

  search_from_keeps :
      (fuel : ℕ) (excluded stack out : List String)
      → search_from m fuel excluded stack ≡ some out
      → (id : String) → has id excluded ≡ true
      → has id out ≡ true
  unfolding search_from
  search_from_keeps fuel excluded [] out e id h = ground arith
  search_from_keeps zero excluded (x ∷ stack) out e id h = cc
  search_from_keeps (suc fuel) excluded (x ∷ stack) out e id h =
      search_from_keeps fuel (next excluded x stack).excluded (next excluded x stack).stack out e id
        (ground (arith, next_excluded excluded x stack id))

  search_from_total :
      (all : List String)
      → ((p c : String) → is_child folders p c ≡ true → has c all ≡ true)
      → (fuel : ℕ) (excluded stack : List String) → IsDistinct excluded
      → ((id : String) → has id excluded ≡ true → has id all ≡ true)
      → length stack + length all ≤ fuel + length excluded
      → (out : List String) × (search_from m fuel excluded stack ≡ some out)
  unfolding search_from
  search_from_total all folder_ids fuel excluded [] d sub enough = (excluded, refl)
  search_from_total all folder_ids zero excluded (x ∷ stack) d sub enough =
      absurd (omega (arith, length-le_of_subset excluded all d sub))
  search_from_total all folder_ids (suc fuel) excluded (x ∷ stack) d sub enough =
      search_from_total all folder_ids fuel (next excluded x stack).excluded
        (next excluded x stack).stack
        (offer-IsDistinct (children x m) (record { excluded = excluded; stack = stack }) d)
        (λ id h. ground (arith, next_excluded excluded x stack id, sub id, folder_ids x id))
        (omega (arith, length-offer (children x m) (record { excluded = excluded; stack = stack })))

known_children :
    (folders : List Folder) (p c : String)
    → has c (children p (children_by_parent folders [])) ≡ is_child folders p c
unfolding children
known_children folders p c = ground (arith, has-children_by_parent folders p c [], has-nil c)

-- The search always ends within its fuel, which is one round for each folder and one more.
pub collect_total :
    (folders : List Folder) (folder_id : String)
    → (out : List String) × (collect_folder_and_descendant_ids folders folder_id ≡ some out)
unfolding collect_folder_and_descendant_ids
collect_total folders folder_id =
    search_from_total folders (children_by_parent folders []) (known_children folders)
      (folder_id ∷ map (λ f. f.id) folders)
      (λ p c h.
        ground (arith, is_child-has folders p c h, has-cons c folder_id (map (λ f. f.id) folders)))
      (length folders + 1) (folder_id ∷ []) (folder_id ∷ []) (has-nil folder_id, tt)
      (λ id h. ground (
        arith,
        has-cons id folder_id (map (λ f. f.id) folders),
        has-cons id folder_id [],
        has-nil id,
      ))
      (omega (arith, length-map {0, 0} (λ (f : Folder). f.id) folders))

-- A set that holds the folder and every child of its members holds all that is below the folder.
closed-IsBelow :
    (folders : List Folder) (folder_id : String) (out : List String)
    → has folder_id out ≡ true
    → ((p c : String) → has p out ≡ true → is_child folders p c ≡ true → has c out ≡ true)
    → {id : String} → IsBelow folders folder_id id
    → has id out ≡ true
closed-IsBelow folders folder_id out top closed here = top
closed-IsBelow folders folder_id out top closed (IsBelow.child {p} {c} b k) =
    closed p c (closed-IsBelow folders folder_id out top closed b) k

-- What is collected for a folder is exactly the folder and what is below it, at any depth, also
-- where the parents run in a circle.
pub collect_iff :
    (folders : List Folder) (folder_id : String) {out : List String} (id : String)
    → collect_folder_and_descendant_ids folders folder_id ≡ some out
    → (has id out ≡ true) ↔ IsBelow folders folder_id id
unfolding collect_folder_and_descendant_ids
collect_iff folders folder_id {out} id e = (
  search_from_sound folders m known folder_id fuel start start out
      (λ c h.
        let same : folder_id ≡ c =
          ground (arith, has-cons c folder_id [], has-nil c, eq_iff folder_id c) in
        rw (← same) here)
      (λ c h. h) e id,
  closed-IsBelow folders folder_id out top_kept (
      search_from_closed folders m known fuel start start out
        (λ p c h hs k. absurd (ground (arith, h, hs))) e),
)
  where
    m : ChildrenMap
    m = children_by_parent folders []

    known : (p c : String) → has c (children p m) ≡ is_child folders p c
    known = known_children folders

    fuel : ℕ
    fuel = length folders + 1

    start : List String
    start = folder_id ∷ []

    top_kept : has folder_id out ≡ true
    top_kept =
        search_from_keeps folders m known fuel start start out e folder_id
          (ground (arith, has-cons folder_id folder_id [], eq_refl folder_id))
