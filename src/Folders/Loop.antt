-- ===== src/Folders/Loop.antt =====
-- The two loops of `collectFolderAndDescendantIds`: the map of children, and one round of the search.
use folium.Base.{
  suc, ◌+◌, ◌≡◌, refl, ap, String, Bool, true, false, not, Option, none, some, List, [], ◌∷◌, map,
  ◌==◌, eq_iff, arith, is_filled, length, ◌&&◌, ◌||◌, if◌then◌else◌, Bool-cases, any, is_text, inl,
  inr, length-append,
}
use folium.Base.Sets.{has, add, has-add, has-append, has-nil, has-cons, IsDistinct, add-IsDistinct}
use folium.Types.{Folder}
use folium.Folders.{ChildrenMap, children, push_child, link, children_by_parent, Search, offer}

-- Some folder of the list has the id `c`, and `p`, which is not empty, for its parent.
pub is_child : List Folder → String → String → Bool
is_child folders p c = any (λ f. is_filled p && is_text f.parent_id p && f.id == c) folders

pub is_child-has :
    (folders : List Folder) (p c : String)
    → is_child folders p c ≡ true
    → has c (map (λ f. f.id) folders) ≡ true
unfolding is_child
is_child-has [] p c h = cc
is_child-has (f ∷ folders) p c h =
    ground (arith, is_child-has folders p c, has-cons c f.id (map (λ f. f.id) folders))

children-push_child :
    (p id q c : String) (m : ChildrenMap)
    → has c (children q (push_child p id m)) ≡ ((p == q && id == c) || has c (children q m))
unfolding children push_child has
children-push_child p id q c [] = ground arith
children-push_child p id q c ((k, list) ∷ m) = ground (
  arith,
  children-push_child p id q c m,
  has-append c list (id ∷ []),
  eq_iff k p,
  eq_iff k q,
  eq_iff p q,
)

children-link :
    (o : Option String) (id q c : String) (m : ChildrenMap)
    → has c (children q (link o id m))
      ≡ ((is_filled q && is_text o q && id == c) || has c (children q m))
unfolding link
children-link none id q c m = ground arith
children-link (some p) id q c m =
    ground (arith, children-push_child p id q c m, eq_iff p q, eq_iff p "", eq_iff q "")

-- What the map gives for a folder are its children.
pub has-children_by_parent :
    (folders : List Folder) (q c : String) (m : ChildrenMap)
    → has c (children q (children_by_parent folders m))
      ≡ (is_child folders q c || has c (children q m))
unfolding children_by_parent is_child
has-children_by_parent [] q c m = refl
has-children_by_parent (f ∷ folders) q c m = ground (
  arith,
  has-children_by_parent folders q c (link f.parent_id f.id m),
  children-link f.parent_id f.id q c m,
)

-- The search after a new child was pushed.
abbrev taken : String → Search → Search
taken child s = record { excluded = add child s.excluded; stack = child ∷ s.stack }

offer_old :
    (child : String) (kids : List String) (s : Search)
    → has child s.excluded ≡ true
    → offer (child ∷ kids) s ≡ offer kids s
unfolding offer
offer_old child kids s old = ap (λ (b : Bool). offer kids (if b then s else taken child s)) old

offer_new :
    (child : String) (kids : List String) (s : Search)
    → has child s.excluded ≡ false
    → offer (child ∷ kids) s ≡ offer kids (taken child s)
unfolding offer
offer_new child kids s new = ap (λ (b : Bool). offer kids (if b then s else taken child s)) new

length-add_new :
    (x : String) (xs : List String) → has x xs ≡ false → length (add x xs) ≡ suc (length xs)
unfolding add
length-add_new x xs new = rw new (omega (arith, length-append xs (x ∷ [])))

pub has-offer_excluded :
    (kids : List String) (s : Search) (id : String)
    → has id (offer kids s).excluded ≡ (has id kids || has id s.excluded)
unfolding offer
has-offer_excluded [] s id = rw has-nil
has-offer_excluded (child ∷ kids) s id = elim (Bool-cases (has child s.excluded)) [
  | inl old ↦
      rw (offer_old child kids s old)
        (ground (arith, has-offer_excluded kids s id, has-cons id child kids, eq_iff child id))
  | inr new ↦ rw (offer_new child kids s new) (
      ground (
        arith,
        has-offer_excluded kids (taken child s) id,
        has-add id child s.excluded,
        has-cons id child kids,
      ))
]

pub has-offer_stack :
    (kids : List String) (s : Search) (id : String)
    → has id (offer kids s).stack ≡ ((has id kids && not (has id s.excluded)) || has id s.stack)
unfolding offer
has-offer_stack [] s id = rw has-nil
has-offer_stack (child ∷ kids) s id = elim (Bool-cases (has child s.excluded)) [
  | inl old ↦
      rw (offer_old child kids s old)
        (ground (arith, has-offer_stack kids s id, has-cons id child kids, eq_iff child id))
  | inr new ↦ rw (offer_new child kids s new) (
      ground (
        arith,
        has-offer_stack kids (taken child s) id,
        has-add id child s.excluded,
        has-cons id child kids,
        has-cons id child s.stack,
        eq_iff child id,
      ))
]

pub length-offer :
    (kids : List String) (s : Search)
    → length (offer kids s).stack + length s.excluded
      ≡ length s.stack + length (offer kids s).excluded
unfolding offer
length-offer [] s = omega arith
length-offer (child ∷ kids) s = elim (Bool-cases (has child s.excluded)) [
  | inl old ↦ rw (offer_old child kids s old) (length-offer kids s)
  | inr new ↦
      rw (offer_new child kids s new)
        (omega (arith, length-offer kids (taken child s), length-add_new child s.excluded new))
]

pub offer-IsDistinct :
    (kids : List String) (s : Search) → IsDistinct s.excluded → IsDistinct (offer kids s).excluded
unfolding offer
offer-IsDistinct [] s d = d
offer-IsDistinct (child ∷ kids) s d = elim (Bool-cases (has child s.excluded)) [
  | inl old ↦ rw (offer_old child kids s old) (offer-IsDistinct kids s d)
  | inr new ↦
      rw (offer_new child kids s new)
        (offer-IsDistinct kids (taken child s) (add-IsDistinct child s.excluded d))
]
