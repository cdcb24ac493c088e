-- ===== src/Settings/Tags/Laws.antt =====
-- What the tags' dialog never sends, and what the list of tags shows.
use folium.Base.{
  ◌≡◌, refl, ◌∙◌, String, Bool, true, false, not, ◌&&◌, ◌==◌, eq_iff, Option, none, some, List, [],
  ◌∷◌, is_filled, filter, map, any, length, All, All-append, arith, Bool-cases, inl, inr,
}
use folium.Base.Sorting.{count-sort}
use folium.Settings.Tags.{
  Tag, TagDialog, new_tag, edit, merge, delete, delete_unused, is_disabled, remove_tag, Page,
  mounted, Request, merge_tags, matches, comes_first, filtered_tags, merge_targets, is_unused,
  open_tag_dialog, wanted, send_each, submit, Event, target_chosen, dialog_opened, cancelled,
  choose_target, submitted, react, run,
}

-- A tag is merged into another one that was chosen.
abbrev pub IsSound : Request → Type 0
IsSound (merge_tags source target) = ((target == source) ≡ false) × (is_filled target ≡ true)
IsSound r = Unit

-- In the dialog that merges a tag, the target is not that tag.
abbrev pub IsAimed : Option TagDialog → String → Type 0
IsAimed (some (merge tag)) target = is_filled target ≡ true → (target == tag.id) ≡ false
IsAimed dialog target = Unit

not_offered :
    (source id : String) (offered : List Tag)
    → any (λ (t : Tag). t.id == id) (filter (λ (t : Tag). not (t.id == source)) offered) ≡ true
    → (id == source) ≡ false
not_offered source id [] h = ground arith
not_offered source id (t ∷ offered) h =
    ground
      (arith, not_offered source id offered, eq_iff t.id id, eq_iff t.id source, eq_iff id source)

removals-IsSound : (tags : List Tag) → All IsSound (map (λ (t : Tag). remove_tag t.id) tags)
removals-IsSound [] = tt
removals-IsSound (t ∷ tags) = (tt, removals-IsSound tags)

wanted-IsSound :
    (tags : List Tag) (dialog : TagDialog) (p : Page)
    → IsAimed (some dialog) p.merge_target_id
    → All IsSound (wanted tags dialog p)
unfolding wanted
wanted-IsSound tags delete_unused p h = removals-IsSound (filter is_unused tags)
wanted-IsSound tags (merge tag) p h = elim (Bool-cases (is_filled p.merge_target_id)) [
  | inl filled ↦ rw filled ((h filled, filled), tt)
  | inr blank ↦ rw blank tt
]
wanted-IsSound tags new_tag p h = (tt, tt)
wanted-IsSound tags (edit tag) p h = (tt, tt)
wanted-IsSound tags (delete tag) p h = (tt, tt)

send_each-All :
    (P : Request → Type 0) (post : Request → Bool) (rs : List Request)
    → All P rs
    → All P (send_each post rs).0
unfolding send_each
send_each-All P post [] h = tt
send_each-All P post (r ∷ rs) h = elim (Bool-cases (post r)) [
  | inl fine ↦ rw fine (h.0, send_each-All P post rs h.1)
  | inr refused ↦ rw refused (h.0, tt)
]

submit-IsSound :
    (post : Request → Bool) (tags : List Tag) (dialog : Option TagDialog) (p : Page)
    → IsAimed dialog p.merge_target_id
    → IsAimed p.tag_dialog p.merge_target_id
    → IsAimed (submit post tags dialog p).0.tag_dialog (submit post tags dialog p).0.merge_target_id
      × All IsSound (submit post tags dialog p).1
unfolding submit
submit-IsSound post tags none p h k = (k, tt)
submit-IsSound post tags (some dialog) p h k =
    let rs = wanted tags dialog p in
    let fine = send_each-All IsSound post rs (wanted-IsSound tags dialog p h) in
    elim (Bool-cases (is_disabled dialog p)) [
      | inl off ↦ rw off (k, tt)
      | inr on ↦ elim (Bool-cases (send_each post rs).1) [
        | inl ended ↦ rw (on, ended) (tt, fine)
        | inr stopped ↦ rw (on, stopped) (k, fine)
      ]
    ]

module _ (lower : String → String) (at_most : String → String → Bool) (preset : String)
    (post : Request → Bool) where
  choose-IsAimed :
      (tags : List Tag) (id : String) (q : Page) (dialog : Option TagDialog) (p : Page)
      → p.tag_dialog ≡ dialog
      → IsAimed dialog p.merge_target_id
      → IsAimed dialog
          (choose_target
            (λ tag. merge_targets lower at_most tags tag q)
            id
            dialog
            p).merge_target_id
        × ((choose_target (λ tag. merge_targets lower at_most tags tag q) id dialog p).tag_dialog
            ≡ dialog)
  unfolding choose_target merge_targets
  choose-IsAimed tags id q (some (merge tag)) p e h =
      let offered = filtered_tags lower at_most tags q in
      let others = filter (λ (t : Tag). not (t.id == tag.id)) offered in
      elim (Bool-cases (any (λ (t : Tag). t.id == id) others)) [
        | inl there ↦ rw there (λ filled. not_offered tag.id id offered there, e)
        | inr absent ↦ rw absent (h, e)
      ]
  choose-IsAimed tags id q none p e h = (tt, e)
  choose-IsAimed tags id q (some new_tag) p e h = (tt, e)
  choose-IsAimed tags id q (some (edit tag)) p e h = (tt, e)
  choose-IsAimed tags id q (some (delete tag)) p e h = (tt, e)
  choose-IsAimed tags id q (some delete_unused) p e h = (tt, e)

  opened-IsAimed :
      (dialog : TagDialog) (p : Page)
      → IsAimed
          (open_tag_dialog preset dialog p).tag_dialog
          (open_tag_dialog preset dialog p).merge_target_id
  unfolding open_tag_dialog
  opened-IsAimed (merge tag) p = λ filled. ground (arith, filled)
  opened-IsAimed new_tag p = tt
  opened-IsAimed (edit tag) p = tt
  opened-IsAimed (delete tag) p = tt
  opened-IsAimed delete_unused p = tt

  react-IsSound :
      (tags : List Tag) (e : Event) (p : Page)
      → IsAimed p.tag_dialog p.merge_target_id
      → IsAimed
          ((react lower at_most preset post tags e p).0).tag_dialog
          ((react lower at_most preset post tags e p).0).merge_target_id
        × All IsSound (react lower at_most preset post tags e p).1
  unfolding react
  react-IsSound tags (target_chosen id) p h =
      let done = choose-IsAimed tags id p p.tag_dialog p refl h in (rw done.1 done.0, tt)
  react-IsSound tags (dialog_opened dialog) p h = (opened-IsAimed dialog p, tt)
  react-IsSound tags submitted p h = submit-IsSound post tags p.tag_dialog p h h
  react-IsSound tags cancelled p h = (tt, tt)
  react-IsSound tags e p h = (h, tt)

  run_from-IsSound :
      (es : List (List Tag × Event)) (p : Page)
      → IsAimed p.tag_dialog p.merge_target_id
      → All IsSound (run lower at_most preset post es p).1
  unfolding run
  run_from-IsSound [] p h = tt
  run_from-IsSound ((tags, e) ∷ es) p h =
      let step = react lower at_most preset post tags e p in
      let now = react-IsSound tags e p h in
      All-append IsSound step.1 (run lower at_most preset post es step.0).1 now.1
        (run_from-IsSound es step.0 now.0)

  -- Whatever happens on the page, and however its tags change, no tag is merged into itself or into
  -- none.
  pub run-IsSound :
      (es : List (List Tag × Event))
      → All IsSound (run lower at_most preset post es (mounted preset)).1
  run-IsSound es = run_from-IsSound es (mounted preset) tt

  filter_both :
      (p q : Tag → Bool) (tags : List Tag)
      → length (filter p (filter q tags)) ≡ length (filter (λ t. q t && p t) tags)
  filter_both p q [] = refl
  filter_both p q (t ∷ tags) = ground (arith, filter_both p q tags)

  -- The list shows the tags whose name has what is searched, and no others, each as often as it is
  -- there.
  pub filtered_tags_lem :
      (tags : List Tag) (p : Page) (test : Tag → Bool)
      → length (filter test (filtered_tags lower at_most tags p))
        ≡ length (filter (λ t. matches lower at_most p.tag_search t && test t) tags)
  unfolding filtered_tags
  filtered_tags_lem tags p test =
      count-sort (comes_first lower at_most p.tag_sort) test
        (filter (matches lower at_most p.tag_search) tags)
      ∙ filter_both test (matches lower at_most p.tag_search) tags
