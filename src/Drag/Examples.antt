-- ===== src/Drag/Examples.antt =====
-- Two documents that are dragged, with a text form of lists: each text stands behind a 0, each of
-- its characters behind a 1.
use text.Mathlib.TextLemmas.{cons≢nil}
use Prim.Native.Char.{code}
use folium.Base.{
  ◌≡◌, refl, ap, ◌∙◌, String, true, none, some, List, [], ◌∷◌, ◌==◌, eqb, if◌then◌else◌, is_filled,
  map, filter, Bool-cases, inl, inr, eq_iff,
}
use folium.Drag.{
  Parsed, array, throws, Json, Drag, set_document_drag_data, clear_document_drag_data,
  get_document_drag_ids, get_document_drag_ids_lem,
}

unfoldable spelled : String → String → String
spelled String.[] rest = rest
spelled (String.◌∷◌ c s) rest = String.◌∷◌ "1" (String.◌∷◌ c (spelled s rest))

unfoldable listed : List String → String
listed [] = ""
listed (s ∷ ids) = String.◌∷◌ "0" (spelled s (listed ids))

-- The text in front, and the list behind it.
unfoldable read : String → String × List String
read String.[] = ("", [])
read (String.◌∷◌ m String.[]) = ("", "" ∷ [])
read (String.◌∷◌ m (String.◌∷◌ c s)) =
    let whole = read (String.◌∷◌ c s) in
    let rest = read s in
    if eqb (code m) b'1' then (String.◌∷◌ c rest.0, rest.1) else ("", whole.0 ∷ whole.1)

read-spelled :
    (s rest : String) (ids : List String) → read rest ≡ ("", ids) → read (spelled s rest) ≡ (s, ids)
unfolding read spelled
read-spelled String.[] rest ids h = h
read-spelled (String.◌∷◌ c s) rest ids h =
    ap (λ (r : String × List String). (String.◌∷◌ c r.0, r.1)) (read-spelled s rest ids h)

after_zero : (t : String) → read (String.◌∷◌ "0" t) ≡ ("", (read t).0 ∷ (read t).1)
unfolding read
after_zero String.[] = refl
after_zero (String.◌∷◌ c s) = refl

read-listed : (ids : List String) → read (listed ids) ≡ ("", ids)
unfolding read listed
read-listed [] = refl
read-listed (s ∷ ids) =
    after_zero (spelled s (listed ids))
    ∙ ap (λ (r : String × List String). ("", r.0 ∷ r.1))
        (read-spelled s (listed ids) ids (read-listed ids))

unfoldable parse_listed : String → Parsed
parse_listed String.[] = throws
parse_listed (String.◌∷◌ c s) = array (map some (read s).1)

written_filled : (ids : List String) → is_filled (String.◌∷◌ "[" (listed ids)) ≡ true
written_filled ids = elim (Bool-cases (String.◌∷◌ "[" (listed ids) == "")) [
  | inl e ↦ absurd (cons≢nil ((eq_iff (String.◌∷◌ "[" (listed ids)) "").0 e))
  | inr e ↦ rw e refl
]

parsed : (ids : List String) → parse_listed (String.◌∷◌ "[" (listed ids)) ≡ array (map some ids)
unfolding parse_listed
parsed ids = ap (λ (r : String × List String). array (map some r.1)) (read-listed ids)

abbrev listing : Json
listing = record {
  stringify = λ ids. String.◌∷◌ "[" (listed ids);
  parse = parse_listed;
  parse-stringify = parsed;
  stringify_filled = written_filled;
}

abbrev idle : Drag
idle = record { active_ids = none; transfer = []; effect_allowed = "all" }

get_document_drag_ids_lem_example :
    (get_document_drag_ids listing
        (set_document_drag_data listing ("a" ∷ "" ∷ []) idle).active_ids
        (some (set_document_drag_data listing ("a" ∷ "" ∷ []) idle).transfer)
      ≡ "a" ∷ "" ∷ [])
    × (get_document_drag_ids listing
          (clear_document_drag_data
            (set_document_drag_data listing ("a" ∷ "" ∷ []) idle)).active_ids
          (some
            (clear_document_drag_data
              (set_document_drag_data listing ("a" ∷ "" ∷ []) idle)).transfer)
        ≡ filter is_filled ("a" ∷ "" ∷ []))
get_document_drag_ids_lem_example = get_document_drag_ids_lem listing ("a" ∷ "" ∷ []) idle
