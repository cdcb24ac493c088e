-- ===== src/Ask/Citations.antt =====
-- The citations in an answer: `toCitation`, `renderTextWithCitations` and the map of
-- `MarkdownResponse` in frontend/src/components/ask/MarkdownResponse.tsx.
-- The matches of the pattern are read character by character: a marker is a bracket, digits and a
-- bracket, and neither a bracket nor a letter can stand within one.
pub mod Laws
mod Examples
use Prim.Native.Char.{Char, code}
use folium.Base.{
  ℕ, ◌≡◌, refl, sym, ap, ◌∙◌, String, Bool, true, false, not, ◌&&◌, ◌||◌, Option, none, some, List,
  [], ◌∷◌, ◌++◌, leb, eqb, if◌then◌else◌, get_or, is_filled, is_some, All, All-append, arith,
  Bool-cases, inl, inr, ◌==◌, eq_iff, eqb_iff,
}
use folium.Base.Text.{◌&◌}
use folium.Base.Numerals.{parse_int}
use folium.Ask.Conversation.{Citation}

-- `toCitation`
abbrev pub to_citation : Citation → Citation
to_citation c = record c { title = some (get_or c.title "Source") }

-- `byNumber.get(n)`, where the last citation with a number counts.
pub by_number : List Citation → ℕ → Option Citation
by_number [] n = none
by_number (c ∷ citations) n =
    let rest = by_number citations n in
    if is_some rest then rest else elim c.display_number [
      | none ↦ none
      | some m ↦ if eqb m n then some (to_citation c) else none
    ]

-- A part of the rendered text.
pub data Piece : Type 0 where
  plain : String → Piece
  cited : (citation : Citation) → (active : Bool) → Piece

-- The text behind the last marker, and the digits behind a bracket in it that may open one.
pub record Scan : Type 0 where
  pub before : String
  pub mark : Option String

abbrev pending_of : Option String → String → String
pending_of none before = before
pending_of (some ds) before = before & ("[" & ds)

abbrev pub pending : Scan → String
pending st = pending_of st.mark st.before

abbrev pub one : Char → String
one c = String.◌∷◌ c ""

-- `Number(digits)`
abbrev pub number_of : String → ℕ
number_of digits = get_or (parse_int digits) 0

abbrev pub is_digit : Char → Bool
is_digit c = leb 48 (code c) && leb (code c) 57

abbrev pub is_active : Option ℕ → ℕ → Bool
is_active none n = false
is_active (some m) n = eqb m n

abbrev pub flush : String → List Piece
flush s = if is_filled s then plain s ∷ [] else []

module _ (get_citation : ℕ → Option Citation) (active_number : Option ℕ) where
  abbrev pub marker_of : Option Citation → String → Piece
  marker_of none ds = plain ("[" & (ds & "]"))
  marker_of (some c) ds =
      cited (record c { display_number = some (number_of ds) })
        (is_active active_number (number_of ds))

  -- What is pushed for a marker.
  abbrev pub marker : String → Piece
  marker ds = marker_of (get_citation (number_of ds)) ds

  abbrev pub outside : Char → String → List Piece × Scan
  outside c before =
      if eqb (code c) b'['
      then ([], record { before = before; mark = some "" })
      else ([], record { before = before & one c; mark = none })

  abbrev pub inside : Char → String → String → List Piece × Scan
  inside c before ds =
      if is_digit c
      then ([], record { before = before; mark = some (ds & one c) })
      else if eqb (code c) b']' && is_filled ds
      then (flush before ++ marker ds ∷ [], record { before = ""; mark = none })
      else if eqb (code c) b'['
      then ([], record { before = before & ("[" & ds); mark = some "" })
      else ([], record { before = (before & ("[" & ds)) & one c; mark = none })

  abbrev pub read_at : Option String → Char → String → List Piece × Scan
  read_at none c before = outside c before
  read_at (some ds) c before = inside c before ds

  unfoldable pub read_char : Char → Scan → List Piece × Scan
  unfolding parse_int
  read_char c st = read_at st.mark c st.before

  unfoldable pub scan : String → Scan → List Piece
  scan String.[] st = flush (pending st)
  scan (String.◌∷◌ c s) st = let next = read_char c st in let rest = scan s next.1 in next.0 ++ rest

  unfoldable pub render_text_with_citations : String → List Piece
  render_text_with_citations text = scan text (record { before = ""; mark = none })
