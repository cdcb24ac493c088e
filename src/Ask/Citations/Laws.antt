-- ===== src/Ask/Citations/Laws.antt =====
-- What a text with markers is rendered as.
use Prim.Native.Char.{Char, code}
use text.Mathlib.TextLemmas.{nil-append, cons-append, append-nil, append_assoc}
use folium.Base.{
  ℕ, ◌≡◌, refl, sym, ap, ◌∙◌, String, Bool, true, false, not, ◌&&◌, Option, none, some, List, [],
  ◌∷◌, ◌++◌, eqb, is_filled, All, All-append, arith, Bool-cases, inl, inr,
}
use folium.Base.Text.{◌&◌}
use folium.Ask.Conversation.{Citation}
use folium.Ask.Citations.{
  Piece, plain, cited, Scan, one, number_of, is_digit, is_active, flush, pending, marker_of, marker,
  read_at, read_char, scan, render_text_with_citations,
}

-- A text without an opening bracket.
abbrev pub is_plain_text : String → Bool
is_plain_text String.[] = true
is_plain_text (String.◌∷◌ c s) = not (eqb (code c) b'[') && is_plain_text s

abbrev pub are_digits : String → Bool
are_digits String.[] = true
are_digits (String.◌∷◌ c s) = is_digit c && are_digits s

-- Texts without an opening bracket, each with the digits of the marker behind it.
abbrev pub IsMarked : String × String → Type 0
IsMarked (s, ds) = (is_plain_text s ≡ true) × (is_filled ds ≡ true) × (are_digits ds ≡ true)

-- The text that they are written as, with what stands behind the last marker.
abbrev pub written : List (String × String) → String → String
written [] end = end
written ((s, ds) ∷ more) end = s & String.◌∷◌ "[" (ds & String.◌∷◌ "]" (written more end))

-- What is shown for a marker: the citation under its number if there is one, and its text otherwise.
abbrev pub control : Option ℕ → String → Option Citation → Piece
control active_number ds none = plain ("[" & (ds & "]"))
control active_number ds (some c) =
    cited (record c { display_number = some (number_of ds) })
      (is_active active_number (number_of ds))

-- A citation under a number.
abbrev pub numbered : ℕ → Option Citation → Option Citation
numbered n none = none
numbered n (some c) = some (record c { display_number = some n })

module _ (get_citation : ℕ → Option Citation) (active_number : Option ℕ) where
  abbrev pub pieces : List (String × String) → String → List Piece
  pieces [] end = flush end
  pieces ((s, ds) ∷ more) end =
      flush s ++ control active_number ds (get_citation (number_of ds)) ∷ pieces more end

  control_lem :
      (ds : String) (o : Option Citation)
      → marker_of get_citation active_number o ds ≡ control active_number ds o
  control_lem ds none = refl
  control_lem ds (some c) = refl

  scan_plain :
      (s t before : String)
      → is_plain_text s ≡ true
      → scan get_citation active_number (s & t) (record { before = before; mark = none })
        ≡ scan get_citation active_number t (record { before = before & s; mark = none })
  unfolding scan read_char
  scan_plain String.[] t before h =
      ap (λ u. scan get_citation active_number u (record { before = before; mark = none }))
        (nil-append t)
      ∙ ap (λ u. scan get_citation active_number t (record { before = u; mark = none }))
          (sym (append-nil before))
  scan_plain (String.◌∷◌ c s) t before h =
      let other : eqb (code c) b'[' ≡ false = ground (arith, h) in
      let rest : is_plain_text s ≡ true = ground (arith, h) in
      ap (λ u. scan get_citation active_number u (record { before = before; mark = none }))
        (cons-append c s t)
      ∙ rw other (scan_plain s t (before & one c) rest)
      ∙ ap (λ u. scan get_citation active_number t (record { before = u; mark = none }))
          (append_assoc before (one c) s
            ∙ ap (λ u. before & u) (cons-append c "" s ∙ ap (λ u. String.◌∷◌ c u) (nil-append s)))

  flush_then :
      (s : String) (piece : Piece) (rest : List Piece)
      → (flush s ++ piece ∷ []) ++ rest ≡ flush s ++ piece ∷ rest
  flush_then s piece rest = elim (Bool-cases (is_filled s)) [
    | inl filled ↦ rw filled refl
    | inr blank ↦ rw blank refl
  ]

  scan_digits :
      (ds t before pre : String)
      → are_digits ds ≡ true
      → is_filled (pre & ds) ≡ true
      → scan get_citation active_number
          (ds & String.◌∷◌ "]" t)
          (record { before = before; mark = some pre })
        ≡ flush before
          ++ marker get_citation active_number (pre & ds)
            ∷ scan get_citation active_number t (record { before = ""; mark = none })
  unfolding scan read_char
  scan_digits String.[] t before pre h filled =
      let whole : is_filled pre ≡ true = ap is_filled (sym (append-nil pre)) ∙ filled in
      let rest = scan get_citation active_number t (record { before = ""; mark = none }) in
      ap (λ u. scan get_citation active_number u (record { before = before; mark = some pre }))
        (nil-append (String.◌∷◌ "]" t))
      ∙ rw whole (flush_then before (marker get_citation active_number pre) rest)
      ∙ ap (λ u. flush before ++ marker get_citation active_number u ∷ rest) (sym (append-nil pre))
  scan_digits (String.◌∷◌ c ds) t before pre h filled =
      let digit : is_digit c ≡ true = ground (arith, h) in
      let digits : are_digits ds ≡ true = ground (arith, h) in
      let joined : (pre & one c) & ds ≡ pre & String.◌∷◌ c ds =
        append_assoc pre (one c) ds
        ∙ ap (λ u. pre & u) (cons-append c "" ds ∙ ap (λ u. String.◌∷◌ c u) (nil-append ds)) in
      let rest = scan get_citation active_number t (record { before = ""; mark = none }) in
      ap (λ u. scan get_citation active_number u (record { before = before; mark = some pre }))
        (cons-append c ds (String.◌∷◌ "]" t))
      ∙ rw digit (scan_digits ds t before (pre & one c) digits (ap is_filled joined ∙ filled))
      ∙ ap (λ u. flush before ++ marker get_citation active_number u ∷ rest) joined

  scan_end :
      (s : String)
      → is_plain_text s ≡ true
      → scan get_citation active_number s (record { before = ""; mark = none }) ≡ flush s
  unfolding scan
  scan_end s h =
      ap (λ u. scan get_citation active_number u (record { before = ""; mark = none }))
        (sym (append-nil s))
      ∙ scan_plain s "" "" h
      ∙ ap flush (nil-append s)

  -- Where texts without an opening bracket stand between markers of a bracket, digits and a bracket, and
  -- the last text behind them, each text is
  -- shown as it is, if it is not empty, and each marker as the citation whose number it has, under that
  -- number and active exactly if it is the active one, or as its own text if no citation has the number.
  pub render-written :
      (parts : List (String × String)) (end : String)
      → All IsMarked parts
      → is_plain_text end ≡ true
      → render_text_with_citations get_citation active_number (written parts end) ≡ pieces parts end
  unfolding render_text_with_citations scan read_char
  render-written [] end h k = scan_end end k
  render-written ((s, ds) ∷ more) end h k =
      let behind = written more end in
      let shown = scan get_citation active_number behind (record { before = ""; mark = none }) in
      scan_plain s (String.◌∷◌ "[" (ds & String.◌∷◌ "]" behind)) "" h.0.0
      ∙ scan_digits ds behind ("" & s) "" h.0.2 (ap is_filled (nil-append ds) ∙ h.0.1)
      ∙ ap (λ u. flush u ++ marker get_citation active_number ("" & ds) ∷ shown) (nil-append s)
      ∙ ap (λ u. flush s ++ marker get_citation active_number u ∷ shown) (nil-append ds)
      ∙ ap (λ u. flush s ++ u ∷ shown) (control_lem ds (get_citation (number_of ds)))
      ∙ ap (λ u. flush s ++ control active_number ds (get_citation (number_of ds)) ∷ u)
          (render-written more end h.1 k)

  -- A control shows the citation of a number, under that number, and is active exactly if that number
  -- is.
  abbrev pub IsValidated : Piece → Type 0
  IsValidated (plain s) = Unit
  IsValidated (cited c active) =
      (n : ℕ) × (numbered n (get_citation n) ≡ some c) × (active ≡ is_active active_number n)

  marker-IsValidated : (ds : String) → IsValidated (marker get_citation active_number ds)
  marker-IsValidated ds = validated (get_citation (number_of ds)) refl
    where
      validated :
          (o : Option Citation)
          → get_citation (number_of ds) ≡ o
          → IsValidated (marker_of get_citation active_number o ds)
      validated none e = tt
      validated (some c) e = (number_of ds, rw e refl, refl)

  flush-IsValidated : (s : String) → All IsValidated (flush s)
  flush-IsValidated s = elim (Bool-cases (is_filled s)) [ inl e ↦ rw e (tt, tt) | inr e ↦ rw e tt ]

  read_char-IsValidated :
      (c : Char) (st : Scan) → All IsValidated (read_char get_citation active_number c st).0
  unfolding read_char
  read_char-IsValidated c st = read_at_valid st.mark
    where
      read_at_valid :
          (mark : Option String)
          → All IsValidated (read_at get_citation active_number mark c st.before).0
      read_at_valid none = ground arith
      read_at_valid (some ds) = ground (
        arith,
        All-append IsValidated (flush st.before) (marker get_citation active_number ds ∷ [])
            (flush-IsValidated st.before) (marker-IsValidated ds, tt),
      )

  scan-IsValidated :
      (s : String) (st : Scan) → All IsValidated (scan get_citation active_number s st)
  unfolding scan
  scan-IsValidated String.[] st = flush-IsValidated (pending st)
  scan-IsValidated (String.◌∷◌ c s) st =
      All-append IsValidated (read_char get_citation active_number c st).0
        (scan get_citation active_number s (read_char get_citation active_number c st).1)
        (read_char-IsValidated c st)
        (scan-IsValidated s (read_char get_citation active_number c st).1)

  -- A control is shown only for a marker whose number a citation of the answer has, and it shows
  -- that citation, under that number, active exactly if that number is.
  pub render-IsValidated :
      (text : String) → All IsValidated (render_text_with_citations get_citation active_number text)
  unfolding render_text_with_citations
  render-IsValidated text = scan-IsValidated text (record { before = ""; mark = none })
