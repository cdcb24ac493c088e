-- ===== src/Base/Numerals.antt =====
-- `Number.parseInt(s, 10)` for whole numbers, and what it reads of a number that was shown.
use Prim.Native.Nat.{ℕ, zero, suc, ◌+◌, ◌-◌, ◌*◌, ◌/◌, ◌%◌, ◌<◌}
use Prim.Native.Char.{code}
use Prim.Native.String.{String}
use mathlib.Core.Path.{◌≡◌, refl, ap, ◌∙◌}
use mathlib.Core.Bool.{Bool, true, false, ◌&&◌}
use mathlib.Core.Logic.{inl, inr}
use mathlib.Core.Option.{Option, none, some}
use native.Mathlib.Omega.{arith}
use text.Mathlib.Text.{◌==◌}
use text.Mathlib.TextEquality.{eq_iff}
use text.Mathlib.TextLemmas.{cons-append}
use folium.Base.Tests.{ltb, leb, eqb, if◌then◌else◌, Bool-cases, is_filled}
use folium.Base.Text.{digit, digits, show, is_space, trim_start, trim_end, trim, has_char, ◌&◌}

abbrev is_digit : ℕ → Bool
is_digit c = leb 48 c && leb c 57

-- The number of the digits in front of a text, after some digits that were read.
read_digits : ℕ → String → ℕ
read_digits acc String.[] = acc
read_digits acc (String.◌∷◌ c s) =
    let rest = read_digits (acc * 10 + (code c - 48)) s in if is_digit (code c) then rest else acc

-- `none` stands for NaN; the value of a text with a minus sign, which is 0 or less, is 0.
read_unsigned : String → Option ℕ
unfolding read_digits
read_unsigned String.[] = none
read_unsigned (String.◌∷◌ c s) =
    if is_digit (code c) then some (read_digits 0 (String.◌∷◌ c s)) else none

zeroed : Option ℕ → Option ℕ
zeroed none = none
zeroed (some n) = some 0

read_signed : String → Option ℕ
unfolding read_unsigned zeroed
read_signed String.[] = none
read_signed (String.◌∷◌ c s) =
    if eqb (code c) 43
    then read_unsigned s
    else if eqb (code c) 45
    then zeroed (read_unsigned s)
    else read_unsigned (String.◌∷◌ c s)

unfoldable pub parse_int : String → Option ℕ
unfolding trim_start read_signed
parse_int s = read_signed (trim_start s)

read_digit :
    (acc d : ℕ) (out : String)
    → d < 10
    → read_digits acc (String.◌∷◌ (digit d) out) ≡ read_digits (acc * 10 + d) out
unfolding read_digits
read_digit acc zero out h = refl
read_digit acc (suc zero) out h = refl
read_digit acc (suc (suc zero)) out h = refl
read_digit acc (suc (suc (suc zero))) out h = refl
read_digit acc (suc (suc (suc (suc zero)))) out h = refl
read_digit acc (suc (suc (suc (suc (suc zero))))) out h = refl
read_digit acc (suc (suc (suc (suc (suc (suc zero)))))) out h = refl
read_digit acc (suc (suc (suc (suc (suc (suc (suc zero))))))) out h = refl
read_digit acc (suc (suc (suc (suc (suc (suc (suc (suc zero)))))))) out h = refl
read_digit acc (suc (suc (suc (suc (suc (suc (suc (suc (suc zero))))))))) out h = refl
read_digit acc (suc (suc (suc (suc (suc (suc (suc (suc (suc (suc d)))))))))) out h = omega arith

-- The digits of a number are read back.
read_shown :
    (fuel n : ℕ) (out : String) → n < fuel → read_digits 0 (digits fuel n out) ≡ read_digits n out
unfolding digits
read_shown zero n out h = omega arith
read_shown (suc fuel) n out h = elim (Bool-cases (ltb n 10)) [
  | inl small ↦
      let whole : n % 10 ≡ n = ground arith in
      rw (small, whole)
        (read_digit 0 n out (ground arith) ∙ ap (λ i. read_digits i out) (omega arith))
  | inr large ↦
      let last : n % 10 < 10 = ground arith in
      let back : n / 10 * 10 + n % 10 ≡ n = omega arith in
      rw large (
        read_shown fuel (n / 10) (String.◌∷◌ (digit (n % 10)) out) (ground arith)
        ∙ read_digit (n / 10) (n % 10) out last
        ∙ ap (λ i. read_digits i out) back)
]

abbrev StartsWithDigit : String → Type 0
StartsWithDigit String.[] = ⊥
StartsWithDigit (String.◌∷◌ c s) = is_digit (code c) ≡ true

digit-StartsWithDigit : (d : ℕ) (out : String) → StartsWithDigit (String.◌∷◌ (digit d) out)
digit-StartsWithDigit zero out = refl
digit-StartsWithDigit (suc zero) out = refl
digit-StartsWithDigit (suc (suc zero)) out = refl
digit-StartsWithDigit (suc (suc (suc zero))) out = refl
digit-StartsWithDigit (suc (suc (suc (suc zero)))) out = refl
digit-StartsWithDigit (suc (suc (suc (suc (suc zero))))) out = refl
digit-StartsWithDigit (suc (suc (suc (suc (suc (suc zero)))))) out = refl
digit-StartsWithDigit (suc (suc (suc (suc (suc (suc (suc zero))))))) out = refl
digit-StartsWithDigit (suc (suc (suc (suc (suc (suc (suc (suc zero)))))))) out = refl
digit-StartsWithDigit (suc (suc (suc (suc (suc (suc (suc (suc (suc d))))))))) out = refl

digits-StartsWithDigit :
    (fuel n : ℕ) (out : String) → StartsWithDigit out → StartsWithDigit (digits fuel n out)
unfolding digits
digits-StartsWithDigit zero n out h = h
digits-StartsWithDigit (suc fuel) n out h = elim (Bool-cases (ltb n 10)) [
  | inl small ↦ rw small (digit-StartsWithDigit (n % 10) out)
  | inr large ↦ rw large (
      digits-StartsWithDigit fuel (n / 10) (String.◌∷◌ (digit (n % 10)) out)
        (digit-StartsWithDigit (n % 10) out))
]

show-StartsWithDigit : (n : ℕ) → StartsWithDigit (show n)
unfolding digits show
show-StartsWithDigit n = elim (Bool-cases (ltb n 10)) [
  | inl small ↦ rw small (digit-StartsWithDigit (n % 10) "")
  | inr large ↦ rw large (
      digits-StartsWithDigit n (n / 10) (String.◌∷◌ (digit (n % 10)) "")
        (digit-StartsWithDigit (n % 10) ""))
]

parse_int_plain : (s : String) → StartsWithDigit s → parse_int s ≡ some (read_digits 0 s)
unfolding parse_int read_signed read_unsigned trim_start is_space
parse_int_plain String.[] h = elim h [ ]
parse_int_plain (String.◌∷◌ c s) h = ground arith

-- A number that was shown is read back.
pub parse_int-show : (n : ℕ) → parse_int (show n) ≡ some n
unfolding show read_digits
parse_int-show n =
    parse_int_plain (show n) (show-StartsWithDigit n)
    ∙ ap some (read_shown (suc n) n "" (omega arith))

digit-has_char : (d : ℕ) (out : String) → has_char 45 (String.◌∷◌ (digit d) out) ≡ has_char 45 out
unfolding has_char
digit-has_char zero out = refl
digit-has_char (suc zero) out = refl
digit-has_char (suc (suc zero)) out = refl
digit-has_char (suc (suc (suc zero))) out = refl
digit-has_char (suc (suc (suc (suc zero)))) out = refl
digit-has_char (suc (suc (suc (suc (suc zero))))) out = refl
digit-has_char (suc (suc (suc (suc (suc (suc zero)))))) out = refl
digit-has_char (suc (suc (suc (suc (suc (suc (suc zero))))))) out = refl
digit-has_char (suc (suc (suc (suc (suc (suc (suc (suc zero)))))))) out = refl
digit-has_char (suc (suc (suc (suc (suc (suc (suc (suc (suc d))))))))) out = refl

digits-has_char : (fuel n : ℕ) (out : String) → has_char 45 (digits fuel n out) ≡ has_char 45 out
unfolding digits
digits-has_char zero n out = refl
digits-has_char (suc fuel) n out = elim (Bool-cases (ltb n 10)) [
  | inl small ↦ rw small (digit-has_char (n % 10) out)
  | inr large ↦ rw large (
      digits-has_char fuel (n / 10) (String.◌∷◌ (digit (n % 10)) out) ∙ digit-has_char (n % 10) out)
]

-- A number is shown without a minus sign.
pub show-has_char : (n : ℕ) → has_char 45 (show n) ≡ false
unfolding show has_char
show-has_char n = digits-has_char (suc n) n ""

filled_of_digit : (s : String) → StartsWithDigit s → is_filled s ≡ true
filled_of_digit s h = elim (Bool-cases (s == "")) [
  | inl e ↦
      let at_end : s ≡ "" = (eq_iff s "").0 e in
      let none_there : ⊥ = rw at_end at h in elim none_there [ ]
  | inr f ↦ rw f refl
]

pub show-is_filled : (n : ℕ) → is_filled (show n) ≡ true
show-is_filled n = filled_of_digit (show n) (show-StartsWithDigit n)

append-StartsWithDigit : (s rest : String) → StartsWithDigit s → StartsWithDigit (s & rest)
append-StartsWithDigit String.[] rest h = elim h [ ]
append-StartsWithDigit (String.◌∷◌ c s) rest h = rw (cons-append c s rest) h

digit_no_space : (c : ℕ) → is_digit c ≡ true → is_space c ≡ false
unfolding is_space
digit_no_space c h = ground arith

trim_filled : (s : String) → StartsWithDigit s → is_filled (trim s) ≡ true
unfolding trim trim_start trim_end
trim_filled String.[] h = elim h [ ]
trim_filled (String.◌∷◌ c s) h = elim (Bool-cases (trim_end s == "")) [
  | inl e ↦
      rw (e, digit_no_space (code c) h)
        (rw (digit_no_space (code c) h) (filled_of_digit (String.◌∷◌ c (trim_end s)) h))
  | inr f ↦ rw (f, digit_no_space (code c) h) (filled_of_digit (String.◌∷◌ c (trim_end s)) h)
]

-- The text of a number is not blank, alone or with what follows it.
pub trim-show : (n : ℕ) → is_filled (trim (show n)) ≡ true
trim-show n = trim_filled (show n) (show-StartsWithDigit n)

pub trim-show-append : (n : ℕ) (rest : String) → is_filled (trim (show n & rest)) ≡ true
trim-show-append n rest =
    trim_filled (show n & rest) (append-StartsWithDigit (show n) rest (show-StartsWithDigit n))
