-- ===== src/Percent.antt =====
-- `Math.round((part / whole) * 100)` in double precision, as the progress displays compute it. The
-- operation is a parameter: division, multiplication and rounding of doubles are monotone, and
-- exact where `part` is 0 or `whole`.
use folium.Base.{ℕ, ◌+◌, ◌*◌, ◌/◌, ◌≤◌, ◌<◌, ◌≡◌, arith}

pub record Percent : Type 0 where
  pub percent : ℕ → ℕ → ℕ
  pub percent_none : (whole : ℕ) → 0 < whole → percent 0 whole ≡ 0
  pub percent_full : (whole : ℕ) → 0 < whole → percent whole whole ≡ 100
  pub percent_mono :
      (part more whole : ℕ) → 0 < whole → part ≤ more → percent part whole ≤ percent more whole

-- The exact rounding, half upwards, meets the laws.
abbrev exact_percent : ℕ → ℕ → ℕ
exact_percent part whole = (200 * part + whole) / (2 * whole)

pub exact_percent_none : (whole : ℕ) → 0 < whole → exact_percent 0 whole ≡ 0
exact_percent_none whole h = grind arith

pub exact_percent_full : (whole : ℕ) → 0 < whole → exact_percent whole whole ≡ 100
exact_percent_full whole h = grind arith

pub exact_percent_mono :
    (part more whole : ℕ)
    → 0 < whole
    → part ≤ more
    → exact_percent part whole ≤ exact_percent more whole
exact_percent_mono part more whole h k = grind arith

abbrev pub exact : Percent
exact = record {
  percent = exact_percent;
  percent_none = exact_percent_none;
  percent_full = exact_percent_full;
  percent_mono = exact_percent_mono;
}
