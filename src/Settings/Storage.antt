-- ===== src/Settings/Storage.antt =====
-- The amounts of storage of frontend/src/lib/utils.ts, in exact arithmetic, and the editor
-- `StorageQuotaEditor` of frontend/src/components/settings/UsersSettings.tsx.
pub mod Laws
mod Examples
use folium.Base.{
  ℕ, suc, ◌+◌, ◌*◌, ◌/◌, ◌%◌, String, Bool, true, false, not, ◌&&◌, Option, none, some,
  if◌then◌else◌, leb, eqb, is_filled,
}
use folium.Base.Text.{◌&◌, show, trim}

pub data StorageUnit : Type 0 where
  mb gb tb : StorageUnit

-- `UNIT_BYTES`
unfoldable pub unit_bytes : StorageUnit → ℕ
unit_bytes mb = 0x100000
unit_bytes gb = 0x40000000
unit_bytes tb = 0x10000000000

-- A number `numerator / suc below` that is not negative, in bytes: `Math.round` rounds half upwards.
unfoldable pub bytes_from_storage_amount : (numerator below : ℕ) → StorageUnit → ℕ
unfolding unit_bytes
bytes_from_storage_amount numerator below unit =
    (2 * (numerator * unit_bytes unit) + suc below) / (2 * suc below)

-- An amount in hundredths: `Math.round(x * 100) / 100`, and whole numbers.
pub record StorageAmount : Type 0 where
  pub hundredths : ℕ
  pub unit : StorageUnit

abbrev pub rounded : ℕ → StorageUnit → ℕ
rounded bytes mb = (200 * bytes + 0x100000) / 0x200000
rounded bytes gb = (200 * bytes + 0x40000000) / 0x80000000
rounded bytes tb = (200 * bytes + 0x10000000000) / 0x20000000000

unfoldable pub storage_amount_from_bytes : ℕ → StorageAmount
storage_amount_from_bytes bytes =
    if leb 0x10000000000 bytes && eqb (bytes % 0x10000000000) 0
    then record { hundredths = 100 * (bytes / 0x10000000000); unit = tb }
    else if leb 0x40000000 bytes && eqb (bytes % 0x40000000) 0
    then record { hundredths = 100 * (bytes / 0x40000000); unit = gb }
    else if leb 0x100000 bytes && eqb (bytes % 0x100000) 0
    then record { hundredths = rounded bytes mb; unit = mb }
    else if leb 0x10000000000 bytes
    then record { hundredths = rounded bytes tb; unit = tb }
    else if leb 0x40000000 bytes
    then record { hundredths = rounded bytes gb; unit = gb }
    else record { hundredths = rounded bytes mb; unit = mb }

-- `String(amount)`
unfoldable pub text_of : ℕ → String
text_of hundredths =
    if eqb (hundredths % 100) 0
    then show (hundredths / 100)
    else if eqb (hundredths % 10) 0
    then show (hundredths / 100) & ("." & show (hundredths % 100 / 10))
    else if leb 10 (hundredths % 100)
    then show (hundredths / 100) & ("." & show (hundredths % 100))
    else show (hundredths / 100) & (".0" & show (hundredths % 100))

-- What `Number` makes of a text: a fraction in lowest terms, its denominator `suc below`.
pub data Reading : Type 0 where
  nan infinite negative : Reading
  fraction : (numerator below : ℕ) → Reading

pub record Editor : Type 0 where
  pub is_open : Bool
  pub amount : String
  pub unit : StorageUnit

abbrev pub initial : Option ℕ → StorageAmount
initial none = record { hundredths = 100; unit = gb }
initial (some value) = storage_amount_from_bytes value

-- `useState` and the button that opens the editor.
unfoldable pub opened : Option ℕ → Editor
opened value = record {
  is_open = true;
  amount = text_of (initial value).hundredths;
  unit = (initial value).unit;
}

-- The call of `onSave`, if there is one: `none` clears the quota.
pub data Saved : Type 0 where
  kept : Saved
  on_save : Option ℕ → Saved

-- Neither infinite nor `n <= 0`
abbrev pub is_positive : Reading → Bool
is_positive nan = false
is_positive infinite = false
is_positive negative = false
is_positive (fraction n below) = not (eqb n 0)

abbrev bytes_of : Reading → StorageUnit → ℕ
bytes_of (fraction n below) unit = bytes_from_storage_amount n below unit
bytes_of r unit = 0

module _ (number : String → Reading) where
  unfoldable pub save : Editor → Editor × Saved
  save e =
      if not (is_filled (trim e.amount))
      then (record e { is_open = false }, on_save none)
      else if not (is_positive (number e.amount))
      then (e, kept)
      else (record e { is_open = false }, on_save (some (bytes_of (number e.amount) e.unit)))
