-- ===== src/Settings/Storage/Examples.antt =====
-- A quota of 1.5 GB, and one that is not made of whole megabytes.
use folium.Base.{ℕ, ◌≡◌, refl, false, Option, some, none, String, ◌+◌, ◌*◌, ◌≤◌, arith}
use folium.Base.Text.{show, digits}
use folium.Base.Numerals.{parse_int, parse_int-show}
use folium.Settings.Storage.{
  Reading, nan, fraction, storage_amount_from_bytes, bytes_from_storage_amount, unit_bytes, opened,
  on_save, save, text_of,
}
use folium.Settings.Storage.Laws.{shown_nearly, save-opened}

-- `Number`, on texts of whole numbers
abbrev number_of : Option ℕ → Reading
number_of none = nan
number_of (some k) = fraction k 0

abbrev number : String → Reading
number s = number_of (parse_int s)

number-show : (k : ℕ) → number (show k) ≡ fraction k 0
number-show k = rw (parse_int-show k) refl

save-opened_example :
    save number (opened (some 1610612736))
    ≡ (record (opened (some 1610612736)) { is_open = false }, on_save (some 1610612736))
save-opened_example = save-opened number 1610612736 number-show (omega arith)

shown_nearly_example :
    (200 * 1000000000
      ≤ 200
          * bytes_from_storage_amount
              (storage_amount_from_bytes 1000000000).hundredths
              99
              (storage_amount_from_bytes 1000000000).unit
        + (unit_bytes (storage_amount_from_bytes 1000000000).unit + 200))
    × (200
          * bytes_from_storage_amount
              (storage_amount_from_bytes 1000000000).hundredths
              99
              (storage_amount_from_bytes 1000000000).unit
        ≤ 200 * 1000000000 + (unit_bytes (storage_amount_from_bytes 1000000000).unit + 200))
shown_nearly_example = shown_nearly 1000000000

tests :
    ((opened (some 1610612736)).amount ≡ "1536")
    × ((opened (some 1000000000)).amount ≡ "953.67")
    × ((opened none).amount ≡ "1")
unfolding opened storage_amount_from_bytes text_of show digits
tests = (refl, refl, refl)
