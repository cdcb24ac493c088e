-- ===== src/Settings/Storage/Laws.antt =====
-- Amounts of storage come back as the bytes they stand for, and the editor saves what it showed.
use folium.Base.{
  zero, suc, eqb, if◌then◌else◌, ℕ, ◌+◌, ◌*◌, ◌/◌, ◌%◌, ◌≤◌, ◌<◌, ◌≡◌, refl, true, false, some,
  arith, String, is_filled, ◌∙◌, ap,
}
use folium.Base.Text.{◌&◌, show, trim}
use folium.Base.Numerals.{trim-show, trim-show-append}
use folium.Settings.Storage.{
  unit_bytes, bytes_from_storage_amount, StorageAmount, storage_amount_from_bytes, text_of, Reading,
  fraction, Editor, opened, on_save, kept, save,
}

abbrev bytes_of_amount : StorageAmount → ℕ
bytes_of_amount a = bytes_from_storage_amount a.hundredths 99 a.unit

-- A whole number of megabytes is shown as an amount that stands for the same bytes.
pub whole_megabytes :
    (bytes : ℕ) → bytes % 0x100000 ≡ 0 → bytes_of_amount (storage_amount_from_bytes bytes) ≡ bytes
unfolding bytes_from_storage_amount storage_amount_from_bytes unit_bytes
whole_megabytes bytes whole = ground arith

-- Any other number of bytes is shown as an amount that stands for bytes no further away than half a
-- hundredth of its unit, and one byte.
pub shown_nearly :
    (bytes : ℕ)
    → (200 * bytes
        ≤ 200 * bytes_of_amount (storage_amount_from_bytes bytes)
          + (unit_bytes (storage_amount_from_bytes bytes).unit + 200))
      × (200 * bytes_of_amount (storage_amount_from_bytes bytes)
          ≤ 200 * bytes + (unit_bytes (storage_amount_from_bytes bytes).unit + 200))
unfolding bytes_from_storage_amount storage_amount_from_bytes unit_bytes
shown_nearly bytes = ground arith

text_of_filled : (h : ℕ) → is_filled (trim (text_of h)) ≡ true
unfolding text_of
text_of_filled h = ground (
  arith,
  trim-show (h / 100),
  trim-show-append (h / 100) ("." & show (h % 100 / 10)),
  trim-show-append (h / 100) ("." & show (h % 100)),
  trim-show-append (h / 100) (".0" & show (h % 100)),
)

-- The whole number that stands for a quota of whole megabytes.
abbrev whole_of : ℕ → ℕ
whole_of value = (storage_amount_from_bytes value).hundredths / 100

whole_amount :
    (value : ℕ)
    → 0 < value
    → value % 0x100000 ≡ 0
    → (text_of (storage_amount_from_bytes value).hundredths ≡ show (whole_of value))
      × (0 < whole_of value)
      × (bytes_from_storage_amount (whole_of value) 0 (storage_amount_from_bytes value).unit
          ≡ value)
unfolding bytes_from_storage_amount storage_amount_from_bytes unit_bytes text_of
whole_amount value positive whole = ground arith

save_whole :
    (number : String → Reading) (e : Editor) (n : ℕ)
    → is_filled (trim e.amount) ≡ true
    → number e.amount ≡ fraction n 0
    → 0 < n
    → save number e
      ≡ (record e { is_open = false }, on_save (some (bytes_from_storage_amount n 0 e.unit)))
unfolding save
save_whole number e n filled reads positive = ground arith

save_zero :
    (number : String → Reading) (e : Editor)
    → is_filled (trim e.amount) ≡ true
    → number e.amount ≡ fraction 0 0
    → save number e ≡ (e, kept)
unfolding save
save_zero number e filled reads = ground arith

zero_amount : text_of (storage_amount_from_bytes 0).hundredths ≡ show 0
unfolding storage_amount_from_bytes unit_bytes text_of
zero_amount = refl

-- Where `Number` reads back the texts of whole numbers, an editor that is opened on a quota of whole
-- megabytes, and saved, closes and gives the same quota, but for a quota of 0, on which it stays open and
-- gives nothing.
pub save-opened :
    (number : String → Reading) (value : ℕ)
    → ((k : ℕ) → number (show k) ≡ fraction k 0)
    → value % 0x100000 ≡ 0
    → save number (opened (some value)) ≡ (
        if eqb value 0
        then (opened (some value), kept)
        else (record (opened (some value)) { is_open = false }, on_save (some value)))
unfolding opened
save-opened number zero reads whole =
    save_zero number (opened (some 0)) (text_of_filled (storage_amount_from_bytes 0).hundredths)
      (ap number zero_amount ∙ reads 0)
save-opened number (suc n) reads whole =
    let value = suc n in
    let shown = whole_amount value (omega arith) whole in
    let positive : eqb value 0 ≡ false = ground arith in
    save_whole number (opened (some value)) (whole_of value)
      (text_of_filled (storage_amount_from_bytes value).hundredths)
      (ap number shown.0 ∙ reads (whole_of value)) shown.1
    ∙ rw (shown.2, positive) refl
