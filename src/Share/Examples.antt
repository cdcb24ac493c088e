-- ===== src/Share/Examples.antt =====
-- A browser that can share, whose user turns it down.
use folium.Base.{◌≡◌, refl, true, none, some}
use folium.Share.{ShareDocumentInput, blob, aborted, cancelled, Browser, share_document}

abbrev phone : Browser
phone = record {
  fetch = λ url. blob "application/pdf";
  can_share = λ file. some true;
  share = λ title file. aborted;
  download = λ name. none;
}

abbrev bill : ShareDocumentInput
bill = record { id = "d"; title = none; original_filename = "bill.pdf"; mime_type = none }

turned_down : share_document phone bill ≡ cancelled
unfolding share_document
turned_down = refl
