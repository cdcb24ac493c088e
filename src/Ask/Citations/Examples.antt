-- ===== src/Ask/Citations/Examples.antt =====
-- An answer with one citation, and a marker that has none.
use folium.Base.{◌≡◌, refl, true, String, none, some, List, [], ◌∷◌, All}
use folium.Ask.Conversation.{Citation}
use folium.Ask.Citations.{plain, cited, by_number, render_text_with_citations}
use folium.Base.Numerals.{parse_int}
use folium.Ask.Citations.Laws.{IsMarked, pieces, render-written}

abbrev bill : Citation
bill = record {
  display_number = some 1;
  chunk_id = "k";
  document_id = "d";
  page_number = some 2;
  title = some "Bill";
  quote = none;
}

abbrev marked : List (String × String)
marked = ("Due May 4 ", "01") ∷ (", paid ", "7") ∷ []

marked-IsMarked : All IsMarked marked
marked-IsMarked = ((refl, refl, refl), ((refl, refl, refl), tt))

render-written_example :
    render_text_with_citations (by_number (bill ∷ [])) (some 1) "Due May 4 [01], paid [7]."
    ≡ pieces (by_number (bill ∷ [])) (some 1) marked "."
render-written_example =
    render-written (by_number (bill ∷ [])) (some 1) marked "." marked-IsMarked refl

shown :
    pieces (by_number (bill ∷ [])) (some 1) marked "."
    ≡ plain "Due May 4 " ∷ cited bill true ∷ plain ", paid " ∷ plain "[7]" ∷ plain "." ∷ []
unfolding by_number parse_int
shown = refl
