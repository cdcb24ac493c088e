-- ===== src/Library/Page/Examples.antt =====
-- A document is open from the second page of the list, with a folder and a tag chosen.
use folium.Base.{◌≡◌, refl, some, [], ◌∷◌}
use folium.Query.{Params}
use folium.Library.Page.{Page, state_of, folder_from_viewer, navigate}
use folium.Library.Page.Laws.{folder_from_viewer_lem}

abbrev address : Params
address = ("folder", "bills") ∷ ("tag", "paid") ∷ ("page", "2") ∷ ("doc", "d") ∷ []

abbrev page : Page
page = record { address = address; selected_ids = "d" ∷ "e" ∷ [] }

folder_from_viewer_lem_example :
    ((state_of (navigate (folder_from_viewer (some "letters")) page)).folder_id ≡ some "letters")
    × ((state_of (navigate (folder_from_viewer (some "letters")) page)).doc_id
        ≡ (state_of page).doc_id)
folder_from_viewer_lem_example = folder_from_viewer_lem page "letters" refl
