-- ===== src/Settings/Tags/Examples.antt =====
-- A tag is merged into another one; a target that is not offered is not taken.
use folium.Base.{String, Bool, true, List, [], ◌∷◌, All}
use folium.Settings.Tags.{Tag, merge, Event, mounted, dialog_opened, target_chosen, submitted, run}
use folium.Settings.Tags.Laws.{IsSound, run-IsSound}

abbrev paid : Tag
paid = record { id = "1"; name = "paid"; color = "red"; document_count = 3 }

abbrev bills : Tag
bills = record { id = "2"; name = "bills"; color = "blue"; document_count = 0 }

abbrev events : List (List Tag × Event)
events =
    (paid ∷ bills ∷ [], dialog_opened (merge paid))
    ∷ (paid ∷ bills ∷ [], target_chosen "2")
    ∷ (paid ∷ bills ∷ [], target_chosen "1")
    ∷ (paid ∷ bills ∷ [], submitted)
    ∷ []

abbrev lower : String → String
lower s = s

abbrev at_most : String → String → Bool
at_most a b = true

run-IsSound_example : All IsSound (run lower at_most "red" (λ r. true) events (mounted "red")).1
run-IsSound_example = run-IsSound lower at_most "red" (λ r. true) events
