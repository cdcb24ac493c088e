-- ===== src/Routes/Examples.antt =====
-- A former address of the administrators, for a user that is none.
use folium.Base.{◌≡◌, refl, true, false, none, some}
use folium.Routes.{settings, users, profile, follow}
use folium.Routes.Laws.{IsSettled, follow_lem}

to_profile :
    follow 2
      (record { is_loading = false; session = some false; bootstrap = none; heeds = false })
      (settings users)
    ≡ some (settings profile)
unfolding follow
to_profile = refl

follow_lem_example :
    IsSettled
      (record { is_loading = false; session = some false; bootstrap = some true; heeds = true })
      (settings users)
follow_lem_example = follow_lem (some false) (some true) true (settings users)
