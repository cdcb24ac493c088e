-- ===== src/Routes/Laws.antt =====
-- Where the redirections lead.
use folium.Base.{
  not, ◌&&◌, ◌||◌, if◌then◌else◌, ◌≡◌, refl, Bool, true, false, Option, none, some, is_some,
}
use folium.Routes.{
  GuestRoute, setup, SettingsRoute, Route, guest, settings, World, Outcome, shown, visit, follow,
  login, register, forgot_password, reset_password, index, profile, users_of_profile,
  artificial_intelligence, library, backup, system, logs, about, users, storage, ai_providers,
  ai_policy, ai_profiles, auth_guard, outlet, root, inbox, documents, legacy, search_page, ask,
  jobs, trash, anything,
}

-- The settings that are kept for administrators.
abbrev pub is_for_admins : SettingsRoute → Bool
is_for_admins users_of_profile = true
is_for_admins artificial_intelligence = true
is_for_admins backup = true
is_for_admins system = true
is_for_admins logs = true
is_for_admins route = false

abbrev pub is_administrator : Option Bool → Bool
is_administrator none = false
is_administrator (some admin) = admin

-- The server says that it has not been set up.
abbrev pub is_due : Option Bool → Bool
is_due (some false) = true
is_due status = false

-- The server says that it has been set up.
abbrev pub is_done : Option Bool → Bool
is_done (some true) = true
is_done status = false

-- Whether a route is for whoever is there: nobody is signed in for the routes of guests, of which there is
-- only the setup while that is due, and no setup once it is done, if the router heeds its page; for the rest
-- somebody is, and an administrator for what is kept for them.
abbrev pub is_for : World → Route → Bool
is_for w (guest setup) = not (is_some w.session) && not (is_done w.bootstrap && w.heeds)
is_for w (guest route) = not (is_some w.session) && not (is_due w.bootstrap)
is_for w (settings route) =
    is_some w.session && (not (is_for_admins route) || is_administrator w.session)
is_for w route = is_some w.session

-- The route that has taken the place of a former one.
abbrev pub current_settings : SettingsRoute → SettingsRoute
current_settings index = profile
current_settings users = users_of_profile
current_settings storage = system
current_settings ai_providers = artificial_intelligence
current_settings ai_policy = artificial_intelligence
current_settings ai_profiles = artificial_intelligence
current_settings route = route

abbrev pub current : Route → Route
current root = documents
current legacy = documents
current (settings route) = settings (current_settings route)
current route = route

-- Where somebody is sent who is not let in: from the settings to the own profile, and from the routes of
-- guests to the documents.
abbrev pub instead : World → Route → Route
instead w (settings route) =
    if is_some w.session
    then settings profile
    else guest (if is_due w.bootstrap then setup else login)
instead w route =
    if is_some w.session then documents else guest (if is_due w.bootstrap then setup else login)

abbrev pub destination : World → Route → Route
destination w r = if is_for w (current r) then current r else instead w (current r)

abbrev loaded : Option Bool → Option Bool → Bool → World
loaded session bootstrap heeds = record {
  is_loading = false;
  session = session;
  bootstrap = bootstrap;
  heeds = heeds;
}

-- The visit of a route ends within two redirections at its destination, a page that is shown to whom it
-- is for.
abbrev pub IsSettled : World → Route → Type 0
IsSettled w r =
    (follow 2 w r ≡ some (destination w r))
    × (visit w (destination w r) ≡ shown)
    × (is_for w (destination w r) ≡ true)

guest-IsSettled :
    (bootstrap : Option Bool) (heeds : Bool) (r : GuestRoute)
    → IsSettled (loaded none bootstrap heeds) (guest r)
unfolding follow visit
guest-IsSettled none heeds setup = (refl, refl, refl)
guest-IsSettled none heeds login = (refl, refl, refl)
guest-IsSettled none heeds register = (refl, refl, refl)
guest-IsSettled none heeds forgot_password = (refl, refl, refl)
guest-IsSettled none heeds reset_password = (refl, refl, refl)
guest-IsSettled (some false) heeds setup = (refl, refl, refl)
guest-IsSettled (some false) heeds login = (refl, refl, refl)
guest-IsSettled (some false) heeds register = (refl, refl, refl)
guest-IsSettled (some false) heeds forgot_password = (refl, refl, refl)
guest-IsSettled (some false) heeds reset_password = (refl, refl, refl)
guest-IsSettled (some true) true setup = (refl, refl, refl)
guest-IsSettled (some true) false setup = (refl, refl, refl)
guest-IsSettled (some true) heeds login = (refl, refl, refl)
guest-IsSettled (some true) heeds register = (refl, refl, refl)
guest-IsSettled (some true) heeds forgot_password = (refl, refl, refl)
guest-IsSettled (some true) heeds reset_password = (refl, refl, refl)

-- Without a session, the other routes lead to a route of guests that is shown.
sent_away :
    (bootstrap : Option Bool) (heeds : Bool) (r : Route) (inside : Outcome)
    → visit (loaded none bootstrap heeds) r ≡ auth_guard (loaded none bootstrap heeds) inside
    → destination (loaded none bootstrap heeds) r
      ≡ guest (if is_due bootstrap then setup else login)
    → IsSettled (loaded none bootstrap heeds) r
unfolding follow visit
sent_away none heeds r inside e d = rw (d, follow, e) (refl, refl, refl)
sent_away (some false) heeds r inside e d = rw (d, follow, e) (refl, refl, refl)
sent_away (some true) heeds r inside e d = rw (d, follow, e) (refl, refl, refl)

settings-IsSettled :
    (bootstrap : Option Bool) (heeds is_admin : Bool) (r : SettingsRoute)
    → IsSettled (loaded (some is_admin) bootstrap heeds) (settings r)
unfolding follow visit
settings-IsSettled bootstrap heeds is_admin index = (refl, refl, refl)
settings-IsSettled bootstrap heeds is_admin profile = (refl, refl, refl)
settings-IsSettled bootstrap heeds is_admin library = (refl, refl, refl)
settings-IsSettled bootstrap heeds is_admin about = (refl, refl, refl)
settings-IsSettled bootstrap heeds true users_of_profile = (refl, refl, refl)
settings-IsSettled bootstrap heeds false users_of_profile = (refl, refl, refl)
settings-IsSettled bootstrap heeds true artificial_intelligence = (refl, refl, refl)
settings-IsSettled bootstrap heeds false artificial_intelligence = (refl, refl, refl)
settings-IsSettled bootstrap heeds true backup = (refl, refl, refl)
settings-IsSettled bootstrap heeds false backup = (refl, refl, refl)
settings-IsSettled bootstrap heeds true system = (refl, refl, refl)
settings-IsSettled bootstrap heeds false system = (refl, refl, refl)
settings-IsSettled bootstrap heeds true logs = (refl, refl, refl)
settings-IsSettled bootstrap heeds false logs = (refl, refl, refl)
settings-IsSettled bootstrap heeds true users = (refl, refl, refl)
settings-IsSettled bootstrap heeds false users = (refl, refl, refl)
settings-IsSettled bootstrap heeds true storage = (refl, refl, refl)
settings-IsSettled bootstrap heeds false storage = (refl, refl, refl)
settings-IsSettled bootstrap heeds true ai_providers = (refl, refl, refl)
settings-IsSettled bootstrap heeds false ai_providers = (refl, refl, refl)
settings-IsSettled bootstrap heeds true ai_policy = (refl, refl, refl)
settings-IsSettled bootstrap heeds false ai_policy = (refl, refl, refl)
settings-IsSettled bootstrap heeds true ai_profiles = (refl, refl, refl)
settings-IsSettled bootstrap heeds false ai_profiles = (refl, refl, refl)

-- Once the session is loaded, every visit ends within two redirections at its destination, which is a
-- page that is shown: the route itself, or the one that has taken its place, where that is for whoever is
-- there. Guests see no page of others, only the setup while it is due, and no setup once it is done, if the
-- router heeds its page; those who are signed in see none of guests; and only administrators see the
-- users, the artificial intelligence, the backups, the system and the logs. Whoever is not let in is sent
-- to the setup while it is due or to the login, and, if signed in, from the settings to the own profile
-- and from the routes of guests to the documents.
pub follow_lem :
    (session bootstrap : Option Bool) (heeds : Bool) (r : Route)
    → IsSettled (loaded session bootstrap heeds) r
unfolding follow visit
follow_lem none bootstrap heeds (guest r) = guest-IsSettled bootstrap heeds r
follow_lem none bootstrap heeds root =
    sent_away bootstrap heeds root (outlet (loaded none bootstrap heeds) root) refl refl
follow_lem none bootstrap heeds inbox =
    sent_away bootstrap heeds inbox (outlet (loaded none bootstrap heeds) inbox) refl refl
follow_lem none bootstrap heeds documents =
    sent_away bootstrap heeds documents (outlet (loaded none bootstrap heeds) documents) refl refl
follow_lem none bootstrap heeds legacy =
    sent_away bootstrap heeds legacy (outlet (loaded none bootstrap heeds) legacy) refl refl
follow_lem none bootstrap heeds search_page =
    sent_away bootstrap heeds search_page (outlet (loaded none bootstrap heeds) search_page) refl
      refl
follow_lem none bootstrap heeds ask =
    sent_away bootstrap heeds ask (outlet (loaded none bootstrap heeds) ask) refl refl
follow_lem none bootstrap heeds jobs =
    sent_away bootstrap heeds jobs (outlet (loaded none bootstrap heeds) jobs) refl refl
follow_lem none bootstrap heeds trash =
    sent_away bootstrap heeds trash (outlet (loaded none bootstrap heeds) trash) refl refl
follow_lem none bootstrap heeds anything =
    sent_away bootstrap heeds anything (outlet (loaded none bootstrap heeds) anything) refl refl
follow_lem none bootstrap heeds (settings r) =
    sent_away bootstrap heeds (settings r) (outlet (loaded none bootstrap heeds) (settings r)) refl
      refl
follow_lem (some is_admin) bootstrap heeds (guest setup) = (refl, refl, refl)
follow_lem (some is_admin) bootstrap heeds (guest login) = (refl, refl, refl)
follow_lem (some is_admin) bootstrap heeds (guest register) = (refl, refl, refl)
follow_lem (some is_admin) bootstrap heeds (guest forgot_password) = (refl, refl, refl)
follow_lem (some is_admin) bootstrap heeds (guest reset_password) = (refl, refl, refl)
follow_lem (some is_admin) bootstrap heeds (settings r) =
    settings-IsSettled bootstrap heeds is_admin r
follow_lem (some is_admin) bootstrap heeds root = (refl, refl, refl)
follow_lem (some is_admin) bootstrap heeds inbox = (refl, refl, refl)
follow_lem (some is_admin) bootstrap heeds documents = (refl, refl, refl)
follow_lem (some is_admin) bootstrap heeds legacy = (refl, refl, refl)
follow_lem (some is_admin) bootstrap heeds search_page = (refl, refl, refl)
follow_lem (some is_admin) bootstrap heeds ask = (refl, refl, refl)
follow_lem (some is_admin) bootstrap heeds jobs = (refl, refl, refl)
follow_lem (some is_admin) bootstrap heeds trash = (refl, refl, refl)
follow_lem (some is_admin) bootstrap heeds anything = (refl, refl, refl)
