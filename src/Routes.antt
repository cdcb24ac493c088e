-- ===== src/Routes.antt =====
-- The routes of frontend/src/App.tsx, the guards of features/auth/AuthGuard.tsx and of
-- features/settings/SettingsLayout.tsx, and the redirection of features/auth/SetupPage.tsx. The router
-- is a package: a route is the one that it finds for an address, and the queries of addresses are
-- left out.
pub mod Laws
mod Examples
use folium.Base.{
  ℕ, suc, zero, Bool, true, false, not, ◌&&◌, Option, none, some, if◌then◌else◌, is_some,
}

-- The routes inside `GuestGuard`.
pub data GuestRoute : Type 0 where
  setup login register forgot_password reset_password : GuestRoute

-- The routes below /settings, with `index` for /settings itself; the last five are former addresses.
pub data SettingsRoute : Type 0 where
  index profile users_of_profile artificial_intelligence library backup system logs about :
      SettingsRoute
  users storage ai_providers ai_policy ai_profiles : SettingsRoute

-- `legacy` are the three routes of `LegacyDocumentsRedirect`, and `anything` is `*`.
pub data Route : Type 0 where
  guest : GuestRoute → Route
  root inbox documents legacy search_page ask jobs trash anything : Route
  settings : SettingsRoute → Route

-- What the queries give: the session with `is_admin` of its user, and `ready` of the status. `heeds` is
-- whether the router heeds a navigation that a page asks for while it is rendered.
pub record World : Type 0 where
  pub is_loading : Bool
  pub session : Option Bool
  pub bootstrap : Option Bool
  pub heeds : Bool

pub data Outcome : Type 0 where
  loading shown : Outcome
  navigated : Route → Outcome

-- `bootstrap && !bootstrap.ready`
abbrev pub needs_setup : Option Bool → Bool
needs_setup none = false
needs_setup (some ready) = not ready

-- `session && !session.user.is_admin`
abbrev pub is_plain : Option Bool → Bool
is_plain none = false
is_plain (some is_admin) = not is_admin

-- `status.data?.ready`
abbrev pub is_ready : Option Bool → Bool
is_ready none = false
is_ready (some ready) = ready

abbrev pub auth_guard : World → Outcome → Outcome
auth_guard w outlet =
    if w.is_loading
    then loading
    else if is_some w.session
    then outlet
    else if needs_setup w.bootstrap
    then navigated (guest setup)
    else navigated (guest login)

abbrev pub is_setup : GuestRoute → Bool
is_setup setup = true
is_setup route = false

abbrev pub guest_guard : World → GuestRoute → Outcome → Outcome
guest_guard w route outlet =
    if w.is_loading
    then loading
    else if is_some w.session
    then navigated documents
    else if needs_setup w.bootstrap && not (is_setup route)
    then navigated (guest setup)
    else outlet

abbrev pub admin_settings_guard : World → Outcome
admin_settings_guard w = if is_plain w.session then navigated (settings profile) else shown

abbrev pub guest_outlet : World → GuestRoute → Outcome
guest_outlet w setup = if is_ready w.bootstrap && w.heeds then navigated (guest login) else shown
guest_outlet w route = shown

abbrev pub settings_outlet : World → SettingsRoute → Outcome
settings_outlet w index = navigated (settings profile)
settings_outlet w users_of_profile = admin_settings_guard w
settings_outlet w artificial_intelligence = admin_settings_guard w
settings_outlet w backup = admin_settings_guard w
settings_outlet w system = admin_settings_guard w
settings_outlet w logs = admin_settings_guard w
settings_outlet w users = navigated (settings users_of_profile)
settings_outlet w storage = navigated (settings system)
settings_outlet w ai_providers = navigated (settings artificial_intelligence)
settings_outlet w ai_policy = navigated (settings artificial_intelligence)
settings_outlet w ai_profiles = navigated (settings artificial_intelligence)
settings_outlet w route = shown

abbrev pub outlet : World → Route → Outcome
outlet w root = navigated documents
outlet w legacy = navigated documents
outlet w (settings route) = settings_outlet w route
outlet w route = shown

unfoldable pub visit : World → Route → Outcome
visit w (guest route) = guest_guard w route (guest_outlet w route)
visit w route = auth_guard w (outlet w route)

-- Where a visit ends, while the queries give the same, after so many redirections at most.
unfoldable pub follow : ℕ → World → Route → Option Route
unfolding visit
follow zero w r = elim (visit w r) [ navigated next ↦ none | other ↦ some r ]
follow (suc fuel) w r = elim (visit w r) [ navigated next ↦ follow fuel w next | other ↦ some r ]
