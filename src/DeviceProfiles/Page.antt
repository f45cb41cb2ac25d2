-- ===== src/DeviceProfiles/Page.antt =====
-- frontend/src/pages/policy/DeviceProfilesPage.tsx: the page over the store of device profiles. What
-- it shows is read again whenever its key changes.
use group_management_ui_back.Prelude.{ℕ, suc, String, Bool, List, [], ◌∷◌, map}
use group_management_ui_back.Json.{Json}
use group_management_ui_back.Storage.{Browser}
use group_management_ui_back.DeviceProfiles.{
  Platform, windows, mac_os, ios, linux, android, DeviceProfilesState, platform_name,
  get_device_profiles, add_trusted_profile, set_approved_os,
}
use group_management_ui_back.DeviceProfiles.Editing.{is_approved}

pub record Page : Type 0 where
  pub refresh_key : ℕ
  pub state : DeviceProfilesState

-- A change of the key, and the read that follows it
abbrev pub refresh : Page → Browser Json → Page × Browser Json
refresh s b = (record { refresh_key = suc s.refresh_key; state = get_device_profiles b }, b)

-- The first render and its effect
unfoldable pub mount : Browser Json → Page × Browser Json
mount b = refresh (record { refresh_key = 0; state = get_device_profiles b }) b

unfoldable pub handle_add_profile : Platform → Page → Browser Json → Page × Browser Json
handle_add_profile p s b = refresh s (add_trusted_profile p b)

unfoldable pub handle_toggle : Platform → Bool → Page → Browser Json → Page × Browser Json
handle_toggle p enabled s b = refresh s (set_approved_os p enabled b)

-- `ALL_PLATFORMS`
abbrev pub all_platforms : List Platform
all_platforms = windows ∷ mac_os ∷ ios ∷ linux ∷ android ∷ []

-- The badges, and the switches with their labels
unfoldable pub badges : Page → List String
badges s = map platform_name s.state.trusted_profiles

unfoldable pub switches : Page → List (String × Bool)
switches s = map (λ p. (platform_name p, is_approved p s.state.approved)) all_platforms

-- A click on the menu or on a switch.
pub data Click : Type 0 where
  adds : Platform → Click
  toggles : Platform → Bool → Click

unfoldable pub click : Click → Page × Browser Json → Page × Browser Json
click (adds p) (s, b) = handle_add_profile p s b
click (toggles p enabled) (s, b) = handle_toggle p enabled s b

abbrev pub clicks : List Click → Page × Browser Json → Page × Browser Json
clicks [] x = x
clicks (c ∷ cs) x = clicks cs (click c x)
