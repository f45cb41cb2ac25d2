-- ===== src/DeviceProfiles/Tests.antt =====
-- Runs of the store of profiles, and its theorems at concrete inputs.
use group_management_ui_back.Prelude.{◌≡◌, refl, none, some, [], ◌∷◌, true, false}
use group_management_ui_back.Json.{
  Json, str, arr, obj, nil, cons, end, field, int, num, get_field, truthy,
}
use group_management_ui_back.Storage.{Browser, encoding}
use group_management_ui_back.DeviceProfiles.{
  windows, linux, DeviceProfilesState, read, write, get_device_profiles, known_platforms,
}
use group_management_ui_back.DeviceProfiles.Reading.{read-write}
use group_management_ui_back.DeviceProfiles.Editing.{is_approved, is_trusted}
use group_management_ui_back.DeviceProfiles.Page.{Click, clicks, mount}
use group_management_ui_back.DeviceProfiles.Clicking.{replay, approve, trust, clicks_refine}
use group_management_ui_back.Prelude.{List}

abbrev empty : Browser Json
empty = record { has_window = true; item = none }

-- An unknown platform, a number among the platforms, and a flag that is no Boolean.
abbrev foreign : Browser Json
foreign = record {
  has_window = true;
  item = some (
      encoding (
        obj (
          field "trustedProfiles"
            (arr (cons (str "BeOS") (cons (num (int 1)) (cons (str "Linux") nil))))
            (field "approvedOS" (obj (field "iOS" (str "yes") end)) end))));
}

abbrev linux_only : DeviceProfilesState
linux_only = record {
  trusted_profiles = linux ∷ [];
  approved = record { windows = false; mac_os = false; ios = true; linux = false; android = false };
}

foreign_test : get_device_profiles foreign ≡ linux_only
unfolding get_device_profiles known_platforms get_field truthy
foreign_test = refl

read-write_example : read (write linux_only empty) ≡ linux_only
read-write_example = read-write linux_only empty refl

abbrev chosen : List Click
chosen =
    Click.toggles windows true
    ∷ Click.adds windows
    ∷ Click.adds linux
    ∷ Click.toggles windows false
    ∷ []

clicks_refine_example :
    ((λ q. is_approved q (clicks chosen (mount foreign)).0.state.approved)
      ≡ replay approve chosen (λ q. is_approved q (get_device_profiles foreign).approved))
    × ((λ q. is_trusted q (clicks chosen (mount foreign)).0.state.trusted_profiles)
        ≡ replay trust chosen (λ q. is_trusted q (get_device_profiles foreign).trusted_profiles))
clicks_refine_example = clicks_refine chosen foreign refl
