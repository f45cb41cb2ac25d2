-- ===== src/DeviceProfiles.antt =====
-- frontend/lib/device-profiles.ts: the platforms that are trusted and the systems that are approved.
-- They are kept in `localStorage` as JSON, and read back whatever is there.
pub mod Reading
pub mod Editing
pub mod Page
pub mod Clicking
mod Tests
use group_management_ui_back.Prelude.{
  String, Bool, true, false, Option, none, some, List, [], ◌∷◌, map, any, ◌==◌, if◌then◌else◌,
}
use group_management_ui_back.Json.{
  Json, null, bool, arr, obj, str, Items, nil, cons, end, field, get_field, of_texts, truthy,
}
use group_management_ui_back.Storage.{Stored, blank, Browser, json_parse, set_item}

pub data Platform : Type 0 where
  windows mac_os ios linux android : Platform

-- `approvedOS`: a flag for each platform
pub record Approved : Type 0 where
  pub windows : Bool
  pub mac_os : Bool
  pub ios : Bool
  pub linux : Bool
  pub android : Bool

pub record DeviceProfilesState : Type 0 where
  pub trusted_profiles : List Platform
  pub approved : Approved

abbrev pub platform_name : Platform → String
platform_name windows = "Windows"
platform_name mac_os = "macOS"
platform_name ios = "iOS"
platform_name linux = "Linux"
platform_name android = "Android"

abbrev pub default_state : DeviceProfilesState
default_state = record {
  trusted_profiles = [];
  approved = record { windows = true; mac_os = true; ios = true; linux = true; android = true };
}

-- `v.name` for a `v` that is not `null`
abbrev pub member : String → Json → Option Json
member name (obj fs) = get_field name fs
member name _ = none

-- `PLATFORMS.includes(text)`, with the platform that it is
abbrev pub platform_of : String → Option Platform
platform_of s =
    if s == "Windows"
    then some windows
    else if s == "macOS"
    then some mac_os
    else if s == "iOS"
    then some ios
    else if s == "Linux"
    then some linux
    else if s == "Android"
    then some android
    else none

abbrev pub add_known : Option Platform → List Platform → List Platform
add_known none ps = ps
add_known (some p) ps = p ∷ ps

-- The filter of `trusted`: what is no text is no platform.
unfoldable pub known_platforms : Items → List Platform
known_platforms nil = []
known_platforms (cons (str s) items) = add_known (platform_of s) (known_platforms items)
known_platforms (cons _ items) = known_platforms items

abbrev pub trusted_of : Option Json → List Platform
trusted_of (some (arr items)) = known_platforms items
trusted_of _ = []

-- `parsed.approvedOS ?? {}`
abbrev pub or_empty_object : Option Json → Json
or_empty_object none = obj end
or_empty_object (some null) = obj end
or_empty_object (some v) = v

abbrev pub flags_of : Json → Approved
flags_of v = record {
  windows = truthy (member "Windows" v);
  mac_os = truthy (member "macOS" v);
  ios = truthy (member "iOS" v);
  linux = truthy (member "Linux" v);
  android = truthy (member "Android" v);
}

-- The body of the `try`: a member of `null` throws, which is caught.
abbrev pub state_of : Option Json → DeviceProfilesState
state_of none = default_state
state_of (some null) = default_state
state_of (some v) = record {
  trusted_profiles = trusted_of (member "trustedProfiles" v);
  approved = flags_of (or_empty_object (member "approvedOS" v));
}

abbrev pub read_item : Option (Stored Json) → DeviceProfilesState
read_item none = default_state
read_item (some blank) = default_state
read_item (some text) = state_of (json_parse text)

unfoldable pub read : Browser Json → DeviceProfilesState
unfolding known_platforms get_field truthy
read b = if b.has_window then read_item b.item else default_state

-- What `JSON.stringify` writes of a state.
abbrev pub state_json : DeviceProfilesState → Json
state_json s = obj (
    field "trustedProfiles" (arr (of_texts (map platform_name s.trusted_profiles))) (
      field "approvedOS"
        (obj (
          field "Windows" (bool s.approved.windows) (
            field "macOS" (bool s.approved.mac_os) (
              field "iOS" (bool s.approved.ios) (
                field "Linux" (bool s.approved.linux)
                  (field "Android" (bool s.approved.android) end))))))
        end))

unfoldable pub write : DeviceProfilesState → Browser Json → Browser Json
write s b = if b.has_window then set_item (state_json s) b else b

unfoldable pub get_device_profiles : Browser Json → DeviceProfilesState
unfolding read
get_device_profiles b = read b

-- `===` on platforms
abbrev pub same_platform : Platform → Platform → Bool
same_platform p q = platform_name p == platform_name q

unfoldable pub add_trusted_profile : Platform → Browser Json → Browser Json
unfolding read write
add_trusted_profile p b =
    let s = read b in
    if any (λ q. same_platform q p) s.trusted_profiles
    then b
    else write (record s { trusted_profiles = p ∷ s.trusted_profiles }) b

-- `{ ...approved, [platform]: enabled }`
abbrev pub set_flag : Platform → Bool → Approved → Approved
set_flag windows e a = record a { windows = e }
set_flag mac_os e a = record a { mac_os = e }
set_flag ios e a = record a { ios = e }
set_flag linux e a = record a { linux = e }
set_flag android e a = record a { android = e }

unfoldable pub set_approved_os : Platform → Bool → Browser Json → Browser Json
unfolding read write
set_approved_os p enabled b =
    let s = read b in write (record s { approved = set_flag p enabled s.approved }) b
