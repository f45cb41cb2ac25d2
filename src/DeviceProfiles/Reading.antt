-- ===== src/DeviceProfiles/Reading.antt =====
-- What is written is read back, and what cannot be read is replaced by the default.
use group_management_ui_back.Prelude.{
  ◌≡◌, refl, ap, true, false, none, some, List, [], ◌∷◌, map, Bool-cases, inl, inr,
}
use group_management_ui_back.Json.{Json, null, of_texts, get_field, truthy}
use group_management_ui_back.Storage.{garbled, encoding, Browser}
use group_management_ui_back.DeviceProfiles.{
  Platform, windows, mac_os, ios, linux, android, DeviceProfilesState, platform_name, platform_of,
  default_state, known_platforms, read, write,
}

platform_of-platform_name : (p : Platform) → platform_of (platform_name p) ≡ some p
platform_of-platform_name windows = refl
platform_of-platform_name mac_os = refl
platform_of-platform_name ios = refl
platform_of-platform_name linux = refl
platform_of-platform_name android = refl

known_platforms-of_texts :
    (ps : List Platform) → known_platforms (of_texts (map platform_name ps)) ≡ ps
unfolding known_platforms
known_platforms-of_texts [] = refl
known_platforms-of_texts (p ∷ ps) =
    rw (platform_of-platform_name p) (ap (λ qs. p ∷ qs) (known_platforms-of_texts ps))

-- Where `window` is defined, a state that is written is read back as it was.
pub read-write :
    (s : DeviceProfilesState) (b : Browser Json) → b.has_window ≡ true → read (write s b) ≡ s
unfolding read write get_field truthy
read-write s b w = rw w (
    ap (λ ps. record { trusted_profiles = ps; approved = s.approved })
      (known_platforms-of_texts s.trusted_profiles))

-- Where nothing is stored, or a text that is no JSON or is `null`, the default state is read; and so
-- it is where `window` is not defined.
pub read_default :
    (b : Browser Json)
    → (b.item ≡ none → read b ≡ default_state)
      × (b.item ≡ some garbled → read b ≡ default_state)
      × (b.item ≡ some (encoding null) → read b ≡ default_state)
      × (b.has_window ≡ false → read b ≡ default_state)
unfolding read
read_default b = elim (Bool-cases b.has_window) [
  | inl w ↦ rw w ((λ e. rw e), (λ e. rw e), (λ e. rw e), (λ e. cc))
  | inr w ↦ rw w ((λ e. refl), (λ e. refl), (λ e. refl), (λ e. refl))
]
