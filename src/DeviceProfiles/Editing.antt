-- ===== src/DeviceProfiles/Editing.antt =====
-- Adding trusted profiles and switching systems, in terms of what is read afterwards.
use group_management_ui_back.Prelude.{
  ◌≡◌, refl, Bool, true, List, ◌∷◌, any, if◌then◌else◌, Bool-cases, inl, inr, KeysDistinct,
  any-LacksKey,
}
use group_management_ui_back.Json.{Json}
use group_management_ui_back.Storage.{Browser}
use group_management_ui_back.DeviceProfiles.{
  Platform, windows, mac_os, ios, linux, android, Approved, platform_name, same_platform, set_flag,
  get_device_profiles, add_trusted_profile, set_approved_os, read,
}
use group_management_ui_back.DeviceProfiles.Reading.{read-write}

-- `approvedOS[platform]`
abbrev pub is_approved : Platform → Approved → Bool
is_approved windows a = a.windows
is_approved mac_os a = a.mac_os
is_approved ios a = a.ios
is_approved linux a = a.linux
is_approved android a = a.android

abbrev pub is_trusted : Platform → List Platform → Bool
is_trusted p ps = any (λ q. same_platform q p) ps

flag-set_flag :
    (p q : Platform) (e : Bool) (a : Approved)
    → is_approved q (set_flag p e a) ≡ (if same_platform p q then e else is_approved q a)
flag-set_flag windows windows e a = refl
flag-set_flag windows mac_os e a = refl
flag-set_flag windows ios e a = refl
flag-set_flag windows linux e a = refl
flag-set_flag windows android e a = refl
flag-set_flag mac_os windows e a = refl
flag-set_flag mac_os mac_os e a = refl
flag-set_flag mac_os ios e a = refl
flag-set_flag mac_os linux e a = refl
flag-set_flag mac_os android e a = refl
flag-set_flag ios windows e a = refl
flag-set_flag ios mac_os e a = refl
flag-set_flag ios ios e a = refl
flag-set_flag ios linux e a = refl
flag-set_flag ios android e a = refl
flag-set_flag linux windows e a = refl
flag-set_flag linux mac_os e a = refl
flag-set_flag linux ios e a = refl
flag-set_flag linux linux e a = refl
flag-set_flag linux android e a = refl
flag-set_flag android windows e a = refl
flag-set_flag android mac_os e a = refl
flag-set_flag android ios e a = refl
flag-set_flag android linux e a = refl
flag-set_flag android android e a = refl

module _ (p : Platform) (b : Browser Json) (w : b.has_window ≡ true) where
  -- Where `window` is defined, switching a system sets its flag, and leaves the flags of the others
  -- and the trusted profiles as they were read.
  pub get-set_approved :
      (enabled : Bool)
      → ((q : Platform)
          → is_approved q (get_device_profiles (set_approved_os p enabled b)).approved ≡ (
              if same_platform p q
              then enabled
              else is_approved q (get_device_profiles b).approved))
        × ((get_device_profiles (set_approved_os p enabled b)).trusted_profiles
            ≡ (get_device_profiles b).trusted_profiles)
  unfolding get_device_profiles set_approved_os
  get-set_approved enabled =
      let s = read b in
      rw (read-write (record s { approved = set_flag p enabled s.approved }) b w)
        ((λ q. flag-set_flag p q enabled s.approved), refl)

  -- Where `window` is defined, adding a platform puts it before the trusted ones, or changes
  -- nothing where it is one of them; the flags stay as they were read.
  pub get-add_trusted :
      ((get_device_profiles (add_trusted_profile p b)).trusted_profiles ≡ (
        if is_trusted p (get_device_profiles b).trusted_profiles
        then (get_device_profiles b).trusted_profiles
        else p ∷ (get_device_profiles b).trusted_profiles))
      × ((get_device_profiles (add_trusted_profile p b)).approved
          ≡ (get_device_profiles b).approved)
  unfolding get_device_profiles add_trusted_profile
  get-add_trusted = elim (Bool-cases (is_trusted p (read b).trusted_profiles)) [
    | inl t ↦ rw t (refl, refl)
    | inr t ↦
        let s = read b in
        rw (t, read-write (record s { trusted_profiles = p ∷ s.trusted_profiles }) b w) (refl, refl)
  ]

  -- Where `window` is defined, adding a platform leaves no platform trusted twice.
  pub add-KeysDistinct :
      KeysDistinct platform_name (get_device_profiles b).trusted_profiles
      → KeysDistinct platform_name (get_device_profiles (add_trusted_profile p b)).trusted_profiles
  add-KeysDistinct d = elim (Bool-cases (is_trusted p (get_device_profiles b).trusted_profiles)) [
    | inl t ↦ rw (get-add_trusted.0, t) d
    | inr t ↦
        rw (get-add_trusted.0, t)
          (
            any-LacksKey platform_name (platform_name p) (get_device_profiles b).trusted_profiles t,
            d,
          )
  ]
