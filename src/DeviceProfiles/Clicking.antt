-- ===== src/DeviceProfiles/Clicking.antt =====
-- frontend/src/pages/policy/DeviceProfilesPage.tsx: what the page shows after any clicks.
use mathlib.Core.Path.{fun_ext}
use group_management_ui_back.Prelude.{
  ◌≡◌, refl, sym, ap, ◌∙◌, arith, Bool, true, ◌||◌, ◌==◌, eq_iff, Bool-cases, inl, inr, List, [],
  ◌∷◌, any, if◌then◌else◌,
}
use group_management_ui_back.Json.{Json}
use group_management_ui_back.Storage.{Browser}
use group_management_ui_back.DeviceProfiles.{
  Platform, DeviceProfilesState, platform_name, same_platform, get_device_profiles,
  add_trusted_profile, set_approved_os, set_flag, read, write,
}
use group_management_ui_back.DeviceProfiles.Editing.{
  is_approved, is_trusted, get-set_approved, get-add_trusted,
}
use group_management_ui_back.DeviceProfiles.Page.{
  Page, mount, handle_add_profile, handle_toggle, Click, adds, toggles, click, clicks,
}

-- What clicks do to the tests of the approved and of the trusted platforms.
abbrev pub approve : Click → (Platform → Bool) → Platform → Bool
approve (adds p) f q = f q
approve (toggles p enabled) f q = if same_platform p q then enabled else f q

abbrev pub trust : Click → (Platform → Bool) → Platform → Bool
trust (adds p) f q = same_platform p q || f q
trust (toggles p enabled) f q = f q

module _ (step : Click → (Platform → Bool) → Platform → Bool) where
  abbrev pub replay : List Click → (Platform → Bool) → Platform → Bool
  replay [] f = f
  replay (c ∷ cs) f = replay cs (step c f)

-- The page shows what is stored, where `window` is defined.
abbrev pub Shows : Page × Browser Json → Type 0
Shows (s, b) = (b.has_window ≡ true) × (s.state ≡ get_device_profiles b)

window-write : (d : DeviceProfilesState) (b : Browser Json) → (write d b).has_window ≡ b.has_window
unfolding write
window-write d b = elim (Bool-cases b.has_window) [ inl e ↦ rw e refl | inr e ↦ rw e refl ]

window-add : (p : Platform) (b : Browser Json) → (add_trusted_profile p b).has_window ≡ b.has_window
unfolding add_trusted_profile
window-add p b = elim (Bool-cases (is_trusted p (read b).trusted_profiles)) [
  | inl e ↦ rw e refl
  | inr e ↦
      rw e (window-write (record (read b) { trusted_profiles = p ∷ (read b).trusted_profiles }) b)
]

window-set :
    (p : Platform) (e : Bool) (b : Browser Json) → (set_approved_os p e b).has_window ≡ b.has_window
unfolding set_approved_os
window-set p e b = window-write (record (read b) { approved = set_flag p e (read b).approved }) b

click-Shows : (c : Click) (s : Page) (b : Browser Json) → Shows (s, b) → Shows (click c (s, b))
unfolding click handle_add_profile handle_toggle
click-Shows (adds p) s b (w, h) = (window-add p b ∙ w, refl)
click-Shows (toggles p e) s b (w, h) = (window-set p e b ∙ w, refl)

abbrev approved_shown : Page × Browser Json → Platform → Bool
approved_shown (s, b) q = is_approved q s.state.approved

abbrev trusted_shown : Page × Browser Json → Platform → Bool
trusted_shown (s, b) q = is_trusted q s.state.trusted_profiles

same_sym : (p q : Platform) → same_platform p q ≡ same_platform q p
same_sym p q =
    ground (
      arith,
      eq_iff (platform_name p) (platform_name q),
      eq_iff (platform_name q) (platform_name p),
    )

-- A platform that is the same as one that is trusted is trusted.
is_trusted-same :
    (p q : Platform) (ps : List Platform)
    → is_trusted p ps ≡ true
    → same_platform p q ≡ true
    → is_trusted q ps ≡ true
is_trusted-same p q ps t e =
    ap (λ name. any (λ r. platform_name r == name) ps)
      (sym ((eq_iff (platform_name p) (platform_name q)).0 e))
    ∙ t

click-approved :
    (c : Click) (s : Page) (b : Browser Json)
    → Shows (s, b)
    → (q : Platform) → approved_shown (click c (s, b)) q ≡ approve c (approved_shown (s, b)) q
unfolding click handle_add_profile handle_toggle
click-approved (adds p) s b (w, h) q = rw ((get-add_trusted p b w).1, h) refl
click-approved (toggles p e) s b (w, h) q = rw h ((get-set_approved p b w e).0 q)

added_trusted :
    (p q : Platform) (ps : List Platform)
    → is_trusted q (if is_trusted p ps then ps else p ∷ ps) ≡ (same_platform p q || is_trusted q ps)
added_trusted p q ps = elim (Bool-cases (is_trusted p ps)) [
  | inl t ↦ rw t (elim (Bool-cases (same_platform p q)) [
    | inl e ↦ rw (e, is_trusted-same p q ps t e) refl
    | inr e ↦ rw e refl
  ])
  | inr t ↦ rw t refl
]

click-trusted :
    (c : Click) (s : Page) (b : Browser Json)
    → Shows (s, b)
    → (q : Platform) → trusted_shown (click c (s, b)) q ≡ trust c (trusted_shown (s, b)) q
unfolding click handle_add_profile handle_toggle
click-trusted (adds p) s b (w, h) q = rw h (
    ap (is_trusted q) (get-add_trusted p b w).0
    ∙ added_trusted p q (get_device_profiles b).trusted_profiles)
click-trusted (toggles p e) s b (w, h) q = rw h (ap (is_trusted q) (get-set_approved p b w e).1)

clicks-approved :
    (cs : List Click) (s : Page) (b : Browser Json)
    → Shows (s, b)
    → approved_shown (clicks cs (s, b)) ≡ replay approve cs (approved_shown (s, b))
clicks-approved [] s b h = refl
clicks-approved (c ∷ cs) s b h =
    clicks-approved cs (click c (s, b)).0 (click c (s, b)).1 (click-Shows c s b h)
    ∙ ap (replay approve cs) (fun_ext (click-approved c s b h))

clicks-trusted :
    (cs : List Click) (s : Page) (b : Browser Json)
    → Shows (s, b)
    → trusted_shown (clicks cs (s, b)) ≡ replay trust cs (trusted_shown (s, b))
clicks-trusted [] s b h = refl
clicks-trusted (c ∷ cs) s b h =
    clicks-trusted cs (click c (s, b)).0 (click c (s, b)).1 (click-Shows c s b h)
    ∙ ap (replay trust cs) (fun_ext (click-trusted c s b h))

-- Where `window` is defined, after any clicks the page shows as approved each platform as its last
-- switch left it, or as it was stored where it was not switched, and as trusted exactly the
-- platforms that were stored as trusted and those that were added.
pub clicks_refine :
    (cs : List Click) (b : Browser Json)
    → b.has_window ≡ true
    → ((λ q. is_approved q (clicks cs (mount b)).0.state.approved)
        ≡ replay approve cs (λ q. is_approved q (get_device_profiles b).approved))
      × ((λ q. is_trusted q (clicks cs (mount b)).0.state.trusted_profiles)
          ≡ replay trust cs (λ q. is_trusted q (get_device_profiles b).trusted_profiles))
unfolding mount
clicks_refine cs b w =
    (clicks-approved cs (mount b).0 b (w, refl), clicks-trusted cs (mount b).0 b (w, refl))
