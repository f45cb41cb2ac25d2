-- ===== src/ResourcePolicies/Detail.antt =====
-- frontend/src/pages/policy/ResourcePolicyDetailPage.tsx: what the page of one policy shows, and that
-- a mode that is chosen is there when the page is opened again.
use group_management_ui_back.Prelude.{
  String, ◌≡◌, ap, sym, ◌∙◌, true, false, Option, none, some, List, [], ◌∷◌, is_blank,
  if◌then◌else◌, Bool, find, subst, ◌==◌, find_of_HasKey,
}
use group_management_ui_back.Storage.{Browser}
use group_management_ui_back.ResourcePolicies.{
  DeviceSecurityMode, any, trusted, custom, ResourcePolicy, Parsed, get_resource_policy,
  list_resource_policies,
}
use group_management_ui_back.ResourcePolicies.Listing.{
  listed, HasId, list-ensure, list_settles, window-list,
}
use group_management_ui_back.ResourcePolicies.Editing.{got, get-eq-find}
use group_management_ui_back.ResourcePolicies.Page.{open_detail, set_device_mode}
use group_management_ui_back.ResourcePolicies.Showing.{set_mode_found, save-window}

-- An option of the card "Device Security": the mode, its label and its text.
pub record Choice : Type 0 where
  pub mode : DeviceSecurityMode
  pub label : String
  pub text : String

abbrev pub choices : List Choice
choices =
    record { mode = any; label = "Any Device"; text = "Allow access from any device." }
    ∷ record {
      mode = trusted;
      label = "Only Trusted Devices";
      text = "Require a trusted device posture.";
    }
    ∷ record { mode = custom; label = "Custom"; text = "Define custom device requirements." }
    ∷ []

-- `deviceMode`
abbrev pub device_mode : Option ResourcePolicy → DeviceSecurityMode
device_mode none = any
device_mode (some p) = p.mode

abbrev is_custom : DeviceSecurityMode → Bool
is_custom any = false
is_custom trusted = false
is_custom custom = true

-- "Missing policy id.", "It looks like this policy does not exist.", or the policy: its name, the mode
-- that is chosen among the choices, and whether the further controls are announced.
pub data DetailView : Type 0 where
  missing_id unknown_policy : DetailView
  detail : (title : String) (chosen : DeviceSecurityMode) (announces : Bool) → DetailView

abbrev pub policy_view : Option ResourcePolicy → DetailView
policy_view none = unknown_policy
policy_view (some p) = detail p.name p.mode (is_custom p.mode)

unfoldable pub detail_view : Option String → Option ResourcePolicy → DetailView
detail_view none policy = missing_id
detail_view (some id) policy = if is_blank id then missing_id else policy_view policy

-- The page as it is opened for an identifier
abbrev pub opened : String → Browser Parsed → Option ResourcePolicy × Browser Parsed
opened id b = open_detail (some id) none b

open_detail-got :
    (id : String) (b : Browser Parsed)
    → b.has_window ≡ true
    → is_blank id ≡ false
    → opened id b ≡ (got id b, (list_resource_policies b).1)
unfolding open_detail get_resource_policy
open_detail-got id b w h = rw h (ap (λ r. (find (λ p. p.id == id) r.0, r.1)) (list-ensure b w))

-- A mode is chosen on the page of a policy.
abbrev pub chosen :
    DeviceSecurityMode → String → Browser Parsed → Option ResourcePolicy × Browser Parsed
chosen mode id b = let (policy, b') = opened id b in set_device_mode mode policy b'

abbrev pub Opens : DeviceSecurityMode → String → Browser Parsed → Type 0
Opens mode id b =
    (p : ResourcePolicy) × ((opened id b).0 ≡ some p)
    × (p.id ≡ id)
    × (detail_view (some id) (chosen mode id b).0 ≡ detail p.name mode (is_custom mode))
    × (detail_view (some id) (opened id (chosen mode id b).1).0
        ≡ detail p.name mode (is_custom mode))

set_mode-window :
    (mode : DeviceSecurityMode) (p : ResourcePolicy) (b : Browser Parsed)
    → b.has_window ≡ true
    → (set_device_mode mode (some p) b).1.has_window ≡ true
unfolding set_device_mode
set_mode-window mode p b w = save-window (record p { mode = mode }) b w

-- Where `window` is defined and a policy is listed under an identifier that is not empty, its page
-- shows it; a mode that is chosen there is shown as chosen, and it still is when the page is opened
-- again.
pub mode_stays :
    (mode : DeviceSecurityMode) (id : String) (b : Browser Parsed)
    → b.has_window ≡ true
    → is_blank id ≡ false
    → HasId id (listed b)
    → Opens mode id b
unfolding detail_view
mode_stays mode id b w filled here =
    let (p, found, same) = find_of_HasKey (λ q. q.id) id (listed b) here in
    let b1 = (list_resource_policies b).1 in
    let first : opened id b ≡ (some p, b1) =
      open_detail-got id b w filled ∙ ap (λ o. (o, b1)) (get-eq-find id b ∙ found) in
    let w1 = window-list b w in
    let listed_there : HasId p.id (listed b1) =
      subst (λ i. HasId i (listed b1)) (sym same)
        (subst (HasId id) (sym (ap (λ r. r.0) (list_settles b w))) here) in
    let (shown, kept) = set_mode_found mode p b1 w1 listed_there in
    let made : chosen mode id b ≡ set_device_mode mode (some p) b1 =
      ap (λ r. set_device_mode mode r.0 r.1) first in
    let w2 : (chosen mode id b).1.has_window ≡ true =
      ap (λ r. r.1.has_window) made ∙ set_mode-window mode p b1 w1 in
    let again : (opened id (chosen mode id b).1).0 ≡ some (record p { mode = mode }) =
      ap (λ r. r.0) (open_detail-got id (chosen mode id b).1 w2 filled)
      ∙ ap (λ r. got id r.1) made
      ∙ subst (λ i. got i (set_device_mode mode (some p) b1).1 ≡ some (record p { mode = mode }))
          same kept in
    (
      p,
      ap (λ r. r.0) first,
      same,
      rw filled (ap policy_view (ap (λ r. r.0) made ∙ shown)),
      rw filled (ap policy_view again),
    )
