-- ===== src/ResourcePolicies/Showing.antt =====
-- What the pages show is what is stored.
use group_management_ui_back.Prelude.{
  map, if◌then◌else◌, String, ◌≡◌, refl, ap, sym, ◌∙◌, Bool, true, false, some, Bool-cases, inl,
  inr, ◌⊎◌, filter, not, any as some_policy, is_blank, trim, ◌==◌, eq_refl, any_of_HasKey,
}
use group_management_ui_back.Storage.{Browser}
use group_management_ui_back.ResourcePolicies.{
  DeviceSecurityMode, ResourcePolicy, Parsed, Entropy, Failure, Created, ok, err, default_id,
  list_resource_policies, create_resource_policy, delete_resource_policy, save_resource_policy,
}
use group_management_ui_back.ResourcePolicies.Listing.{
  listed, HasId, list_settles, list-ensure, window-list, window-write_all,
}
use group_management_ui_back.ResourcePolicies.Editing.{got, get-save}
use group_management_ui_back.ResourcePolicies.Naming.{create_refused}
use group_management_ui_back.ResourcePolicies.Page.{
  Dialog, State, load, handle_delete, handle_create, set_device_mode,
}

-- The page shows the policies that are listed, and storage is at hand.
abbrev pub IsShowing : State × Browser Parsed → Type 0
IsShowing r = (r.1.has_window ≡ true) × (r.0.policies ≡ listed r.1)

-- Where `window` is defined, loading makes the page show what is listed.
pub load-IsShowing : (s : State) (b : Browser Parsed) → b.has_window ≡ true → IsShowing (load s b)
unfolding load
load-IsShowing s b w =
    rw (list-ensure b w) (window-list b w, sym (ap (λ r. r.0) (list_settles b w)))

pub delete-window :
    (id : String) (b : Browser Parsed)
    → b.has_window ≡ true
    → (delete_resource_policy id b).has_window ≡ true
unfolding delete_resource_policy
delete-window id b w = elim (Bool-cases (id == default_id)) [
  | inl same ↦ rw same w
  | inr other ↦ rw other (
      window-write_all (filter (λ p. not (p.id == id)) (listed b)) (list_resource_policies b).1
      ∙ window-list b w)
]

pub save-window :
    (p : ResourcePolicy) (b : Browser Parsed)
    → b.has_window ≡ true
    → (save_resource_policy p b).has_window ≡ true
unfolding save_resource_policy
save-window p b w =
    window-write_all (map (λ q. if q.id == p.id then p else q) (listed b))
      (list_resource_policies b).1
    ∙ window-list b w

abbrev taken : (String → String) → String → Browser Parsed → Bool
taken lower name b = some_policy (λ p. lower p.name == lower (trim name)) (listed b)

pub create-window :
    (lower : String → String) (e : Entropy) (name : String) (b : Browser Parsed)
    → b.has_window ≡ true
    → (create_resource_policy lower e name b).1.has_window ≡ true
unfolding create_resource_policy
create-window lower e name b w = elim (Bool-cases (is_blank (trim name))) [
  | inl h ↦ rw h w
  | inr h ↦ elim (Bool-cases (taken lower name b)) [
    | inl t ↦ rw (h, t) (window-list b w)
    | inr t ↦ rw (h, t) (window-write_all _ (list_resource_policies b).1 ∙ window-list b w)
  ]
]

pub Created-cases :
    (c : Created) → ((p : ResourcePolicy) × (c ≡ ok p)) ⊎ ((x : Failure) × (c ≡ err x))
Created-cases (ok p) = inl (p, refl)
Created-cases (err x) = inr (x, refl)

-- Where the page shows what is stored, it does so after a deletion, whatever the answer to the
-- question and whatever the policy.
pub delete-IsShowing :
    (p : ResourcePolicy) (confirmed : Bool) (s : State) (b : Browser Parsed)
    → IsShowing (s, b)
    → IsShowing (handle_delete p confirmed s b)
unfolding handle_delete
delete-IsShowing p confirmed s b h = elim (Bool-cases p.is_default) [
  | inl d ↦ rw d h
  | inr d ↦ elim (Bool-cases confirmed) [
    | inl c ↦
        rw (d, c) (load-IsShowing s (delete_resource_policy p.id b) (delete-window p.id b h.0))
    | inr c ↦ rw (d, c) h
  ]
]

-- Where the page shows what is stored, it does so after a creation, whether it is refused or not.
pub create-IsShowing :
    (lower : String → String) (e : Entropy) (d : Dialog) (s : State) (b : Browser Parsed)
    → IsShowing (s, b)
    → IsShowing (handle_create lower e d s b).1
unfolding handle_create
create-IsShowing lower e d s b h = elim (Bool-cases (is_blank (trim d.name))) [
  | inl blank ↦ rw (blank, handle_create) h
  | inr filled ↦
      let run = create_resource_policy lower e (trim d.name) b in
      let w = create-window lower e (trim d.name) b h.0 in
      elim (Created-cases run.0) [
        | inl (p, c) ↦
            rw (filled, c, handle_create)
              (load-IsShowing (record s { is_create_open = false }) run.1 w)
        | inr (x, c) ↦
            rw (filled, c, handle_create)
              (w, h.1 ∙ sym (create_refused lower e (trim d.name) b h.0 x c))
      ]
]

-- Where `window` is defined and the policy is listed under its identifier, choosing a mode shows
-- the policy with that mode, and it is what is found from then on.
pub set_mode_found :
    (mode : DeviceSecurityMode) (p : ResourcePolicy) (b : Browser Parsed)
    → b.has_window ≡ true
    → HasId p.id (listed b)
    → ((set_device_mode mode (some p) b).0 ≡ some (record p { mode = mode }))
      × (got p.id (set_device_mode mode (some p) b).1 ≡ some (record p { mode = mode }))
unfolding set_device_mode
set_mode_found mode p b w m = (
  refl,
  get-save b w (record p { mode = mode }) p.id
      ∙ rw (eq_refl p.id, any_of_HasKey (λ q. q.id) p.id (listed b) m) refl,
)
