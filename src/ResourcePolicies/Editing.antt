-- ===== src/ResourcePolicies/Editing.antt =====
-- Saving and deleting, as `getResourcePolicy` sees them.
use group_management_ui_back.Prelude.{
  String, ◌≡◌, ◌≢◌, refl, ne_of_==, sym, true, Option, none, some, ◌==◌, not, inl, inr, eq_iff,
  any as some_policy, Bool-cases, map, filter, find, if◌then◌else◌, KeysDistinct, find-filter,
  find-replace, HasKey-replace, HasKey-filter_ne, KeysDistinct-filter, KeysDistinct-replace,
}
use group_management_ui_back.Storage.{Browser}
use group_management_ui_back.ResourcePolicies.{
  ResourcePolicy, Parsed, default_id, get_resource_policy, save_resource_policy,
  delete_resource_policy,
}
use group_management_ui_back.ResourcePolicies.Listing.{listed, list-HasDefault, list-write-list}

-- The policy that `getResourcePolicy` returns.
abbrev pub got : String → Browser Parsed → Option ResourcePolicy
got id b = (get_resource_policy id b).0

pub get-eq-find : (id : String) (b : Browser Parsed) → got id b ≡ find (λ p. p.id == id) (listed b)
unfolding get_resource_policy
get-eq-find id b = refl

module _ (b : Browser Parsed) (w : b.has_window ≡ true) where
  listed-delete :
      (id : String)
      → default_id ≢ id
      → listed (delete_resource_policy id b) ≡ filter (λ p. not (p.id == id)) (listed b)
  unfolding delete_resource_policy
  listed-delete id ne = elim (Bool-cases (id == default_id)) [
    | inl same ↦ absurd (ne (sym ((eq_iff id default_id).0 same)))
    | inr other ↦ rw other (
        list-write-list b (filter (λ p. not (p.id == id)) (listed b)) w (
          HasKey-filter_ne (λ p. p.id) id default_id (listed b) (λ e. ne (sym e))
            (list-HasDefault b w)))
  ]

  delete_of_default : (id : String) → (id == default_id) ≡ true → delete_resource_policy id b ≡ b
  unfolding delete_resource_policy
  delete_of_default id same = rw same

  -- Where `window` is defined, deleting removes the policy with the identifier, except that the
  -- default policy stays as it is; every other policy is found as before.
  pub get-delete :
      (id j : String)
      → got j (delete_resource_policy id b)
        ≡ (if id == default_id then got j b else if id == j then none else got j b)
  get-delete id j = elim (Bool-cases (id == default_id)) [
    | inl same ↦ rw (same, delete_of_default id same) refl
    | inr other ↦
        rw
          (
            other,
            get-eq-find j (delete_resource_policy id b),
            listed-delete id (λ e. ne_of_== id default_id other (sym e)),
            get-eq-find j b,
          )
          (find-filter (λ p. p.id) id j (listed b))
  ]

  listed-save :
      (policy : ResourcePolicy)
      → listed (save_resource_policy policy b)
        ≡ map (λ p. if p.id == policy.id then policy else p) (listed b)
  unfolding save_resource_policy
  listed-save policy =
      list-write-list b (map (λ p. if p.id == policy.id then policy else p) (listed b)) w
        (HasKey-replace (λ p. p.id) policy default_id (listed b) (list-HasDefault b w))

  -- Where `window` is defined, saving replaces the policy with the saved one's identifier if there is one, adds none,
  -- and leaves every other policy as it was found.
  pub get-save :
      (policy : ResourcePolicy) (j : String)
      → got j (save_resource_policy policy b) ≡ (
          if policy.id == j
          then (if some_policy (λ p. p.id == policy.id) (listed b) then some policy else none)
          else got j b)
  get-save policy j =
      rw (get-eq-find j (save_resource_policy policy b), listed-save policy, get-eq-find j b)
        (find-replace (λ p. p.id) policy j (listed b))

-- Where `window` is defined, deleting and saving keep the identifiers of the listed policies
-- distinct.
pub edits-KeysDistinct :
    (b : Browser Parsed) (id : String) (policy : ResourcePolicy)
    → b.has_window ≡ true
    → KeysDistinct (λ p. p.id) (listed b)
    → KeysDistinct (λ p. p.id) (listed (delete_resource_policy id b))
      × KeysDistinct (λ p. p.id) (listed (save_resource_policy policy b))
edits-KeysDistinct b id policy w d = (
  elim (Bool-cases (id == default_id)) [
    | inl same ↦ rw (delete_of_default b w id same) d
    | inr other ↦
        rw (listed-delete b w id (λ e. ne_of_== id default_id other (sym e)), listed)
          (KeysDistinct-filter (λ p. p.id) (λ p. not (p.id == id)) (listed b) d)
  ],
  rw (listed-save b w policy, listed) (KeysDistinct-replace (λ p. p.id) policy (listed b) d),
)
