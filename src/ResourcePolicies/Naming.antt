-- ===== src/ResourcePolicies/Naming.antt =====
-- Creating a policy: which names are refused, and what is listed and found afterwards.
use group_management_ui_back.Prelude.{
  String, ◌≡◌, ◌≢◌, ◌↔◌, refl, ap, subst, ◌∙◌, true, false, some, ◌∷◌, ◌==◌, inl, inr, eq_refl,
  any as some_policy, Bool-cases, HasKey, LacksKey, KeysDistinct, any-HasKey, any-LacksKey,
  LacksKey-not-HasKey, is_blank, trim, eq_of_is_blank, ne_of_is_blank,
}
use group_management_ui_back.Storage.{Browser}
use group_management_ui_back.ResourcePolicies.{
  ResourcePolicy, any, Parsed, Entropy, Created, Failure, ok, err, name_required, name_exists,
  write_all, new_id, list_resource_policies, create_resource_policy,
}
use group_management_ui_back.ResourcePolicies.Listing.{
  listed, list-HasDefault, list-write-list, list_settles,
}
use group_management_ui_back.ResourcePolicies.Editing.{got, get-eq-find}

module _ (lower : String → String) where
  -- The key by which names are compared.
  abbrev pub name_key : ResourcePolicy → String
  name_key p = lower p.name

  module _ (e : Entropy) (name : String) where
    -- The policy that a successful call creates.
    abbrev fresh : ResourcePolicy
    fresh = record { id = new_id e "pol"; name = trim name; is_default = false; mode = any }

    module _ (b : Browser Parsed) where
      abbrev run : Created × Browser Parsed
      run = create_resource_policy lower e name b

      data Outcome : Type 0 where
        refused_blank : trim name ≡ "" → run ≡ (err name_required, b) → Outcome
        refused_taken :
            trim name ≢ ""
            → HasKey name_key (lower (trim name)) (listed b)
            → run ≡ (err name_exists, (list_resource_policies b).1)
            → Outcome
        created :
            trim name ≢ ""
            → LacksKey name_key (lower (trim name)) (listed b)
            → run ≡ (ok fresh, write_all (fresh ∷ listed b) (list_resource_policies b).1)
            → Outcome

      outcome : Outcome
      unfolding create_resource_policy
      outcome = elim (Bool-cases (is_blank (trim name))) [
        | inl h ↦ refused_blank (eq_of_is_blank (trim name) h) (rw h)
        | inr h ↦
            elim (Bool-cases (some_policy (λ p. lower p.name == lower (trim name)) (listed b))) [
              | inl m ↦
                  refused_taken (ne_of_is_blank (trim name) h)
                    (any-HasKey name_key (lower (trim name)) (listed b) m) (rw (h, m))
              | inr m ↦
                  created (ne_of_is_blank (trim name) h)
                    (any-LacksKey name_key (lower (trim name)) (listed b) m) (rw (h, m))
            ]
      ]

      not_refused :
          {x : Failure} {c : Browser Parsed} {p : ResourcePolicy}
          → run ≡ (err x, c)
          → run.0 ≡ ok p
          → ⊥
      not_refused e f = cc (ap (λ r. r.0) e)

      ok_inj : {p q : ResourcePolicy} {c : Browser Parsed} → run ≡ (ok p, c) → run.0 ≡ ok q → p ≡ q
      ok_inj e f = cc (ap (λ r. r.0) e)

      not_created :
          {p : ResourcePolicy} {x : Failure} {c : Browser Parsed}
          → run ≡ (ok p, c)
          → run.0 ≡ err x
          → ⊥
      not_created e f = cc (ap (λ r. r.0) e)

      -- A policy is created exactly when the trimmed name is not empty and no listed policy has
      -- it up to case.
      pub create-eq-ok_iff :
          ((p : ResourcePolicy) × (run.0 ≡ ok p))
          ↔ ((trim name ≢ "") × LacksKey name_key (lower (trim name)) (listed b))
      create-eq-ok_iff = elim outcome [
        | refused_blank blank e ↦ ((λ c. absurd (not_refused e c.1)), (λ c. absurd (c.0 blank)))
        | refused_taken _ m e ↦ (
          (λ c. absurd (not_refused e c.1)),
          (λ c. absurd (LacksKey-not-HasKey name_key (lower (trim name)) (listed b) c.1 m)),
        )
        | created ne l e ↦ ((λ _. (ne, l)), (λ _. (fresh, ap (λ r. r.0) e)))
      ]

      module _ (w : b.has_window ≡ true) where
        settled : listed (list_resource_policies b).1 ≡ listed b
        settled = ap (λ r. r.0) (list_settles b w)

        listed_created :
            run ≡ (ok fresh, write_all (fresh ∷ listed b) (list_resource_policies b).1)
            → listed run.1 ≡ fresh ∷ listed b
        listed_created c =
            ap (λ r. listed r.1) c
            ∙ list-write-list b (fresh ∷ listed b) w (inr (list-HasDefault b w))

        abbrev IsShown : ResourcePolicy → Type 0
        IsShown p =
            (p.name ≡ trim name)
            × (p.is_default ≡ false)
            × (listed run.1 ≡ p ∷ listed b)
            × (got p.id run.1 ≡ some p)

        fresh-IsShown :
            run ≡ (ok fresh, write_all (fresh ∷ listed b) (list_resource_policies b).1)
            → IsShown fresh
        fresh-IsShown c =
            let l = listed_created c in
            (refl, refl, l, rw (get-eq-find fresh.id run.1, l) (rw (eq_refl fresh.id)))

        -- Where `window` is defined, a created policy has the trimmed name, is no default, stands
        -- first in the list before all that was listed, and is found under its identifier.
        pub create_listed :
            (p : ResourcePolicy)
            → run.0 ≡ ok p
            → (p.name ≡ trim name)
              × (p.is_default ≡ false)
              × (listed run.1 ≡ p ∷ listed b)
              × (got p.id run.1 ≡ some p)
        create_listed p h = elim outcome [
          | refused_blank _ e ↦ absurd (not_refused e h)
          | refused_taken _ _ e ↦ absurd (not_refused e h)
          | created _ _ c ↦ subst IsShown (ok_inj c h) (fresh-IsShown c)
        ]

        -- Where `window` is defined, a refused call leaves what is listed as it was.
        pub create_refused : (x : Failure) → run.0 ≡ err x → listed run.1 ≡ listed b
        create_refused x h = elim outcome [
          | refused_blank _ e ↦ rw e
          | refused_taken _ _ e ↦ rw e settled
          | created _ _ c ↦ absurd (not_created c h)
        ]

        -- Where `window` is defined, no two listed policies come to share a name up to case.
        pub create-NamesDistinct :
            KeysDistinct name_key (listed b) → KeysDistinct name_key (listed run.1)
        create-NamesDistinct d = elim outcome [
          | refused_blank _ e ↦ rw e d
          | refused_taken _ _ e ↦ rw (e, settled) d
          | created _ l c ↦ rw (listed_created c) (l, d)
        ]
