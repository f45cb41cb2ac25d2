-- ===== src/ResourcePolicies/Listing.antt =====
-- Reading the policies: the default policy is always listed, and listing settles.
use group_management_ui_back.Prelude.{
  String, ◌≡◌, refl, ◌⊎◌, inl, inr, true, false, List, [], ◌∷◌, ◌==◌, any as some_policy,
  Bool-cases, arith, HasKey, any-HasKey, any_of_HasKey, ap, ◌∙◌, LacksKey, any-LacksKey,
}
use group_management_ui_back.Storage.{Browser}
use group_management_ui_back.ResourcePolicies.{
  ResourcePolicy, Parsed, default_id, default_policy, read_all, write_all,
  ensure_default_resource_policy, list_resource_policies,
}

-- The policies that the page shows, and the browser after showing them.
abbrev pub listed : Browser Parsed → List ResourcePolicy
listed b = (list_resource_policies b).0

abbrev pub HasId : String → List ResourcePolicy → Type 0
HasId = HasKey (λ p. p.id)

pub window-write_all :
    (ps : List ResourcePolicy) (b : Browser Parsed) → (write_all ps b).has_window ≡ b.has_window
unfolding write_all
window-write_all ps b = ground arith

pub read_all-write_all :
    (ps : List ResourcePolicy) (b : Browser Parsed)
    → b.has_window ≡ true
    → read_all (write_all ps b) ≡ ps
unfolding read_all write_all
read_all-write_all ps b w = ground arith

pub list_of_HasId :
    (b : Browser Parsed)
    → HasId default_id (read_all b)
    → list_resource_policies b ≡ (read_all b, b)
unfolding list_resource_policies ensure_default_resource_policy
list_of_HasId b h = rw (any_of_HasKey (λ p. p.id) default_id (read_all b) h)

module _ (b : Browser Parsed) (w : b.has_window ≡ true) where
  -- After a write that keeps the default policy, exactly what was written is listed.
  pub list-write_all :
      (ps : List ResourcePolicy)
      → HasId default_id ps
      → list_resource_policies (write_all ps b) ≡ (ps, write_all ps b)
  list-write_all ps h =
      let e = read_all-write_all ps b w in
      rw (list_of_HasId (write_all ps b) (rw e h)) (ap (λ l. (l, write_all ps b)) e)

  list_seeded :
      some_policy (λ p. p.id == default_id) (read_all b) ≡ false
      → list_resource_policies b
        ≡ (default_policy ∷ read_all b, write_all (default_policy ∷ read_all b) b)
  unfolding list_resource_policies ensure_default_resource_policy
  list_seeded h =
      let l = default_policy ∷ read_all b in
      rw h (ap (λ m. (m, write_all l b)) (read_all-write_all l b w))

  -- Listing finds the default policy, or seeds it before all others; nothing else changes.
  pub list-cases :
      (HasId default_id (read_all b) × (list_resource_policies b ≡ (read_all b, b)))
      ⊎ (LacksKey (λ p. p.id) default_id (read_all b)
          × (list_resource_policies b
              ≡ (default_policy ∷ read_all b, write_all (default_policy ∷ read_all b) b)))
  list-cases = elim (Bool-cases (some_policy (λ p. p.id == default_id) (read_all b))) [
    | inl h ↦ let m = any-HasKey (λ p. p.id) default_id (read_all b) h in inl (m, list_of_HasId b m)
    | inr h ↦ inr (any-LacksKey (λ p. p.id) default_id (read_all b) h, list_seeded h)
  ]

  -- Where `window` is defined, the default policy is listed, whatever is stored.
  pub list-HasDefault : HasId default_id (listed b)
  list-HasDefault = elim list-cases [
    | inl (m, e) ↦ rw (e, listed) m
    | inr (_, e) ↦ rw (e, listed) (inl refl)
  ]

  pub window-list : (list_resource_policies b).1.has_window ≡ true
  window-list = elim list-cases [
    | inl (_, e) ↦ rw e w
    | inr (_, e) ↦ rw e (window-write_all (default_policy ∷ read_all b) b ∙ w)
  ]

  -- Where `window` is defined, listing settles: a second listing shows the same policies and
  -- writes nothing.
  pub list_settles : list_resource_policies (list_resource_policies b).1 ≡ list_resource_policies b
  list_settles = elim list-cases [
    | inl (_, e) ↦ rw (e, e) refl
    | inr (_, e) ↦ rw (e, list-write_all (default_policy ∷ read_all b) (inl refl)) refl
  ]

-- A write after a listing, of a list with the default policy, is what is listed next.
pub list-write-list :
    (b : Browser Parsed) (ps : List ResourcePolicy)
    → b.has_window ≡ true
    → HasId default_id ps
    → listed (write_all ps (list_resource_policies b).1) ≡ ps
list-write-list b ps w h =
    ap (λ r. r.0) (list-write_all (list_resource_policies b).1 (window-list b w) ps h)

-- Where `window` is undefined nothing is listed and nothing is written.
pub list_of_no_window :
    (b : Browser Parsed) → b.has_window ≡ false → list_resource_policies b ≡ ([], b)
unfolding list_resource_policies ensure_default_resource_policy
list_of_no_window b w = ground arith

pub list-ensure :
    (b : Browser Parsed)
    → b.has_window ≡ true
    → list_resource_policies (ensure_default_resource_policy b) ≡ list_resource_policies b
unfolding list_resource_policies
list-ensure b w = list_settles b w
