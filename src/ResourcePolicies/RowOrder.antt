-- ===== src/ResourcePolicies/RowOrder.antt =====
-- The order of the rows of the page.
use Prim.Native.Nat.{Ordering}
use mathlib.Core.List.{Perm}
use group_management_ui_back.Prelude.{
  String, ◌≡◌, true, false, not, List, [], ◌∷◌, arith, sort-Perm, sort-Pairwise, Pairwise, All-imp,
}
use group_management_ui_back.ResourcePolicies.{ResourcePolicy}
use group_management_ui_back.ResourcePolicies.Page.{State, order, is_gt, sorted}

-- What `localeCompare` is documented to be: an order in which any two texts compare both ways.
pub record IsOrder (compare : String → String → Ordering) : Type 0 where
  pub flips : (s t : String) → is_gt (compare s t) ≡ true → is_gt (compare t s) ≡ false
  pub trans :
      (s t u : String)
      → is_gt (compare s t) ≡ false
      → is_gt (compare t u) ≡ false
      → is_gt (compare s u) ≡ false

-- The first row may stand before the second: no custom policy before a default one, and the names
-- in order among policies of one kind.
pub record Precedes (compare : String → String → Ordering) (p q : ResourcePolicy) : Type 0 where
  pub default_first : q.is_default ≡ true → p.is_default ≡ true
  pub by_name : p.is_default ≡ q.is_default → is_gt (compare p.name q.name) ≡ false

module _ (compare : String → String → Ordering) (c : IsOrder compare) where
  order_flips :
      (p q : ResourcePolicy)
      → not (is_gt (order compare p q)) ≡ false
      → not (is_gt (order compare q p)) ≡ true
  unfolding order
  order_flips p q h = ground (arith, c.flips p.name q.name)

  order_trans :
      (p q r : ResourcePolicy)
      → not (is_gt (order compare p q)) ≡ true
      → not (is_gt (order compare q r)) ≡ true
      → not (is_gt (order compare p r)) ≡ true
  unfolding order
  order_trans p q r h k = ground (arith, c.trans p.name q.name r.name)

  order-Precedes :
      (p q : ResourcePolicy) → not (is_gt (order compare p q)) ≡ true → Precedes compare p q
  unfolding order
  order-Precedes p q h = record { default_first = λ d. ground arith; by_name = λ e. ground arith }

  Pairwise-imp :
      (ps : List ResourcePolicy)
      → Pairwise (λ p q. not (is_gt (order compare p q)) ≡ true) ps
      → Pairwise (Precedes compare) ps
  Pairwise-imp [] h = tt
  Pairwise-imp (p ∷ ps) (l, h) = (
    All-imp (λ q. not (is_gt (order compare p q)) ≡ true) (Precedes compare p) (order-Precedes p) ps
        l,
    Pairwise-imp ps h,
  )

  -- Where `localeCompare` is an order, the rows are the policies of the page, none added, lost or
  -- doubled, with the default ones first and the names in order among policies of one kind.
  pub sorted_lem :
      (s : State)
      → Perm (sorted compare s) s.policies × Pairwise (Precedes compare) (sorted compare s)
  unfolding sorted
  sorted_lem s = (
    sort-Perm (λ p q. not (is_gt (order compare p q))) s.policies,
    Pairwise-imp (sorted compare s)
        (sort-Pairwise (λ p q. not (is_gt (order compare p q))) order_flips order_trans s.policies),
  )
