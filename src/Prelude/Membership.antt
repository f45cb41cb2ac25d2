-- ===== src/Prelude/Membership.antt =====
-- Membership in lists, by recursion, and how `filter`, `includes` and `All` go with it.
use Prim.Native.String.{String}
use mathlib.Core.Path.{◌≡◌, refl, sym, ap, subst, ◌∙◌}
use mathlib.Core.Logic.{◌⊎◌, ◌↔◌, inl, inr}
use mathlib.Core.Bool.{true, false, Bool}
use mathlib.Core.List.{List, [], ◌∷◌}
use native.Mathlib.Omega.{arith}
use text.Mathlib.Text.{◌==◌}
use text.Mathlib.TextEquality.{eq_iff}
use group_management_ui_back.Prelude.Tests.{Bool-cases}
use group_management_ui_back.Prelude.Lists.{filter, includes, All}

-- Membership, by recursion.
module _ {A : Type 0} where
  abbrev pub In : A → List A → Type 0
  In a [] = ⊥
  In a (x ∷ xs) = (x ≡ a) ⊎ In a xs

  pub In-filter :
      (p : A → Bool) (a : A) (xs : List A) → In a (filter p xs) ↔ (In a xs × (p a ≡ true))
  In-filter p a [] = ((λ h. absurd h), (λ h. absurd h.0))
  In-filter p a (x ∷ xs) = elim (Bool-cases (p x)) [
    | inl e ↦ rw e (
      (λ h. elim h [
        | inl q ↦ (inl q, ap p (sym q) ∙ e)
        | inr m ↦ (inr ((In-filter p a xs).0 m).0, ((In-filter p a xs).0 m).1)
      ]),
      (λ h. elim h.0 [ inl q ↦ inl q | inr m ↦ inr ((In-filter p a xs).1 (m, h.1)) ]),
    )
    | inr e ↦ rw e (
      (λ m. (inr ((In-filter p a xs).0 m).0, ((In-filter p a xs).0 m).1)),
      (λ h. elim h.0 [ inl q ↦ cc (ap p q, e, h.1) | inr m ↦ (In-filter p a xs).1 (m, h.1) ]),
    )
  ]

  pub All-In {κ} : (P : A → Type κ) (xs : List A) → ((a : A) → In a xs → P a) → All P xs
  All-In P [] g = tt
  All-In P (x ∷ xs) g = (g x (inl refl), All-In P xs (λ a m. g a (inr m)))

  pub In-All {κ} : (P : A → Type κ) (xs : List A) (a : A) → All P xs → In a xs → P a
  In-All P [] a h m = absurd m
  In-All P (x ∷ xs) a (p, h) (inl e) = subst P e p
  In-All P (x ∷ xs) a (p, h) (inr m) = In-All P xs a h m

pub includes_iff : (s : String) (xs : List String) → (includes s xs ≡ true) ↔ In s xs
includes_iff s [] = ((λ h. cc), (λ h. absurd h))
includes_iff s (x ∷ xs) = (
  (λ h. elim (Bool-cases (x == s)) [
    | inl e ↦ inl ((eq_iff x s).0 e)
    | inr e ↦ inr ((includes_iff s xs).0 (ground arith))
  ]),
  (λ h. elim h [
    | inl e ↦ ground (arith, eq_iff x s)
    | inr m ↦ ground (arith, (includes_iff s xs).1 m)
  ]),
)

pub includes-eq-false : (s : String) (xs : List String) → (In s xs → ⊥) → includes s xs ≡ false
includes-eq-false s xs h = elim (Bool-cases (includes s xs)) [
  | inl e ↦ absurd (h ((includes_iff s xs).0 e))
  | inr e ↦ e
]
