-- ===== src/Prelude/Lists.antt =====
-- `Array.prototype` methods over lists, with the callback as a Boolean test, and their laws.
use Prim.Native.Nat.{ℕ, zero, suc, ◌≤◌}
use Prim.Native.String.{String}
use mathlib.Core.Path.{◌≡◌, refl, ap}
use mathlib.Core.Logic.{inl, inr}
use mathlib.Core.Bool.{true, Bool, false, ◌||◌}
use mathlib.Core.Option.{Option, none, some}
use mathlib.Core.List.{List, [], ◌∷◌, ◌++◌, map}
use native.Mathlib.Omega.{arith}
use text.Mathlib.Text.{◌==◌}
use group_management_ui_back.Prelude.Tests.{if◌then◌else◌, Bool-cases}

module _ {ℓ} {A : Type ℓ} where
  abbrev pub length : List A → ℕ
  length [] = 0
  length (x ∷ xs) = suc (length xs)

  abbrev pub take : ℕ → List A → List A
  take zero xs = []
  take (suc n) [] = []
  take (suc n) (x ∷ xs) = x ∷ take n xs

  -- `xs.some(p)`
  abbrev pub any : (A → Bool) → List A → Bool
  any p [] = false
  any p (x ∷ xs) = p x || any p xs

  -- `xs.filter(p)`
  abbrev pub filter : (A → Bool) → List A → List A
  filter p [] = []
  filter p (x ∷ xs) = if p x then x ∷ filter p xs else filter p xs

  -- `xs.find(p)`, with `undefined` as `none`
  abbrev pub find : (A → Bool) → List A → Option A
  find p [] = none
  find p (x ∷ xs) = if p x then some x else find p xs

  -- `xs[0]`
  abbrev pub first : List A → Option A
  first [] = none
  first (x ∷ xs) = some x

-- `xs.includes(x)` on texts
abbrev pub includes : String → List String → Bool
includes x [] = false
includes x (y ∷ ys) = y == x || includes x ys

module _ {ℓ κ} {A : Type ℓ} (P : A → Type κ) where
  abbrev pub All : List A → Type κ
  All [] = Unit
  All (x ∷ xs) = P x × All xs

  pub All-append : (xs ys : List A) → All xs → All ys → All (xs ++ ys)
  All-append [] ys h k = k
  All-append (x ∷ xs) ys (p, h) k = (p, All-append xs ys h k)

module _ {ℓ} {A : Type ℓ} (p : A → Bool) where
  pub filter-sublength : (xs : List A) → length (filter p xs) ≤ length xs
  filter-sublength [] = omega arith
  filter-sublength (x ∷ xs) = ground (arith, filter-sublength xs)

  pub filter_idem : (xs : List A) → filter p (filter p xs) ≡ filter p xs
  filter_idem [] = refl
  filter_idem (x ∷ xs) = elim (Bool-cases (p x)) [
    | inl h ↦ rw (h, h) (ap (λ t. x ∷ t) (filter_idem xs))
    | inr h ↦ rw h (filter_idem xs)
  ]

module _ {ℓ} {A : Type ℓ} where
  pub length-map {κ} : {B : Type κ} (f : A → B) (xs : List A) → length (map f xs) ≡ length xs
  length-map f [] = refl
  length-map f (x ∷ xs) = ap suc (length-map f xs)

  pub All-map {κ ν} :
      {B : Type ν} (P : A → Type κ) (Q : B → Type κ) (f : A → B)
      → ((x : A) → P x → Q (f x))
      → (xs : List A) → All P xs
      → All Q (map f xs)
  All-map P Q f g [] h = tt
  All-map P Q f g (x ∷ xs) (p, h) = (g x p, All-map P Q f g xs h)

  pub All-imp {κ ν} :
      (P : A → Type κ) (Q : A → Type ν)
      → ((x : A) → P x → Q x)
      → (xs : List A) → All P xs
      → All Q xs
  All-imp P Q g [] h = tt
  All-imp P Q g (x ∷ xs) (p, h) = (g x p, All-imp P Q g xs h)

  pub All-both {κ ν} :
      (P : A → Type κ) (Q : A → Type ν) (xs : List A)
      → All P xs
      → All Q xs
      → All (λ x. P x × Q x) xs
  All-both P Q [] h k = tt
  All-both P Q (x ∷ xs) (p, h) (q, k) = ((p, q), All-both P Q xs h k)

  pub All-filter {κ} :
      (P : A → Type κ) (p : A → Bool) (xs : List A)
      → All P xs
      → All (λ x. P x × (p x ≡ true)) (filter p xs)
  All-filter P p [] h = tt
  All-filter P p (x ∷ xs) (a, h) = elim (Bool-cases (p x)) [
    | inl e ↦ rw e ((a, e), All-filter P p xs h)
    | inr e ↦ rw e (All-filter P p xs h)
  ]

  pub All-All {κ} : (P : A → Type κ) → ((x : A) → P x) → (xs : List A) → All P xs
  All-All P g [] = tt
  All-All P g (x ∷ xs) = (g x, All-All P g xs)
