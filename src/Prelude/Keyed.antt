-- ===== src/Prelude/Keyed.antt =====
-- Lists of objects that carry a textual key (`id`, `userId`, …): membership by key, distinct keys,
-- and the laws of `find`, `filter` and `map` by key.
use Prim.Native.String.{String}
use mathlib.Core.Path.{◌≡◌, refl, sym, subst, ◌∙◌}
use mathlib.Core.Logic.{◌≢◌, ◌⊎◌, inl, inr}
use mathlib.Core.Bool.{Bool, true, false, not}
use mathlib.Core.Option.{none, some}
use mathlib.Core.List.{List, [], ◌∷◌, ◌++◌, map}
use native.Mathlib.Omega.{arith}
use text.Mathlib.Text.{◌==◌}
use text.Mathlib.TextEquality.{eq_iff}
use text.Mathlib.TextPositions.{eq_refl}
use group_management_ui_back.Prelude.Tests.{if◌then◌else◌, Bool-cases}
use group_management_ui_back.Prelude.Lists.{any, filter, find, All}

module _ {ℓ} {A : Type ℓ} (key : A → String) where
  -- Some element has the key.
  abbrev pub HasKey : String → List A → Type 0
  HasKey k [] = ⊥
  HasKey k (x ∷ xs) = (key x ≡ k) ⊎ HasKey k xs

  -- No element has the key.
  abbrev pub LacksKey : String → List A → Type 0
  LacksKey k [] = Unit
  LacksKey k (x ∷ xs) = (key x ≢ k) × LacksKey k xs

  -- No two elements share a key.
  abbrev pub KeysDistinct : List A → Type 0
  KeysDistinct [] = Unit
  KeysDistinct (x ∷ xs) = LacksKey (key x) xs × KeysDistinct xs

module _ {ℓ} {A : Type ℓ} (key : A → String) (k : String) where
  pub any-HasKey : (xs : List A) → any (λ x. key x == k) xs ≡ true → HasKey key k xs
  any-HasKey [] h = cc
  any-HasKey (x ∷ xs) h = ground (arith, eq_iff (key x) k, any-HasKey xs)

  pub any_of_HasKey : (xs : List A) → HasKey key k xs → any (λ x. key x == k) xs ≡ true
  any_of_HasKey [] h = absurd h
  any_of_HasKey (x ∷ xs) h = ground (arith, eq_iff (key x) k, any_of_HasKey xs)

  pub any-LacksKey : (xs : List A) → any (λ x. key x == k) xs ≡ false → LacksKey key k xs
  any-LacksKey [] h = tt
  any-LacksKey (x ∷ xs) h =
      ((λ e. ground (arith, eq_iff (key x) k)), any-LacksKey xs (ground arith))

  pub LacksKey-not-HasKey : (xs : List A) → LacksKey key k xs → HasKey key k xs → ⊥
  LacksKey-not-HasKey [] l h = h
  LacksKey-not-HasKey (x ∷ xs) (ne, l) (inl e) = ne e
  LacksKey-not-HasKey (x ∷ xs) (ne, l) (inr h) = LacksKey-not-HasKey xs l h

  pub LacksKey-of_not-HasKey : (xs : List A) → (HasKey key k xs → ⊥) → LacksKey key k xs
  LacksKey-of_not-HasKey [] h = tt
  LacksKey-of_not-HasKey (x ∷ xs) h = ((λ e. h (inl e)), LacksKey-of_not-HasKey xs (λ m. h (inr m)))

  pub find_of_LacksKey : (xs : List A) → LacksKey key k xs → find (λ x. key x == k) xs ≡ none
  find_of_LacksKey [] l = refl
  find_of_LacksKey (x ∷ xs) (ne, l) = ground (arith, eq_iff (key x) k, find_of_LacksKey xs l)

  pub find_of_HasKey :
      (xs : List A) → HasKey key k xs → (x : A) × (find (λ y. key y == k) xs ≡ some x) × (key x ≡ k)
  find_of_HasKey [] h = absurd h
  find_of_HasKey (x ∷ xs) h = elim (Bool-cases (key x == k)) [
    | inl e ↦ (x, rw e, (eq_iff (key x) k).0 e)
    | inr e ↦
        let (y, found, same) =
          find_of_HasKey xs
            (elim h [ inl e' ↦ absurd (ground (arith, eq_iff (key x) k)) | inr m ↦ m ]) in
        (y, rw e found, same)
  ]

  -- The list without the elements of a key.
  pub LacksKey-filter : (xs : List A) → LacksKey key k (filter (λ x. not (key x == k)) xs)
  LacksKey-filter [] = tt
  LacksKey-filter (x ∷ xs) = elim (Bool-cases (key x == k)) [
    | inl e ↦ rw e (LacksKey-filter xs)
    | inr e ↦ rw e ((λ same. ground (arith, eq_iff (key x) k)), LacksKey-filter xs)
  ]

  pub filter_of_LacksKey :
      (xs : List A) → LacksKey key k xs → filter (λ x. not (key x == k)) xs ≡ xs
  filter_of_LacksKey [] l = refl
  filter_of_LacksKey (x ∷ xs) (ne, l) = ground (arith, eq_iff (key x) k, filter_of_LacksKey xs l)

  pub HasKey-filter_ne :
      (j : String) (xs : List A)
      → k ≢ j
      → HasKey key j xs
      → HasKey key j (filter (λ x. not (key x == k)) xs)
  HasKey-filter_ne j [] ne h = absurd h
  HasKey-filter_ne j (x ∷ xs) ne (inl e) = ground (arith, eq_iff (key x) k)
  HasKey-filter_ne j (x ∷ xs) ne (inr h) = elim (Bool-cases (key x == k)) [
    | inl e ↦ rw e (HasKey-filter_ne j xs ne h)
    | inr e ↦ rw e (inr (HasKey-filter_ne j xs ne h))
  ]

  pub find-filter :
      (j : String) (xs : List A)
      → find (λ x. key x == j) (filter (λ x. not (key x == k)) xs)
        ≡ (if k == j then none else find (λ x. key x == j) xs)
  find-filter j [] = ground arith
  find-filter j (x ∷ xs) =
      ground (arith, eq_iff (key x) k, eq_iff (key x) j, eq_iff k j, find-filter j xs)

module _ {ℓ} {A : Type ℓ} (key : A → String) (p : A → Bool) where
  pub LacksKey-filter_any :
      (k : String) (xs : List A) → LacksKey key k xs → LacksKey key k (filter p xs)
  LacksKey-filter_any k [] l = tt
  LacksKey-filter_any k (x ∷ xs) (ne, l) = elim (Bool-cases (p x)) [
    | inl e ↦ rw e (ne, LacksKey-filter_any k xs l)
    | inr e ↦ rw e (LacksKey-filter_any k xs l)
  ]

  pub KeysDistinct-filter : (xs : List A) → KeysDistinct key xs → KeysDistinct key (filter p xs)
  KeysDistinct-filter [] d = tt
  KeysDistinct-filter (x ∷ xs) (l, d) = elim (Bool-cases (p x)) [
    | inl e ↦ rw e (LacksKey-filter_any (key x) xs l, KeysDistinct-filter xs d)
    | inr e ↦ rw e (KeysDistinct-filter xs d)
  ]

module _ {ℓ} {A : Type ℓ} (key : A → String) (y : A) where
  pub find-replace :
      (j : String) (xs : List A)
      → find (λ x. key x == j) (map (λ x. if key x == key y then y else x) xs) ≡ (
          if key y == j
          then (if any (λ x. key x == key y) xs then some y else none)
          else find (λ x. key x == j) xs)
  find-replace j [] = ground arith
  find-replace j (x ∷ xs) =
      ground (arith, eq_iff (key x) (key y), eq_iff (key x) j, eq_iff (key y) j, find-replace j xs)

  pub HasKey-replace :
      (k : String) (xs : List A)
      → HasKey key k xs
      → HasKey key k (map (λ x. if key x == key y then y else x) xs)
  HasKey-replace k [] h = h
  HasKey-replace k (x ∷ xs) (inl e) = ground (arith, eq_iff (key x) (key y))
  HasKey-replace k (x ∷ xs) (inr h) = inr (HasKey-replace k xs h)

  LacksKey-replace :
      (k : String) (xs : List A)
      → LacksKey key k xs
      → LacksKey key k (map (λ x. if key x == key y then y else x) xs)
  LacksKey-replace k [] l = tt
  LacksKey-replace k (x ∷ xs) (ne, l) = elim (Bool-cases (key x == key y)) [
    | inl e ↦ rw e ((λ same. ne ((eq_iff (key x) (key y)).0 e ∙ same)), LacksKey-replace k xs l)
    | inr e ↦ rw e (ne, LacksKey-replace k xs l)
  ]

  pub KeysDistinct-replace :
      (xs : List A)
      → KeysDistinct key xs
      → KeysDistinct key (map (λ x. if key x == key y then y else x) xs)
  KeysDistinct-replace [] d = tt
  KeysDistinct-replace (x ∷ xs) (l, d) = elim (Bool-cases (key x == key y)) [
    | inl e ↦ rw e (
      LacksKey-replace (key y) xs (subst (λ k. LacksKey key k xs) ((eq_iff (key x) (key y)).0 e) l),
      KeysDistinct-replace xs d,
    )
    | inr e ↦ rw e (LacksKey-replace (key x) xs l, KeysDistinct-replace xs d)
  ]

module _ {ℓ} {A : Type ℓ} (key : A → String) where
  pub LacksKey-append :
      (k : String) (xs ys : List A)
      → LacksKey key k xs
      → LacksKey key k ys
      → LacksKey key k (xs ++ ys)
  LacksKey-append k [] ys h l = l
  LacksKey-append k (x ∷ xs) ys (ne, h) l = (ne, LacksKey-append k xs ys h l)

  pub KeysDistinct-append_one :
      (y : A) (xs : List A)
      → LacksKey key (key y) xs
      → KeysDistinct key xs
      → KeysDistinct key (xs ++ y ∷ [])
  KeysDistinct-append_one y [] l d = (tt, tt)
  KeysDistinct-append_one y (x ∷ xs) (ne, l) (fresh, d) = (
    LacksKey-append (key x) xs (y ∷ []) fresh ((λ e. ne (sym e)), tt),
    KeysDistinct-append_one y xs l d,
  )

  pub filter-append_one :
      (y : A) (xs : List A)
      → LacksKey key (key y) xs
      → filter (λ x. not (key x == key y)) (xs ++ y ∷ []) ≡ xs
  filter-append_one y [] l = ground (arith, eq_refl (key y))
  filter-append_one y (x ∷ xs) (ne, l) =
      ground (arith, eq_iff (key x) (key y), filter-append_one y xs l)

  pub KeysDistinct-append :
      (xs ys : List A)
      → KeysDistinct key xs
      → KeysDistinct key ys
      → All (λ x. LacksKey key (key x) ys) xs
      → KeysDistinct key (xs ++ ys)
  KeysDistinct-append [] ys d e l = e
  KeysDistinct-append (x ∷ xs) ys (fresh, d) e (apart, l) =
      (LacksKey-append (key x) xs ys fresh apart, KeysDistinct-append xs ys d e l)
