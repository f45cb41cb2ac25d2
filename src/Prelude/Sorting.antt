-- ===== src/Prelude/Sorting.antt =====
-- `Array.prototype.sort` with a comparison that is a total preorder: stable, so an insertion sort.
use mathlib.Core.Path.{◌≡◌}
use mathlib.Core.Logic.{inl, inr}
use mathlib.Core.Bool.{Bool, true, false}
use mathlib.Core.List.{List, [], ◌∷◌, Perm}
use mathlib.Core.List.Perm
use group_management_ui_back.Prelude.Tests.{Bool-cases, if◌then◌else◌}
use group_management_ui_back.Prelude.Lists.{All, All-imp}

module _ {ℓ κ} {A : Type ℓ} (R : A → A → Type κ) where
  -- Every element is related to all that come after it.
  abbrev pub Pairwise : List A → Type κ
  Pairwise [] = Unit
  Pairwise (x ∷ xs) = All (R x) xs × Pairwise xs

module _ {ℓ} {A : Type ℓ} (le : A → A → Bool) where
  unfoldable pub insert_sorted : A → List A → List A
  insert_sorted x [] = x ∷ []
  insert_sorted x (y ∷ ys) = if le x y then x ∷ y ∷ ys else y ∷ insert_sorted x ys

  unfoldable pub sort : List A → List A
  unfolding insert_sorted
  sort [] = []
  sort (x ∷ xs) = insert_sorted x (sort xs)

  insert_sorted-Perm : (x : A) (ys : List A) → Perm (insert_sorted x ys) (x ∷ ys)
  unfolding insert_sorted
  insert_sorted-Perm x [] = Perm.refl _
  insert_sorted-Perm x (y ∷ ys) = elim (Bool-cases (le x y)) [
    | inl e ↦ rw e (Perm.refl _)
    | inr e ↦ rw e (Perm.trans (Perm.cons y (insert_sorted-Perm x ys)) (Perm.swap _ _ _))
  ]

  -- Sorting neither adds nor loses anything.
  pub sort-Perm : (xs : List A) → Perm (sort xs) xs
  unfolding sort
  sort-Perm [] = Perm.refl _
  sort-Perm (x ∷ xs) = Perm.trans (insert_sorted-Perm x (sort xs)) (Perm.cons x (sort-Perm xs))

  module _ (flips : (x y : A) → le x y ≡ false → le y x ≡ true)
      (trans : (x y z : A) → le x y ≡ true → le y z ≡ true → le x z ≡ true) where
    abbrev pub Le : A → A → Type 0
    Le x y = le x y ≡ true

    insert_sorted-All :
        (z x : A) (ys : List A) → Le z x → All (Le z) ys → All (Le z) (insert_sorted x ys)
    unfolding insert_sorted
    insert_sorted-All z x [] h l = (h, tt)
    insert_sorted-All z x (y ∷ ys) h (k, l) = elim (Bool-cases (le x y)) [
      | inl e ↦ rw e (h, (k, l))
      | inr e ↦ rw e (k, insert_sorted-All z x ys h l)
    ]

    insert_sorted-Pairwise :
        (x : A) (ys : List A) → Pairwise Le ys → Pairwise Le (insert_sorted x ys)
    unfolding insert_sorted
    insert_sorted-Pairwise x [] p = (tt, tt)
    insert_sorted-Pairwise x (y ∷ ys) (l, p) = elim (Bool-cases (le x y)) [
      | inl e ↦ rw e ((e, All-imp (Le y) (Le x) (λ z k. trans x y z e k) ys l), (l, p))
      | inr e ↦ rw e (insert_sorted-All y x ys (flips x y e) l, insert_sorted-Pairwise x ys p)
    ]

    -- Where the comparison is total and transitive, the result is in order.
    pub sort-Pairwise : (xs : List A) → Pairwise Le (sort xs)
    unfolding sort
    sort-Pairwise [] = tt
    sort-Pairwise (x ∷ xs) = insert_sorted-Pairwise x (sort xs) (sort-Pairwise xs)
