-- ===== src/GroupResources/Choosing.antt =====
-- frontend/components/dashboard/groups/add-resources-modal.tsx: the set of chosen resources.
use mathlib.Core.Path.{fun_ext}
use group_management_ui_back.Prelude.{
  String, ◌≡◌, refl, ap, ◌∙◌, arith, Bool, true, false, ◌||◌, Bool-cases, inl, inr, List, [], ◌∷◌,
  ◌++◌, includes, if◌then◌else◌, ◌==◌, eq_iff,
}
use group_management_ui_back.GroupResources.{
  Modal, Call, add_group_resources, set_add, set_delete, checked, handle_checkbox_change, start_add,
}

-- A set of texts, as the test of its elements.
abbrev pub Test : Type 0
Test = String → Bool

-- What a check box does to it.
abbrev pub mark : String × Bool → Test → Test
mark (id, on) f x = if id == x then on else f x

abbrev pub marks : List (String × Bool) → Test → Test
marks [] f = f
marks (c ∷ cs) f = marks cs (mark c f)

abbrev pub changes : List (String × Bool) → Modal → Modal
changes [] s = s
changes ((id, on) ∷ cs) s = changes cs (handle_checkbox_change id on s)

includes-snoc :
    (x y : String) (xs : List String) → includes x (xs ++ (y ∷ [])) ≡ (includes x xs || y == x)
includes-snoc x y [] = ground arith
includes-snoc x y (z ∷ xs) = ground (arith, includes-snoc x y xs)

includes-delete :
    (x y : String) (xs : List String)
    → includes x (set_delete y xs) ≡ (if y == x then false else includes x xs)
unfolding set_delete
includes-delete x y [] = ground arith
includes-delete x y (z ∷ xs) =
    ground (arith, eq_iff z y, eq_iff z x, eq_iff y x, includes-delete x y xs)

includes-add :
    (x y : String) (xs : List String)
    → includes x (set_add y xs) ≡ (if y == x then true else includes x xs)
unfolding set_add
includes-add x y xs = elim (Bool-cases (includes y xs)) [
  | inl e ↦ rw e (ground (arith, eq_iff y x))
  | inr e ↦ rw (e, includes-snoc x y xs) (ground arith)
]

includes-checked :
    (x id : String) (on : Bool) (xs : List String)
    → includes x (checked id on xs) ≡ mark (id, on) (λ y. includes y xs) x
includes-checked x id true xs = includes-add x id xs
includes-checked x id false xs = includes-delete x id xs

-- No text stands twice in the list.
abbrev pub IsDistinct : List String → Type 0
IsDistinct [] = Unit
IsDistinct (x ∷ xs) = (includes x xs ≡ false) × IsDistinct xs

IsDistinct-snoc :
    (y : String) (xs : List String)
    → includes y xs ≡ false
    → IsDistinct xs
    → IsDistinct (xs ++ (y ∷ []))
IsDistinct-snoc y [] h d = (refl, tt)
IsDistinct-snoc y (x ∷ xs) h (l, d) = (
  rw (includes-snoc x y xs, l) (ground (arith, eq_iff x y, eq_iff y x)),
  IsDistinct-snoc y xs (ground arith) d,
)

IsDistinct-delete : (y : String) (xs : List String) → IsDistinct xs → IsDistinct (set_delete y xs)
unfolding set_delete
IsDistinct-delete y [] d = tt
IsDistinct-delete y (x ∷ xs) (l, d) = elim (Bool-cases (x == y)) [
  | inl e ↦ rw e (IsDistinct-delete y xs d)
  | inr e ↦ rw e (includes-delete x y xs ∙ ground arith, IsDistinct-delete y xs d)
]

IsDistinct-checked :
    (id : String) (on : Bool) (xs : List String) → IsDistinct xs → IsDistinct (checked id on xs)
unfolding set_add
IsDistinct-checked id false xs d = IsDistinct-delete id xs d
IsDistinct-checked id true xs d = elim (Bool-cases (includes id xs)) [
  | inl e ↦ rw e d
  | inr e ↦ rw e (IsDistinct-snoc id xs e d)
]

abbrev pub selected : Modal → Test
selected s x = includes x s.selected_resource_ids

changes-selected :
    (cs : List (String × Bool)) (s : Modal) → selected (changes cs s) ≡ marks cs (selected s)
unfolding handle_checkbox_change
changes-selected [] s = refl
changes-selected ((id, on) ∷ cs) s =
    changes-selected cs (handle_checkbox_change id on s)
    ∙ ap (marks cs) (fun_ext (λ x. includes-checked x id on s.selected_resource_ids))

changes-IsDistinct :
    (cs : List (String × Bool)) (s : Modal)
    → IsDistinct s.selected_resource_ids
    → IsDistinct (changes cs s).selected_resource_ids
unfolding handle_checkbox_change
changes-IsDistinct [] s d = d
changes-IsDistinct ((id, on) ∷ cs) s d =
    changes-IsDistinct cs (handle_checkbox_change id on s)
      (IsDistinct-checked id on s.selected_resource_ids d)

-- The identifiers that a call adds to a group.
abbrev pub sent_ids : List Call → List String
sent_ids (add_group_resources group ids ∷ cs) = ids
sent_ids _ = []

-- After any changes of the check boxes, "Add" sends each resource whose last change was to check
-- it, or that was chosen before and not changed since, and no other, and none twice.
pub start_add_refines :
    (group : String) (cs : List (String × Bool)) (s : Modal)
    → IsDistinct s.selected_resource_ids
    → ((λ x. includes x (sent_ids (start_add group (changes cs s)).0)) ≡ marks cs (selected s))
      × IsDistinct (sent_ids (start_add group (changes cs s)).0)
unfolding start_add
start_add_refines group cs s d = (changes-selected cs s, changes-IsDistinct cs s d)
