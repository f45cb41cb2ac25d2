-- ===== src/Navigation/Marking.antt =====
-- frontend/components/dashboard/sidebar.tsx: which items are marked at a path.
use Prim.Native.String.{[] as nil_text, ◌∷◌ as cons_text, ◌++◌ as append}
use text.Mathlib.TextBridge.{IsPrefix}
use text.Mathlib.TextLemmas.{nil-append, cons-append, append-nil, append_assoc}
use text.Mathlib.TextEquality.{starts_with_iff}
use group_management_ui_back.Prelude.{
  String, Bool, true, false, ◌||◌, ◌≡◌, refl, sym, ap, ◌∙◌, ◌⊎◌, inl, inr, ◌≤◌, arith, Option, none,
  some, List, [], ◌∷◌, map, filter, any, length, if◌then◌else◌, Bool-cases, ◌==◌, eq_iff, begins,
}
use group_management_ui_back.Navigation.{
  Child, NavItem, nav_items, is_under, active_child, has_children, is_active,
}

-- Two texts that begin the same text: one of them begins the other.
common_prefix : (s t u v : String) → append s u ≡ append t v → IsPrefix s t ⊎ IsPrefix t s
common_prefix nil_text t u v h = inl (t, nil-append t)
common_prefix (cons_text c s) nil_text u v h = inr (cons_text c s, nil-append (cons_text c s))
common_prefix (cons_text c s) (cons_text d t) u v h =
    let e : cons_text c (append s u) ≡ cons_text d (append t v) =
      sym (cons-append c s u) ∙ h ∙ cons-append d t v in
    let same : c ≡ d = cc (e) in
    let rest : append s u ≡ append t v = cc (e) in
    elim (common_prefix s t u v rest) [
      | inl (w, k) ↦ inl (w, cons-append c s w ∙ (rw (same, k) refl))
      | inr (w, k) ↦ inr (w, cons-append d t w ∙ (rw (same, k) refl))
    ]

-- The text that a link and all paths under it begin with.
abbrev folder : String → String
folder href = append href "/"

is_under-folder :
    (path href : String) → is_under path href ≡ true → IsPrefix (folder href) (folder path)
unfolding is_under begins
is_under-folder path href h =
    let both : (path == href || begins path (folder href)) ≡ true = h in
    elim (Bool-cases (path == href)) [
      | inl e ↦ (nil_text, append-nil (folder href) ∙ ap folder (sym ((eq_iff path href).0 e)))
      | inr e ↦
          let (w, k) =
            (starts_with_iff path (folder href)).0
              (sym (ap (λ b. b || begins path (folder href)) e) ∙ both) in
          (append w "/", sym (append_assoc (folder href) w "/") ∙ ap folder k)
    ]

-- One of the links leads to a path under the other.
meets : String → String → Bool
unfolding begins
meets a b = begins (folder a) (folder b) || begins (folder b) (folder a)

meets_of_under :
    (path a b : String) → is_under path a ≡ true → is_under path b ≡ true → meets a b ≡ true
unfolding meets begins
meets_of_under path a b h k =
    let (u, p) = is_under-folder path a h in
    let (v, q) = is_under-folder path b k in
    elim (common_prefix (folder a) (folder b) u v (p ∙ sym q)) [
      | inl i ↦ let e = (starts_with_iff (folder b) (folder a)).1 i in ground arith
      | inr i ↦ let e = (starts_with_iff (folder a) (folder b)).1 i in ground arith
    ]

module _ {ℓ κ} {A : Type ℓ} {B : Type κ} (p : A → Bool) (q : B → Bool) (r : A → B → Bool)
    (both : (x : A) (y : B) → p x ≡ true → q y ≡ true → r x y ≡ true) where
  any_related : (x : A) (ys : List B) → p x ≡ true → any q ys ≡ true → any (r x) ys ≡ true
  any_related x [] h k = k
  any_related x (y ∷ ys) h k = elim (Bool-cases (q y)) [
    | inl e ↦ rw (both x y h e) refl
    | inr e ↦ let rest = any_related x ys h (sym (ap (λ b. b || any q ys) e) ∙ k) in ground arith
  ]

  any_pairs :
      (xs : List A) (ys : List B)
      → any p xs ≡ true
      → any q ys ≡ true
      → any (λ x. any (r x) ys) xs ≡ true
  any_pairs [] ys h k = h
  any_pairs (x ∷ xs) ys h k = elim (Bool-cases (p x)) [
    | inl e ↦ rw (any_related x ys e k) refl
    | inr e ↦ let rest = any_pairs xs ys (sym (ap (λ b. b || any p xs) e) ∙ h) k in ground arith
  ]

-- The links that mark an item.
abbrev pub own_or_children : Option (List Child) → String → List String
own_or_children none href = href ∷ []
own_or_children (some []) href = href ∷ []
own_or_children (some (c ∷ cs)) href = map (λ d. d.href) (c ∷ cs)

abbrev pub routes : NavItem → List String
routes item = own_or_children item.children item.href

any-map :
    (p : String → Bool) (cs : List Child) → any (λ c. p c.href) cs ≡ any p (map (λ c. c.href) cs)
any-map p [] = refl
any-map p (c ∷ cs) = ap (λ b. p c.href || b) (any-map p cs)

mark-routes :
    (path href : String) (children : Option (List Child))
    → (if has_children children then active_child path children else is_under path href)
      ≡ any (is_under path) (own_or_children children href)
mark-routes path href none = ground arith
mark-routes path href (some []) = ground arith
mark-routes path href (some (c ∷ cs)) = any-map (is_under path) (c ∷ cs)

is_active-routes :
    (path : String) (item : NavItem) → is_active path item ≡ any (is_under path) (routes item)
unfolding is_active
is_active-routes path item = mark-routes path item.href item.children

-- Some link of an item and some link of another meet.
clash : NavItem → NavItem → Bool
clash i j = any (λ a. any (meets a) (routes j)) (routes i)

clash_of_active :
    (path : String) (i j : NavItem)
    → is_active path i ≡ true
    → is_active path j ≡ true
    → clash i j ≡ true
unfolding clash
clash_of_active path i j h k =
    any_pairs (is_under path) (is_under path) meets (meets_of_under path) (routes i) (routes j)
      (sym (is_active-routes path i) ∙ h) (sym (is_active-routes path j) ∙ k)

any_of_filter : {A : Type 0} (p : A → Bool) (xs : List A) → any p xs ≡ false → filter p xs ≡ []
any_of_filter p [] h = refl
any_of_filter p (x ∷ xs) h = ground (arith, any_of_filter p xs)

-- No two items of the list clash.
apart : List NavItem → Bool
apart [] = true
apart (i ∷ is) = if any (clash i) is then false else apart is

others_unmarked :
    (path : String) (i : NavItem) (is : List NavItem)
    → is_active path i ≡ true
    → any (clash i) is ≡ false
    → any (is_active path) is ≡ false
others_unmarked path i [] h k = refl
others_unmarked path i (j ∷ is) h k =
    let c = clash_of_active path i j h in let rest = others_unmarked path i is h in ground arith

apart_one_active :
    (path : String) (is : List NavItem) → apart is ≡ true → length (filter (is_active path) is) ≤ 1
unfolding apart
apart_one_active path [] h = omega arith
apart_one_active path (i ∷ is) h = elim (Bool-cases (any (clash i) is)) [
  | inl e ↦ ground arith
  | inr e ↦
      let rest = apart_one_active path is (sym (ap (λ b. if b then false else apart is) e) ∙ h) in
      let alone = others_unmarked path i is in
      let empty = any_of_filter (is_active path) is in
      elim (Bool-cases (is_active path i)) [
        | inl a ↦ rw (a, empty (alone a e)) (omega arith)
        | inr a ↦ rw a rest
      ]
]

nav_items-apart : apart nav_items ≡ true
unfolding apart clash meets begins
nav_items-apart = refl

-- At every path at most one of the items of the sidebar is marked as active.
pub one_active : (path : String) → length (filter (is_active path) nav_items) ≤ 1
one_active path = apart_one_active path nav_items nav_items-apart
