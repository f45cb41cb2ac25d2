-- ===== src/SubjectPicker/Selection.antt =====
-- Toggling and removing subjects of the selection.
use group_management_ui_back.Prelude.{
  String, ◌≡◌, ◌≢◌, refl, false, List, [], ◌∷◌, ◌++◌, ◌==◌, ◌||◌, not, if◌then◌else◌, Bool-cases,
  inl, inr, arith, eq_iff, eq_refl, LacksKey, KeysDistinct, KeysDistinct-filter, any-LacksKey,
  KeysDistinct-append_one, LacksKey-filter_any, LacksKey-append, filter-append_one,
}
use group_management_ui_back.Types.{Subject, SelectedSubject}
use group_management_ui_back.SubjectPicker.{
  is_selected, selected_of, remove_selected, toggle_subject,
}

-- Removing takes exactly the subject's identifier out of the selection.
pub is_selected-remove :
    (id j : String) (selected : List SelectedSubject)
    → is_selected (remove_selected id selected) j
      ≡ (if id == j then false else is_selected selected j)
unfolding is_selected remove_selected
is_selected-remove id j [] = ground arith
is_selected-remove id j (x ∷ xs) =
    ground (arith, eq_iff x.id id, eq_iff x.id j, eq_iff id j, is_selected-remove id j xs)

is_selected-append :
    (j : String) (xs ys : List SelectedSubject)
    → is_selected (xs ++ ys) j ≡ (is_selected xs j || is_selected ys j)
unfolding is_selected
is_selected-append j [] ys = refl
is_selected-append j (x ∷ xs) ys = ground (arith, is_selected-append j xs ys)

is_selected-one : (x : SelectedSubject) (j : String) → is_selected (x ∷ []) j ≡ (x.id == j)
unfolding is_selected
is_selected-one x j = ground arith

module _ (subject : Subject) (selected : List SelectedSubject) where
  -- Toggling flips whether the subject is selected, and changes it for no other identifier.
  pub is_selected-toggle :
      (j : String)
      → is_selected (toggle_subject subject selected) j
        ≡ (if subject.id == j then not (is_selected selected j) else is_selected selected j)
  unfolding toggle_subject
  is_selected-toggle j = elim (Bool-cases (is_selected selected subject.id)) [
    | inl h ↦
        rw h (rw (is_selected-remove subject.id j selected) (ground (arith, eq_iff subject.id j)))
    | inr h ↦ rw h (
        rw (is_selected-append j selected (selected_of subject ∷ []), is_selected-one)
          (ground (arith, eq_iff subject.id j)))
  ]

  -- A subject that was not selected is taken out again by a second toggle: the selection is what
  -- it was.
  pub toggle_twice :
      is_selected selected subject.id ≡ false
      → toggle_subject subject (toggle_subject subject selected) ≡ selected
  unfolding toggle_subject
  toggle_twice h = rw h (
      rw
        (
          is_selected-append subject.id selected (selected_of subject ∷ []),
          h,
          is_selected-one,
          eq_refl,
        )
        (unfold remove_selected in
          filter-append_one (λ s. s.id) (selected_of subject) selected
            (unfold is_selected in any-LacksKey (λ s. s.id) subject.id selected h)))

  -- No identifier comes to be selected twice.
  pub toggle-KeysDistinct :
      KeysDistinct (λ s. s.id) selected → KeysDistinct (λ s. s.id) (toggle_subject subject selected)
  unfolding toggle_subject is_selected remove_selected
  toggle-KeysDistinct d = elim (Bool-cases (is_selected selected subject.id)) [
    | inl h ↦ rw h (KeysDistinct-filter (λ s. s.id) (λ s. not (s.id == subject.id)) selected d)
    | inr h ↦ rw h (
        KeysDistinct-append_one (λ s. s.id) (selected_of subject) selected
          (any-LacksKey (λ s. s.id) subject.id selected h) d)
  ]

  pub toggle-LacksKey :
      (k : String)
      → subject.id ≢ k
      → LacksKey (λ s. s.id) k selected
      → LacksKey (λ s. s.id) k (toggle_subject subject selected)
  unfolding toggle_subject remove_selected
  toggle-LacksKey k ne l = elim (Bool-cases (is_selected selected subject.id)) [
    | inl h ↦ rw h (LacksKey-filter_any (λ s. s.id) (λ s. not (s.id == subject.id)) k selected l)
    | inr h ↦ rw h (LacksKey-append (λ s. s.id) k selected (selected_of subject ∷ []) l (ne, tt))
  ]
