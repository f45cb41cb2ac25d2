-- ===== src/AccessRules/Adding.antt =====
-- frontend/components/dashboard/resources/add-access-rule-modal.tsx: the form for an access rule.
-- `handleSave` is split at its `await`.
use group_management_ui_back.Prelude.{
  String, ◌≡◌, ◌≢◌, ◌↔◌, refl, Bool, true, false, ◌||◌, Option, none, some, List, [], ◌∷◌, map,
  if◌then◌else◌, is_blank, trim, Bool-cases, inl, inr, eq_of_is_blank, ne_of_is_blank,
}
use group_management_ui_back.Types.{group, SelectedSubject, AccessRule}
use group_management_ui_back.SubjectPicker
use group_management_ui_back.SubjectPicker.{is_empty}

pub data Notice : Type 0 where
  name_missing groups_missing rule_created creation_failed : Notice

-- The form, whether it is open, and the rules handed to the parent by `onRuleCreated`.
pub record State : Type 0 where
  pub selected_groups : List SelectedSubject
  pub rule_name : String
  pub enabled : Bool
  pub saving : Bool
  pub is_open : Bool
  pub created : List AccessRule
  pub notices : List Notice

-- The argument of `createAccessRule`, but for the resource, which is the modal's own.
pub record NewRule : Type 0 where
  pub name : String
  pub group_ids : List String
  pub enabled : Bool

abbrev pub note : Notice → State → State
note n s = record s { notices = n ∷ s.notices }

abbrev cleared : State → State
cleared s = record s { selected_groups = []; rule_name = ""; enabled = true }

unfoldable pub picker_props : State → SubjectPicker.Props
picker_props s = record {
  selected_subjects = s.selected_groups;
  subject_types = group ∷ [];
  exclude_subjects = [];
}

unfoldable pub start_save : State → Option NewRule × State
start_save s =
    if is_blank (trim s.rule_name)
    then (none, note name_missing s)
    else if is_empty s.selected_groups
    then (none, note groups_missing s)
    else (
      some (record {
        name = trim s.rule_name;
        group_ids = map (λ g. g.id) s.selected_groups;
        enabled = s.enabled;
      }),
      record s { saving = true },
    )

-- The rest, with the rule that the server returns; `none` where the request throws.
unfoldable pub finish_save : Option AccessRule → State → State
finish_save (some rule) s =
    note rule_created
      (record (cleared s) { created = rule ∷ s.created; is_open = false; saving = false })
finish_save none s = note creation_failed (record s { saving = false })

unfoldable pub handle_open_change : Bool → State → State
handle_open_change true s = record s { is_open = true }
handle_open_change false s = record (cleared s) { is_open = false }

pub record Footer : Type 0 where
  pub cancel_disabled : Bool
  pub save_disabled : Bool
  pub save_label : String

unfoldable pub footer : State → Footer
footer s = record {
  cancel_disabled = s.saving;
  save_disabled = s.saving || (is_empty s.selected_groups || is_blank (trim s.rule_name));
  save_label = if s.saving then "Creating..." else "Create Access Rule";
}

eq_nil_of_is_empty : (gs : List SelectedSubject) → is_empty gs ≡ true → gs ≡ []
eq_nil_of_is_empty [] h = refl
eq_nil_of_is_empty (g ∷ gs) h = cc

ne_nil_of_is_empty : (gs : List SelectedSubject) → is_empty gs ≡ false → gs ≢ []
ne_nil_of_is_empty [] h e = cc
ne_nil_of_is_empty (g ∷ gs) h e = cc

-- A rule is sent exactly when the name is not white space only and a group is selected; it has the
-- trimmed name, the selected groups and the switch's position.
pub start_save_iff :
    (s : State) (new : NewRule)
    → ((start_save s).0 ≡ some new) ↔ (
        (trim s.rule_name ≢ "")
        × (s.selected_groups ≢ [])
        × (new ≡ record {
          name = trim s.rule_name;
          group_ids = map (λ g. g.id) s.selected_groups;
          enabled = s.enabled;
        }))
unfolding start_save
start_save_iff s new = elim (Bool-cases (is_blank (trim s.rule_name))) [
  | inl b ↦ rw b ((λ h. cc), (λ h. absurd (h.0 (eq_of_is_blank (trim s.rule_name) b))))
  | inr b ↦ elim (Bool-cases (is_empty s.selected_groups)) [
    | inl e ↦ rw (b, e) ((λ h. cc), (λ h. absurd (h.1 (eq_nil_of_is_empty s.selected_groups e))))
    | inr e ↦
        rw (b, e)
          (
            (λ h.
                (ne_of_is_blank (trim s.rule_name) b, ne_nil_of_is_empty s.selected_groups e, cc)),
            (λ h. cc),
          )
  ]
]

-- The button is enabled exactly when no save is under way and a save would be sent.
pub save_disabled_iff :
    (s : State)
    → ((footer s).save_disabled ≡ false) ↔ ((s.saving ≡ false) × ((start_save s).0 ≢ none))
unfolding footer start_save
save_disabled_iff s = elim (Bool-cases s.saving) [
  | inl w ↦ rw w ((λ h. cc), (λ h. cc))
  | inr w ↦ elim (Bool-cases (is_blank (trim s.rule_name))) [
    | inl b ↦ elim (Bool-cases (is_empty s.selected_groups)) [
      | inl e ↦ rw (w, b, e) ((λ h. cc), (λ h. absurd (h.1 refl)))
      | inr e ↦ rw (w, b, e) ((λ h. cc), (λ h. absurd (h.1 refl)))
    ]
    | inr b ↦ elim (Bool-cases (is_empty s.selected_groups)) [
      | inl e ↦ rw (w, b, e) ((λ h. cc), (λ h. absurd (h.1 refl)))
      | inr e ↦ rw (w, b, e) ((λ h. (refl, (λ k. cc))), (λ h. refl))
    ]
  ]
]
