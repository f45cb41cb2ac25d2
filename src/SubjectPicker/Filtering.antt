-- ===== src/SubjectPicker/Filtering.antt =====
-- Which subjects are listed.
use group_management_ui_back.Prelude.{
  String, ◌≡◌, ◌↔◌, refl, ap, sym, true, false, Option, none, some, includes, contains_text, In,
  In-filter, includes_iff, includes-eq-false, arith,
}
use group_management_ui_back.Types.{SubjectType, user, group, service, Subject}
use group_management_ui_back.SubjectPicker.{
  Props, State, same_type, is_tab, is_listed, filtered_subjects,
}

same_type_iff : (a b : SubjectType) → (same_type a b ≡ true) ↔ (a ≡ b)
same_type_iff user b = ground arith
same_type_iff group b = ground arith
same_type_iff service b = ground arith

is_tab_iff : (tab : Option SubjectType) (t : SubjectType) → (is_tab tab t ≡ true) ↔ (tab ≡ some t)
is_tab_iff none t = ground arith
is_tab_iff (some tab) t = (
  (λ h. ap some (sym ((same_type_iff t tab).0 h))),
  (λ e. (same_type_iff t tab).1 (ground arith)),
)

-- What makes a subject listed: its type is the active tab's, its name holds the search text up to
-- case, and it is not excluded.
pub record IsOffered (lower : String → String) (props : Props) (s : State) (subject : Subject)
    : Type 0 where
  pub of_tab : s.active_tab ≡ some subject.kind
  pub matches : contains_text (lower subject.name) (lower s.search_query) ≡ true
  pub not_excluded : In subject.id props.exclude_subjects → ⊥

module _ (lower : String → String) (props : Props) (s : State) where
  is_listed_iff :
      (subject : Subject)
      → (is_listed lower props s subject ≡ true) ↔ IsOffered lower props s subject
  unfolding is_listed
  is_listed_iff subject = (to, from)
    where
      to : is_listed lower props s subject ≡ true → IsOffered lower props s subject
      to h = record {
        of_tab = (is_tab_iff s.active_tab subject.kind).0 (ground arith);
        matches = ground arith;
        not_excluded = λ m. cc ((includes_iff subject.id props.exclude_subjects).1 m, excluded h);
      }
        where
          excluded :
              is_listed lower props s subject ≡ true
              → includes subject.id props.exclude_subjects ≡ false
          excluded h = ground arith

      from : IsOffered lower props s subject → is_listed lower props s subject ≡ true
      from o =
          rw
            (
              (is_tab_iff s.active_tab subject.kind).1 o.of_tab,
              o.matches,
              includes-eq-false subject.id props.exclude_subjects o.not_excluded,
            )
            refl

  -- The list shows exactly the loaded subjects of the active tab that match the search and are
  -- not excluded.
  pub filtered_iff :
      (subject : Subject)
      → In subject (filtered_subjects lower props s)
        ↔ (In subject s.all_subjects × IsOffered lower props s subject)
  unfolding filtered_subjects
  filtered_iff subject =
      let (to, from) = In-filter (is_listed lower props s) subject s.all_subjects in
      let (sound, complete) = is_listed_iff subject in
      ((λ m. ((to m).0, sound (to m).1)), (λ h. from (h.0, complete h.1)))
