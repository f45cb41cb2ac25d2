-- ===== src/SubjectPicker/Tests.antt =====
-- Runs of the picker, and its theorems at concrete inputs.
use group_management_ui_back.Prelude.{
  String, ◌≡◌, ◌↔◌, refl, some, List, [], ◌∷◌, true, In, ◌==◌, not, if◌then◌else◌, contains_text,
}
use group_management_ui_back.Types.{user, group, Subject, SelectedSubject}
use group_management_ui_back.SubjectPicker.{
  Props, State, initial, load_subjects, filtered_subjects, is_selected, selected_of, toggle_subject,
  rows, view,
}
use group_management_ui_back.SubjectPicker.Selection.{is_selected-toggle}
use group_management_ui_back.SubjectPicker.Filtering.{IsOffered, filtered_iff}

-- The lower case of texts that are in lower case.
abbrev lower : String → String
lower s = s

abbrev ann : Subject
ann = record { id = "u1"; name = "ann"; kind = user; display_label = "User: ann" }

abbrev bob : Subject
bob = record { id = "u2"; name = "bob"; kind = user; display_label = "User: bob" }

abbrev ops : Subject
ops = record { id = "g1"; name = "ops"; kind = group; display_label = "Group: ops" }

abbrev ann_only : List SelectedSubject
ann_only = selected_of ann ∷ []

abbrev props : Props
props = record {
  selected_subjects = ann_only;
  subject_types = user ∷ group ∷ [];
  exclude_subjects = "u2" ∷ [];
}

abbrev loaded : State
loaded = load_subjects (some (ann ∷ bob ∷ ops ∷ [])) (initial props)

filtered_test : filtered_subjects lower props loaded ≡ ann ∷ []
unfolding filtered_subjects load_subjects initial contains_text
filtered_test = refl

view_test :
    (view lower props loaded).tabs
    ≡ (user, rows ((record { subject = ann; checked = true }) ∷ []))
      ∷ (group, rows ((record { subject = ann; checked = true }) ∷ []))
      ∷ []
unfolding view load_subjects initial contains_text
view_test = refl

is_selected-toggle_example :
    is_selected (toggle_subject bob ann_only) "u2"
    ≡ (if "u2" == "u2" then not (is_selected ann_only "u2") else is_selected ann_only "u2")
is_selected-toggle_example = is_selected-toggle bob ann_only "u2"

filtered_iff_example :
    In bob (filtered_subjects lower props loaded)
    ↔ (In bob loaded.all_subjects × IsOffered lower props loaded bob)
filtered_iff_example = filtered_iff lower props loaded bob
