-- ===== src/SubjectPicker.antt =====
-- frontend/components/subjects/subject-picker.tsx: the picker of users, groups and service accounts.
-- The state is a record, a handler returns the selection that it reports, and `view` is what is
-- rendered, less the styling. `lower` is `String.prototype.toLowerCase`.
pub mod Selection
pub mod Filtering
pub mod Rendering
mod Tests
use Prim.Native.String.{◌++◌}
use mathlib.Core.List
use group_management_ui_back.Prelude.{
  ℕ, String, Bool, true, false, Option, none, some, List, [], ◌∷◌, ◌&&◌, map, ◌==◌, not, any,
  filter, first, length, includes, if◌then◌else◌, is_blank, contains_text, eqb,
}
use group_management_ui_back.Types.{SubjectType, user, group, service, Subject, SelectedSubject}

pub record Props : Type 0 where
  pub selected_subjects : List SelectedSubject
  pub subject_types : List SubjectType
  pub exclude_subjects : List String

pub record State : Type 0 where
  pub all_subjects : List Subject
  pub loading : Bool
  pub search_query : String
  pub active_tab : Option SubjectType

-- `===` on subject types
abbrev pub same_type : SubjectType → SubjectType → Bool
same_type user user = true
same_type group group = true
same_type service service = true
same_type _ _ = false

abbrev pub type_text : SubjectType → String
type_text user = "USER"
type_text group = "GROUP"
type_text service = "SERVICE"

-- The first state; `subjectTypes[0]` is undefined where the list is empty.
unfoldable pub initial : Props → State
initial props = record {
  all_subjects = [];
  loading = true;
  search_query = "";
  active_tab =
      if any (same_type user) props.subject_types then some user else first props.subject_types;
}

-- The effect on mount, with what `getSubjects` comes to: `none` where it throws.
unfoldable pub load_subjects : Option (List Subject) → State → State
load_subjects none s = record s { loading = false }
load_subjects (some subjects) s = record s { all_subjects = subjects; loading = false }

abbrev pub is_tab : Option SubjectType → SubjectType → Bool
is_tab none type = false
is_tab (some tab) type = same_type type tab

-- The test that `filteredSubjects` filters by.
unfoldable pub is_listed : (String → String) → Props → State → Subject → Bool
is_listed lower props s subject =
    is_tab s.active_tab subject.kind
    && contains_text (lower subject.name) (lower s.search_query)
    && not (includes subject.id props.exclude_subjects)

unfoldable pub filtered_subjects : (String → String) → Props → State → List Subject
unfolding is_listed
filtered_subjects lower props s = filter (is_listed lower props s) s.all_subjects

unfoldable pub is_selected : List SelectedSubject → String → Bool
is_selected selected id = any (λ s. s.id == id) selected

abbrev pub selected_of : Subject → SelectedSubject
selected_of subject = record { id = subject.id; kind = subject.kind; label = subject.display_label }

unfoldable pub remove_selected : String → List SelectedSubject → List SelectedSubject
remove_selected id selected = filter (λ s. not (s.id == id)) selected

unfoldable pub toggle_subject : Subject → List SelectedSubject → List SelectedSubject
unfolding is_selected remove_selected
toggle_subject subject selected =
    if is_selected selected subject.id
    then remove_selected subject.id selected
    else List.◌++◌ selected (selected_of subject ∷ [])

unfoldable pub available_tabs : Props → State → List SubjectType
available_tabs props s =
    filter (λ type. any (λ subject. same_type subject.kind type) s.all_subjects) props.subject_types

pub record Row : Type 0 where
  pub subject : Subject
  pub checked : Bool

-- The content of a tab: a spinner, a message, or a row for each subject.
pub data Content : Type 0 where
  spinner : Content
  message : String → Content
  rows : List Row → Content

-- What is rendered: the tabs with their contents, the search input, and the selection, which is
-- shown with its length where it is not empty. Radix's `Tabs` shows the content of the active tab.
pub record View : Type 0 where
  pub tabs : List (SubjectType × Content)
  pub placeholder : Option String
  pub search_disabled : Bool
  pub selected : Option (ℕ × List SelectedSubject)

abbrev pub tab_words : SubjectType → String
tab_words user = "users"
tab_words group = "groups"
tab_words service = "services"

abbrev pub is_empty {ℓ} : {A : Type ℓ} → List A → Bool
is_empty [] = true
is_empty (x ∷ xs) = false

unfoldable pub content : (String → String) → Props → State → SubjectType → Content
unfolding filtered_subjects is_selected
content lower props s type =
    let subjects = filtered_subjects lower props s in
    if s.loading
    then spinner
    else if is_empty subjects
    then message
        ("No " ++ (tab_words type ++ (if is_blank s.search_query then " available" else " found")))
    else rows (
        map
          (λ subject. record {
            subject = subject;
            checked = is_selected props.selected_subjects subject.id;
          })
          subjects)

unfoldable pub tab : (String → String) → Props → State → SubjectType → List (SubjectType × Content)
unfolding available_tabs content
tab lower props s type =
    if any (same_type type) (available_tabs props s)
    then (type, content lower props s type) ∷ []
    else []

unfoldable pub view : (String → String) → Props → State → View
unfolding tab
view lower props s = record {
  tabs =
      List.◌++◌ (tab lower props s user)
        (List.◌++◌ (tab lower props s group) (tab lower props s service));
  placeholder = elim s.active_tab [
    | none ↦ none
    | some type ↦ some ("Search " ++ (lower (type_text type) ++ "s..."))
  ];
  search_disabled = s.loading;
  selected =
      if is_empty props.selected_subjects
      then none
      else some (length props.selected_subjects, props.selected_subjects);
}
