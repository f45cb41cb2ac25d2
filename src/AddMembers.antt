-- ===== src/AddMembers.antt =====
-- frontend/components/dashboard/groups/add-members-modal.tsx: adding picked users to a group.
-- `handleSave` is split at its `await`: `start_save` runs up to the request, `finish_save` after it.
pub mod Saving
mod Tests
use mathlib.Core.List
use group_management_ui_back.Prelude.{
  ℕ, String, Bool, true, false, ◌||◌, Option, none, some, List, [], ◌∷◌, map, if◌then◌else◌, length,
  remove_first,
}
use group_management_ui_back.Types.{user, GroupMember, SelectedSubject}
use group_management_ui_back.SubjectPicker
use group_management_ui_back.SubjectPicker.{is_empty}

pub data Notice : Type 0 where
  select_at_least_one : Notice
  added : ℕ → Notice
  update_failed : Notice

-- The modal's state, and what it reports to its parent: whether it is open, and the members.
pub record State : Type 0 where
  pub selected_users : List SelectedSubject
  pub saving : Bool
  pub is_open : Bool
  pub members : List GroupMember
  pub notices : List Notice

-- What `handleSave` holds while it waits: the values that its closure captured, and the
-- identifiers that it sent.
pub record Pending : Type 0 where
  pub current : List GroupMember
  pub selected : List SelectedSubject
  pub sent : List String

unfoldable pub exclude_user_ids : State → List String
exclude_user_ids s = map (λ m. m.user_id) s.members

-- The props that the modal hands to the picker.
unfoldable pub picker_props : State → SubjectPicker.Props
unfolding exclude_user_ids
picker_props s = record {
  selected_subjects = s.selected_users;
  subject_types = user ∷ [];
  exclude_subjects = exclude_user_ids s;
}

abbrev pub member_of : SelectedSubject → GroupMember
member_of u = record { user_id = u.id; user_name = remove_first "User: " u.label; email = "" }

unfoldable pub start_save : State → State × Option Pending
start_save s =
    if is_empty s.selected_users
    then (record s { notices = select_at_least_one ∷ s.notices }, none)
    else (
      record s { saving = true },
      some (record {
        current = s.members;
        selected = s.selected_users;
        sent = List.◌++◌ (map (λ m. m.user_id) s.members) (map (λ u. u.id) s.selected_users);
      }),
    )

-- The rest of `handleSave`, for a request that succeeded (`true`) or threw.
unfoldable pub finish_save : Bool → Pending → State → State
finish_save true p s = record {
  selected_users = [];
  saving = false;
  is_open = false;
  members = List.◌++◌ p.current (map member_of p.selected);
  notices = added (length p.selected) ∷ s.notices;
}
finish_save false p s = record s { saving = false; notices = update_failed ∷ s.notices }

unfoldable pub handle_open_change : Bool → State → State
handle_open_change true s = record s { is_open = true }
handle_open_change false s = record s { selected_users = []; is_open = false }

-- The buttons: whether each is disabled, and the label of the second.
pub record Footer : Type 0 where
  pub cancel_disabled : Bool
  pub save_disabled : Bool
  pub save_label : String

unfoldable pub footer : State → Footer
footer s = record {
  cancel_disabled = s.saving;
  save_disabled = s.saving || is_empty s.selected_users;
  save_label = if s.saving then "Saving..." else "Add Members";
}
