-- ===== src/GroupMembers.antt =====
-- frontend/components/dashboard/groups/group-members-section.tsx: the members of a group.
-- A handler is split at its `await`. What its closure captured is kept in a `Flight`: the handler
-- goes on with the members as they were when the component rendered it, not as they are.
pub mod Removing
pub mod Asking
mod Tests
use Prim.Native.String.{◌++◌}
use group_management_ui_back.Prelude.{
  String, Bool, true, false, Option, none, some, List, [], ◌∷◌, map, filter, not, ◌==◌,
  if◌then◌else◌,
}
use group_management_ui_back.Types.{User, GroupMember}

pub data Notice : Type 0 where
  member_removed removal_failed load_failed user_deactivated deactivation_failed : Notice
  user_deleted deletion_failed refresh_failed : Notice

-- The calls of the API client, newest first; the group is the section's own.
pub data Call : Type 0 where
  remove_group_member get_user deactivate_user delete_user : String → Call

pub record State : Type 0 where
  pub members : List GroupMember
  pub deleting : Option String
  pub is_edit_open : Bool
  pub editing_user : Option User
  pub notices : List Notice
  pub calls : List Call

pub record Flight : Type 0 where
  pub user_id : String
  pub captured : List GroupMember

abbrev pub note : Notice → State → State
note n s = record s { notices = n ∷ s.notices }

-- `members.filter((m) => m.userId !== userId)`
abbrev pub without : String → List GroupMember → List GroupMember
without id ms = filter (λ m. not (m.user_id == id)) ms

unfoldable pub start_remove : String → State → Flight × State
start_remove id s = (
  record { user_id = id; captured = s.members },
  record s { deleting = some id; calls = remove_group_member id ∷ s.calls },
)

unfoldable pub finish_remove : Bool → Flight → State → State
finish_remove true f s = record s {
  members = without f.user_id f.captured;
  deleting = none;
  notices = member_removed ∷ s.notices;
}
finish_remove false f s = record s { deleting = none; notices = removal_failed ∷ s.notices }

-- `handleEditUser`, with what `getUser` comes to
unfoldable pub edit_user : String → Option User → State → State
edit_user id none s = note load_failed (record s { calls = get_user id ∷ s.calls })
edit_user id (some user) s = record s {
  is_edit_open = true;
  editing_user = some user;
  calls = get_user id ∷ s.calls;
}

-- `handleDeactivateUser`, with the answer to the question and the outcome of the request
unfoldable pub handle_deactivate : String → Bool → Bool → State → State
handle_deactivate id false ok s = s
handle_deactivate id true true s =
    note user_deactivated (record s { calls = deactivate_user id ∷ s.calls })
handle_deactivate id true false s =
    note deactivation_failed (record s { calls = deactivate_user id ∷ s.calls })

-- `handleDeleteUser`: without a confirmation nothing is in flight
unfoldable pub start_delete : String → Bool → State → Option Flight × State
start_delete id false s = (none, s)
start_delete id true s = (
  some (record { user_id = id; captured = s.members }),
  record s { calls = delete_user id ∷ s.calls },
)

unfoldable pub finish_delete : Bool → Flight → State → State
finish_delete true f s = note user_deleted (record s { members = without f.user_id f.captured })
finish_delete false f s = note deletion_failed s

unfoldable pub deactivate_question : String → String
deactivate_question name = "Deactivate " ++ (name ++ "?")

unfoldable pub delete_question : String → String
delete_question name = "Delete " ++ (name ++ "? This cannot be undone.")

-- `handleUserUpdated`
unfoldable pub start_refresh : State → Option Flight × State
start_refresh s = elim s.editing_user [
  | none ↦ (none, s)
  | some user ↦ (
    some (record { user_id = user.id; captured = s.members }),
    record s { calls = get_user user.id ∷ s.calls },
  )
]

abbrev pub refreshed : User → GroupMember → GroupMember
refreshed user m =
    if m.user_id == user.id then record m { user_name = user.name; email = user.email } else m

unfoldable pub finish_refresh : Option User → Flight → State → State
finish_refresh none f s = note refresh_failed s
finish_refresh (some user) f s = record s { members = map (refreshed user) f.captured }

-- `onClose` of the edit modal
unfoldable pub close_edit : State → State
close_edit s = record s { is_edit_open = false; editing_user = none }

-- A row of the table: what it shows, and whether "Remove from group" is disabled.
pub record Row : Type 0 where
  pub name : String
  pub email : String
  pub remove_disabled : Bool

abbrev pub is_deleting : Option String → String → Bool
is_deleting none id = false
is_deleting (some other) id = other == id

-- The table; "No members yet" stands in its place where there is no row.
unfoldable pub rows : State → List Row
rows s =
    map
      (λ m. record {
        name = m.user_name;
        email = m.email;
        remove_disabled = is_deleting s.deleting m.user_id;
      })
      s.members
