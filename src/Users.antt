-- ===== src/Users.antt =====
-- frontend/src/pages/users/UsersPage.tsx with its two modals,
-- frontend/components/dashboard/users/add-user-modal.tsx and edit-user-modal.tsx. Handlers are split at
-- their `await`. While the page loads it shows a spinner in place of all else, which unmounts the
-- modals: when they are mounted again their state is new, and what is in flight no longer reaches it.
pub mod Closing
pub mod Reloading
mod Tests
use Prim.Native.String.{◌++◌ as append}
use group_management_ui_back.Prelude.{
  ℕ, suc, String, Bool, true, false, ◌||◌, not, Option, none, some, List, [], ◌∷◌, if◌then◌else◌,
  is_blank, trim, eqb,
}
use group_management_ui_back.Types.{User, Status, active, inactive}

-- The fields of either modal, and whether it waits for an answer.
pub record Form : Type 0 where
  pub name : String
  pub email : String
  pub status : Status
  pub busy : Bool

abbrev pub empty_form : Form
empty_form = record { name = ""; email = ""; status = active; busy = false }

-- `!name.trim() || !email.trim()`
unfoldable pub is_incomplete : Form → Bool
is_incomplete f = is_blank (trim f.name) || is_blank (trim f.email)

-- The fields as they are after `setName('')`, `setEmail('')` and `setStatus('active')`
abbrev pub cleared : Form → Form
cleared f = record f { name = ""; email = ""; status = active }

-- The effect of the user that is edited
abbrev pub filled_from : Option User → Form → Form
filled_from none f = f
filled_from (some u) f = record f { name = u.name; email = u.email; status = u.status }

-- The calls of the client.
pub data Call : Type 0 where
  get_users : Call
  add_user : String → String → Status → Call
  update_user : String → String → String → Status → Call
  deactivate_user delete_user : String → Call

-- `mounts` counts how often the modals were mounted.
pub record Page : Type 0 where
  pub users : List User
  pub loading : Bool
  pub is_modal_open : Bool
  pub is_edit_open : Bool
  pub editing_user : Option User
  pub add : Form
  pub edit : Form
  pub mounts : ℕ
  pub calls : List Call

abbrev calls_also : Call → Page → Page
calls_also c s = record s { calls = c ∷ s.calls }

-- The spinner unmounts the modals.
unfoldable pub show_spinner : Page → Page
show_spinner s = record s { add = empty_form; edit = empty_form; mounts = suc s.mounts }

-- When they are mounted again, the effect of the edit modal fills it.
unfoldable pub remount : Page → Page
remount s = record s {
  edit = if s.loading then filled_from s.editing_user s.edit else s.edit;
  loading = false;
}

-- `loadUsers` before its `await`
unfoldable pub start_load : Page → Page
unfolding show_spinner
start_load s = calls_also get_users (show_spinner (record s { loading = true }))

unfoldable pub first_page : Page
unfolding start_load
first_page = start_load (record {
  users = [];
  loading = true;
  is_modal_open = false;
  is_edit_open = false;
  editing_user = none;
  add = empty_form;
  edit = empty_form;
  mounts = 0;
  calls = [];
})

unfoldable pub finish_load : Option (List User) → Page → Page
unfolding remount
finish_load none s = remount s
finish_load (some users) s = remount (record s { users = users })

-- The button "Add User" of the page
unfoldable pub open_add : Page → Page
open_add s = record s { is_modal_open = true }

-- `handleClose` of the add modal
unfoldable pub close_add : Page → Page
close_add s = record s { add = cleared s.add; is_modal_open = false }

-- `handleAddUser` before its `await`; in flight is the mount of the modal that waits.
unfoldable pub start_add : Page → Option ℕ × Page
unfolding is_incomplete
start_add s = if is_incomplete s.add then (none, s) else (
  some s.mounts,
  calls_also (add_user s.add.name s.add.email s.add.status)
      (record s { add = record s.add { busy = true } }),
)

-- and after it: `onUserAdded` loads the users, which unmounts the modal, and `onClose` closes it.
unfoldable pub finish_add : Bool → ℕ → Page → Page
unfolding start_load
finish_add true flight s = record (start_load s) { is_modal_open = false }
finish_add false flight s =
    if eqb flight s.mounts then record s { add = record s.add { busy = false } } else s

unfoldable pub add_disabled : Page → Bool
unfolding is_incomplete
add_disabled s = s.add.busy || is_incomplete s.add

-- `handleEditUser`, and the effect that it brings about
unfoldable pub handle_edit_user : User → Page → Page
handle_edit_user user s = record s {
  editing_user = some user;
  is_edit_open = true;
  edit = filled_from (some user) s.edit;
}

-- `onClose` of the edit modal
unfoldable pub close_edit : Page → Page
close_edit s = record s { is_edit_open = false; editing_user = none }

-- `handleSave` before its `await`
abbrev save_of : Option User → Form → Option Call
unfolding is_incomplete
save_of none f = none
save_of (some u) f =
    if is_incomplete f then none else some (update_user u.id f.name f.email f.status)

abbrev saving : Option Call → Page → Option ℕ × Page
saving none s = (none, s)
saving (some c) s =
    (some s.mounts, calls_also c (record s { edit = record s.edit { busy = true } }))

unfoldable pub start_save : Page → Option ℕ × Page
unfolding save_of
start_save s = saving (save_of s.editing_user s.edit) s

-- and after it
unfoldable pub finish_save : Bool → ℕ → Page → Page
unfolding start_load close_edit
finish_save true flight s = close_edit (start_load s)
finish_save false flight s =
    if eqb flight s.mounts then record s { edit = record s.edit { busy = false } } else s

unfoldable pub save_disabled : Page → Bool
unfolding is_incomplete
save_disabled s = s.edit.busy || is_incomplete s.edit

abbrev is_inactive : Status → Bool
is_inactive inactive = true
is_inactive active = false

-- `handleDeactivateUser` before its `await`, with the answer to its question: whether it goes on.
unfoldable pub start_deactivate : User → Bool → Page → Bool × Page
start_deactivate user confirmed s =
    if is_inactive user.status
    then (false, s)
    else if confirmed
    then (true, calls_also (deactivate_user user.id) s)
    else (false, s)

-- `handleDeleteUser` before its `await`
unfoldable pub start_delete : User → Bool → Page → Bool × Page
start_delete user confirmed s =
    if confirmed then (true, calls_also (delete_user user.id) s) else (false, s)

-- Both of them after it: a change that was made loads the users again.
unfoldable pub finish_change : Bool → Page → Page
unfolding start_load
finish_change ok s = if ok then start_load s else s

unfoldable pub delete_question : String → String
delete_question name = append "Delete " (append name "? This cannot be undone.")

unfoldable pub deactivate_question : String → String
deactivate_question name = append "Deactivate " (append name "?")
