-- ===== src/Groups.antt =====
-- frontend/src/pages/groups/GroupsPage.tsx with its two modals,
-- frontend/components/dashboard/groups/add-group-modal.tsx and edit-group-modal.tsx. Handlers are split
-- at their `await`. The page unmounts its modals while it loads, as that of the users does.
pub mod Requesting
mod Tests
use Prim.Native.String.{◌++◌ as append}
use group_management_ui_back.Prelude.{
  ℕ, suc, String, Bool, true, false, ◌||◌, not, Option, none, some, List, [], ◌∷◌, if◌then◌else◌,
  is_blank, trim, eqb,
}
use group_management_ui_back.Types.{Group}

pub record Form : Type 0 where
  pub name : String
  pub description : String
  pub busy : Bool

abbrev pub empty_form : Form
empty_form = record { name = ""; description = ""; busy = false }

abbrev pub filled_from : Option Group → Form → Form
filled_from none f = f
filled_from (some g) f = record f { name = g.name; description = g.description }

pub data Call : Type 0 where
  get_groups : Call
  add_group : String → String → Call
  update_group : String → String → String → Call
  delete_group : String → Call

-- `mounts` counts how often the modals were mounted.
pub record Page : Type 0 where
  pub groups : List Group
  pub loading : Bool
  pub is_modal_open : Bool
  pub is_edit_open : Bool
  pub editing_group : Option Group
  pub add : Form
  pub edit : Form
  pub mounts : ℕ
  pub calls : List Call

abbrev calls_also : Call → Page → Page
calls_also c s = record s { calls = c ∷ s.calls }

-- `loadGroups` before its `await`
unfoldable pub start_load : Page → Page
start_load s =
    calls_also get_groups
      (record s { loading = true; add = empty_form; edit = empty_form; mounts = suc s.mounts })

unfoldable pub remount : Page → Page
remount s = record s {
  edit = if s.loading then filled_from s.editing_group s.edit else s.edit;
  loading = false;
}

unfoldable pub finish_load : Option (List Group) → Page → Page
unfolding remount
finish_load none s = remount s
finish_load (some groups) s = remount (record s { groups = groups })

unfoldable pub open_add : Page → Page
open_add s = record s { is_modal_open = true }

-- `onClose` of the add modal, by which the dialog and "Cancel" close it: its fields stay.
unfoldable pub close_add : Page → Page
close_add s = record s { is_modal_open = false }

-- `handleAddGroup` before its `await`
unfoldable pub start_add : Page → Option ℕ × Page
start_add s = if is_blank (trim s.add.name) then (none, s) else (
  some s.mounts,
  calls_also (add_group s.add.name s.add.description)
      (record s { add = record s.add { busy = true } }),
)

-- and after it
unfoldable pub finish_add : Bool → ℕ → Page → Page
unfolding start_load
finish_add true flight s = record (start_load s) { is_modal_open = false }
finish_add false flight s =
    if eqb flight s.mounts then record s { add = record s.add { busy = false } } else s

-- `disabled` of "Add Group"
unfoldable pub add_disabled : Page → Bool
add_disabled s = s.add.busy

-- `handleEditGroup`, and the effect that it brings about
unfoldable pub handle_edit_group : Group → Page → Page
handle_edit_group group s = record s {
  editing_group = some group;
  is_edit_open = true;
  edit = filled_from (some group) s.edit;
}

unfoldable pub close_edit : Page → Page
close_edit s = record s { is_edit_open = false; editing_group = none }

-- `handleSave` before its `await`
abbrev save_of : Option Group → Form → Option Call
save_of none f = none
save_of (some g) f =
    if is_blank (trim f.name) then none else some (update_group g.id f.name f.description)

abbrev saving : Option Call → Page → Option ℕ × Page
saving none s = (none, s)
saving (some c) s =
    (some s.mounts, calls_also c (record s { edit = record s.edit { busy = true } }))

unfoldable pub start_save : Page → Option ℕ × Page
start_save s = saving (save_of s.editing_group s.edit) s

-- and after it
unfoldable pub finish_save : Bool → ℕ → Page → Page
unfolding start_load close_edit
finish_save true flight s = close_edit (start_load s)
finish_save false flight s =
    if eqb flight s.mounts then record s { edit = record s.edit { busy = false } } else s

unfoldable pub save_disabled : Page → Bool
save_disabled s = s.edit.busy || is_blank (trim s.edit.name)

-- `handleDeleteGroup` before its `await`, with the answer to its question, and after it
unfoldable pub start_delete : Group → Bool → Page → Bool × Page
start_delete group confirmed s =
    if confirmed then (true, calls_also (delete_group group.id) s) else (false, s)

unfoldable pub finish_delete : Bool → Page → Page
unfolding start_load
finish_delete ok s = if ok then start_load s else s

unfoldable pub delete_question : String → String
delete_question name = append "Delete " (append name "? This cannot be undone.")
