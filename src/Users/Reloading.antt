-- ===== src/Users/Reloading.antt =====
-- frontend/src/pages/users/UsersPage.tsx with its modals: what a reload of the list does to them, and
-- what "Save Changes" sends.
use group_management_ui_back.Prelude.{
  String, ◌≡◌, refl, arith, true, false, ◌||◌, Bool-cases, inl, inr, Option, none, some, List, [],
  ◌∷◌, is_blank, trim,
}
use group_management_ui_back.Types.{User, Status}
use group_management_ui_back.Users.{
  empty_form, Page, Call, update_user, start_load, show_spinner, finish_load, remount,
  finish_change, is_incomplete, handle_edit_user, start_save, save_of, save_disabled,
}

-- A deletion or a deactivation that ends while the add modal is open leaves the modal open and
-- takes away what was typed into it.
pub reload_empties_add :
    (users : Option (List User)) (s : Page)
    → s.is_modal_open ≡ true
    → ((finish_load users (finish_change true s)).is_modal_open ≡ true)
      × ((finish_load users (finish_change true s)).add ≡ empty_form)
unfolding finish_load remount finish_change start_load show_spinner
reload_empties_add none s h = (h, refl)
reload_empties_add (some us) s h = (h, refl)

-- The newest call.
abbrev pub newest : List Call → Option Call
newest [] = none
newest (c ∷ cs) = some c

-- A user is opened for editing and the fields are set.
unfoldable pub typed_edit : User → String → String → Status → Page → Page
unfolding handle_edit_user
typed_edit user name email status s =
    let s' = handle_edit_user user s in
    record s' { edit = record s'.edit { name = name; email = email; status = status } }

-- Where a user is opened for editing and the fields are then set to a name, an email and a status,
-- an enabled "Save Changes" asks for an update of that user with exactly these, as they are typed.
pub edit_saves :
    (user : User) (name email : String) (status : Status) (s : Page)
    → save_disabled (typed_edit user name email status s) ≡ false
    → newest (start_save (typed_edit user name email status s)).1.calls
      ≡ some (update_user user.id name email status)
unfolding typed_edit handle_edit_user start_save save_disabled is_incomplete save_of
edit_saves user name email status s h =
    elim (Bool-cases (is_blank (trim name) || is_blank (trim email))) [
      | inl e ↦ ground arith
      | inr e ↦ rw e refl
    ]
