-- ===== src/Groups/Requesting.antt =====
-- frontend/src/pages/groups/GroupsPage.tsx with its modals: which requests it sends.
use group_management_ui_back.Prelude.{
  ℕ, String, ◌≡◌, arith, Bool, true, false, Bool-cases, inl, inr, Option, none, some, List, [], ◌∷◌,
  All, if◌then◌else◌, is_blank, trim, eqb,
}
use group_management_ui_back.Types.{Group}
use group_management_ui_back.Groups.{
  Form, Page, Call, add_group, update_group, start_load, finish_load, remount, open_add, close_add,
  start_add, finish_add, handle_edit_group, close_edit, save_of, saving, start_save, finish_save,
  start_delete, finish_delete,
}

-- What happens to the page. The guards of the screen are not needed for what follows.
pub data Event : Type 0 where
  load_ends : Option (List Group) → Event
  opens cancels submits saves closes_edit : Event
  types types_description edit_types edit_types_description : String → Event
  add_ends save_ends : Bool → ℕ → Event
  edits : Group → Event
  deletes : Group → Bool → Event
  delete_ends : Bool → Event

unfoldable pub happen : Event → Page → Page
happen (load_ends groups) s = finish_load groups s
happen opens s = open_add s
happen cancels s = close_add s
happen submits s = (start_add s).1
happen saves s = (start_save s).1
happen closes_edit s = close_edit s
happen (types t) s = record s { add = record s.add { name = t } }
happen (types_description t) s = record s { add = record s.add { description = t } }
happen (edit_types t) s = record s { edit = record s.edit { name = t } }
happen (edit_types_description t) s = record s { edit = record s.edit { description = t } }
happen (add_ends ok flight) s = finish_add ok flight s
happen (save_ends ok flight) s = finish_save ok flight s
happen (edits group) s = handle_edit_group group s
happen (deletes group ok) s = (start_delete group ok s).1
happen (delete_ends ok) s = finish_delete ok s

abbrev pub happens : List Event → Page → Page
happens [] s = s
happens (e ∷ es) s = happens es (happen e s)

-- A request that names a group gives it a name that is not white space alone.
abbrev pub IsNamed : Call → Type 0
IsNamed (add_group name description) = is_blank (trim name) ≡ false
IsNamed (update_group id name description) = is_blank (trim name) ≡ false
IsNamed _ = Unit

abbrev pub AllNamed : Page → Type 0
AllNamed s = All IsNamed s.calls

start_load-AllNamed : (s : Page) → AllNamed s → AllNamed (start_load s)
unfolding start_load
start_load-AllNamed s h = (tt, h)

start_add-AllNamed : (s : Page) → AllNamed s → AllNamed (start_add s).1
unfolding start_add
start_add-AllNamed s h = elim (Bool-cases (is_blank (trim s.add.name))) [
  | inl e ↦ rw e h
  | inr e ↦ rw e (e, h)
]

save-AllNamed :
    (g : Option Group) (f : Form) (s : Page) → AllNamed s → AllNamed (saving (save_of g f) s).1
save-AllNamed none f s h = h
save-AllNamed (some g) f s h = elim (Bool-cases (is_blank (trim f.name))) [
  | inl e ↦ rw e h
  | inr e ↦ rw e (e, h)
]

finish_load-AllNamed :
    (d : Option (List Group)) (s : Page) → AllNamed s → AllNamed (finish_load d s)
unfolding finish_load remount
finish_load-AllNamed none s h = h
finish_load-AllNamed (some gs) s h = h

finish_add-AllNamed :
    (ok : Bool) (flight : ℕ) (s : Page) → AllNamed s → AllNamed (finish_add ok flight s)
unfolding finish_add
finish_add-AllNamed true flight s h = start_load-AllNamed s h
finish_add-AllNamed false flight s h = elim (Bool-cases (eqb flight s.mounts)) [
  | inl e ↦ rw e h
  | inr e ↦ rw e h
]

finish_save-AllNamed :
    (ok : Bool) (flight : ℕ) (s : Page) → AllNamed s → AllNamed (finish_save ok flight s)
unfolding finish_save close_edit
finish_save-AllNamed true flight s h = start_load-AllNamed s h
finish_save-AllNamed false flight s h = elim (Bool-cases (eqb flight s.mounts)) [
  | inl e ↦ rw e h
  | inr e ↦ rw e h
]

start_delete-AllNamed :
    (g : Group) (ok : Bool) (s : Page) → AllNamed s → AllNamed (start_delete g ok s).1
unfolding start_delete
start_delete-AllNamed g true s h = (tt, h)
start_delete-AllNamed g false s h = h

finish_delete-AllNamed : (ok : Bool) (s : Page) → AllNamed s → AllNamed (finish_delete ok s)
unfolding finish_delete
finish_delete-AllNamed true s h = start_load-AllNamed s h
finish_delete-AllNamed false s h = h

happen-AllNamed : (e : Event) (s : Page) → AllNamed s → AllNamed (happen e s)
unfolding happen open_add close_add close_edit handle_edit_group start_save
happen-AllNamed (load_ends d) s h = finish_load-AllNamed d s h
happen-AllNamed opens s h = h
happen-AllNamed cancels s h = h
happen-AllNamed submits s h = start_add-AllNamed s h
happen-AllNamed saves s h = save-AllNamed s.editing_group s.edit s h
happen-AllNamed closes_edit s h = h
happen-AllNamed (types t) s h = h
happen-AllNamed (types_description t) s h = h
happen-AllNamed (edit_types t) s h = h
happen-AllNamed (edit_types_description t) s h = h
happen-AllNamed (add_ends ok flight) s h = finish_add-AllNamed ok flight s h
happen-AllNamed (save_ends ok flight) s h = finish_save-AllNamed ok flight s h
happen-AllNamed (edits g) s h = h
happen-AllNamed (deletes g ok) s h = start_delete-AllNamed g ok s h
happen-AllNamed (delete_ends ok) s h = finish_delete-AllNamed ok s h

-- Whatever happens to the page, no request creates a group or renames one with a name that is empty
-- or white space alone, if none of those before did.
pub happens-AllNamed : (es : List Event) (s : Page) → AllNamed s → AllNamed (happens es s)
happens-AllNamed [] s h = h
happens-AllNamed (e ∷ es) s h = happens-AllNamed es (happen e s) (happen-AllNamed e s h)

-- The modal that adds a group keeps its text when it is cancelled and opened again, and a press of
-- its button, which stays enabled, does nothing while the name is empty or white space alone.
pub cancelled_text_stays :
    (s : Page)
    → ((open_add (close_add s)).add ≡ s.add)
      × ((if is_blank (trim s.add.name) then (start_add s).1 else s) ≡ s)
unfolding open_add close_add start_add
cancelled_text_stays s = ground arith
