-- ===== src/Users/Closing.antt =====
-- frontend/src/pages/users/UsersPage.tsx: the add modal is empty whenever it is closed.
use group_management_ui_back.Prelude.{
  ℕ, String, ◌≡◌, refl, Bool, true, false, ◌&&◌, not, Bool-cases, inl, inr, Option, none, some,
  List, [], ◌∷◌, if◌then◌else◌, eqb,
}
use group_management_ui_back.Types.{User, Status, active}
use group_management_ui_back.Users.{
  Form, Page, Call, saving, first_page, start_load, show_spinner, finish_load, remount, open_add,
  close_add, start_add, finish_add, add_disabled, handle_edit_user, close_edit, start_save,
  finish_save, save_disabled, start_deactivate, start_delete, finish_change, is_incomplete, save_of,
  is_inactive,
}

-- What happens to the page: the ends of what is in flight, and what the user does with the page or
-- with a modal while it is shown.
pub data Event : Type 0 where
  load_ends : Option (List User) → Event
  opens : Event
  types_name types_email : String → Event
  chooses : Status → Event
  cancels submits saves closes_edit : Event
  add_ends save_ends : Bool → ℕ → Event
  edits : User → Event
  edit_types_name edit_types_email : String → Event
  edit_chooses : Status → Event
  deactivates deletes : User → Bool → Event
  change_ends : Bool → Event

-- The add modal is on the screen.
abbrev pub shows_add : Page → Bool
shows_add s = s.is_modal_open && not s.loading

abbrev pub shows_edit : Page → Bool
shows_edit s = s.is_edit_open && not s.loading

-- Only what is on the screen can be used.
abbrev pub when : Bool → Page → Page → Page
when b t s = if b then t else s

unfoldable pub happen : Event → Page → Page
happen (load_ends users) s = finish_load users s
happen opens s = when (not s.loading) (open_add s) s
happen (types_name t) s = when (shows_add s) (record s { add = record s.add { name = t } }) s
happen (types_email t) s = when (shows_add s) (record s { add = record s.add { email = t } }) s
happen (chooses st) s = when (shows_add s) (record s { add = record s.add { status = st } }) s
happen cancels s = when (shows_add s) (close_add s) s
happen submits s = when (shows_add s && not (add_disabled s)) (start_add s).1 s
happen saves s = when (shows_edit s && not (save_disabled s)) (start_save s).1 s
happen closes_edit s = when (shows_edit s) (close_edit s) s
happen (add_ends ok flight) s = finish_add ok flight s
happen (save_ends ok flight) s = finish_save ok flight s
happen (edits user) s = when (not s.loading) (handle_edit_user user s) s
happen (edit_types_name t) s =
    when (shows_edit s) (record s { edit = record s.edit { name = t } }) s
happen (edit_types_email t) s =
    when (shows_edit s) (record s { edit = record s.edit { email = t } }) s
happen (edit_chooses st) s =
    when (shows_edit s) (record s { edit = record s.edit { status = st } }) s
happen (deactivates user ok) s = when (not s.loading) (start_deactivate user ok s).1 s
happen (deletes user ok) s = when (not s.loading) (start_delete user ok s).1 s
happen (change_ends ok) s = finish_change ok s

abbrev pub happens : List Event → Page → Page
happens [] s = s
happens (e ∷ es) s = happens es (happen e s)

-- A closed modal holds no text and has the status that it starts with.
abbrev pub Tidy : Bool → Form → Type 0
Tidy true f = Unit
Tidy false f = (f.name ≡ "") × (f.email ≡ "") × (f.status ≡ active)

abbrev pub IsTidy : Page → Type 0
IsTidy s = Tidy s.is_modal_open s.add

Tidy-empty :
    (open_ : Bool) (busy : Bool)
    → Tidy open_ (record { name = ""; email = ""; status = active; busy = busy })
Tidy-empty true busy = tt
Tidy-empty false busy = (refl, refl, refl)

Tidy-busy : (o b : Bool) (f : Form) → Tidy o f → Tidy o (record f { busy = b })
Tidy-busy true b f h = tt
Tidy-busy false b f h = h

Tidy-shown : (o l : Bool) (f : Form) → (o && not l) ≡ true → Tidy o f
Tidy-shown true l f h = tt
Tidy-shown false l f h = cc

Tidy-when : (b : Bool) (t s : Page) → (b ≡ true → IsTidy t) → IsTidy s → IsTidy (when b t s)
Tidy-when true t s g h = g refl
Tidy-when false t s g h = h

start_load-IsTidy : (s : Page) → IsTidy (start_load s)
unfolding start_load show_spinner
start_load-IsTidy s = Tidy-empty s.is_modal_open false

finish_load-IsTidy : (d : Option (List User)) (s : Page) → IsTidy s → IsTidy (finish_load d s)
unfolding finish_load remount
finish_load-IsTidy none s h = h
finish_load-IsTidy (some us) s h = h

finish_add-IsTidy : (ok : Bool) (flight : ℕ) (s : Page) → IsTidy s → IsTidy (finish_add ok flight s)
unfolding finish_add start_load show_spinner
finish_add-IsTidy true flight s h = Tidy-empty false false
finish_add-IsTidy false flight s h = elim (Bool-cases (eqb flight s.mounts)) [
  | inl e ↦ rw e (Tidy-busy s.is_modal_open false s.add h)
  | inr e ↦ rw e h
]

finish_save-IsTidy :
    (ok : Bool) (flight : ℕ) (s : Page) → IsTidy s → IsTidy (finish_save ok flight s)
unfolding finish_save close_edit
finish_save-IsTidy true flight s h = start_load-IsTidy s
finish_save-IsTidy false flight s h = elim (Bool-cases (eqb flight s.mounts)) [
  | inl e ↦ rw e h
  | inr e ↦ rw e h
]

start_add-IsTidy : (s : Page) → IsTidy s → IsTidy (start_add s).1
unfolding start_add
start_add-IsTidy s h = elim (Bool-cases (is_incomplete s.add)) [
  | inl e ↦ rw e h
  | inr e ↦ rw e (Tidy-busy s.is_modal_open true s.add h)
]

saving-IsTidy : (c : Option Call) (s : Page) → IsTidy s → IsTidy (saving c s).1
saving-IsTidy none s h = h
saving-IsTidy (some c) s h = h

start_save-IsTidy : (s : Page) → IsTidy s → IsTidy (start_save s).1
unfolding start_save
start_save-IsTidy s h = saving-IsTidy (save_of s.editing_user s.edit) s h

start_deactivate-IsTidy :
    (user : User) (ok : Bool) (s : Page) → IsTidy s → IsTidy (start_deactivate user ok s).1
unfolding start_deactivate
start_deactivate-IsTidy user ok s h = elim (Bool-cases (is_inactive user.status)) [
  | inl e ↦ rw e h
  | inr e ↦ elim (Bool-cases ok) [ inl k ↦ rw (e, k) h | inr k ↦ rw (e, k) h ]
]

start_delete-IsTidy :
    (user : User) (ok : Bool) (s : Page) → IsTidy s → IsTidy (start_delete user ok s).1
unfolding start_delete
start_delete-IsTidy user true s h = h
start_delete-IsTidy user false s h = h

finish_change-IsTidy : (ok : Bool) (s : Page) → IsTidy s → IsTidy (finish_change ok s)
unfolding finish_change
finish_change-IsTidy true s h = start_load-IsTidy s
finish_change-IsTidy false s h = h

happen-IsTidy : (e : Event) (s : Page) → IsTidy s → IsTidy (happen e s)
unfolding happen open_add close_add close_edit handle_edit_user
happen-IsTidy (load_ends d) s h = finish_load-IsTidy d s h
happen-IsTidy opens s h = Tidy-when (not s.loading) (open_add s) s (λ k. tt) h
happen-IsTidy (types_name t) s h =
    Tidy-when (shows_add s) (record s { add = record s.add { name = t } }) s
      (Tidy-shown s.is_modal_open s.loading (record s.add { name = t })) h
happen-IsTidy (types_email t) s h =
    Tidy-when (shows_add s) (record s { add = record s.add { email = t } }) s
      (Tidy-shown s.is_modal_open s.loading (record s.add { email = t })) h
happen-IsTidy (chooses st) s h =
    Tidy-when (shows_add s) (record s { add = record s.add { status = st } }) s
      (Tidy-shown s.is_modal_open s.loading (record s.add { status = st })) h
happen-IsTidy cancels s h =
    Tidy-when (shows_add s) (close_add s) s (λ k. Tidy-empty false s.add.busy) h
happen-IsTidy submits s h =
    Tidy-when (shows_add s && not (add_disabled s)) (start_add s).1 s (λ k. start_add-IsTidy s h) h
happen-IsTidy saves s h =
    Tidy-when (shows_edit s && not (save_disabled s)) (start_save s).1 s
      (λ k. start_save-IsTidy s h) h
happen-IsTidy closes_edit s h = Tidy-when (shows_edit s) (close_edit s) s (λ k. h) h
happen-IsTidy (add_ends ok flight) s h = finish_add-IsTidy ok flight s h
happen-IsTidy (save_ends ok flight) s h = finish_save-IsTidy ok flight s h
happen-IsTidy (edits user) s h = Tidy-when (not s.loading) (handle_edit_user user s) s (λ k. h) h
happen-IsTidy (edit_types_name t) s h =
    Tidy-when (shows_edit s) (record s { edit = record s.edit { name = t } }) s (λ k. h) h
happen-IsTidy (edit_types_email t) s h =
    Tidy-when (shows_edit s) (record s { edit = record s.edit { email = t } }) s (λ k. h) h
happen-IsTidy (edit_chooses st) s h =
    Tidy-when (shows_edit s) (record s { edit = record s.edit { status = st } }) s (λ k. h) h
happen-IsTidy (deactivates user ok) s h =
    Tidy-when (not s.loading) (start_deactivate user ok s).1 s
      (λ k. start_deactivate-IsTidy user ok s h) h
happen-IsTidy (deletes user ok) s h =
    Tidy-when (not s.loading) (start_delete user ok s).1 s (λ k. start_delete-IsTidy user ok s h) h
happen-IsTidy (change_ends ok) s h = finish_change-IsTidy ok s h

happens-Tidy : (es : List Event) (s : Page) → IsTidy s → IsTidy (happens es s)
happens-Tidy [] s h = h
happens-Tidy (e ∷ es) s h = happens-Tidy es (happen e s) (happen-IsTidy e s h)

-- Whatever happens to the page, the modal that adds a user is empty while it is closed.
pub happens-IsTidy : (es : List Event) → IsTidy (happens es first_page)
unfolding first_page start_load show_spinner
happens-IsTidy es = happens-Tidy es first_page (refl, refl, refl)
