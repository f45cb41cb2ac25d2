-- ===== src/AddMembers/Saving.antt =====
-- What a save does to the members, the request and the modal.
use mathlib.Core.List.{map-append}
use group_management_ui_back.Prelude.{
  String, ◌≡◌, ◌≢◌, refl, ap, sym, ◌∙◌, true, false, none, some, List, [], ◌∷◌, ◌++◌, map,
  Bool-cases, inl, inr, length, In, KeysDistinct, LacksKey, length-map, subst, All, All-imp,
  All-both, KeysDistinct-append,
}
use group_management_ui_back.Types.{Subject, GroupMember, SelectedSubject}
use group_management_ui_back.SubjectPicker
use group_management_ui_back.SubjectPicker.{is_empty, toggle_subject}
use group_management_ui_back.SubjectPicker.Filtering.{IsOffered}
use group_management_ui_back.SubjectPicker.Selection.{toggle-LacksKey}
use group_management_ui_back.AddMembers.{
  State, Pending, picker_props, exclude_user_ids, select_at_least_one, member_of, start_save,
  finish_save,
}

abbrev pub member_ids : List GroupMember → List String
member_ids = map (λ m. m.user_id)

map-member_of :
    (selected : List SelectedSubject)
    → member_ids (map member_of selected) ≡ map (λ u. u.id) selected
map-member_of [] = refl
map-member_of (u ∷ us) = ap (λ ids. u.id ∷ ids) (map-member_of us)

module _ (s : State) where
  abbrev pending : Pending
  pending = record {
    current = s.members;
    selected = s.selected_users;
    sent = map (λ m. m.user_id) s.members ++ map (λ u. u.id) s.selected_users;
  }

  pending-eq : (p : Pending) → (start_save s).1 ≡ some p → pending ≡ p
  unfolding start_save
  pending-eq p h = elim (Bool-cases (is_empty s.selected_users)) [
    | inl e ↦ cc (rw e at h)
    | inr e ↦ cc (rw e at h)
  ]

  -- With nothing selected no request is made, and only a notice is given.
  pub save_nothing :
      s.selected_users ≡ []
      → start_save s ≡ (record s { notices = select_at_least_one ∷ s.notices }, none)
  unfolding start_save
  save_nothing h = rw (ap is_empty h)

  -- What a successful save makes of a later state.
  abbrev pub IsSaved : Pending → State → Type 0
  IsSaved p later =
      (member_ids later.members ≡ p.sent)
      × ((new : List GroupMember) × (later.members ≡ s.members ++ new)
          × (length new ≡ length s.selected_users))
      × (later.is_open ≡ false)
      × (later.saving ≡ false)
      × (later.selected_users ≡ [])

  pending-IsSaved : (later : State) → IsSaved pending (finish_save true pending later)
  unfolding finish_save
  pending-IsSaved later = (
    map-append (λ m. m.user_id) s.members (map member_of s.selected_users)
        ∙ ap (λ ids. member_ids s.members ++ ids) (map-member_of s.selected_users),
    (map member_of s.selected_users, refl, length-map member_of s.selected_users),
    refl,
    refl,
    refl,
  )

-- A save that succeeds: the members shown are those that were sent, in that order; the old ones
-- come first as they were, with one new member for each selected user; the modal is closed, and
-- nothing stays selected.
pub save_succeeds :
    (s : State) (p : Pending) (later : State)
    → (start_save s).1 ≡ some p
    → (member_ids (finish_save true p later).members ≡ p.sent)
      × ((new : List GroupMember) × ((finish_save true p later).members ≡ s.members ++ new)
          × (length new ≡ length s.selected_users))
      × ((finish_save true p later).is_open ≡ false)
      × ((finish_save true p later).saving ≡ false)
      × ((finish_save true p later).selected_users ≡ [])
save_succeeds s p later started =
    subst (λ q. IsSaved s q (finish_save true q later)) (pending-eq s p started)
      (pending-IsSaved s later)

-- No selected user is a member yet.
abbrev pub Disjoint : State → Type 0
Disjoint s = All (λ m. LacksKey (λ u. u.id) m.user_id s.selected_users) s.members

LacksKey-map :
    (k : String) (us : List SelectedSubject)
    → LacksKey (λ u. u.id) k us
    → LacksKey (λ m. m.user_id) k (map member_of us)
LacksKey-map k [] l = tt
LacksKey-map k (u ∷ us) (ne, l) = (ne, LacksKey-map k us l)

KeysDistinct-map :
    (us : List SelectedSubject)
    → KeysDistinct (λ u. u.id) us
    → KeysDistinct (λ m. m.user_id) (map member_of us)
KeysDistinct-map [] d = tt
KeysDistinct-map (u ∷ us) (l, d) = (LacksKey-map u.id us l, KeysDistinct-map us d)

-- If no member and no selected user is there twice, and none is both, a save leaves no member
-- twice.
pub saved-KeysDistinct :
    (s : State) (p : Pending) (later : State)
    → (start_save s).1 ≡ some p
    → KeysDistinct (λ m. m.user_id) s.members
    → KeysDistinct (λ u. u.id) s.selected_users
    → Disjoint s
    → KeysDistinct (λ m. m.user_id) (finish_save true p later).members
unfolding finish_save
saved-KeysDistinct s p later started d e apart =
    subst (λ q. KeysDistinct (λ m. m.user_id) (finish_save true q later).members)
      (pending-eq s p started)
      (KeysDistinct-append (λ m. m.user_id) s.members (map member_of s.selected_users) d
        (KeysDistinct-map s.selected_users e)
        (All-imp (λ m. LacksKey (λ u. u.id) m.user_id s.selected_users)
          (λ m. LacksKey (λ x. x.user_id) m.user_id (map member_of s.selected_users))
          (λ m l. LacksKey-map m.user_id s.selected_users l) s.members apart))

not_member :
    (id : String) (ms : List GroupMember)
    → (In id (map (λ m. m.user_id) ms) → ⊥)
    → All (λ m. id ≢ m.user_id) ms
not_member id [] h = tt
not_member id (m ∷ ms) h = ((λ e. h (inl (sym e))), not_member id ms (λ i. h (inr i)))

-- Toggling a user whom the picker offers keeps the selection apart from the members.
pub toggle-Disjoint :
    (lower : String → String) (s : State) (picker : SubjectPicker.State) (subject : Subject)
    → IsOffered lower (picker_props s) picker subject
    → Disjoint s
    → Disjoint (record s { selected_users = toggle_subject subject s.selected_users })
toggle-Disjoint lower s picker subject offered apart =
    All-imp (λ m. LacksKey (λ u. u.id) m.user_id s.selected_users × (subject.id ≢ m.user_id))
      (λ m. LacksKey (λ u. u.id) m.user_id (toggle_subject subject s.selected_users))
      (λ m h. toggle-LacksKey subject s.selected_users m.user_id h.1 h.0) s.members
      (All-both (λ m. LacksKey (λ u. u.id) m.user_id s.selected_users) (λ m. subject.id ≢ m.user_id)
        s.members apart
        (unfold picker_props exclude_user_ids in
          not_member subject.id s.members offered.not_excluded))
