-- ===== src/GroupMembers/Asking.antt =====
-- Confirmations, and the refresh after an edit.
use group_management_ui_back.Prelude.{
  String, ◌≡◌, refl, ap, ◌∙◌, Bool, false, none, some, List, [], ◌∷◌, map, find, ◌==◌, arith,
  Bool-cases, inl, inr,
}
use mathlib.Core.Option
use group_management_ui_back.Types.{User, GroupMember}
use group_management_ui_back.GroupMembers.{
  State, Flight, refreshed, handle_deactivate, start_delete, start_refresh, finish_refresh,
}
use group_management_ui_back.GroupMembers.Removing.{member}

-- A question that is not confirmed sends no request and changes nothing.
pub unconfirmed :
    (id : String) (ok : Bool) (s : State)
    → (handle_deactivate id false ok s ≡ s) × (start_delete id false s ≡ (none, s))
unfolding handle_deactivate start_delete
unconfirmed id ok s = (refl, refl)

id-refreshed : (user : User) (m : GroupMember) → (refreshed user m).user_id ≡ m.user_id
id-refreshed user m = ground arith

find-refreshed :
    (user : User) (j : String) (ms : List GroupMember)
    → find (λ m. m.user_id == j) (map (refreshed user) ms)
      ≡ Option.map (refreshed user) (find (λ m. m.user_id == j) ms)
find-refreshed user j [] = refl
find-refreshed user j (m ∷ ms) = elim (Bool-cases (m.user_id == j)) [
  | inl e ↦ rw (id-refreshed user m, e) refl
  | inr e ↦ rw (id-refreshed user m, e) (find-refreshed user j ms)
]

ids-refreshed :
    (user : User) (ms : List GroupMember)
    → map (λ m. m.user_id) (map (refreshed user) ms) ≡ map (λ m. m.user_id) ms
ids-refreshed user [] = refl
ids-refreshed user (m ∷ ms) =
    rw (id-refreshed user m) (ap (λ ids. m.user_id ∷ ids) (ids-refreshed user ms))

captured-eq : (s : State) (f : Flight) → (start_refresh s).0 ≡ some f → f.captured ≡ s.members
unfolding start_refresh
captured-eq s f h = ground arith

-- After an edit the members are the same users in the same order, the one that the server returns
-- with its name and address there, and all others as they were when the refresh began.
pub refresh_lem :
    (s later : State) (f : Flight) (user : User)
    → (start_refresh s).0 ≡ some f
    → (map (λ m. m.user_id) (finish_refresh (some user) f later).members
        ≡ map (λ m. m.user_id) s.members)
      × ((j : String)
          → member j (finish_refresh (some user) f later)
            ≡ Option.map (refreshed user) (member j s))
unfolding start_refresh finish_refresh
refresh_lem s later f user h =
    let e : f.captured ≡ s.members = captured-eq s f h in
    (
      ap (λ ms. map (λ m. m.user_id) (map (refreshed user) ms)) e ∙ ids-refreshed user s.members,
      (λ j.
          ap (λ ms. find (λ m. m.user_id == j) (map (refreshed user) ms)) e
          ∙ find-refreshed user j s.members),
    )
