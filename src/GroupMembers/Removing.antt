-- ===== src/GroupMembers/Removing.antt =====
-- Removing and deleting members, one at a time and overlapping.
use group_management_ui_back.Prelude.{
  String, ◌≡◌, ◌≢◌, refl, sym, Bool, true, false, Option, none, HasKey, LacksKey, LacksKey-filter,
  HasKey-filter_ne, find, find-filter, LacksKey-filter_any, not, ◌==◌, if◌then◌else◌,
}
use group_management_ui_back.Types.{GroupMember}
use group_management_ui_back.GroupMembers.{State, without, start_remove, finish_remove}

abbrev pub HasMember : String → State → Type 0
HasMember id s = HasKey (λ m. m.user_id) id s.members

abbrev pub member : String → State → Option GroupMember
member id s = find (λ m. m.user_id == id) s.members

-- A removal from its start to its end, with nothing between.
abbrev pub remove : String → Bool → State → State
remove id ok s = finish_remove ok (start_remove id s).0 (start_remove id s).1

-- One removal, with nothing in between: on success the user is no member any more and all others
-- are, unchanged; on failure the members stay; and no removal is left under way.
pub remove_lem :
    (id : String) (s : State)
    → ((j : String) → member j (remove id true s) ≡ (if id == j then none else member j s))
      × ((remove id false s).members ≡ s.members)
      × ((remove id true s).deleting ≡ none)
      × ((remove id false s).deleting ≡ none)
unfolding start_remove finish_remove
remove_lem id s = ((λ j. find-filter (λ m. m.user_id) id j s.members), refl, refl, refl)

-- Two removals that overlap: the second starts before the first has ended, and ends last.
abbrev pub overlap : String → String → State → State
overlap first second s =
    let (f, s1) = start_remove first s in
    let (g, s2) = start_remove second s1 in finish_remove true g (finish_remove true f s2)

-- Of two members whose removals overlap, both successful, the first is shown again at the end.
pub overlap_resurrects :
    (a b : String) (s : State)
    → a ≢ b
    → HasMember a s
    → HasMember a (overlap a b s) × LacksKey (λ m. m.user_id) b (overlap a b s).members
unfolding start_remove finish_remove
overlap_resurrects a b s ne h = (
  HasKey-filter_ne (λ m. m.user_id) b a s.members (λ e. ne (sym e)) h,
  LacksKey-filter (λ m. m.user_id) b s.members,
)

-- One after the other they are both gone.
pub sequence_removes :
    (a b : String) (s : State)
    → LacksKey (λ m. m.user_id) a (remove b true (remove a true s)).members
      × LacksKey (λ m. m.user_id) b (remove b true (remove a true s)).members
unfolding start_remove finish_remove
sequence_removes a b s = (
  LacksKey-filter_any (λ m. m.user_id) (λ m. not (m.user_id == b)) a (without a s.members)
      (LacksKey-filter (λ m. m.user_id) a s.members),
  LacksKey-filter (λ m. m.user_id) b (without a s.members),
)
