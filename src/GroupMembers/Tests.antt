-- ===== src/GroupMembers/Tests.antt =====
-- Runs of the section, and its theorems at concrete inputs.

use group_management_ui_back.Prelude.{
  String, ◌≡◌, refl, none, some, [], ◌∷◌, true, false, if◌then◌else◌, ◌==◌,
}
use group_management_ui_back.Types.{User, GroupMember, active}
use group_management_ui_back.GroupMembers.{
  State, Flight, start_remove, finish_remove, start_refresh,
}
use group_management_ui_back.GroupMembers.Removing.{member, remove, overlap, remove_lem}

abbrev ann : GroupMember
ann = record { user_id = "u1"; user_name = "ann"; email = "ann@x" }

abbrev bob : GroupMember
bob = record { user_id = "u2"; user_name = "bob"; email = "bob@x" }

abbrev new_ann : User
new_ann = record {
  id = "u1";
  name = "anna";
  display_label = "User: anna";
  email = "anna@x";
  status = active;
  groups = [];
  certificate_identity = none;
  created_at = "";
}

abbrev shown : State
shown = record {
  members = ann ∷ bob ∷ [];
  deleting = none;
  is_edit_open = true;
  editing_user = some new_ann;
  notices = [];
  calls = [];
}

overlap_test : (overlap "u1" "u2" shown).members ≡ ann ∷ []
unfolding start_remove finish_remove
overlap_test = refl

remove_lem_example :
    ((j : String)
      → member j (remove "u1" true shown) ≡ (if "u1" == j then none else member j shown))
    × ((remove "u1" false shown).members ≡ shown.members)
    × ((remove "u1" true shown).deleting ≡ none)
    × ((remove "u1" false shown).deleting ≡ none)
remove_lem_example = remove_lem "u1" shown

abbrev flight : Flight
flight = record { user_id = "u1"; captured = ann ∷ bob ∷ [] }

flight_test : (start_refresh shown).0 ≡ some flight
unfolding start_refresh
flight_test = refl
