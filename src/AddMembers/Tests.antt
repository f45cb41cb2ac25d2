-- ===== src/AddMembers/Tests.antt =====
-- Runs of the modal, and its theorems at concrete inputs.
use group_management_ui_back.Prelude.{
  String, ◌≡◌, refl, some, List, [], ◌∷◌, ◌++◌, length, true, false, contains_text, remove_first,
  ne_of_==, inl, inr,
}
use group_management_ui_back.Types.{user, Subject, GroupMember}
use group_management_ui_back.SubjectPicker
use group_management_ui_back.SubjectPicker.{toggle_subject, selected_of}
use group_management_ui_back.SubjectPicker.Filtering.{IsOffered}
use group_management_ui_back.AddMembers.{State, Pending, start_save, finish_save, picker_props}
use group_management_ui_back.AddMembers.Saving.{member_ids, save_succeeds}

abbrev lower : String → String
lower s = s

abbrev ann : GroupMember
ann = record { user_id = "u1"; user_name = "ann"; email = "ann@x" }

abbrev bob : Subject
bob = record { id = "u2"; name = "bob"; kind = user; display_label = "User: bob" }

abbrev cyd : Subject
cyd = record { id = "u3"; name = "cyd"; kind = user; display_label = "User: cyd" }

abbrev filled : State
filled = record {
  selected_users = selected_of bob ∷ [];
  saving = false;
  is_open = true;
  members = ann ∷ [];
  notices = [];
}

abbrev pending : Pending
pending = record { current = ann ∷ []; selected = selected_of bob ∷ []; sent = "u1" ∷ "u2" ∷ [] }

start_test : (start_save filled).1 ≡ some pending
unfolding start_save
start_test = refl

finish_test :
    (finish_save true pending filled).members
    ≡ ann ∷ (record { user_id = "u2"; user_name = "bob"; email = "" }) ∷ []
unfolding finish_save remove_first
finish_test = refl

save_succeeds_example :
    (member_ids (finish_save true pending filled).members ≡ "u1" ∷ "u2" ∷ [])
    × ((new : List GroupMember) × ((finish_save true pending filled).members ≡ (ann ∷ []) ++ new)
        × (length new ≡ 1))
    × ((finish_save true pending filled).is_open ≡ false)
    × ((finish_save true pending filled).saving ≡ false)
    × ((finish_save true pending filled).selected_users ≡ [])
save_succeeds_example = save_succeeds filled pending filled start_test

abbrev picker : SubjectPicker.State
picker = record {
  all_subjects = bob ∷ cyd ∷ [];
  loading = false;
  search_query = "cy";
  active_tab = some user;
}

cyd-IsOffered : IsOffered lower (picker_props filled) picker cyd
unfolding picker_props contains_text
cyd-IsOffered = record {
  of_tab = refl;
  matches = refl;
  not_excluded = elim [ inl e ↦ ne_of_== "u1" "u3" refl e | inr m ↦ m ];
}
