-- ===== src/Groups/Tests.antt =====
-- frontend/src/pages/groups/GroupsPage.tsx: the page at concrete states.
use group_management_ui_back.Prelude.{◌≡◌, refl, true, false, none, List, [], ◌∷◌, trim}
use group_management_ui_back.Groups.{
  Page, empty_form, get_groups, add_group, open_add, start_add, finish_add, start_load, finish_load,
  remount,
}
use group_management_ui_back.Groups.Requesting.{Event, happen, happens, AllNamed, happens-AllNamed}

abbrev idle : Page
idle = record {
  groups = [];
  loading = false;
  is_modal_open = false;
  is_edit_open = false;
  editing_group = none;
  add = empty_form;
  edit = empty_form;
  mounts = 1;
  calls = [];
}

abbrev adding : List Event
adding =
    Event.opens
    ∷ Event.submits
    ∷ Event.types "Engineering"
    ∷ Event.submits
    ∷ Event.add_ends true 1
    ∷ Event.load_ends none
    ∷ []

adding_test : (happens adding idle).calls ≡ get_groups ∷ add_group "Engineering" "" ∷ []
unfolding happen open_add start_add finish_add start_load finish_load remount trim
adding_test = refl

happens-AllNamed_example : AllNamed (happens adding idle)
happens-AllNamed_example = happens-AllNamed adding idle tt
