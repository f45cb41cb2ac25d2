-- ===== src/Users/Tests.antt =====
-- frontend/src/pages/users/UsersPage.tsx: the page at concrete states.
use group_management_ui_back.Prelude.{true, none, some, List, [], ◌∷◌}
use group_management_ui_back.Types.{User, active}
use group_management_ui_back.Users.{first_page}
use group_management_ui_back.Users.Closing.{Event, happens, IsTidy, happens-IsTidy}

abbrev ann : User
ann = record {
  id = "u1";
  name = "Ann";
  display_label = "User: Ann";
  email = "ann@example.org";
  status = active;
  groups = [];
  certificate_identity = none;
  created_at = "";
}

abbrev adding : List Event
adding =
    Event.load_ends (some (ann ∷ []))
    ∷ Event.opens
    ∷ Event.types_name "Bob"
    ∷ Event.types_email "bob@example.org"
    ∷ Event.submits
    ∷ Event.add_ends true 1
    ∷ []

happens-IsTidy_example : IsTidy (happens adding first_page)
happens-IsTidy_example = happens-IsTidy adding

abbrev typing : List Event
typing = Event.load_ends (some (ann ∷ [])) ∷ Event.opens ∷ Event.types_name "Bob" ∷ []
