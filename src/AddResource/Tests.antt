-- ===== src/AddResource/Tests.antt =====
-- Runs of the form, and its theorems at concrete inputs.
use group_management_ui_back.Prelude.{
  ◌≡◌, refl, none, some, List, [], ◌∷◌, false, strip_spaces, is_space,
}
use group_management_ui_back.Types.{standard, tcp}
use group_management_ui_back.Api.{ResourceData}
use group_management_ui_back.AddResource.{
  Props, State, Input, initial, enter, start_submit, name_input, address_input,
}
use group_management_ui_back.AddResource.Submitting.{enter_all}

abbrev props : Props
props = record { default_network_id = some "n1"; lock_network = false }

abbrev inputs : List Input
inputs = name_input "db" ∷ address_input " 10.0.0.1 " ∷ []

abbrev filled : State
filled = enter_all inputs (initial props)

abbrev sent : ResourceData
sent = record {
  network_id = "n1";
  name = "db";
  kind = standard;
  address = "10.0.0.1";
  protocol = tcp;
  port_from = some none;
  port_to = some none;
  alias = none;
}

sent_test : (start_submit filled).0 ≡ some (sent, [])
unfolding start_submit enter_all initial strip_spaces enter is_space
sent_test = refl
