-- ===== src/EditResource/Tests.antt =====
-- Runs of the form, and its theorems at concrete inputs.
use group_management_ui_back.Prelude.{
  String, ◌≡◌, refl, none, some, ne_of_==, ◌==◌, if◌then◌else◌, to_text,
}
use group_management_ui_back.Json.{Num, int, nan}
use group_management_ui_back.Types.{Resource, browser, tcp}
use group_management_ui_back.EditResource.{
  State, initial, open_modal, enter, start_submit, port_from_input, digits_only,
}
use group_management_ui_back.EditResource.Submitting.{ReadsBack, submit_unchanged}

-- `Number` on the one text that the tests read.
abbrev number_of : String → Num
number_of s = if s == "80" then int 80 else nan

abbrev web : Resource
web = record {
  id = "r1";
  name = "web";
  kind = browser;
  address = "10.0.0.2";
  protocol = tcp;
  port_from = some 80;
  port_to = some 0;
  alias = none;
  description = "";
  remote_network_id = some "n1";
}

abbrev opened : State
opened = open_modal (some web) initial

digits_test : (enter (port_from_input " 44a3") opened).port_from ≡ "443"
unfolding enter digits_only
digits_test = refl

eighty : ReadsBack number_of 80
unfolding to_text
eighty = refl

abbrev bounded : Resource
bounded = record web { port_to = none }

submit_unchanged_example :
    (start_submit number_of (some bounded) (open_modal (some bounded) initial)).0
    ≡ some (
      "r1",
      record {
        network_id = "n1";
        name = "web";
        kind = browser;
        address = "10.0.0.2";
        protocol = tcp;
        port_from = some (some (int 80));
        port_to = some none;
        alias = none;
      },
    )
submit_unchanged_example =
    submit_unchanged number_of bounded "n1" initial refl (ne_of_== "n1" "" refl)
      (ne_of_== "web" "" refl) (ne_of_== "10.0.0.2" "" refl) eighty tt
