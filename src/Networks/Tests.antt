-- ===== src/Networks/Tests.antt =====
-- The modals that add a remote network or a connector, at concrete inputs.
use group_management_ui_back.Prelude.{◌≡◌, false, none, some, [], if◌then◌else◌, trim}
use group_management_ui_back.Networks.{
  add_remote_network, add_connector, NetworkForm, network_disabled, submit_network, ConnectorForm,
  connector_disabled, submit_connector, ChoiceForm, choice_disabled, submit_choice,
}
use group_management_ui_back.Networks.Adding.{request, enabled_sends}

abbrev aws : NetworkForm
aws = record { name = " VPC "; location = "AWS"; is_submitting = false }

abbrev edge : ConnectorForm
edge = record { name = " edge "; is_submitting = false }

abbrev chosen : ChoiceForm
chosen = record {
  name = " edge ";
  remote_networks = [];
  remote_network_id = "n1";
  loading_networks = false;
  is_adding = false;
  error = none;
}

enabled_sends_example :
    ((if network_disabled aws then none else some (add_remote_network (trim " VPC ") "AWS"))
      ≡ (if false then none else request (submit_network aws).0))
    × ((if connector_disabled edge then none else some (add_connector " edge " "n1"))
        ≡ (if false then none else request (submit_connector "n1" edge).0))
    × ((if choice_disabled chosen then none else some (add_connector (trim " edge ") "n1"))
        ≡ (if false then none else request (submit_choice chosen).0))
enabled_sends_example = enabled_sends aws "n1" edge chosen
