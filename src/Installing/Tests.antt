-- ===== src/Installing/Tests.antt =====
-- The commands that install a connector and a tunneler, at concrete values.
use group_management_ui_back.Prelude.{◌≡◌, refl, none, true, [], ◌∷◌}
use group_management_ui_back.Types.{Connector, online}
use group_management_ui_back.Installing.{
  Form, mounted, controller_addr_of, controller_http_addr_of, tunneler_command,
}
use group_management_ui_back.Installing.Quoting.{quoted, is_plain, quoted-tunneler_command}

abbrev fresh : Form
unfolding mounted controller_addr_of controller_http_addr_of
fresh = mounted "" none

quoted-tunneler_command_example :
    quoted (tunneler_command fresh)
    ≡ "127.0.0.1:8443" ∷ "127.0.0.1:8081" ∷ "CONNECTOR_ADDR_HERE" ∷ "tunneler-local-01"
      ∷ "fetching_enrollment_token" ∷ []
unfolding mounted controller_addr_of controller_http_addr_of is_plain
quoted-tunneler_command_example = quoted-tunneler_command fresh refl refl refl refl refl

abbrev unaddressed : Connector
unaddressed = record {
  id = "c1";
  name = "edge";
  status = online;
  version = "1";
  hostname = "h";
  remote_network_id = "n1";
  last_seen = "";
  installed = true;
  last_policy_version = 1;
  last_seen_at = none;
  private_ip = none;
}
