-- ===== src/AddResource.antt =====
-- frontend/components/dashboard/resources/add-resource-modal.tsx: the form for a new resource.
-- `handleSubmit` is split at its `await`. The message boxes of `sonner` are left out.
pub mod Submitting
pub mod Opening
mod Tests
use group_management_ui_back.Prelude.{
  String, Bool, true, false, ◌&&◌, ◌||◌, not, Option, none, some, List, [], ◌∷◌, if◌then◌else◌,
  is_blank, strip_spaces,
}
use group_management_ui_back.Types.{ResourceType, standard, RemoteNetwork, Protocol, tcp, udp}
use group_management_ui_back.Storage.{Browser}
use group_management_ui_back.ResourcePolicies.{
  ResourcePolicy, Parsed, ensure_default_resource_policy, list_resource_policies,
}
use group_management_ui_back.Api.{ResourceData}

pub data PortMode : Type 0 where
  all custom blocked : PortMode

pub data AccessMode : Type 0 where
  manual auto_lock requests : AccessMode

-- `defaultNetworkId` and `lockNetwork`
pub record Props : Type 0 where
  pub default_network_id : Option String
  pub lock_network : Bool

pub record State : Type 0 where
  pub networks : List RemoteNetwork
  pub loading_networks : Bool
  pub policies : List ResourcePolicy
  pub network_id : String
  pub name : String
  pub kind : ResourceType
  pub address : String
  pub alias : String
  pub tcp_mode : PortMode
  pub tcp_ports : String
  pub udp_mode : PortMode
  pub udp_ports : String
  pub policy_id : String
  pub access_mode : AccessMode
  pub is_submitting : Bool

abbrev pub or_empty : Option String → String
or_empty none = ""
or_empty (some s) = s

unfoldable pub initial : Props → State
initial props = record {
  networks = [];
  loading_networks = true;
  policies = [];
  network_id = or_empty props.default_network_id;
  name = "";
  kind = standard;
  address = "";
  alias = "";
  tcp_mode = all;
  tcp_ports = "";
  udp_mode = all;
  udp_ports = "";
  policy_id = "";
  access_mode = manual;
  is_submitting = false;
}

-- `loaded[0].id` where there is one, and the old value where not
abbrev pub first_id : String → List ResourcePolicy → String
first_id old [] = old
first_id old (p ∷ ps) = p.id

-- `if (!networkId && defaultNetworkId) setNetworkId(defaultNetworkId)`
abbrev pub with_default : Option String → String → String
with_default none id = id
with_default (some d) id = if is_blank id && not (is_blank d) then d else id

-- The effect of opening, up to the request for the networks; it reads and seeds the policies.
unfoldable pub open_modal : Props → State → Browser Parsed → State × Browser Parsed
open_modal props s b =
    let (loaded, b') = list_resource_policies (ensure_default_resource_policy b) in
    (
      record s {
        loading_networks = true;
        network_id = with_default props.default_network_id s.network_id;
        policies = loaded;
        policy_id = if is_blank s.policy_id then first_id s.policy_id loaded else s.policy_id;
      },
      b',
    )

-- The end of the request for the networks: `none` where it throws.
unfoldable pub receive_networks : Option (List RemoteNetwork) → State → State
receive_networks none s = record s { loading_networks = false }
receive_networks (some ns) s = record s { networks = ns; loading_networks = false }

-- The inputs of the form.
pub data Input : Type 0 where
  network_input name_input address_input alias_input tcp_ports_input : String → Input
  udp_ports_input policy_input : String → Input
  kind_input : ResourceType → Input
  tcp_mode_input udp_mode_input : PortMode → Input
  access_input : AccessMode → Input

unfoldable pub enter : Input → State → State
enter (network_input v) s = record s { network_id = v }
enter (name_input v) s = record s { name = v }
enter (kind_input v) s = record s { kind = v }
enter (address_input v) s = record s { address = strip_spaces v }
enter (alias_input v) s = record s { alias = v }
enter (tcp_mode_input v) s = record s { tcp_mode = v }
enter (tcp_ports_input v) s = record s { tcp_ports = v }
enter (udp_mode_input v) s = record s { udp_mode = v }
enter (udp_ports_input v) s = record s { udp_ports = v }
enter (policy_input v) s = record s { policy_id = v }
enter (access_input v) s = record s { access_mode = v }

unfoldable pub reset_form : Props → List ResourcePolicy → State → State
reset_form props policies s = record s {
  network_id = or_empty props.default_network_id;
  name = "";
  kind = standard;
  address = "";
  alias = "";
  tcp_mode = all;
  tcp_ports = "";
  udp_mode = all;
  udp_ports = "";
  policy_id = first_id "" policies;
  access_mode = manual;
}

unfoldable pub can_submit : State → Bool
can_submit s = not (is_blank s.network_id) && not (is_blank s.name) && not (is_blank s.address)

-- `tcpMode !== 'blocked' ? 'TCP' : 'UDP'`
abbrev pub primary_protocol : PortMode → Protocol
primary_protocol blocked = udp
primary_protocol _ = tcp

-- `alias || undefined`
abbrev pub or_undefined : String → Option String
or_undefined s = if is_blank s then none else some s

-- The argument of `addResource`.
unfoldable pub payload : State → ResourceData
payload s = record {
  network_id = s.network_id;
  name = s.name;
  kind = s.kind;
  address = s.address;
  protocol = primary_protocol s.tcp_mode;
  port_from = some none;
  port_to = some none;
  alias = or_undefined s.alias;
}

-- `handleSubmit` up to the request; what is in flight is its argument and the captured policies.
unfoldable pub start_submit : State → Option (ResourceData × List ResourcePolicy) × State
unfolding payload can_submit
start_submit s =
    if can_submit s
    then (some (payload s, s.policies), record s { is_submitting = true })
    else (none, s)

-- The rest, with whether the modal is closed by it.
unfoldable pub finish_submit : Props → Bool → List ResourcePolicy → State → State × Bool
unfolding reset_form
finish_submit props true policies s =
    (record (reset_form props policies s) { is_submitting = false }, true)
finish_submit props false policies s = (record s { is_submitting = false }, false)

-- `handleClose`
unfoldable pub handle_close : Props → State → State
unfolding reset_form
handle_close props s = reset_form props s.policies s

-- What is rendered, less the styling and the values of the inputs.
pub record View : Type 0 where
  pub network_disabled : Bool
  pub network_placeholder : String
  pub shows_tcp_ports : Bool
  pub shows_udp_ports : Bool
  pub cancel_disabled : Bool
  pub submit_disabled : Bool

abbrev pub is_custom : PortMode → Bool
is_custom custom = true
is_custom _ = false

unfoldable pub view : Props → State → View
unfolding can_submit
view props s = record {
  network_disabled = s.loading_networks || props.lock_network;
  network_placeholder = if s.loading_networks then "Loading..." else "Select a network";
  shows_tcp_ports = is_custom s.tcp_mode;
  shows_udp_ports = is_custom s.udp_mode;
  cancel_disabled = s.is_submitting;
  submit_disabled = not (can_submit s) || s.is_submitting;
}
