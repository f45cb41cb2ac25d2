-- ===== src/EditResource.antt =====
-- frontend/components/dashboard/resources/edit-resource-modal.tsx: the form for a resource.
-- `handleSubmit` is split at its `await`. `Number` on texts is the parameter `number_of`; the
-- message boxes of `sonner` are left out.
pub mod Submitting
mod Tests
use Prim.Native.Char.{code}
use Prim.Native.String
use group_management_ui_back.Prelude.{
  ℕ, zero, suc, String, Bool, true, false, ◌&&◌, ◌||◌, not, Option, none, some, List, [], ◌∷◌,
  if◌then◌else◌, is_blank, strip_spaces, to_text, leb,
}
use group_management_ui_back.Json.{Num}
use group_management_ui_back.Types.{ResourceType, standard, RemoteNetwork, Protocol, tcp, Resource}
use group_management_ui_back.Api.{ResourceData}
use group_management_ui_back.AddResource.{or_empty, or_undefined}

pub record State : Type 0 where
  pub networks : List RemoteNetwork
  pub loading_networks : Bool
  pub network_id : String
  pub name : String
  pub kind : ResourceType
  pub address : String
  pub protocol : Protocol
  pub port_from : String
  pub port_to : String
  pub alias : String
  pub is_submitting : Bool

unfoldable pub initial : State
initial = record {
  networks = [];
  loading_networks = true;
  network_id = "";
  name = "";
  kind = standard;
  address = "";
  protocol = tcp;
  port_from = "";
  port_to = "";
  alias = "";
  is_submitting = false;
}

-- `port ? String(port) : ''`
abbrev pub port_text : Option ℕ → String
port_text none = ""
port_text (some zero) = ""
port_text (some (suc n)) = to_text (suc n)

-- The effect of opening, up to the request for the networks.
unfoldable pub open_modal : Option Resource → State → State
open_modal none s = record s { loading_networks = true }
open_modal (some r) s = record s {
  loading_networks = true;
  network_id = or_empty r.remote_network_id;
  name = r.name;
  kind = r.kind;
  address = r.address;
  protocol = r.protocol;
  port_from = port_text r.port_from;
  port_to = port_text r.port_to;
  alias = or_empty r.alias;
}

unfoldable pub receive_networks : Option (List RemoteNetwork) → State → State
receive_networks none s = record s { loading_networks = false }
receive_networks (some ns) s = record s { networks = ns; loading_networks = false }

-- `s.replace(/[^0-9]/g, '')`
unfoldable pub digits_only : String → String
digits_only String.[] = ""
digits_only (String.◌∷◌ c s) =
    if leb b'0' (code c) && leb (code c) b'9' then String.◌∷◌ c (digits_only s) else digits_only s

pub data Input : Type 0 where
  network_input name_input address_input port_from_input port_to_input : String → Input
  alias_input : String → Input
  kind_input : ResourceType → Input
  protocol_input : Protocol → Input

unfoldable pub enter : Input → State → State
enter (network_input v) s = record s { network_id = v }
enter (name_input v) s = record s { name = v }
enter (kind_input v) s = record s { kind = v }
enter (address_input v) s = record s { address = strip_spaces v }
enter (protocol_input v) s = record s { protocol = v }
enter (port_from_input v) s = record s { port_from = digits_only v }
enter (port_to_input v) s = record s { port_to = digits_only v }
enter (alias_input v) s = record s { alias = v }

-- `networkId && name && address && protocol`: a protocol is never falsy.
unfoldable pub can_submit : State → Bool
can_submit s = not (is_blank s.network_id) && not (is_blank s.name) && not (is_blank s.address)

-- `port ? Number(port) : null`
abbrev pub port_of : (String → Num) → String → Option Num
port_of number_of s = if is_blank s then none else some (number_of s)

unfoldable pub payload : (String → Num) → State → ResourceData
payload number_of s = record {
  network_id = s.network_id;
  name = s.name;
  kind = s.kind;
  address = s.address;
  protocol = s.protocol;
  port_from = some (port_of number_of s.port_from);
  port_to = some (port_of number_of s.port_to);
  alias = or_undefined s.alias;
}

-- `handleSubmit` up to the request: the identifier and the argument of `updateResource`.
unfoldable pub start_submit :
    (String → Num) → Option Resource → State → Option (String × ResourceData) × State
unfolding payload can_submit
start_submit number_of none s = (none, s)
start_submit number_of (some r) s =
    if can_submit s
    then (some (r.id, payload number_of s), record s { is_submitting = true })
    else (none, s)

-- The rest, with whether the parent is told of an update and to close the modal.
unfoldable pub finish_submit : Bool → State → State × Bool
finish_submit ok s = (record s { is_submitting = false }, ok)

pub record View : Type 0 where
  pub network_disabled : Bool
  pub cancel_disabled : Bool
  pub submit_disabled : Bool

unfoldable pub view : State → View
unfolding can_submit
view s = record {
  network_disabled = s.loading_networks;
  cancel_disabled = s.is_submitting;
  submit_disabled = not (can_submit s) || s.is_submitting;
}
