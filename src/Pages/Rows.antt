-- ===== src/Pages/Rows.antt =====
-- The rows of the lists under frontend/components/dashboard/: what is shown of a connector, a network,
-- a tunneler, a user and a resource. Icons and colours are named, class names are left out.
use Prim.Native.String.{◌++◌ as append}
use group_management_ui_back.Prelude.{
  String, Bool, true, false, Option, none, some, List, [], ◌∷◌, length, find, if◌then◌else◌, eqb,
  to_text, ◌==◌,
}
use group_management_ui_back.Types.{
  Connector, Liveness, online, offline, RemoteNetwork, User, Status, active, inactive,
}

abbrev pub liveness_label : Liveness → String
liveness_label online = "Online"
liveness_label offline = "Offline"

pub record ConnectorRow : Type 0 where
  pub name : String
  pub label : String
  pub version : String
  pub hostname : String
  pub link : String

unfoldable pub connector_row : Connector → ConnectorRow
connector_row c = record {
  name = c.name;
  label = if c.installed then liveness_label c.status else "Not installed";
  version = if c.installed then c.version else "—";
  hostname = if c.installed then c.hostname else "—";
  link = append "/dashboard/connectors/" c.id;
}

pub data Shield : Type 0 where
  green red yellow : Shield

pub record NetworkRow : Type 0 where
  pub name : String
  pub shield : Shield
  pub online_text : String
  pub resources_text : String
  pub link : String

unfoldable pub network_row : RemoteNetwork → NetworkRow
network_row n = record {
  name = n.name;
  shield =
      if eqb n.online_connector_count n.connector_count
      then green
      else if eqb n.online_connector_count 0
      then red
      else yellow;
  online_text =
      append (to_text n.online_connector_count)
        (append " / " (append (to_text n.connector_count) " Online"));
  resources_text = append (to_text n.resource_count) " Resources";
  link = append "/dashboard/remote-networks/" n.id;
}

pub record UserRow : Type 0 where
  pub name : String
  pub email : String
  pub is_active : Bool
  pub groups_text : String
  pub deactivate_disabled : Bool

abbrev pub is_active_status : Status → Bool
is_active_status active = true
is_active_status inactive = false

abbrev pub groups_text_of : List String → String
groups_text_of [] = "No groups"
groups_text_of (g ∷ gs) = append (to_text (length (g ∷ gs))) " group(s)"

unfoldable pub user_row : User → UserRow
user_row u = record {
  name = u.name;
  email = u.email;
  is_active = is_active_status u.status;
  groups_text = groups_text_of u.groups;
  deactivate_disabled = if is_active_status u.status then false else true;
}

abbrev name_or : Option RemoteNetwork → String → String
name_or none id = id
name_or (some n) id = n.name

-- `getNetworkName` of the list of resources
unfoldable pub network_name : List RemoteNetwork → String → String
network_name networks id = name_or (find (λ n. n.id == id) networks) id
