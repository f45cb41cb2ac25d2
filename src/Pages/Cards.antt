-- ===== src/Pages/Cards.antt =====
-- The cards and sections under frontend/components/dashboard/: what is shown of a network, a connector
-- and a resource on their own pages, of the connectors and resources of a network, of the resources of
-- a group, and in the lists of all resources and of service accounts. Fixed texts are left out.
use Prim.Native.String.{◌++◌ as append}
use group_management_ui_back.Prelude.{
  String, Bool, Option, none, some, List, [], ◌∷◌, map, if◌then◌else◌, is_blank, eqb, to_text,
}
use group_management_ui_back.Types.{
  Connector, RemoteNetwork, Resource, ServiceAccount, Status, Location,
}
use group_management_ui_back.Pages.Rows.{
  Shield, green, red, yellow, liveness_label, network_name, is_active_status,
}
use group_management_ui_back.Pages.Tables.{
  Link, network_of, ResourceRow, resource_row, NetworkConnectorRow, network_connector_row,
}

-- `RemoteNetworkInfoSection`
pub record NetworkCard : Type 0 where
  pub name : String
  pub location : Location
  pub shield : Shield
  pub online_text : String
  pub resources_text : String
  pub id : String
  pub created : String

unfoldable pub network_card : RemoteNetwork → NetworkCard
network_card n = record {
  name = n.name;
  location = n.location;
  shield =
      if eqb n.online_connector_count n.connector_count
      then green
      else if eqb n.online_connector_count 0
      then red
      else yellow;
  online_text =
      append (to_text n.online_connector_count)
        (append " / " (append (to_text n.connector_count) " Online"));
  resources_text = append (to_text n.resource_count) " resources";
  id = n.id;
  created = n.created_at;
}

-- `ConnectorInfoSection`; `date_text` is `new Date(s).toLocaleString()`, and no network is "N/A".
pub record ConnectorCard : Type 0 where
  pub name : String
  pub status : String
  pub version : String
  pub last_seen : String
  pub network : Link
  pub hostname : String

unfoldable pub connector_card : (String → String) → Connector → Option RemoteNetwork → ConnectorCard
connector_card date_text c network = record {
  name = c.name;
  status = liveness_label c.status;
  version = c.version;
  last_seen = date_text c.last_seen;
  network = network_of network;
  hostname = c.hostname;
}

-- `ResourceInfoSection`
pub record ResourceCard : Type 0 where
  pub name : String
  pub address : String
  pub description : String

unfoldable pub resource_card : Resource → ResourceCard
resource_card r = record { name = r.name; address = r.address; description = r.description }

-- A table, or none for the text that there is nothing in it
abbrev pub table : {A B : Type 0} → (A → B) → List A → Option (List B)
table f [] = none
table f (x ∷ xs) = some (map f (x ∷ xs))

-- `NetworkConnectorsList`, `NetworkResourcesList` and `GroupResourcesSection`
unfoldable pub network_connectors : List Connector → Option (List NetworkConnectorRow)
unfolding network_connector_row
network_connectors cs = table network_connector_row cs

unfoldable pub network_resources : List Resource → Option (List ResourceRow)
unfolding resource_row
network_resources rs = table resource_row rs

unfoldable pub group_resources : List Resource → Option (List ResourceRow)
unfolding resource_row
group_resources rs = table resource_row rs

-- A row of `ResourcesList`, where no network is the dash
pub record ListedResource : Type 0 where
  pub name : String
  pub address : String
  pub network : Link
  pub manage : String

abbrev pub named_network : List RemoteNetwork → Option String → Link
named_network networks none = none
named_network networks (some id) =
    if is_blank id
    then none
    else some (network_name networks id, append "/dashboard/remote-networks/" id)

unfoldable pub listed_resource : List RemoteNetwork → Resource → ListedResource
listed_resource networks r = record {
  name = r.name;
  address = r.address;
  network = named_network networks r.remote_network_id;
  manage = append "/dashboard/resources/" r.id;
}

unfoldable pub resources_list : List RemoteNetwork → List Resource → Option (List ListedResource)
unfolding listed_resource
resources_list networks rs = table (listed_resource networks) rs

-- A row of `ServiceAccountsList`
pub record AccountRow : Type 0 where
  pub name : String
  pub kind : String
  pub status : Status
  pub is_highlighted : Bool
  pub resources : String
  pub created : String

unfoldable pub account_row : ServiceAccount → AccountRow
account_row a = record {
  name = a.name;
  kind = "SERVICE";
  status = a.status;
  is_highlighted = is_active_status a.status;
  resources = to_text a.associated_resource_count;
  created = a.created_at;
}

unfoldable pub accounts_list : List ServiceAccount → Option (List AccountRow)
unfolding account_row
accounts_list as_ = table account_row as_
