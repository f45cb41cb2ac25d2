-- ===== src/Pages/Tables.antt =====
-- The other tables and cards under frontend/components/dashboard/: what is shown of a group, a
-- tunneler, a service account, a connector and a resource in a network, the events of a connector.
use Prim.Native.String.{◌++◌ as append}
use mathlib.Core.List.{reverse}
use group_management_ui_back.Prelude.{
  String, Option, none, some, List, [], ◌∷◌, map, if◌then◌else◌, is_blank, to_text,
}
use group_management_ui_back.Types.{Group, Tunneler, Connector, RemoteNetwork, Resource}
use group_management_ui_back.ConnectorPage.{LogEntry}
use group_management_ui_back.Pages.Rows.{liveness_label}

-- `text || '—'`
abbrev pub or_dash : String → String
or_dash text = if is_blank text then "—" else text

-- A link: its text and where it leads, or none for the dash.
abbrev pub Link : Type 0
Link = Option (String × String)

abbrev pub network_link : String → Link
network_link id = if is_blank id then none else some (id, append "/dashboard/remote-networks/" id)

pub record TunnelerRow : Type 0 where
  pub name : String
  pub label : String
  pub version : String
  pub hostname : String
  pub network : Link
  pub manage : String

unfoldable pub tunneler_row : Tunneler → TunnelerRow
tunneler_row t = record {
  name = t.name;
  label = liveness_label t.status;
  version = or_dash t.version;
  hostname = or_dash t.hostname;
  network = network_link t.remote_network_id;
  manage = append "/dashboard/tunnelers/" t.id;
}

pub record GroupRow : Type 0 where
  pub name : String
  pub description : String
  pub members : String
  pub resources : String
  pub created : String
  pub updated : String
  pub details : String

-- `group.updatedAt ?? '—'`
abbrev pub given_or_dash : Option String → String
given_or_dash none = "—"
given_or_dash (some t) = t

unfoldable pub group_row : Group → GroupRow
group_row g = record {
  name = g.name;
  description = g.description;
  members = to_text g.member_count;
  resources = to_text g.resource_count;
  created = g.created_at;
  updated = given_or_dash g.updated_at;
  details = append "/dashboard/groups/" g.id;
}

-- A connector in the table of a network: unlike in the list of connectors, its label, version and
-- host name do not depend on whether it is installed.
pub record NetworkConnectorRow : Type 0 where
  pub name : String
  pub label : String
  pub version : String
  pub hostname : String
  pub link : String

unfoldable pub network_connector_row : Connector → NetworkConnectorRow
network_connector_row c = record {
  name = c.name;
  label = liveness_label c.status;
  version = c.version;
  hostname = c.hostname;
  link = append "/dashboard/connectors/" c.id;
}

pub record ResourceRow : Type 0 where
  pub name : String
  pub address : String
  pub description : String
  pub manage : String

-- The same in the table of a network and in that of a group
unfoldable pub resource_row : Resource → ResourceRow
resource_row r = record {
  name = r.name;
  address = r.address;
  description = r.description;
  manage = append "/dashboard/resources/" r.id;
}

-- The network in the card of a connector
abbrev pub network_of : Option RemoteNetwork → Link
network_of none = none
network_of (some n) = some (n.name, append "/dashboard/remote-networks/" n.id)

-- The events of a connector, the last one first, or none for "No recent events."
abbrev pub log_lines : List LogEntry → Option (List (String × String))
log_lines [] = none
log_lines (l ∷ ls) = some (reverse (map (λ e. (e.timestamp, e.message)) (l ∷ ls)))
