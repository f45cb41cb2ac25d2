-- ===== src/Routing/Tests.antt =====
-- The links of some things, through the router of Routing/Matching.
use group_management_ui_back.Prelude.{◌≡◌, refl, true, false, none, some, ◌∷◌, [], All}
use group_management_ui_back.Types.{
  Group, Connector, RemoteNetwork, Resource, Tunneler, online, aws, standard, tcp,
}
use group_management_ui_back.Api.Encoding.{encode_uri_component}
use group_management_ui_back.ResourcePolicies.{ResourcePolicy, any}
use group_management_ui_back.ResourcePolicies.Page.{row}
use group_management_ui_back.Navigation.{nav_items}
use group_management_ui_back.Pages.Rows.{connector_row, network_row}
use group_management_ui_back.Pages.Tables.{group_row, tunneler_row, resource_row}
use group_management_ui_back.Routing.{
  dashboard_layout, group_detail_page, resource_detail_page, connector_detail_page,
  network_detail_page, tunneler_detail_page,
}
use group_management_ui_back.Routing.Leading.{Leads, rows_lead, policy_elements}
use group_management_ui_back.Routing.Sidebar.{Opens, links, sidebar_leads}
use group_management_ui_back.Routing.Matching.{cutting_router}

abbrev group : Group
group = record {
  id = "g-1";
  name = "Engineering";
  display_label = "Group: Engineering";
  description = "";
  member_count = 2;
  resource_count = 0;
  created_at = "2024-01-15";
  updated_at = none;
}

abbrev connector : Connector
connector = record {
  id = "con_1";
  name = "edge";
  status = online;
  version = "1.0.0";
  hostname = "edge.local";
  remote_network_id = "net_1";
  last_seen = "";
  installed = true;
  last_policy_version = 1;
  last_seen_at = none;
  private_ip = none;
}

abbrev network : RemoteNetwork
network = record {
  id = "net_1";
  name = "Office";
  location = aws;
  connector_count = 1;
  online_connector_count = 1;
  resource_count = 1;
  created_at = "2024-01-15";
  updated_at = "2024-01-15";
}

abbrev database : Resource
database = record {
  id = "res_1";
  name = "db";
  kind = standard;
  address = "db.local";
  protocol = tcp;
  port_from = some 5432;
  port_to = none;
  alias = none;
  description = "";
  remote_network_id = some "net_1";
}

abbrev tunneler : Tunneler
tunneler = record {
  id = "tun_1";
  name = "laptop";
  status = online;
  version = "1.0.0";
  hostname = "";
  remote_network_id = "net_1";
}

abbrev policy : ResourcePolicy
policy = record { id = "policy_1"; name = "Laptops"; is_default = false; mode = any }

rows_lead_example :
    Leads cutting_router (group_row group).details group_detail_page "groupId" "g-1"
    × Leads cutting_router
        (connector_row connector).link
        connector_detail_page
        "connectorId"
        "con_1"
    × Leads cutting_router (network_row network).link network_detail_page "networkId" "net_1"
    × Leads cutting_router (resource_row database).manage resource_detail_page "resourceId" "res_1"
    × Leads cutting_router (tunneler_row tunneler).manage tunneler_detail_page "tunnelerId" "tun_1"
    × (cutting_router.render (row policy).link
        ≡ some (dashboard_layout ∷ policy_elements, ("policyId", "policy_1") ∷ []))
unfolding encode_uri_component
rows_lead_example =
    rows_lead cutting_router group connector network database tunneler policy refl refl refl refl
      refl refl refl (cutting_router.keeps "policy_1" refl)

sidebar_leads_example : All (λ item. All (Opens cutting_router item) (links item)) nav_items
sidebar_leads_example = sidebar_leads cutting_router
