-- ===== src/Pages/Sections.antt =====
-- The pages of a group, a network and a resource under frontend/src/pages/, once they have loaded: the
-- titles and what is shown in the sections of each.
use group_management_ui_back.Prelude.{String, Bool, List, Option, none, some, if◌then◌else◌}
use group_management_ui_back.Types.{AccessRule, GroupMember}
use group_management_ui_back.Pages.{
  GroupPage, NetworkPage, ResourcePage, Shown, spinner, not_found, shown,
}
use group_management_ui_back.Pages.Tables.{NetworkConnectorRow, ResourceRow}
use group_management_ui_back.Pages.Cards.{
  NetworkCard, network_card, ResourceCard, resource_card, network_connectors, network_resources,
  group_resources,
}

-- `GroupDetailPage`: its sections, and whether the form for a new resource is open. The section of the
-- members is that of GroupMembers.
pub record GroupSections : Type 0 where
  pub title : String
  pub description : String
  pub group_id : String
  pub members : List GroupMember
  pub adds_members : Bool
  pub resources : Option (List ResourceRow)
  pub adds_resource : Bool

unfoldable pub group_sections : GroupPage → Shown GroupSections
unfolding group_resources
group_sections s = if s.loading then spinner else elim s.contents.0 [
  | none ↦ not_found
  | some g ↦ shown (record {
    title = g.name;
    description = g.description;
    group_id = g.id;
    members = s.contents.1;
    adds_members = s.add_open;
    resources = group_resources s.contents.2;
    adds_resource = s.other_open;
  })
]

-- `NetworkDetailPage`: its sections, and the modals with the network that they are given.
pub record NetworkSections : Type 0 where
  pub title : String
  pub card : NetworkCard
  pub connectors : Option (List NetworkConnectorRow)
  pub resources : Option (List ResourceRow)
  pub adds_connector : Bool
  pub adds_resource : Bool
  pub network_id : String

unfoldable pub network_sections : NetworkPage → Shown NetworkSections
unfolding network_card network_connectors network_resources
network_sections s = if s.loading then spinner else elim s.contents.0 [
  | none ↦ not_found
  | some n ↦ shown (record {
    title = n.name;
    card = network_card n;
    connectors = network_connectors s.contents.1;
    resources = network_resources s.contents.2;
    adds_connector = s.add_open;
    adds_resource = s.other_open;
    network_id = n.id;
  })
]

-- `ResourceDetailPage`: the table of the rules is that of AccessRules.
pub record ResourceSections : Type 0 where
  pub title : String
  pub card : ResourceCard
  pub resource_id : String
  pub rules : List AccessRule
  pub adds_rule : Bool

unfoldable pub resource_sections : ResourcePage → Shown ResourceSections
unfolding resource_card
resource_sections s = if s.loading then spinner else elim s.contents.0 [
  | none ↦ not_found
  | some r ↦ shown (record {
    title = r.name;
    card = resource_card r;
    resource_id = r.id;
    rules = s.contents.1;
    adds_rule = s.add_open;
  })
]
