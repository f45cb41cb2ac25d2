-- ===== src/Pages.antt =====
-- The pages under frontend/src/pages/ that load what they show: the lists of connectors, tunnelers,
-- networks and resources, and the details of a group, a network and a resource. A load is split at its
-- `await`; its failure leaves what was there.
pub mod Rows
pub mod Tables
pub mod Cards
pub mod Sections
pub mod Rules
pub mod Showing
mod Tests
use group_management_ui_back.Prelude.{
  String, Bool, true, false, Option, none, some, List, [], ◌∷◌, ◌++◌, if◌then◌else◌, is_blank,
}
use group_management_ui_back.Types.{
  Connector, Tunneler, RemoteNetwork, Resource, Group, GroupMember, AccessRule,
}

-- What a page has loaded, whether it shows the spinner, and whether its modal is open, or both where
-- it has two.
pub record Loading (A : Type 0) : Type 0 where
  pub contents : A
  pub loading : Bool
  pub add_open : Bool
  pub other_open : Bool

module _ {A : Type 0} where
  -- A page as it is first rendered
  abbrev pub mounted_with : A → Loading A
  mounted_with a = record { contents = a; loading = true; add_open = false; other_open = false }

  -- A load that shows the spinner, and one that does not
  unfoldable pub start_loudly : Loading A → Loading A
  start_loudly s = record s { loading = true }

  unfoldable pub finish : Option A → Loading A → Loading A
  finish none s = record s { loading = false }
  finish (some a) s = record s { contents = a; loading = false }

-- The button that opens the first modal of a page, and the `onClose` that it is given
module _ {A : Type 0} where
  unfoldable pub open_modal : Loading A → Loading A
  open_modal s = record s { add_open = true }

  unfoldable pub close_modal : Loading A → Loading A
  close_modal s = record s { add_open = false }

  -- The second modal of a group and of a network
  unfoldable pub open_other : Loading A → Loading A
  open_other s = record s { other_open = true }

  unfoldable pub close_other : Loading A → Loading A
  close_other s = record s { other_open = false }

-- `ConnectorsPage` sets `loading` with each load, `RemoteNetworksPage` and `TunnelersPage` do not.
unfoldable pub load_connectors : Loading (List Connector) → Loading (List Connector)
unfolding start_loudly
load_connectors s = start_loudly s

unfoldable pub connectors_loaded :
    Option (List Connector) → Loading (List Connector) → Loading (List Connector)
unfolding finish
connectors_loaded d s = finish d s

unfoldable pub load_networks : Loading (List RemoteNetwork) → Loading (List RemoteNetwork)
load_networks s = s

unfoldable pub networks_loaded :
    Option (List RemoteNetwork) → Loading (List RemoteNetwork) → Loading (List RemoteNetwork)
unfolding finish
networks_loaded d s = finish d s

unfoldable pub tunnelers_loaded :
    Option (List Tunneler) → Loading (List Tunneler) → Loading (List Tunneler)
unfolding finish
tunnelers_loaded d s = finish d s

-- `ResourcesPage`: the resources and the networks are there together or not at all.
pub record Inventory : Type 0 where
  pub page : Loading (List Resource × List RemoteNetwork)
  pub is_edit_modal_open : Bool
  pub editing_resource : Option Resource

unfoldable pub load_data : Inventory → Inventory
unfolding start_loudly
load_data s = record s { page = start_loudly s.page }

abbrev pub both :
    Option (List Resource)
    → Option (List RemoteNetwork)
    → Option (List Resource × List RemoteNetwork)
both (some rs) (some ns) = some (rs, ns)
both _ _ = none

unfoldable pub data_loaded :
    Option (List Resource) → Option (List RemoteNetwork) → Inventory → Inventory
unfolding finish
data_loaded resources networks s = record s { page = finish (both resources networks) s.page }

-- `handleEditClick`, and `onClose` of the edit modal
unfoldable pub handle_edit_click : Resource → Inventory → Inventory
handle_edit_click r s = record s { editing_resource = some r; is_edit_modal_open = true }

unfoldable pub close_edit : Inventory → Inventory
close_edit s = record s { is_edit_modal_open = false; editing_resource = none }

-- The pages of one thing hold it once it was loaded; a server that does not know it sends none.
abbrev pub GroupPage : Type 0
GroupPage = Loading (Option Group × List GroupMember × List Resource)

abbrev pub NetworkPage : Type 0
NetworkPage = Loading (Option RemoteNetwork × List Connector × List Resource)

abbrev pub ResourcePage : Type 0
ResourcePage = Loading (Option Resource × List AccessRule)

unfoldable pub load_group : GroupPage → GroupPage
unfolding start_loudly
load_group s = start_loudly s

unfoldable pub group_loaded :
    Option (Option Group × List GroupMember × List Resource) → GroupPage → GroupPage
unfolding finish
group_loaded d s = finish d s

unfoldable pub load_network : NetworkPage → NetworkPage
unfolding start_loudly
load_network s = start_loudly s

unfoldable pub network_loaded :
    Option (Option RemoteNetwork × List Connector × List Resource) → NetworkPage → NetworkPage
unfolding finish
network_loaded d s = finish d s

unfoldable pub resource_loaded :
    Option (Option Resource × List AccessRule) → ResourcePage → ResourcePage
unfolding finish
resource_loaded d s = finish d s

-- `onRuleCreated`, with the rules as they were when the page rendered the modal that calls it
unfoldable pub rule_created : List AccessRule → AccessRule → ResourcePage → ResourcePage
rule_created captured rule s = record s {
  contents = (s.contents.0, captured ++ (rule ∷ []));
  add_open = false;
}

-- What a page of one thing shows.
pub data Shown (A : Type 0) : Type 0 where
  spinner not_found : Shown A
  shown : A → Shown A

abbrev pub found : {A : Type 0} → Option A → Shown A
found none = not_found
found (some a) = shown a

unfoldable pub group_view : GroupPage → Shown Group
group_view s = if s.loading then spinner else found s.contents.0

unfoldable pub network_view : NetworkPage → Shown RemoteNetwork
network_view s = if s.loading then spinner else found s.contents.0

unfoldable pub resource_view : ResourcePage → Shown Resource
resource_view s = if s.loading then spinner else found s.contents.0
