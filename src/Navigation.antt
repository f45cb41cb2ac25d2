-- ===== src/Navigation.antt =====
-- frontend/components/dashboard/sidebar.tsx and
-- frontend/components/dashboard/policy/policy-type-dropdown.tsx: the links of the dashboard and what
-- of them is marked and open at a path. Icons and class names are left out.
pub mod Marking
mod Expanding
mod Dropdown
mod Tests
use Prim.Native.String.{◌++◌ as append}
use group_management_ui_back.Prelude.{
  String, Bool, true, false, ◌||◌, ◌&&◌, not, Option, none, some, List, [], ◌∷◌, map, filter, any,
  ◌++◌, if◌then◌else◌, ◌==◌, Dict, lookup, begins, contains,
}

pub record Child : Type 0 where
  pub label : String
  pub href : String

pub record NavItem : Type 0 where
  pub label : String
  pub href : String
  pub description : Option String
  pub children : Option (List Child)

abbrev pub nav_items : List NavItem
nav_items =
    record {
      label = "Team";
      href = "/dashboard/team";
      description = some "Manage users and groups";
      children = some (
          record { label = "Users"; href = "/dashboard/users" }
          ∷ record { label = "Groups"; href = "/dashboard/groups" }
          ∷ []);
    }
    ∷ record {
      label = "Resources";
      href = "/dashboard/resources";
      description = some "Manage network resources";
      children = none;
    }
    ∷ record {
      label = "Remote Networks";
      href = "/dashboard/remote-networks";
      description = some "Manage remote network connectivity";
      children = some (
          record { label = "Networks"; href = "/dashboard/remote-networks" }
          ∷ record { label = "Connectors"; href = "/dashboard/connectors" }
          ∷ record { label = "Tunnelers"; href = "/dashboard/tunnelers" }
          ∷ []);
    }
    ∷ record {
      label = "Network Diagnostics";
      href = "/dashboard/diagnostics";
      description = some "Monitor connectivity and trace access paths";
      children = none;
    }
    ∷ record {
      label = "Policy";
      href = "/dashboard/policy";
      description = some "Manage access and device policies";
      children = some (
          record { label = "Resource Policies"; href = "/dashboard/policy/resource-policies" }
          ∷ record { label = "Sign In Policy"; href = "/dashboard/policy/sign-in" }
          ∷ record { label = "Device Profiles"; href = "/dashboard/policy/device-profiles" }
          ∷ []);
    }
    ∷ []

-- `pathname === href || pathname.startsWith(href + '/')`
unfoldable pub is_under : String → String → Bool
unfolding begins
is_under path href = path == href || begins path (append href "/")

abbrev pub child_active : String → List Child → Bool
child_active path children = any (λ c. is_under path c.href) children

abbrev pub active_child : String → Option (List Child) → Bool
active_child path none = false
active_child path (some children) = child_active path children

-- What the effect writes into `updates`.
abbrev pub updates : String → List NavItem → Dict Bool
updates path [] = []
updates path (item ∷ items) =
    if active_child path item.children
    then (item.href, true) ∷ updates path items
    else updates path items

-- `{ ...prev, ...updates }`, and `prev` where there is nothing to open.
abbrev pub spread_updates : Dict Bool → Dict Bool → Dict Bool
spread_updates [] prev = prev
spread_updates (u ∷ us) prev = u ∷ us ++ prev

-- The effect that runs when the path changes.
unfoldable pub auto_expand : String → Dict Bool → Dict Bool
auto_expand path prev = spread_updates (updates path nav_items) prev

abbrev pub is_true : Option Bool → Bool
is_true none = false
is_true (some b) = b

-- `expanded[href] ?? false`
abbrev pub is_expanded : String → Dict Bool → Bool
is_expanded href expanded = is_true (lookup href expanded)

unfoldable pub toggle_expanded : String → Dict Bool → Dict Bool
toggle_expanded href prev = (href, not (is_expanded href prev)) ∷ prev

abbrev pub has_children : Option (List Child) → Bool
has_children none = false
has_children (some []) = false
has_children (some (c ∷ cs)) = true

unfoldable pub is_active : String → NavItem → Bool
is_active path item =
    if has_children item.children then active_child path item.children else is_under path item.href

-- What is shown of an item: whether it is marked, whether it opens, and its children with their
-- marks, where they are shown.
pub record Entry : Type 0 where
  pub item : NavItem
  pub marked : Bool
  pub expands : Bool
  pub shown : List (Child × Bool)

abbrev pub shown_children : String → Bool → Option (List Child) → List (Child × Bool)
shown_children path false children = []
shown_children path true none = []
shown_children path true (some children) = map (λ c. (c, is_under path c.href)) children

unfoldable pub sidebar : String → Dict Bool → List Entry
unfolding is_active
sidebar path expanded =
    map
      (λ i. record {
        item = i;
        marked = is_active path i;
        expands = has_children i.children;
        shown = shown_children path (is_expanded i.href expanded) i.children;
      })
      nav_items

pub data PolicyView : Type 0 where
  resource signin devices : PolicyView

unfoldable pub view_from_path : String → PolicyView
unfolding contains
view_from_path path =
    if contains path "/dashboard/policy/sign-in"
    then signin
    else if contains path "/dashboard/policy/device-profiles"
    then devices
    else resource

unfoldable pub path_from_view : PolicyView → String
path_from_view signin = "/dashboard/policy/sign-in"
path_from_view devices = "/dashboard/policy/device-profiles"
path_from_view resource = "/dashboard/policy/resource-policies"
