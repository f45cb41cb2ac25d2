-- ===== src/Routing.antt =====
-- frontend/src/App.tsx: the table of routes. The router that reads it is a library: it is a
-- parameter, with what it documents as laws, in Routing/Router.
pub mod Router
mod Leading
mod Sidebar
mod Matching
mod Tests
use group_management_ui_back.Prelude.{String, List, [], ◌∷◌, ◌++◌, map}

-- What a route renders: a layout, a page, or `Navigate` to another path.
pub data Element : Type 0 where
  dashboard_layout policy_layout : Element
  groups_page group_detail_page users_page resources_page resource_detail_page : Element
  connectors_page connector_detail_page remote_networks_page network_detail_page : Element
  tunnelers_page new_tunneler_page tunneler_detail_page network_diagnostics_page : Element
  resource_policies_page resource_policy_detail_page sign_in_policy_page : Element
  device_profiles_page : Element
  navigate : String → Element

-- A segment of the path of a route: as it is written, or `:name`.
pub data Part : Type 0 where
  fixed param : String → Part

-- Routes one after the other: an index route, or a path with its element and the routes in it.
pub data Routes : Type 0 where
  end_routes : Routes
  index_route : Element → Routes → Routes
  route : List Part → Element → Routes → Routes → Routes

-- `<Route path="a" element={e} />` and `<Route path="a/:b" element={e} />`
abbrev leaf_route : String → Element → Routes → Routes
leaf_route a e rest = route (fixed a ∷ []) e end_routes rest

abbrev detail_route : String → String → Element → Routes → Routes
detail_route a b e rest = route (fixed a ∷ param b ∷ []) e end_routes rest

abbrev policy_routes : Routes
policy_routes = index_route (navigate "resource-policies") (
    leaf_route "resource-policies" resource_policies_page (
      detail_route "resource-policies" "policyId" resource_policy_detail_page (
        leaf_route "sign-in" sign_in_policy_page
          (leaf_route "device-profiles" device_profiles_page end_routes))))

abbrev dashboard_routes : Routes
dashboard_routes = index_route (navigate "groups") (
    leaf_route "groups" groups_page (
      detail_route "groups" "groupId" group_detail_page (
        leaf_route "users" users_page (
          leaf_route "resources" resources_page (
            detail_route "resources" "resourceId" resource_detail_page (
              leaf_route "connectors" connectors_page (
                detail_route "connectors" "connectorId" connector_detail_page (
                  leaf_route "remote-networks" remote_networks_page (
                    detail_route "remote-networks" "networkId" network_detail_page (
                      leaf_route "tunnelers" tunnelers_page (
                        route (fixed "tunnelers" ∷ fixed "new" ∷ []) new_tunneler_page end_routes (
                          detail_route "tunnelers" "tunnelerId" tunneler_detail_page (
                            leaf_route "diagnostics" network_diagnostics_page (
                              route (fixed "policy" ∷ []) policy_layout policy_routes
                                end_routes))))))))))))))

abbrev pub app_routes : Routes
app_routes =
    route [] (navigate "/dashboard/groups") end_routes
      (route (fixed "dashboard" ∷ []) dashboard_layout dashboard_routes end_routes)
