-- ===== src/Routing/Sidebar.antt =====
-- Where the links of frontend/components/dashboard/sidebar.tsx lead, with the routes of
-- frontend/src/App.tsx, through any router that keeps the laws.
use group_management_ui_back.Prelude.{
  map, filter, lookup, Dict, Option, String, ◌≡◌, refl, ◌∙◌, true, some, List, [], ◌∷◌, All, ap,
}
use group_management_ui_back.Api.Encoding.{encode_uri_component}
use group_management_ui_back.Prelude.{begins}
use group_management_ui_back.Navigation.{Child, NavItem, is_under, nav_items, is_active}
use group_management_ui_back.Routing.{
  Element, groups_page, users_page, resources_page, connectors_page, remote_networks_page,
  tunnelers_page, network_diagnostics_page, fixed, app_routes, dashboard_layout, policy_layout,
  resource_policies_page, sign_in_policy_page, device_profiles_page,
}
use group_management_ui_back.Routing.Router.{Router, IsBest, is_plain, bindings, path_of}
use group_management_ui_back.Routing.Leading.{below_dashboard, dashboard_renders}

bindings-fixed :
    (decode : String → String) (ss : List String) → bindings decode (map fixed ss) ss ≡ []
bindings-fixed decode [] = refl
bindings-fixed decode (s ∷ ss) = bindings-fixed decode ss

-- A link with its label: those of the children of an item, its own if it has none.
abbrev pub links_of : Option (List Child) → Child → List Child
links_of (some (c ∷ cs)) own = c ∷ cs
links_of _ own = own ∷ []

abbrev pub links : NavItem → List Child
links item = links_of item.children (record { label = item.label; href = item.href })

-- The page that the label of a link names, below the layout of the dashboard.
abbrev pub sidebar_pages : Dict (List Element)
sidebar_pages =
    ("Users", users_page ∷ [])
    ∷ ("Groups", groups_page ∷ [])
    ∷ ("Resources", resources_page ∷ [])
    ∷ ("Networks", remote_networks_page ∷ [])
    ∷ ("Connectors", connectors_page ∷ [])
    ∷ ("Tunnelers", tunnelers_page ∷ [])
    ∷ ("Network Diagnostics", network_diagnostics_page ∷ [])
    ∷ ("Resource Policies", policy_layout ∷ resource_policies_page ∷ [])
    ∷ ("Sign In Policy", policy_layout ∷ sign_in_policy_page ∷ [])
    ∷ ("Device Profiles", policy_layout ∷ device_profiles_page ∷ [])
    ∷ []

module _ (router : Router app_routes) where
  -- A link leads to the page that its label names, without parameters, where its item is marked and
  -- no other.
  pub record Opens (item : NavItem) (link : Child) : Type 0 where
    pub elements : List Element
    pub named : lookup link.label sidebar_pages ≡ some elements
    pub rendered : router.render link.href ≡ some (dashboard_layout ∷ elements, [])
    pub marked : filter (is_active link.href) nav_items ≡ item ∷ []

  opens :
      {item : NavItem} (label : String) (ss : List String) (elements : List Element)
      → lookup label sidebar_pages ≡ some elements
      → All (λ s. is_plain s ≡ true) ss
      → IsBest app_routes (below_dashboard (map fixed ss) elements) ("dashboard" ∷ ss)
      → filter (is_active (path_of ("dashboard" ∷ ss))) nav_items ≡ item ∷ []
      → Opens item (record { label = label; href = path_of ("dashboard" ∷ ss) })
  opens label ss elements named h best marked = record {
    elements = elements;
    named = named;
    rendered =
        dashboard_renders router (map fixed ss) elements ss h best
        ∙ ap (λ b. some (dashboard_layout ∷ elements, b)) (bindings-fixed router.decode ss);
    marked = marked;
  }

  top :
      {item : NavItem} (label a : String) (page : Element)
      → lookup label sidebar_pages ≡ some (page ∷ [])
      → is_plain a ≡ true
      → IsBest app_routes (below_dashboard (fixed a ∷ []) (page ∷ [])) ("dashboard" ∷ a ∷ [])
      → filter (is_active (path_of ("dashboard" ∷ a ∷ []))) nav_items ≡ item ∷ []
      → Opens item (record { label = label; href = path_of ("dashboard" ∷ a ∷ []) })
  top label a page named plain best marked =
      opens label (a ∷ []) (page ∷ []) named (plain, tt) best marked

  policy :
      {item : NavItem} (label a : String) (page : Element)
      → lookup label sidebar_pages ≡ some (policy_layout ∷ page ∷ [])
      → is_plain a ≡ true
      → IsBest app_routes
          (below_dashboard (fixed "policy" ∷ fixed a ∷ []) (policy_layout ∷ page ∷ []))
          ("dashboard" ∷ "policy" ∷ a ∷ [])
      → filter (is_active (path_of ("dashboard" ∷ "policy" ∷ a ∷ []))) nav_items ≡ item ∷ []
      → Opens item (record { label = label; href = path_of ("dashboard" ∷ "policy" ∷ a ∷ []) })
  unfolding encode_uri_component
  policy label a page named plain best marked =
      opens label ("policy" ∷ a ∷ []) (policy_layout ∷ page ∷ []) named (refl, (plain, tt)) best
        marked

  -- Through any router that keeps the laws for the table of routes, each link of the sidebar leads to
  -- the page that its label names in `sidebar_pages`, in the layout of the dashboard and without
  -- parameters, where the item of the link, and no other, is marked as active.
  pub sidebar_leads : All (λ item. All (Opens item) (links item)) nav_items
  unfolding is_active is_under begins encode_uri_component lookup
  sidebar_leads = (
    (
      top "Users" "users" users_page refl refl (refl, refl, refl) refl,
      (top "Groups" "groups" groups_page refl refl (refl, refl, refl) refl, tt),
    ),
    (
      (top "Resources" "resources" resources_page refl refl (refl, refl, refl) refl, tt),
      (
        (
          top "Networks" "remote-networks" remote_networks_page refl refl (refl, refl, refl) refl,
          (
            top "Connectors" "connectors" connectors_page refl refl (refl, refl, refl) refl,
            (top "Tunnelers" "tunnelers" tunnelers_page refl refl (refl, refl, refl) refl, tt),
          ),
        ),
        (
          (
            top "Network Diagnostics" "diagnostics" network_diagnostics_page refl refl
                (refl, refl, refl) refl,
            tt,
          ),
          (
            (
              policy "Resource Policies" "resource-policies" resource_policies_page refl refl
                  (refl, refl, refl) refl,
              (
                policy "Sign In Policy" "sign-in" sign_in_policy_page refl refl (refl, refl, refl)
                    refl,
                (
                  policy "Device Profiles" "device-profiles" device_profiles_page refl refl
                      (refl, refl, refl) refl,
                  tt,
                ),
              ),
            ),
            tt,
          ),
        ),
      ),
    ),
  )
