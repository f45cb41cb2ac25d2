-- ===== src/Routing/Leading.antt =====
-- Where the links of the dashboard lead: the hrefs of frontend/components/dashboard with the routes
-- of frontend/src/App.tsx, through any router that keeps the laws.
use Prim.Native.String.{◌++◌ as append}
use text.Mathlib.TextLemmas.{append_assoc}
use group_management_ui_back.Prelude.{
  All-imp, String, ◌≡◌, refl, sym, ◌∙◌, true, false, some, List, [], ◌∷◌, All, arith, eq_iff, ap,
}
use group_management_ui_back.Types.{Group, Connector, RemoteNetwork, Resource, Tunneler}
use group_management_ui_back.ResourcePolicies.{ResourcePolicy}
use group_management_ui_back.ResourcePolicies.Page.{row}
use group_management_ui_back.Api.Encoding.{encode_uri_component}
use group_management_ui_back.Pages.Rows.{connector_row, network_row}
use group_management_ui_back.Pages.Tables.{group_row, tunneler_row, resource_row}
use group_management_ui_back.Routing.{
  Element, Part, fixed, param, app_routes, dashboard_layout, policy_layout, group_detail_page,
  resource_detail_page, connector_detail_page, network_detail_page, tunneler_detail_page,
  new_tunneler_page, resource_policy_detail_page,
}
use group_management_ui_back.Routing.Router.{
  Router, alike, IsBest, Branch, IsWhole, is_plain, is_named, bindings, path_of,
}

plain_encoded : (s : String) → is_plain s ≡ true → encode_uri_component s ≡ s
plain_encoded s h = (eq_iff (encode_uri_component s) s).0 (ground arith)

pub whole : (s : String) → is_plain s ≡ true → IsWhole s
whole s h = record { text = s; encoded = plain_encoded s h; named = ground arith }

All-IsWhole : (ss : List String) → All (λ s. is_plain s ≡ true) ss → All IsWhole ss
All-IsWhole = All-imp (λ s. is_plain s ≡ true) IsWhole whole

abbrev pub below_dashboard : List Part → List Element → Branch
below_dashboard parts elements = record {
  pattern = fixed "dashboard" ∷ parts;
  elements = dashboard_layout ∷ elements;
  is_index = false;
}

abbrev detail_path : String → String → String
detail_path a id = append (append (append "/dashboard/" a) "/") id

path_of-detail : (a id : String) → path_of ("dashboard" ∷ a ∷ id ∷ []) ≡ detail_path a id
path_of-detail a id = sym (
    append_assoc (append "/dashboard/" a) "/" id
    ∙ append_assoc "/dashboard/" a (append "/" id)
    ∙ append_assoc "/dashboard" "/" (append a (append "/" id))
    ∙ append_assoc "/" "dashboard" (append "/" (append a (append "/" id))))

path_of-policy :
    (id : String)
    → path_of ("dashboard" ∷ "policy" ∷ "resource-policies" ∷ id ∷ [])
      ≡ append "/dashboard/policy/resource-policies/" id
path_of-policy id = sym (
    append_assoc "/dashboard/policy/resource-policies" "/" id
    ∙ append_assoc "/dashboard/policy/" "resource-policies" (append "/" id)
    ∙ append_assoc "/dashboard/policy" "/" (append "resource-policies" (append "/" id))
    ∙ append_assoc "/dashboard/" "policy" (append "/" (append "resource-policies" (append "/" id)))
    ∙ append_assoc "/dashboard" "/"
        (append "policy" (append "/" (append "resource-policies" (append "/" id))))
    ∙ append_assoc "/" "dashboard"
        (append "/" (append "policy" (append "/" (append "resource-policies" (append "/" id))))))

abbrev policy_parts : List Part
policy_parts = fixed "policy" ∷ fixed "resource-policies" ∷ param "policyId" ∷ []

abbrev pub policy_elements : List Element
policy_elements = policy_layout ∷ resource_policy_detail_page ∷ []

module _ (router : Router app_routes) where
  pub dashboard_renders :
      (parts : List Part) (elements : List Element) (ss : List String)
      → All (λ s. is_plain s ≡ true) ss
      → IsBest app_routes (below_dashboard parts elements) ("dashboard" ∷ ss)
      → router.render (path_of ("dashboard" ∷ ss))
        ≡ some (dashboard_layout ∷ elements, bindings router.decode parts ss)
  unfolding encode_uri_component
  dashboard_renders parts elements ss h best =
      router.renders (below_dashboard parts elements) "dashboard" ss
        (whole "dashboard" refl, All-IsWhole ss h) best

  -- What is rendered in the layout of the dashboard at a path with one parameter.
  abbrev pub Leads : String → Element → String → String → Type 0
  Leads path page name id =
      router.render path ≡ some (dashboard_layout ∷ page ∷ [], (name, id) ∷ [])

  detail-Leads :
      (a name : String) (page : Element) (id : String)
      → is_plain a ≡ true
      → is_plain id ≡ true
      → IsBest app_routes
          (below_dashboard (fixed a ∷ param name ∷ []) (page ∷ []))
          ("dashboard" ∷ a ∷ id ∷ [])
      → Leads (detail_path a id) page name id
  detail-Leads a name page id h k best =
      ap router.render (sym (path_of-detail a id))
      ∙ dashboard_renders (fixed a ∷ param name ∷ []) (page ∷ []) (a ∷ id ∷ []) (h, (k, tt)) best
      ∙ ap (λ t. some (dashboard_layout ∷ page ∷ [], (name, t) ∷ []))
          (router.keeps id (plain_encoded id k))

  -- The link of a resource policy leads to its page, in both layouts, whatever its identifier is, if
  -- it is not empty, no relative segment, and decoded to what was encoded.
  policy_leads :
      (p : ResourcePolicy)
      → is_named p.id ≡ true
      → router.decode (encode_uri_component p.id) ≡ p.id
      → router.render (row p).link
        ≡ some (dashboard_layout ∷ policy_elements, ("policyId", p.id) ∷ [])
  unfolding row encode_uri_component
  policy_leads p named decoded =
      let id = encode_uri_component p.id in
      ap router.render (sym (path_of-policy id))
      ∙ router.renders (below_dashboard policy_parts policy_elements) "dashboard"
          ("policy" ∷ "resource-policies" ∷ id ∷ [])
          (
            whole "dashboard" refl,
            (
              whole "policy" refl,
              (
                whole "resource-policies" refl,
                (record { text = p.id; encoded = refl; named = named }, tt),
              ),
            ),
          )
          (refl, refl, refl)
      ∙ ap (λ t. some (dashboard_layout ∷ policy_elements, ("policyId", t) ∷ [])) decoded

  -- Through any router that keeps the laws for the table of routes, the links of the rows of a group,
  -- a connector, a remote network, a resource and a tunneler lead to its own page, in the layout of
  -- the dashboard, if the identifiers need no encoding, are not empty and no relative segments, and
  -- that of the tunneler is not "new" in any case; that of a resource policy does in both layouts, for
  -- any identifier that is not empty, no relative segment, and decoded to what was encoded.
  pub rows_lead :
      (g : Group) (c : Connector) (n : RemoteNetwork) (r : Resource) (t : Tunneler)
      (p : ResourcePolicy)
      → is_plain g.id ≡ true
      → is_plain c.id ≡ true
      → is_plain n.id ≡ true
      → is_plain r.id ≡ true
      → is_plain t.id ≡ true
      → alike t.id "new" ≡ false
      → is_named p.id ≡ true
      → router.decode (encode_uri_component p.id) ≡ p.id
      → Leads (group_row g).details group_detail_page "groupId" g.id
        × Leads (connector_row c).link connector_detail_page "connectorId" c.id
        × Leads (network_row n).link network_detail_page "networkId" n.id
        × Leads (resource_row r).manage resource_detail_page "resourceId" r.id
        × Leads (tunneler_row t).manage tunneler_detail_page "tunnelerId" t.id
        × (router.render (row p).link
            ≡ some (dashboard_layout ∷ policy_elements, ("policyId", p.id) ∷ []))
  unfolding group_row connector_row network_row resource_row tunneler_row encode_uri_component
  rows_lead g c n r t p hg hc hn hr ht other named decoded = (
    detail-Leads "groups" "groupId" group_detail_page g.id refl hg (refl, refl, refl),
    detail-Leads "connectors" "connectorId" connector_detail_page c.id refl hc (refl, refl, refl),
    detail-Leads "remote-networks" "networkId" network_detail_page n.id refl hn (refl, refl, refl),
    detail-Leads "resources" "resourceId" resource_detail_page r.id refl hr (refl, refl, refl),
    detail-Leads "tunnelers" "tunnelerId" tunneler_detail_page t.id refl ht
        (refl, refl, rw other refl),
    policy_leads p named decoded,
  )

  -- The link of a tunneler whose identifier is "new" leads to the form for a new one.
  pub new_tunneler_shown :
      (t : Tunneler)
      → t.id ≡ "new"
      → router.render (tunneler_row t).manage ≡ some (dashboard_layout ∷ new_tunneler_page ∷ [], [])
  unfolding tunneler_row encode_uri_component
  new_tunneler_shown t e = rw e (
      dashboard_renders (fixed "tunnelers" ∷ fixed "new" ∷ []) (new_tunneler_page ∷ [])
        ("tunnelers" ∷ "new" ∷ []) (refl, (refl, tt)) (refl, refl, refl))
