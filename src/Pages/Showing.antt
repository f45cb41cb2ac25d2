-- ===== src/Pages/Showing.antt =====
-- What the pages of a group, a network and a resource show, and the badge of a network in its list.
use group_management_ui_back.Prelude.{
  ◌≡◌, ◌≢◌, ◌≤◌, ◌<◌, ◌↔◌, refl, arith, true, Bool-cases, inl, inr, ne_of_==,
}
use group_management_ui_back.Types.{Connector, Liveness, online, offline, RemoteNetwork}
use group_management_ui_back.Pages.Rows.{
  green, red, yellow, network_row, connector_row, liveness_label,
}
use group_management_ui_back.Pages.Tables.{network_connector_row}

-- Of a network whose connectors that are online are among all its connectors, the badge is green
-- just where none is offline, red just where there are some and none is online, and yellow otherwise.
pub network_row-shield :
    (n : RemoteNetwork)
    → n.online_connector_count ≤ n.connector_count
    → (((network_row n).shield ≡ green) ↔ (n.connector_count ≤ n.online_connector_count))
      × (((network_row n).shield ≡ red)
          ↔ ((n.online_connector_count ≡ 0) × (0 < n.connector_count)))
      × (((network_row n).shield ≡ yellow)
          ↔ ((0 < n.online_connector_count) × (n.online_connector_count < n.connector_count)))
unfolding network_row
network_row-shield n h = ground arith

label-ne : (l : Liveness) → "Not installed" ≢ liveness_label l
label-ne online = ne_of_== "Not installed" "Online" refl
label-ne offline = ne_of_== "Not installed" "Offline" refl

-- The list of connectors and the table of a network show the same label of a connector just where
-- it is installed.
pub labels_agree_iff :
    (c : Connector)
    → ((connector_row c).label ≡ (network_connector_row c).label) ↔ (c.installed ≡ true)
unfolding connector_row network_connector_row
labels_agree_iff c = elim (Bool-cases c.installed) [
  | inl e ↦ rw e ((λ h. refl), (λ h. refl))
  | inr e ↦ rw e ((λ h. absurd (label-ne c.status h)), (λ h. cc))
]
