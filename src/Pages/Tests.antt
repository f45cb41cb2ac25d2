-- ===== src/Pages/Tests.antt =====
-- The badge of a network with one connector of two online, and a page with one rule.
use group_management_ui_back.Prelude.{
  String, true, false, none, some, [], ◌∷◌, find, ◌==◌, or_else, if◌then◌else◌, LacksKey, HasKey,
  inl,
}
use group_management_ui_back.Types.{AccessRule}
use group_management_ui_back.AccessRules.{State}
use group_management_ui_back.Pages.{ResourcePage, rule_created}
use group_management_ui_back.Pages.Rules.{rules_of, delete_on_page, rule_created_lem}
use group_management_ui_back.Prelude.{◌≡◌, refl}
use group_management_ui_back.Types.{RemoteNetwork, aws}
use group_management_ui_back.Pages.Rows.{yellow, network_row}

abbrev half : RemoteNetwork
half = record {
  id = "n1";
  name = "VPC";
  location = aws;
  connector_count = 2;
  online_connector_count = 1;
  resource_count = 0;
  created_at = "";
  updated_at = "";
}

half_yellow : (network_row half).shield ≡ yellow
unfolding network_row
half_yellow = refl

abbrev web : AccessRule
web = record {
  id = "r1";
  name = "Web";
  resource_id = "res";
  allowed_groups = "g1" ∷ [];
  enabled = true;
  created_at = "";
  updated_at = "";
}

abbrev ssh : AccessRule
ssh = record web { id = "r2"; name = "SSH" }

abbrev rule_page : ResourcePage
rule_page = record {
  contents = (none, web ∷ []);
  loading = false;
  add_open = true;
  other_open = false;
}

abbrev table : State
table = record {
  rules = [];
  deleting = none;
  confirm_delete = none;
  group_map = [];
  identity_counts = [];
  notices = [];
}

rule_created_lem_example :
    ((j : String)
      → find (λ r. r.id == j) (rules_of (rule_created (rules_of rule_page) ssh rule_page))
        ≡ or_else
            (find (λ r. r.id == j) (rules_of rule_page))
            (if ssh.id == j then some ssh else none))
    × LacksKey (λ r. r.id) "r1" (rules_of (delete_on_page "r1" table rule_page))
    × HasKey
        (λ r. r.id)
        "r1"
        (rules_of (rule_created (rules_of rule_page) ssh (delete_on_page "r1" table rule_page)))
rule_created_lem_example = rule_created_lem ssh table rule_page "r1" (inl refl)
