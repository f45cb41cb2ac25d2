-- ===== src/AccessRules/Tests.antt =====
-- Runs of the table and the form, and their theorems at concrete inputs.
use group_management_ui_back.Prelude.{
  String, ◌≡◌, refl, Bool, none, some, [], ◌∷◌, true, false, if◌then◌else◌, ◌==◌, trim, map,
}
use group_management_ui_back.Types.{Group, AccessRule, group}
use group_management_ui_back.AccessRules.{State, dialog, load_groups, rows}
use group_management_ui_back.AccessRules.Deleting.{rule, clicked, deleted, delete_lem}
use group_management_ui_back.AccessRules.Adding
use group_management_ui_back.AccessRules.Adding.{
  NewRule, start_save, start_save_iff, footer, save_disabled_iff,
}

abbrev ssh : AccessRule
ssh = record {
  id = "a1";
  name = "ssh";
  resource_id = "r1";
  allowed_groups = "g1" ∷ "g9" ∷ [];
  enabled = true;
  created_at = "";
  updated_at = "";
}

abbrev ops : Group
ops = record {
  id = "g1";
  name = "ops";
  display_label = "Group: ops";
  description = "";
  member_count = 2;
  resource_count = 1;
  created_at = "";
  updated_at = none;
}

abbrev shown : State
shown = record {
  rules = ssh ∷ (record ssh { id = "a2" }) ∷ [];
  deleting = none;
  confirm_delete = none;
  group_map = [];
  identity_counts = [];
  notices = [];
}

groups_test :
    map (λ r. r.groups) (rows (load_groups (some (ops ∷ [])) shown)) ≡ "ops, g9" ∷ "ops, g9" ∷ []
unfolding rows load_groups
groups_test = refl

delete_lem_example :
    ((dialog (clicked "a1" shown)).is_open ≡ false)
    × ((clicked "a1" shown).deleting ≡ some "a1")
    × ((j : String) → rule j (deleted "a1" true shown) ≡ (if "a1" == j then none else rule j shown))
    × ((deleted "a1" false shown).rules ≡ shown.rules)
    × ((ok : Bool)
        → ((dialog (deleted "a1" ok shown)).is_open ≡ false)
          × ((deleted "a1" ok shown).deleting ≡ none))
delete_lem_example = delete_lem "a1" shown refl refl

abbrev form : Adding.State
form = record {
  selected_groups = record { id = "g1"; kind = group; label = "Group: ops" } ∷ [];
  rule_name = " web ";
  enabled = true;
  saving = false;
  is_open = true;
  created = [];
  notices = [];
}

abbrev web : NewRule
web = record { name = "web"; group_ids = "g1" ∷ []; enabled = true }

web_test : (start_save form).0 ≡ some web
unfolding start_save trim
web_test = refl
