-- ===== src/ConnectorPage/Tests.antt =====
-- frontend/src/pages/connectors/ConnectorDetailPage.tsx: the page through a first visit.
use group_management_ui_back.Prelude.{◌≡◌, refl, true, false, none, some, List, [], ◌∷◌}
use group_management_ui_back.Types.{Connector, offline}
use group_management_ui_back.ConnectorPage.{
  Page, Details, first_state, finish_load, load_effect, token_effect, heartbeat_effect,
  finish_token, finish_automatic, start_load, start_token, start_heartbeat, tick, is_polling,
}
use group_management_ui_back.ConnectorPage.Beating.{
  Event, handle, lives, mount, automatics, IsOnce, lives-IsOnce,
}
use group_management_ui_back.ConnectorPage.Sending.{lives-automatics}

abbrev edge : Connector
edge = record {
  id = "c1";
  name = "edge";
  status = offline;
  version = "1";
  hostname = "h";
  remote_network_id = "n1";
  last_seen = "";
  installed = true;
  last_policy_version = 1;
  last_seen_at = none;
  private_ip = none;
}

abbrev details : Details
details = record { connector = some edge; network = none; logs = [] }

abbrev visit : List Event
visit =
    Event.loads false (some details)
    ∷ Event.token_comes (some "t0k")
    ∷ Event.automatic_ends true
    ∷ Event.loads true (some details)
    ∷ Event.presses_heartbeat
    ∷ Event.ticks
    ∷ []

lives-IsOnce_example :
    IsOnce (lives (some "c1") visit (mount (some "c1") (first_state "localhost")))
lives-IsOnce_example = lives-IsOnce (some "c1") "localhost" visit

abbrev final : Page
final = lives (some "c1") visit (mount (some "c1") (first_state "localhost"))

lives-automatics_example : automatics final.requests ≡ 1
unfolding mount first_state handle finish_load load_effect token_effect heartbeat_effect
    finish_token finish_automatic start_load start_token start_heartbeat tick is_polling
lives-automatics_example = lives-automatics (some "c1") "localhost" visit refl refl refl refl
