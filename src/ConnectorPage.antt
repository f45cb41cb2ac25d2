-- ===== src/ConnectorPage.antt =====
-- frontend/src/pages/connectors/ConnectorDetailPage.tsx: the page of one connector. Handlers are split
-- at their `await`; the requests that were sent are kept, newest first. The identifier in the path and
-- the location's host name are parameters.
pub mod Beating
pub mod Loading
pub mod Sending
mod Tests
use group_management_ui_back.Prelude.{
  ℕ, String, Bool, true, false, ◌&&◌, ◌||◌, not, Option, none, some, List, [], ◌∷◌, if◌then◌else◌,
  is_blank,
}
use group_management_ui_back.Types.{Connector, RemoteNetwork, Liveness, online, offline}
use group_management_ui_back.Installing.{
  controller_addr_of, controller_http_addr_of, connector_command,
}

pub record LogEntry : Type 0 where
  pub id : ℕ
  pub timestamp : String
  pub message : String

-- What `getConnector` returns: no connector where the server knows none.
pub record Details : Type 0 where
  pub connector : Option Connector
  pub network : Option RemoteNetwork
  pub logs : List LogEntry

-- A load of the connector says whether it is silent, a heartbeat the token that it carries.
pub data Request : Type 0 where
  load : Bool → Request
  create_token : Request
  automatic_heartbeat manual_heartbeat : String → Request

pub data Notice : Type 0 where
  revoke_placeholder command_copied heartbeat_sent heartbeat_failed : Notice

pub record Page : Type 0 where
  pub connector : Option Connector
  pub network : Option RemoteNetwork
  pub logs : List LogEntry
  pub loading : Bool
  pub is_simulating_heartbeat : Bool
  pub enrollment_token : String
  pub token_loading : Bool
  pub token_error : Bool
  pub auto_heartbeat_sent : Bool
  pub controller_addr : String
  pub controller_http_addr : String
  pub policy_signing_key : String
  pub did_fetch_token : Bool
  pub requests : List Request
  pub notices : List Notice
  pub clipboard : Option String

abbrev send : Request → Page → Page
send r s = record s { requests = r ∷ s.requests }

abbrev note : Notice → Page → Page
note n s = record s { notices = n ∷ s.notices }

unfoldable pub first_state : String → Page
unfolding controller_addr_of controller_http_addr_of
first_state hostname = record {
  connector = none;
  network = none;
  logs = [];
  loading = true;
  is_simulating_heartbeat = false;
  enrollment_token = "";
  token_loading = false;
  token_error = false;
  auto_heartbeat_sent = false;
  controller_addr = controller_addr_of hostname;
  controller_http_addr = controller_http_addr_of hostname;
  policy_signing_key = "";
  did_fetch_token = false;
  requests = [];
  notices = [];
  clipboard = none;
}

-- `loadConnectorData` before its `await`
unfoldable pub start_load : Bool → Page → Page
start_load silent s = send (load silent) (record s { loading = s.loading || not silent })

abbrev pub with_details : Option Details → Page → Page
with_details none s = s
with_details (some d) s = record s { connector = d.connector; network = d.network; logs = d.logs }

-- `loadConnectorData` after it; none where `getConnector` throws
unfoldable pub finish_load : Bool → Option Details → Page → Page
finish_load silent details s =
    let s' = with_details details s in record s' { loading = s'.loading && silent }

-- `fetchEnrollmentToken`
unfoldable pub start_token : Page → Page
start_token s = send create_token (record s { token_loading = true; token_error = false })

unfoldable pub finish_token : Option String → Page → Page
finish_token none s = record s { token_error = true; token_loading = false }
finish_token (some token) s = record s { enrollment_token = token; token_loading = false }

-- The effect of the first render
unfoldable pub token_effect : Page → Page
unfolding start_token
token_effect s = if s.did_fetch_token then s else start_token (record s { did_fetch_token = true })

abbrev pub is_online : Liveness → Bool
is_online online = true
is_online offline = false

abbrev pub is_offline : Liveness → Bool
is_offline online = false
is_offline offline = true

-- The connector is there and installed.
abbrev pub is_installed : Option Connector → Bool
is_installed none = false
is_installed (some c) = c.installed

abbrev pub seen_online : Option Connector → Bool
seen_online none = false
seen_online (some c) = is_online c.status

abbrev pub given : Option String → String
given none = ""
given (some id) = id

module _ (connector_id : Option String) where
  -- The effect that loads the connector when its identifier changes
  unfoldable pub load_effect : Page → Page
  unfolding start_load
  load_effect s = if is_blank (given connector_id) then s else start_load false s

  -- The effect that sends a heartbeat, which runs when what it depends on changes: `sendHeartbeat`
  -- before its `await`.
  unfoldable pub heartbeat_effect : Page → Page
  heartbeat_effect s =
      if is_blank (given connector_id) || not (is_installed s.connector)
      then s
      else if seen_online s.connector
      then s
      else if is_blank s.enrollment_token || s.auto_heartbeat_sent
      then s
      else send (automatic_heartbeat s.enrollment_token) (record s { auto_heartbeat_sent = true })

  -- Whether the effect that polls keeps an interval of five seconds.
  unfoldable pub is_polling : Page → Bool
  is_polling s = if is_blank (given connector_id) then false else not (is_installed s.connector)

  -- The end of an interval
  unfoldable pub tick : Page → Page
  unfolding is_polling start_load
  tick s = if is_polling s then start_load true s else s

  -- `handleSimulateHeartbeat` before its `await`
  unfoldable pub start_heartbeat : Page → Page
  start_heartbeat s =
      if is_blank (given connector_id)
      then s
      else send (manual_heartbeat s.enrollment_token) (record s { is_simulating_heartbeat = true })

  -- `INSTALL_COMMAND`
  unfoldable pub install_command : Page → Option String
  unfolding connector_command
  install_command s =
      connector_command s.controller_addr s.controller_http_addr connector_id s.enrollment_token
        s.policy_signing_key

  -- `handleCopyCommand`
  abbrev pub copy : Option String → Page → Page
  copy none s = s
  copy (some command) s = note command_copied (record s { clipboard = some command })

  unfoldable pub handle_copy_command : Page → Page
  unfolding install_command
  handle_copy_command s = copy (install_command s) s

-- `sendHeartbeat` after its `await`: after a heartbeat that was taken the connector is loaded again
unfoldable pub finish_automatic : Bool → Page → Page
unfolding start_load
finish_automatic ok s = if ok then start_load true s else s

-- `handleSimulateHeartbeat` after it
unfoldable pub finish_manual : Bool → Page → Page
unfolding start_load
finish_manual ok s =
    if ok
    then record (start_load true (note heartbeat_sent s)) { is_simulating_heartbeat = false }
    else record (note heartbeat_failed s) { is_simulating_heartbeat = false }

unfoldable pub handle_revoke : Page → Page
handle_revoke s = note revoke_placeholder s

-- What the page shows: the spinner; the card of the command under "Connector Not Found" or under
-- "Connector Added, Not Installed"; or the connector.
pub data Shown : Type 0 where
  spinner not_found not_installed : Shown
  detail : (heartbeat_button : Bool) (c : Connector) → Shown

abbrev pub shown_connector : Option Connector → Shown
shown_connector none = not_found
shown_connector (some c) = if c.installed then detail (is_offline c.status) c else not_installed

unfoldable pub view : Page → Shown
view s = if s.loading then spinner else shown_connector s.connector
