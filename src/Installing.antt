-- ===== src/Installing.antt =====
-- The commands that install a connector (frontend/src/pages/connectors/ConnectorDetailPage.tsx) and a
-- tunneler, and the form of the latter (frontend/components/dashboard/tunnelers/tunneler-install.tsx).
-- The location's host name is a parameter. Handlers are split at their `await`.
pub mod Quoting
pub mod Choosing
pub mod View
mod Tests
use Prim.Native.String.{◌++◌}
use group_management_ui_back.Prelude.{
  String, Bool, true, false, Option, none, some, List, [], ◌∷◌, filter, find, if◌then◌else◌,
  is_blank, ◌==◌, not,
}
use group_management_ui_back.Types.{Connector}

-- `text || fallback`
abbrev pub or_text : String → String → String
or_text text fallback = if is_blank text then fallback else text

unfoldable pub controller_addr_of : String → String
controller_addr_of hostname = or_text hostname "127.0.0.1" ++ ":8443"

unfoldable pub controller_http_addr_of : String → String
controller_http_addr_of hostname = or_text hostname "127.0.0.1" ++ ":8081"

-- A line that gives a variable its value, and what follows.
unfoldable pub assignment : String → String → String → String
assignment name value rest = "  " ++ (name ++ ("=\"" ++ (value ++ ("\" \\\n" ++ rest))))

unfoldable pub assignments : List (String × String) → String
unfolding assignment
assignments [] = "  bash"
assignments ((name, value) ∷ rest) = assignment name value (assignments rest)

abbrev pub script_url : String → String
script_url script =
    "https://raw.githubusercontent.com/sathiyaseelank-dot/group-management-ui-backend/main/scripts/"
    ++ script

abbrev pub curl_line : String → String
curl_line script = "curl -fsSL " ++ (script_url script ++ " | sudo \\\n")

-- What the connector's command gives its variables.
abbrev pub connector_values :
    String → String → Option String → String → String → List (String × String)
connector_values addr http_addr id token key =
    ("CONTROLLER_ADDR", or_text addr "127.0.0.1:8443")
    ∷ ("CONTROLLER_HTTP_ADDR", or_text http_addr "127.0.0.1:8081")
    ∷ ("CONNECTOR_ID", elim id [ none ↦ "connector-local-01" | some i ↦ i ])
    ∷ ("ENROLLMENT_TOKEN", token)
    ∷ ("POLICY_SIGNING_KEY", or_text key "YOUR_POLICY_SIGNING_KEY")
    ∷ []

-- `INSTALL_COMMAND`
unfoldable pub connector_command : String → String → Option String → String → String → Option String
unfolding assignments
connector_command addr http_addr id token key =
    if is_blank token
    then none
    else some (curl_line "setup.sh" ++ assignments (connector_values addr http_addr id token key))

pub data Notice : Type 0 where
  token_failed command_copied : Notice

pub record Form : Type 0 where
  pub token : String
  pub token_loading : Bool
  pub controller_addr : String
  pub controller_http_addr : String
  pub connector_addr : String
  pub tunneler_id : String
  pub connectors : List Connector
  pub selected_connector_id : String
  pub did_fetch_token : Bool
  pub notices : List Notice
  pub clipboard : Option String

abbrev pub text_of : Option String → String
text_of none = ""
text_of (some t) = t

unfoldable pub mounted : String → Option String → Form
unfolding controller_addr_of controller_http_addr_of
mounted hostname initial_tunneler_id = record {
  token = "";
  token_loading = false;
  controller_addr = controller_addr_of hostname;
  controller_http_addr = controller_http_addr_of hostname;
  connector_addr = "";
  tunneler_id = or_text (text_of initial_tunneler_id) "tunneler-local-01";
  connectors = [];
  selected_connector_id = "";
  did_fetch_token = false;
  notices = [];
  clipboard = none;
}

-- `handleCreateToken` before its `await`, and after it: the token, or none where the call fails
unfoldable pub start_token : Form → Form
start_token s = record s { token_loading = true }

abbrev pub finish_token : Option String → Form → Form
finish_token none s = record s { token_loading = false; notices = token_failed ∷ s.notices }
finish_token (some token) s = record s { token = token; token_loading = false }

-- The effect of the first render: whether it asks for a token, and the state.
unfoldable pub fetch_effect : Form → Bool × Form
unfolding start_token
fetch_effect s =
    if s.did_fetch_token
    then (false, s)
    else (true, start_token (record s { did_fetch_token = true }))

-- The answer of `getConnectors`, none where it fails
abbrev pub connectors_loaded : Option (List Connector) → Form → Form
connectors_loaded none s = s
connectors_loaded (some list) s = record s { connectors = filter (λ c. c.installed) list }

-- The effect of the tunneler's id in the path
unfoldable pub id_effect : Option String → Form → Form
id_effect initial_tunneler_id s =
    if is_blank (text_of initial_tunneler_id)
    then s
    else record s { tunneler_id = text_of initial_tunneler_id }

-- `connector?.privateIp`, where it is there and not empty, with the port
abbrev pub addr_of_ip : Option String → String
addr_of_ip none = ""
addr_of_ip (some ip) = if is_blank ip then "" else ip ++ ":9443"

abbrev pub addr_of : Option Connector → String
addr_of none = ""
addr_of (some c) = addr_of_ip c.private_ip

unfoldable pub handle_connector_select : String → Form → Form
handle_connector_select id s = record s {
  selected_connector_id = id;
  connector_addr = addr_of (find (λ c. c.id == id) s.connectors);
}

abbrev pub tunneler_values : Form → List (String × String)
tunneler_values s =
    ("CONTROLLER_ADDR", or_text s.controller_addr "127.0.0.1:8443")
    ∷ ("CONTROLLER_HTTP_ADDR", or_text s.controller_http_addr "127.0.0.1:8081")
    ∷ ("CONNECTOR_ADDR", or_text s.connector_addr "CONNECTOR_ADDR_HERE")
    ∷ ("TUNNELER_ID", or_text s.tunneler_id "tunneler-local-01")
    ∷ ("ENROLLMENT_TOKEN", or_text s.token "fetching_enrollment_token")
    ∷ []

-- `installCommand`
unfoldable pub tunneler_command : Form → String
unfolding assignments
tunneler_command s = curl_line "tunneler-setup.sh" ++ assignments (tunneler_values s)

-- `handleCopyCommand`, where the clipboard takes the text
unfoldable pub handle_copy_command : Form → Form
unfolding tunneler_command
handle_copy_command s = record s {
  clipboard = some (tunneler_command s);
  notices = command_copied ∷ s.notices;
}

-- Which control the form has for the connector's address: a list of connectors, or a text field
-- where there are none.
unfoldable pub has_address_field : Form → Bool
has_address_field s = elim s.connectors [ [] ↦ true | c ∷ cs ↦ false ]

-- The inputs: there is one for the connector's address only where there are no connectors, and the
-- identifier cannot be changed where the path gives it.
pub data Field : Type 0 where
  controller_field controller_http_field connector_field tunneler_field : Field

unfoldable pub enter : Option String → Field → String → Form → Form
enter initial controller_field t s = record s { controller_addr = t }
enter initial controller_http_field t s = record s { controller_http_addr = t }
enter initial connector_field t s =
    if has_address_field s then record s { connector_addr = t } else s
enter initial tunneler_field t s =
    if is_blank (text_of initial) then record s { tunneler_id = t } else s
