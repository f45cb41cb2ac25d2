-- ===== src/Installing/View.antt =====
-- frontend/components/dashboard/tunnelers/tunneler-install.tsx: what the form of a tunneler shows.
-- Headings, placeholders and fixed texts are left out.
use Prim.Native.String.{◌++◌}
use group_management_ui_back.Prelude.{
  String, Bool, not, Option, none, some, List, [], ◌∷◌, map, is_blank, if◌then◌else◌,
}
use group_management_ui_back.Types.{Connector}
use group_management_ui_back.Installing.{Form, or_text, text_of, tunneler_command}

-- An item of the list of connectors, with its address where it has one
pub record ConnectorItem : Type 0 where
  pub id : String
  pub name : String
  pub address : Option String

abbrev pub shown_ip : Option String → Option String
shown_ip none = none
shown_ip (some ip) = if is_blank ip then none else some ("(" ++ (ip ++ ":9443)"))

unfoldable pub connector_item : Connector → ConnectorItem
connector_item c = record { id = c.id; name = c.name; address = shown_ip c.private_ip }

-- The control for the connector: a list, with the address below it, if there is one, or an input.
pub data ConnectorControl : Type 0 where
  list :
      (selected : String) (items : List ConnectorItem) (address : Option String) → ConnectorControl
  input : String → ConnectorControl

abbrev pub filled_text : String → Option String
filled_text s = if is_blank s then none else some s

abbrev pub connector_control : List Connector → Form → ConnectorControl
connector_control [] s = input s.connector_addr
connector_control (c ∷ cs) s =
    list s.selected_connector_id (map connector_item (c ∷ cs)) (filled_text s.connector_addr)

pub record View : Type 0 where
  pub generate_disabled : Bool
  pub generate_label : String
  pub token : String
  pub controller_addr : String
  pub connector : ConnectorControl
  pub tunneler_id : String
  pub tunneler_id_disabled : Bool
  pub controller_http_addr : String
  pub command : String

unfoldable pub view : Option String → Form → View
unfolding tunneler_command
view initial_tunneler_id s = record {
  generate_disabled = s.token_loading;
  generate_label = if s.token_loading then "Generating..." else "Generate Token";
  token = or_text s.token "—";
  controller_addr = s.controller_addr;
  connector = connector_control s.connectors s;
  tunneler_id = s.tunneler_id;
  tunneler_id_disabled = not (is_blank (text_of initial_tunneler_id));
  controller_http_addr = s.controller_http_addr;
  command = tunneler_command s;
}
