-- ===== src/Networks.antt =====
-- The modals that add a remote network (frontend/components/dashboard/remote-networks/
-- add-remote-network-modal.tsx) and a connector, to one network (add-connector-modal.tsx beside it) or
-- to a network that is chosen (frontend/components/dashboard/connectors/add-connector-modal.tsx).
-- Handlers are split at their `await`; what a modal calls is listed, the last call first.
pub mod Adding
mod Tests
use group_management_ui_back.Prelude.{
  String, Bool, true, false, ◌||◌, ◌&&◌, not, Option, none, some, List, [], ◌∷◌, if◌then◌else◌,
  is_blank, trim,
}
use group_management_ui_back.Types.{RemoteNetwork}

-- The calls of the client and of the callbacks that the modal is given.
pub data Call : Type 0 where
  add_remote_network add_connector : String → String → Call
  get_remote_networks on_close on_added toast_empty toast_added toast_failed : Call

-- The modal of a remote network.
pub record NetworkForm : Type 0 where
  pub name : String
  pub location : String
  pub is_submitting : Bool

-- `LOCATION_OPTIONS`, each value with its label
abbrev pub location_options : List (String × String)
location_options =
    ("AWS", "AWS")
    ∷ ("GCP", "GCP")
    ∷ ("AZURE", "Azure")
    ∷ ("ON_PREM", "On-Prem")
    ∷ ("OTHER", "Other")
    ∷ []

abbrev pub reset_form : NetworkForm → NetworkForm
reset_form s = record s { name = ""; location = "" }

-- `handleClose`
unfoldable pub close_network : NetworkForm → List Call × NetworkForm
close_network s = (on_close ∷ [], reset_form s)

unfoldable pub can_submit : NetworkForm → Bool
can_submit s = not (is_blank (trim s.name)) && not (is_blank s.location)

-- `handleSubmit` before its `await`, and after it
unfoldable pub submit_network : NetworkForm → List Call × NetworkForm
unfolding can_submit
submit_network s =
    if can_submit s
    then (add_remote_network (trim s.name) s.location ∷ [], record s { is_submitting = true })
    else ([], s)

unfoldable pub finish_network : Bool → NetworkForm → List Call × NetworkForm
finish_network true s = (on_close ∷ on_added ∷ [], record (reset_form s) { is_submitting = false })
finish_network false s = ([], record s { is_submitting = false })

unfoldable pub network_disabled : NetworkForm → Bool
unfolding can_submit
network_disabled s = not (can_submit s) || s.is_submitting

-- The modal of a connector of a given network.
pub record ConnectorForm : Type 0 where
  pub name : String
  pub is_submitting : Bool

unfoldable pub close_connector : ConnectorForm → List Call × ConnectorForm
close_connector s = (on_close ∷ [], record s { name = "" })

unfoldable pub submit_connector : String → ConnectorForm → List Call × ConnectorForm
submit_connector network s =
    if is_blank (trim s.name)
    then (toast_empty ∷ [], s)
    else (add_connector s.name network ∷ [], record s { is_submitting = true })

unfoldable pub finish_connector : Bool → ConnectorForm → List Call × ConnectorForm
finish_connector true s =
    (on_close ∷ on_added ∷ toast_added ∷ [], record s { name = ""; is_submitting = false })
finish_connector false s = (toast_failed ∷ [], record s { is_submitting = false })

unfoldable pub connector_disabled : ConnectorForm → Bool
connector_disabled s = is_blank (trim s.name) || s.is_submitting

-- The modal of a connector whose network is chosen.
pub record ChoiceForm : Type 0 where
  pub name : String
  pub remote_networks : List RemoteNetwork
  pub remote_network_id : String
  pub loading_networks : Bool
  pub is_adding : Bool
  pub error : Option String

-- The effect that runs when `isOpen` changes
unfoldable pub open_choice : Bool → ChoiceForm → List Call × ChoiceForm
open_choice is_open s =
    if is_open
    then (get_remote_networks ∷ [], record s { error = none; loading_networks = true })
    else ([], s)

unfoldable pub networks_loaded : Option (List RemoteNetwork) → ChoiceForm → ChoiceForm
networks_loaded none s = record s { remote_networks = []; loading_networks = false }
networks_loaded (some nets) s = record s { remote_networks = nets; loading_networks = false }

-- `handleAdd` before its `await`
unfoldable pub submit_choice : ChoiceForm → List Call × ChoiceForm
submit_choice s =
    if is_blank (trim s.name)
    then ([], record s { error = some "Connector name is required." })
    else if is_blank s.remote_network_id
    then ([], record s { error = some "Remote network is required." })
    else (
      add_connector (trim s.name) s.remote_network_id ∷ [],
      record s { error = none; is_adding = true },
    )

-- `(e as Error).message || '…'`
abbrev pub message_or : String → String → String
message_or message fallback = if is_blank message then fallback else message

-- and after it: none where the connector was added, or the message of the error
unfoldable pub finish_choice : Option String → ChoiceForm → List Call × ChoiceForm
finish_choice none s =
    (on_close ∷ on_added ∷ [], record s { name = ""; remote_network_id = ""; is_adding = false })
finish_choice (some message) s = (
  [],
  record s { error = some (message_or message "Failed to add connector."); is_adding = false },
)

unfoldable pub choice_disabled : ChoiceForm → Bool
choice_disabled s = s.is_adding || is_blank (trim s.name) || is_blank s.remote_network_id

-- `disabled` and the placeholder of the list of networks
abbrev pub is_nil {ℓ} : {A : Type ℓ} → List A → Bool
is_nil [] = true
is_nil (x ∷ xs) = false

unfoldable pub networks_disabled : ChoiceForm → Bool
networks_disabled s = s.loading_networks || is_nil s.remote_networks

unfoldable pub networks_placeholder : ChoiceForm → String
networks_placeholder s =
    if s.loading_networks
    then "Loading networks..."
    else if is_nil s.remote_networks
    then "No remote networks found"
    else "Select a remote network"
