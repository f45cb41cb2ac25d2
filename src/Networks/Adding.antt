-- ===== src/Networks/Adding.antt =====
-- The modals that add a remote network or a connector: when they send a request, and what.
use group_management_ui_back.Prelude.{
  String, ◌≡◌, arith, Option, none, some, List, ◌∷◌, if◌then◌else◌, trim,
}
use group_management_ui_back.Networks.{
  Call, add_remote_network, add_connector, NetworkForm, can_submit, submit_network,
  network_disabled, ConnectorForm, submit_connector, connector_disabled, ChoiceForm, submit_choice,
  choice_disabled,
}

-- A request, among the calls.
abbrev pub request : List Call → Option Call
request (add_remote_network name location ∷ cs) = some (add_remote_network name location)
request (add_connector name network ∷ cs) = some (add_connector name network)
request _ = none

network_sends :
    (s : NetworkForm)
    → (if network_disabled s then none else some (add_remote_network (trim s.name) s.location))
      ≡ (if s.is_submitting then none else request (submit_network s).0)
unfolding network_disabled submit_network can_submit
network_sends s = ground arith

connector_sends :
    (network : String) (s : ConnectorForm)
    → (if connector_disabled s then none else some (add_connector s.name network))
      ≡ (if s.is_submitting then none else request (submit_connector network s).0)
unfolding connector_disabled submit_connector
connector_sends network s = ground arith

choice_sends :
    (s : ChoiceForm)
    → (if choice_disabled s then none else some (add_connector (trim s.name) s.remote_network_id))
      ≡ (if s.is_adding then none else request (submit_choice s).0)
unfolding choice_disabled submit_choice
choice_sends s = ground arith

-- In each of the three modals, the button is enabled just where nothing is in flight and a press
-- sends a request: the trimmed name and the location of a remote network, the name of a connector
-- as it is typed for a given network, and its trimmed name for a network that is chosen.
pub enabled_sends :
    (n : NetworkForm) (network : String) (c : ConnectorForm) (h : ChoiceForm)
    → ((if network_disabled n then none else some (add_remote_network (trim n.name) n.location))
        ≡ (if n.is_submitting then none else request (submit_network n).0))
      × ((if connector_disabled c then none else some (add_connector c.name network))
          ≡ (if c.is_submitting then none else request (submit_connector network c).0))
      × ((if choice_disabled h
            then none
            else some (add_connector (trim h.name) h.remote_network_id))
          ≡ (if h.is_adding then none else request (submit_choice h).0))
enabled_sends n network c h = (network_sends n, connector_sends network c, choice_sends h)
