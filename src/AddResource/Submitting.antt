-- ===== src/AddResource/Submitting.antt =====
-- What the form sends, what it leaves out, and what it refuses to send.
use group_management_ui_back.Prelude.{
  String, ◌≡◌, ◌≢◌, ◌↔◌, refl, subst, true, false, none, some, List, [], ◌∷◌, not, arith,
  Bool-cases, inl, inr, is_blank, NoSpace, strip_spaces-NoSpace, is_blank_of_eq, eq_of_is_blank,
}
use group_management_ui_back.Types.{tcp}
use group_management_ui_back.Api.{ResourceData}
use group_management_ui_back.ResourcePolicies.{ResourcePolicy}
use group_management_ui_back.AddResource.{
  PortMode, all, custom, blocked, AccessMode, Props, State, Input, initial, enter, primary_protocol,
  can_submit, payload, start_submit, finish_submit, first_id, address_input,
}

blank-or : (s : String) → (not (is_blank s) ≡ true) ↔ (s ≢ "")
blank-or s = (
  (λ h e. cc (is_blank_of_eq s e, h)),
  (λ ne. elim (Bool-cases (is_blank s)) [
    | inl h ↦ absurd (ne (eq_of_is_blank s h))
    | inr h ↦ rw h
  ]),
)

can_submit_iff :
    (s : State) → (can_submit s ≡ true) ↔ ((s.network_id ≢ "") × (s.name ≢ "") × (s.address ≢ ""))
unfolding can_submit
can_submit_iff s = (
  (λ h. (
    (blank-or s.network_id).0 (ground arith),
    (blank-or s.name).0 (ground arith),
    (blank-or s.address).0 (ground arith),
  )),
  (λ h.
      rw ((blank-or s.network_id).1 h.0, (blank-or s.name).1 h.1, (blank-or s.address).1 h.2) refl),
)

-- A request is made exactly when network, name and address are not empty; it carries them and the
-- type as they are in the form; and where no request is made the form is left as it is.
pub submit_iff :
    (s : State)
    → (((d : ResourceData) × (ps : List ResourcePolicy) × ((start_submit s).0 ≡ some (d, ps)))
        ↔ ((s.network_id ≢ "") × (s.name ≢ "") × (s.address ≢ "")))
      × ((d : ResourceData) (ps : List ResourcePolicy)
          → (start_submit s).0 ≡ some (d, ps)
          → (d.network_id ≡ s.network_id)
            × (d.name ≡ s.name)
            × (d.address ≡ s.address)
            × (d.kind ≡ s.kind))
      × ((start_submit s).0 ≡ none → (start_submit s).1 ≡ s)
unfolding start_submit payload
submit_iff s = elim (Bool-cases (can_submit s)) [
  | inl h ↦ rw h (
    ((λ _. (can_submit_iff s).0 h), (λ _. (payload s, s.policies, refl))),
    (λ d ps e. (ground arith, ground arith, ground arith, ground arith)),
    (λ e. cc),
  )
  | inr h ↦
      rw h (((λ m. cc m.2), (λ m. cc ((can_submit_iff s).1 m, h))), (λ d ps e. cc), (λ _. refl))
]

not_blocked : (m : PortMode) → m ≢ blocked → primary_protocol m ≡ tcp
not_blocked all h = refl
not_blocked custom h = refl
not_blocked blocked h = absurd (h refl)

-- As long as TCP is not blocked, the restrictions of ports, the policy and the access mode that are
-- entered have no influence on what is sent; and no port is sent, whatever is entered.
pub restrictions_ignored :
    (s : State) (tcp_mode udp_mode : PortMode) (tcp_ports udp_ports policy : String)
    (access : AccessMode)
    → (tcp_mode ≢ blocked)
    → (s.tcp_mode ≢ blocked)
    → (payload (record s {
      tcp_mode = tcp_mode;
      tcp_ports = tcp_ports;
      udp_mode = udp_mode;
      udp_ports = udp_ports;
      policy_id = policy;
      access_mode = access;
    })
        ≡ payload s)
      × ((payload s).port_from ≡ some none)
      × ((payload s).port_to ≡ some none)
unfolding payload
restrictions_ignored s tcp_mode udp_mode tcp_ports udp_ports policy access h k =
    (ground (arith, not_blocked tcp_mode, not_blocked s.tcp_mode), refl, refl)

-- Any sequence of inputs.
unfoldable pub enter_all : List Input → State → State
enter_all [] s = s
enter_all (i ∷ is) s = enter_all is (enter i s)

enter-NoSpace : (i : Input) (s : State) → NoSpace s.address → NoSpace (enter i s).address
unfolding enter
enter-NoSpace (address_input v) s h = strip_spaces-NoSpace v
enter-NoSpace _ s h = h

enter_all-NoSpace :
    (is : List Input) (s : State) → NoSpace s.address → NoSpace (enter_all is s).address
unfolding enter_all
enter_all-NoSpace [] s h = h
enter_all-NoSpace (i ∷ is) s h = enter_all-NoSpace is (enter i s) (enter-NoSpace i s h)

sent-address :
    (s : State) (d : ResourceData) (ps : List ResourcePolicy)
    → (start_submit s).0 ≡ some (d, ps)
    → s.address ≡ d.address
unfolding start_submit
sent-address s d ps h = ground arith

-- Whatever is entered, and in whatever order, the address that is sent holds no white space.
pub address-NoSpace :
    (props : Props) (is : List Input) (d : ResourceData) (ps : List ResourcePolicy)
    → (start_submit (enter_all is (initial props))).0 ≡ some (d, ps)
    → NoSpace d.address
address-NoSpace props is d ps h =
    subst NoSpace (sent-address (enter_all is (initial props)) d ps h)
      (enter_all-NoSpace is (initial props) (unfold initial in tt))

-- A submission that succeeds closes the modal and leaves an empty form, with the default network
-- and the first policy chosen; one that fails closes nothing and keeps all that was entered.
pub finish_lem :
    (props : Props) (policies : List ResourcePolicy) (s : State)
    → ((finish_submit props true policies s).1 ≡ true)
      × ((finish_submit props true policies s).0 ≡ record (initial props) {
        networks = s.networks;
        loading_networks = s.loading_networks;
        policies = s.policies;
        policy_id = first_id "" policies;
      })
      × (finish_submit props false policies s ≡ (record s { is_submitting = false }, false))
unfolding finish_submit initial
finish_lem props policies s = (refl, refl, refl)
