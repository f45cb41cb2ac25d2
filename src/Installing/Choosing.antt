-- ===== src/Installing/Choosing.antt =====
-- frontend/components/dashboard/tunnelers/tunneler-install.tsx: the address of the connector that the
-- form chooses.
use group_management_ui_back.Prelude.{
  String, ◌≡◌, refl, ◌∙◌, Bool, true, false, Bool-cases, inl, inr, Option, some, List, [], ◌∷◌,
  find, is_blank, ◌==◌,
}
use group_management_ui_back.Types.{Connector}
use group_management_ui_back.Installing.{
  Form, addr_of_ip, handle_connector_select, has_address_field, Field, controller_field,
  controller_http_field, connector_field, tunneler_field, enter, text_of,
}

found_fields :
    (p : Connector → Bool) (cs : List Connector) (c : Connector)
    → find p cs ≡ some c
    → (elim cs [ [] ↦ true | d ∷ ds ↦ false ]) ≡ false
found_fields p [] c h = cc
found_fields p (d ∷ ds) c h = refl

-- Once a connector is chosen that has no private address, the command has no address of a
-- connector, and the form has no field to write one into.
pub chosen_without_ip :
    (s : Form) (c : Connector)
    → find (λ d. d.id == c.id) s.connectors ≡ some c
    → addr_of_ip c.private_ip ≡ ""
    → ((handle_connector_select c.id s).connector_addr ≡ "")
      × (has_address_field (handle_connector_select c.id s) ≡ false)
unfolding handle_connector_select has_address_field
chosen_without_ip s c h k = (rw h k, found_fields (λ d. d.id == c.id) s.connectors c h)

abbrev pub enters : Option String → List (Field × String) → Form → Form
enters initial [] s = s
enters initial ((f, t) ∷ fs) s = enters initial fs (enter initial f t s)

-- No input changes the address of the connector, nor the control for it, while there are connectors.
enter_keeps :
    (initial : Option String) (f : Field) (t : String) (s : Form)
    → has_address_field s ≡ false
    → ((enter initial f t s).connector_addr ≡ s.connector_addr)
      × (has_address_field (enter initial f t s) ≡ false)
unfolding enter has_address_field
enter_keeps initial controller_field t s h = (refl, h)
enter_keeps initial controller_http_field t s h = (refl, h)
enter_keeps initial connector_field t s h = rw h (refl, h)
enter_keeps initial tunneler_field t s h = elim (Bool-cases (is_blank (text_of initial))) [
  | inl e ↦ rw e (refl, h)
  | inr e ↦ rw e (refl, h)
]

enters_keep :
    (initial : Option String) (fs : List (Field × String)) (s : Form)
    → has_address_field s ≡ false
    → (enters initial fs s).connector_addr ≡ s.connector_addr
enters_keep initial [] s h = refl
enters_keep initial ((f, t) ∷ fs) s h =
    let (same, still) = enter_keeps initial f t s h in
    enters_keep initial fs (enter initial f t s) still ∙ same

-- Once a connector is chosen that has no private address, whatever is entered into the fields after
-- that, the form has no address of a connector.
pub never_addressed :
    (initial : Option String) (fs : List (Field × String)) (s : Form) (c : Connector)
    → find (λ d. d.id == c.id) s.connectors ≡ some c
    → addr_of_ip c.private_ip ≡ ""
    → (enters initial fs (handle_connector_select c.id s)).connector_addr ≡ ""
never_addressed initial fs s c h k =
    let (none_yet, no_field) = chosen_without_ip s c h k in
    enters_keep initial fs (handle_connector_select c.id s) no_field ∙ none_yet
