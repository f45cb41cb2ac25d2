-- ===== src/EditResource/Submitting.antt =====
-- Opening a resource and sending it again.
use Prim.Native.Char.{code}
use group_management_ui_back.Prelude.{
  ℕ, zero, suc, ◌≤◌, String, ◌≡◌, ◌≢◌, refl, ap, sym, ◌∙◌, false, Option, none, some, ◌&&◌, leb,
  arith, Bool-cases, inl, inr, is_blank, to_text, to_text_filled, eq_of_is_blank,
}
use group_management_ui_back.Json.{Num, int}
use group_management_ui_back.Types.{Resource}
use group_management_ui_back.AddResource.{or_empty, or_undefined}
use group_management_ui_back.EditResource.{
  State, Input, port_text, open_modal, digits_only, enter, port_of, payload, start_submit,
  can_submit, port_from_input, port_to_input,
}

-- What a port becomes when it is opened and sent again: 0 is taken for no port.
abbrev pub kept_port : Option ℕ → Option Num
kept_port none = none
kept_port (some zero) = none
kept_port (some (suc n)) = some (int (suc n))

-- An alias that is empty is not sent.
abbrev pub kept_alias : Option String → Option String
kept_alias none = none
kept_alias (some a) = or_undefined a

not_blank : (s : String) → s ≢ "" → is_blank s ≡ false
not_blank s ne = elim (Bool-cases (is_blank s)) [
  | inl h ↦ absurd (ne (eq_of_is_blank s h))
  | inr h ↦ h
]

alias_kept : (alias : Option String) → or_undefined (or_empty alias) ≡ kept_alias alias
alias_kept none = refl
alias_kept (some a) = refl

start_filled :
    (number_of : String → Num) (r : Resource) (s : State)
    → s.network_id ≢ ""
    → s.name ≢ ""
    → s.address ≢ ""
    → (start_submit number_of (some r) s).0 ≡ some (r.id, payload number_of s)
unfolding start_submit can_submit
start_filled number_of r s n1 n2 n3 =
    rw (not_blank s.network_id n1, not_blank s.name n2, not_blank s.address n3) refl

module _ (number_of : String → Num) where
  -- `Number` reads the decimal digits of a number back.
  abbrev pub ReadsBack : ℕ → Type 0
  ReadsBack n = number_of (to_text n) ≡ int n

  abbrev pub PortReadsBack : Option ℕ → Type 0
  PortReadsBack none = Unit
  PortReadsBack (some n) = ReadsBack n

  port_of-port_text :
      (port : Option ℕ) → PortReadsBack port → port_of number_of (port_text port) ≡ kept_port port
  port_of-port_text none h = refl
  port_of-port_text (some zero) h = refl
  port_of-port_text (some (suc n)) reads = rw (to_text_filled (suc n)) (ap some reads)

  -- Where `Number` reads back the decimal digits of its ports, a resource with a network, a name
  -- and an address that is opened and submitted with no input in between is sent as it is, under
  -- its identifier, except that a port 0 and an empty alias are sent as none.
  pub submit_unchanged :
      (r : Resource) (network : String) (s : State)
      → r.remote_network_id ≡ some network
      → network ≢ ""
      → r.name ≢ ""
      → r.address ≢ ""
      → PortReadsBack r.port_from
      → PortReadsBack r.port_to
      → (start_submit number_of (some r) (open_modal (some r) s)).0
        ≡ some (
          r.id,
          record {
            network_id = network;
            name = r.name;
            kind = r.kind;
            address = r.address;
            protocol = r.protocol;
            port_from = some (kept_port r.port_from);
            port_to = some (kept_port r.port_to);
            alias = kept_alias r.alias;
          },
        )
  unfolding open_modal payload
  submit_unchanged r network s e n1 n2 n3 from to =
      start_filled number_of r (open_modal (some r) s) (λ blank. n1 (ap or_empty (sym e) ∙ blank))
        n2 n3
      ∙ λ i. some (
        r.id,
        record {
          network_id = or_empty (e i);
          name = r.name;
          kind = r.kind;
          address = r.address;
          protocol = r.protocol;
          port_from = some (port_of-port_text r.port_from from i);
          port_to = some (port_of-port_text r.port_to to i);
          alias = alias_kept r.alias i;
        },
      )

-- A text of decimal digits.
abbrev pub IsDigits : String → Type 0
IsDigits String.[] = Unit
IsDigits (String.◌∷◌ c s) = (b'0' ≤ code c) × (code c ≤ b'9') × IsDigits s

digits_only-IsDigits : (s : String) → IsDigits (digits_only s)
unfolding digits_only
digits_only-IsDigits String.[] = tt
digits_only-IsDigits (String.◌∷◌ c s) = elim (Bool-cases (leb b'0' (code c) && leb (code c) b'9')) [
  | inl h ↦ rw h (ground arith, ground arith, digits_only-IsDigits s)
  | inr h ↦ rw h (digits_only-IsDigits s)
]

abbrev pub PortsAreDigits : State → Type 0
PortsAreDigits s = IsDigits s.port_from × IsDigits s.port_to

-- Whatever is entered into the form, its ports stay texts of decimal digits.
pub enter-PortsAreDigits : (i : Input) (s : State) → PortsAreDigits s → PortsAreDigits (enter i s)
unfolding enter
enter-PortsAreDigits (port_from_input v) s h = (digits_only-IsDigits v, h.1)
enter-PortsAreDigits (port_to_input v) s h = (h.0, digits_only-IsDigits v)
enter-PortsAreDigits _ s h = h
