-- ===== src/Diagnostics/Pinging.antt =====
-- frontend/components/dashboard/diagnostics/connectivity-panel.tsx: pings of several connectors that
-- overlap.
use group_management_ui_back.Prelude.{
  String, ◌≡◌, refl, true, false, Bool-cases, inl, inr, Option, none, some, List, [], ◌∷◌, filter,
  ◌==◌, lookup, lookup-put,
}
use group_management_ui_back.Types.{PingResult, ConnectorDiagnostic}
use group_management_ui_back.Diagnostics.{Panel, start_ping, finish_ping, connector_row}

-- A press of a connector's button, or the end of one of its pings.
pub data PingEvent : Type 0 where
  presses : String → PingEvent
  ends : String → Option PingResult → PingEvent

abbrev pub target : PingEvent → String
target (presses id) = id
target (ends id result) = id

unfoldable pub happen : PingEvent → Panel → Panel
unfolding start_ping finish_ping
happen (presses id) s = start_ping id s
happen (ends id result) s = finish_ping id result s

abbrev pub happens : List PingEvent → Panel → Panel
happens [] s = s
happens (e ∷ es) s = happens es (happen e s)

-- Two panels hold the same of a connector.
abbrev Agree : String → Panel → Panel → Type 0
Agree id s t =
    (lookup id s.ping_results ≡ lookup id t.ping_results)
    × (lookup id s.pinging ≡ lookup id t.pinging)

happen-other :
    (id : String) (e : PingEvent) (s t : Panel)
    → (target e == id) ≡ false
    → Agree id s t
    → Agree id (happen e s) t
unfolding happen start_ping finish_ping
happen-other id (presses k) s t h (p, q) = (p, rw (lookup-put k id true s.pinging, h) q)
happen-other id (ends k none) s t h (p, q) = (p, rw (lookup-put k id false s.pinging, h) q)
happen-other id (ends k (some r)) s t h (p, q) =
    (rw (lookup-put k id r s.ping_results, h) p, rw (lookup-put k id false s.pinging, h) q)

happen-same :
    (id : String) (e : PingEvent) (s t : Panel) → Agree id s t → Agree id (happen e s) (happen e t)
unfolding happen start_ping finish_ping
happen-same id (presses k) s t (p, q) =
    (p, rw (lookup-put k id true s.pinging, lookup-put k id true t.pinging, q) refl)
happen-same id (ends k none) s t (p, q) =
    (p, rw (lookup-put k id false s.pinging, lookup-put k id false t.pinging, q) refl)
happen-same id (ends k (some r)) s t (p, q) = (
  rw (lookup-put k id r s.ping_results, lookup-put k id r t.ping_results, p) refl,
  rw (lookup-put k id false s.pinging, lookup-put k id false t.pinging, q) refl,
)

happens-Agree :
    (id : String) (es : List PingEvent) (s t : Panel)
    → Agree id s t
    → Agree id (happens es s) (happens (filter (λ e. target e == id) es) t)
happens-Agree id [] s t h = h
happens-Agree id (e ∷ es) s t h = elim (Bool-cases (target e == id)) [
  | inl k ↦ rw k (happens-Agree id es (happen e s) (happen e t) (happen-same id e s t h))
  | inr k ↦ rw k (happens-Agree id es (happen e s) t (happen-other id e s t k h))
]

row-Agree :
    (c : ConnectorDiagnostic) (s t : Panel) → Agree c.id s t → connector_row s c ≡ connector_row t c
unfolding connector_row
row-Agree c s t (p, q) = rw (p, q) refl

-- However the presses and the ends of pings of all connectors interleave, the row of a connector is
-- what its own presses and pings alone make it.
pub happens_apart :
    (c : ConnectorDiagnostic) (es : List PingEvent) (s : Panel)
    → connector_row (happens es s) c
      ≡ connector_row (happens (filter (λ e. target e == c.id) es) s) c
happens_apart c es s =
    row-Agree c (happens es s) (happens (filter (λ e. target e == c.id) es) s)
      (happens-Agree c.id es s s (refl, refl))
