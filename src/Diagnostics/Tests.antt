-- ===== src/Diagnostics/Tests.antt =====
-- frontend/components/dashboard/diagnostics/: the panels at concrete states.
use group_management_ui_back.Prelude.{
  ◌≡◌, refl, true, none, some, List, [], ◌∷◌, filter, ◌==◌, to_text,
}
use group_management_ui_back.Diagnostics.Trace.{trace_mounted, TraceState, threw, finish_trace}
use group_management_ui_back.Types.{since, before, ConnectorDiagnostic, PingResult}
use group_management_ui_back.Diagnostics.{
  Panel, connector_row, age, in_unit, round_div, format_staleness,
}
use group_management_ui_back.Api.{Fetch, throws_error, request, read_fetched}
use group_management_ui_back.Api.Calls.{trace_access}
use group_management_ui_back.Diagnostics.TraceView.{trace_view, trace_error_shown}
use group_management_ui_back.Diagnostics.Ages.{IsNear, age-IsNear}
use group_management_ui_back.Diagnostics.Pinging.{PingEvent, happens, happens_apart, target}
use group_management_ui_back.Diagnostics.Tracing.{
  TraceEvent, watches, watched_first, IsCoherent, watches-IsCoherent,
}

-- 59.7 seconds, 3599 seconds and 86399 seconds
rounded_up :
    (format_staleness (since 59700000000) ≡ "60s ago")
    × (format_staleness (since 3599000000000) ≡ "60m ago")
    × (format_staleness (since 86399000000000) ≡ "24h ago")
unfolding format_staleness age in_unit round_div to_text
rounded_up = (refl, refl, refl)

age-IsNear_example : IsNear 59700000000 (age (since 59700000000))
age-IsNear_example = age-IsNear 59700000000

abbrev edge : ConnectorDiagnostic
edge = record {
  id = "c1";
  name = "edge";
  status = "online";
  stream_active = true;
  staleness_seconds = since 5000000000;
  last_seen_at = some "2024-01-01T00:00:00Z";
  remote_network_id = "n1";
}

abbrev pong : PingResult
pong = record {
  connector_id = "c1";
  stream_active = true;
  staleness_seconds = before 3;
  last_seen_at = none;
  message = "";
}

abbrev idle : Panel
idle = record { ping_results = []; pinging = []; pinged = [] }

abbrev overlapping : List PingEvent
overlapping =
    PingEvent.presses "c1"
    ∷ PingEvent.presses "c2"
    ∷ PingEvent.ends "c1" (some pong)
    ∷ PingEvent.ends "c2" none
    ∷ []

happens_apart_example :
    connector_row (happens overlapping idle) edge
    ≡ connector_row (happens (filter (λ e. target e == "c1") overlapping) idle) edge
happens_apart_example = happens_apart edge overlapping idle

abbrev asked : List TraceEvent
asked =
    TraceEvent.selects_user "u1"
    ∷ TraceEvent.selects_resource "r1"
    ∷ TraceEvent.presses
    ∷ TraceEvent.presses
    ∷ TraceEvent.answers (threw none)
    ∷ []

watches-IsCoherent_example : IsCoherent (watches asked watched_first)
watches-IsCoherent_example = watches-IsCoherent asked

abbrev chosen : TraceState
unfolding trace_mounted
chosen = record trace_mounted { selected_user = "u1"; selected_resource = "r1" }

abbrev offline_fetch : Fetch
offline_fetch path options = throws_error "offline"

trace_error_shown_example :
    (trace_view (finish_trace (threw (some "Network error: offline")) chosen)).0
    ≡ some "Network error: offline"
unfolding trace_mounted trace_access request read_fetched
trace_error_shown_example =
    trace_error_shown "" offline_fetch "u1" "r1" "Network error: offline" chosen refl
