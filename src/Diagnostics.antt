-- ===== src/Diagnostics.antt =====
-- frontend/components/dashboard/diagnostics/ and frontend/src/pages/diagnostics/: the connectivity
-- panel, the trace of an access and the page of both. A handler is split at its `await`.
pub mod Ages
pub mod Pinging
pub mod Trace
pub mod Tracing
pub mod TraceView
mod Tests
use Prim.Native.Nat.{◌/◌, ◌*◌}
use Prim.Native.String.{◌++◌}
use group_management_ui_back.Prelude.{
  ℕ, String, Bool, true, false, ◌+◌, ◌||◌, Option, none, some, List, [], ◌∷◌, map, filter, length,
  if◌then◌else◌, ltb, eqb, is_blank, ◌==◌, to_text, Dict, lookup, put,
}
use group_management_ui_back.Types.{
  Seconds, before, since, ConnectorDiagnostic, DiagnosticsData, PingResult, User, Resource,
  AccessTrace, MatchedRule, TraceHop, HopType,
}

pub data TimeUnit : Type 0 where
  second minute hour day : TimeUnit

-- A unit in billionths of a second.
abbrev pub unit_size : TimeUnit → ℕ
unit_size second = 1000000000
unit_size minute = 60000000000
unit_size hour = 3600000000000
unit_size day = 86400000000000

abbrev pub unit_letter : TimeUnit → String
unit_letter second = "s"
unit_letter minute = "m"
unit_letter hour = "h"
unit_letter day = "d"

-- `Math.round(a / b)`: halves go up.
unfoldable pub round_div : ℕ → ℕ → ℕ
round_div a b = (2 * a + b) / (2 * b)

pub data Age : Type 0 where
  just_now : Age
  ago : ℕ → TimeUnit → Age

unfoldable pub in_unit : ℕ → TimeUnit → Age
unfolding round_div
in_unit n u = ago (round_div n (unit_size u)) u

-- The branches of `formatStaleness`.
unfoldable pub age : Seconds → Age
unfolding in_unit
age (before n) = just_now
age (since n) =
    if eqb n 0
    then just_now
    else if ltb n (unit_size minute)
    then in_unit n second
    else if ltb n (unit_size hour)
    then in_unit n minute
    else if ltb n (unit_size day)
    then in_unit n hour
    else in_unit n day

abbrev pub age_text : Age → String
age_text just_now = "just now"
age_text (ago n u) = to_text n ++ (unit_letter u ++ " ago")

unfoldable pub format_staleness : Seconds → String
unfolding age
format_staleness seconds = age_text (age seconds)

-- The connectivity panel. The calls of `pingConnector` are kept, newest first.
pub record Panel : Type 0 where
  pub ping_results : Dict PingResult
  pub pinging : Dict Bool
  pub pinged : List String

-- `handlePing` before its `await`
unfoldable pub start_ping : String → Panel → Panel
start_ping id s = record s { pinging = put id true s.pinging; pinged = id ∷ s.pinged }

abbrev pub keep_result : String → Option PingResult → Dict PingResult → Dict PingResult
keep_result id none results = results
keep_result id (some result) results = put id result results

-- `handlePing` after it, with the result or none where `pingConnector` throws
unfoldable pub finish_ping : String → Option PingResult → Panel → Panel
finish_ping id result s = record s {
  ping_results = keep_result id result s.ping_results;
  pinging = put id false s.pinging;
}

unfoldable pub online_count : List ConnectorDiagnostic → ℕ
online_count connectors = length (filter (λ c. c.status == "online") connectors)

unfoldable pub stream_active_count : Panel → ℕ
stream_active_count s = length (filter (λ e. e.1.stream_active) s.ping_results)

-- A row of the table. `last_seen` is a time that the browser's locale prints, `none` for "Never".
pub record ConnectorRow : Type 0 where
  pub name : String
  pub is_online : Bool
  pub status : String
  pub stream_active : Option Bool
  pub staleness : String
  pub last_seen : Option String
  pub ping_disabled : Bool

-- `x ? some : none` for a text that may be missing or empty
abbrev pub filled : Option String → Option String
filled none = none
filled (some t) = if is_blank t then none else some t

abbrev pub never_or_now : Option String → String
never_or_now none = "Never"
never_or_now (some t) = "just now"

abbrev pub is_later : Seconds → Bool
is_later (before n) = false
is_later (since n) = ltb 0 n

unfoldable pub staleness_cell : Seconds → Option String → String
unfolding format_staleness
staleness_cell staleness last_seen_at =
    if is_later staleness then format_staleness staleness else never_or_now (filled last_seen_at)

abbrev pub stale_of : Option PingResult → ConnectorDiagnostic → Seconds
stale_of none c = c.staleness_seconds
stale_of (some r) c = r.staleness_seconds

abbrev pub seen_of : Option PingResult → ConnectorDiagnostic → Option String
seen_of none c = c.last_seen_at
seen_of (some r) c = r.last_seen_at

abbrev pub stream_of : Option PingResult → Option Bool
stream_of none = none
stream_of (some r) = some r.stream_active

abbrev pub is_set : Option Bool → Bool
is_set none = false
is_set (some b) = b

unfoldable pub connector_row : Panel → ConnectorDiagnostic → ConnectorRow
unfolding staleness_cell
connector_row s c =
    let result = lookup c.id s.ping_results in
    record {
      name = if is_blank c.name then c.id else c.name;
      is_online = c.status == "online";
      status = c.status;
      stream_active = stream_of result;
      staleness = staleness_cell (stale_of result c) (seen_of result c);
      last_seen = filled (seen_of result c);
      ping_disabled = is_set (lookup c.id s.pinging);
    }

-- The page of both panels.
pub record PageState : Type 0 where
  pub contents : Option DiagnosticsData
  pub loading : Bool

unfoldable pub page_mounted : PageState
page_mounted = record { contents = none; loading = true }

-- The end of the effect, with what `getDiagnostics` returns or none where it fails
unfoldable pub page_loaded : Option DiagnosticsData → PageState → PageState
page_loaded none s = record s { loading = false }
page_loaded (some d) s = record s { contents = some d; loading = false }

abbrev pub connectors_of : Option DiagnosticsData → List ConnectorDiagnostic
connectors_of none = []
connectors_of (some d) = d.connectors

-- The spinner (`none`) or the connectors that the panel is given
unfoldable pub page_view : PageState → Option (List ConnectorDiagnostic)
page_view s = if s.loading then none else some (connectors_of s.contents)
