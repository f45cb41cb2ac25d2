-- ===== src/Diagnostics/Trace.antt =====
-- frontend/components/dashboard/diagnostics/access-trace-panel.tsx: the state of the panel and its
-- handlers, split at their `await`.
use group_management_ui_back.Prelude.{
  String, Bool, true, false, ◌||◌, Option, none, some, List, [], if◌then◌else◌, is_blank,
}
use group_management_ui_back.Types.{User, Resource, AccessTrace, HopType}

pub record TraceState : Type 0 where
  pub users : List User
  pub resources : List Resource
  pub selected_user : String
  pub selected_resource : String
  pub tracing : Bool
  pub result : Option AccessTrace
  pub error : Option String

unfoldable pub trace_mounted : TraceState
trace_mounted = record {
  users = [];
  resources = [];
  selected_user = "";
  selected_resource = "";
  tracing = false;
  result = none;
  error = none;
}

-- The effect of the first render, with the answers of `getUsers` and `getResources`, `none` where
-- either of them fails
unfoldable pub trace_loaded : Option (List User × List Resource) → TraceState → TraceState
trace_loaded none s = s
trace_loaded (some (u, r)) s = record s { users = u; resources = r }

-- `handleTrace` before its `await`: what it asks for, if it asks
unfoldable pub start_trace : TraceState → Option (String × String) × TraceState
start_trace s = if is_blank s.selected_user || is_blank s.selected_resource then (none, s) else (
  some (s.selected_user, s.selected_resource),
  record s { tracing = true; error = none; result = none },
)

-- What `traceAccess` comes to: it throws an `Error` with a message (`some`) or another value.
pub data Traced : Type 0 where
  traced : AccessTrace → Traced
  threw : Option String → Traced

abbrev pub trace_message : Option String → String
trace_message none = "Trace failed"
trace_message (some message) = message

-- `handleTrace` after it
unfoldable pub finish_trace : Traced → TraceState → TraceState
finish_trace (traced t) s = record s { result = some t; tracing = false }
finish_trace (threw cause) s = record s { error = some (trace_message cause); tracing = false }

-- `disabled` of the button "Trace"
unfoldable pub trace_disabled : TraceState → Bool
trace_disabled s = is_blank s.selected_user || is_blank s.selected_resource || s.tracing

-- The text under the icon of a hop, `hop.type.replace('_', ' ')`
abbrev pub hop_label : HopType → String
hop_label HopType.user = "user"
hop_label HopType.group = "group"
hop_label HopType.resource = "resource"
hop_label HopType.remote_network = "remote network"
hop_label HopType.connector = "connector"
