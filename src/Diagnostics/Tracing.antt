-- ===== src/Diagnostics/Tracing.antt =====
-- frontend/components/dashboard/diagnostics/access-trace-panel.tsx: what the panel shows of a trace.
use group_management_ui_back.Prelude.{
  String, ◌≡◌, refl, arith, Bool, true, false, Bool-cases, inl, inr, Option, none, some, List, [],
  ◌∷◌, ◌||◌, if◌then◌else◌, is_blank,
}
use group_management_ui_back.Diagnostics.Trace.{
  TraceState, trace_mounted, trace_loaded, start_trace, finish_trace, Traced, traced, threw,
  trace_disabled, trace_message,
}
use group_management_ui_back.Types.{User, Resource, AccessTrace}

-- What happens to the panel. A press of the button does nothing while it is disabled, and an answer
-- comes only while a trace is under way.
pub data TraceEvent : Type 0 where
  loads : Option (List User × List Resource) → TraceEvent
  selects_user selects_resource : String → TraceEvent
  presses : TraceEvent
  answers : Traced → TraceEvent

-- The requests that the panel sent and those that were answered, newest first, beside its state.
pub record Watched : Type 0 where
  pub panel : TraceState
  pub sent : List (String × String)
  pub pending : List (String × String)

abbrev pub press : Option (String × String) × TraceState → Watched → Watched
press (none, p) w = record w { panel = p }
press (some ask, p) w = record w { panel = p; sent = ask ∷ w.sent; pending = ask ∷ w.pending }

abbrev pub answer : Traced → List (String × String) → Watched → Watched
answer t [] w = w
answer t (ask ∷ rest) w = record w { panel = finish_trace t w.panel; pending = rest }

unfoldable pub watch : TraceEvent → Watched → Watched
unfolding trace_loaded trace_disabled
watch (loads d) w = record w { panel = trace_loaded d w.panel }
watch (selects_user u) w = record w { panel = record w.panel { selected_user = u } }
watch (selects_resource r) w = record w { panel = record w.panel { selected_resource = r } }
watch presses w = if trace_disabled w.panel then w else press (start_trace w.panel) w
watch (answers t) w = answer t w.pending w

abbrev pub watches : List TraceEvent → Watched → Watched
watches [] w = w
watches (e ∷ es) w = watches es (watch e w)

-- What the panel shows, with the requests that are not answered.
pub data Shows : Bool → Option AccessTrace → Option String → List (String × String) → Type 0 where
  nothing : Shows false none none []
  waiting : (ask : String × String) → Shows true none none (ask ∷ [])
  found : (t : AccessTrace) → Shows false (some t) none []
  failed : (message : String) → Shows false none (some message) []

abbrev pub IsCoherent : Watched → Type 0
IsCoherent w = Shows w.panel.tracing w.panel.result w.panel.error w.pending

waiting_one :
    {tracing : Bool} {r : Option AccessTrace} {e : Option String} {ask : String × String}
    {rest : List (String × String)}
    → Shows tracing r e (ask ∷ rest)
    → (r ≡ none) × (e ≡ none) × (rest ≡ [])
waiting_one (waiting ask) = (refl, refl, refl)

idle_none :
    {tracing : Bool} {r : Option AccessTrace} {e : Option String} {asks : List (String × String)}
    → Shows tracing r e asks
    → tracing ≡ false
    → asks ≡ []
idle_none nothing h = refl
idle_none (waiting ask) h = cc
idle_none (found t) h = refl
idle_none (failed m) h = refl

answer-IsCoherent :
    (t : Traced) (p : TraceState) (sent asks : List (String × String))
    → IsCoherent (record { panel = p; sent = sent; pending = asks })
    → IsCoherent (answer t asks (record { panel = p; sent = sent; pending = asks }))
unfolding finish_trace
answer-IsCoherent t p sent [] h = h
answer-IsCoherent (traced t) p sent (ask ∷ rest) h =
    let (r, e, o) = waiting_one h in rw (e, o) (found t)
answer-IsCoherent (threw cause) p sent (ask ∷ rest) h =
    let (r, e, o) = waiting_one h in rw (r, o) (failed (trace_message cause))

press-IsCoherent :
    (w : Watched)
    → IsCoherent w
    → trace_disabled w.panel ≡ false
    → IsCoherent (press (start_trace w.panel) w)
unfolding start_trace trace_disabled
press-IsCoherent w h k =
    elim (Bool-cases (is_blank w.panel.selected_user || is_blank w.panel.selected_resource)) [
      | inl b ↦ rw b h
      | inr b ↦
          rw (b, idle_none h (ground arith))
            (waiting (w.panel.selected_user, w.panel.selected_resource))
    ]

watch-IsCoherent : (e : TraceEvent) (w : Watched) → IsCoherent w → IsCoherent (watch e w)
unfolding watch trace_loaded
watch-IsCoherent (loads none) w h = h
watch-IsCoherent (loads (some (u, r))) w h = h
watch-IsCoherent (selects_user u) w h = h
watch-IsCoherent (selects_resource r) w h = h
watch-IsCoherent presses w h = elim (Bool-cases (trace_disabled w.panel)) [
  | inl k ↦ rw k h
  | inr k ↦ rw k (press-IsCoherent w h k)
]
watch-IsCoherent (answers t) w h = answer-IsCoherent t w.panel w.sent w.pending h

abbrev pub watched_first : Watched
unfolding trace_mounted
watched_first = record { panel = trace_mounted; sent = []; pending = [] }

watches-Coherent : (es : List TraceEvent) (w : Watched) → IsCoherent w → IsCoherent (watches es w)
watches-Coherent [] w h = h
watches-Coherent (e ∷ es) w h = watches-Coherent es (watch e w) (watch-IsCoherent e w h)

-- Whatever happens after the panel is mounted, while it says that it traces exactly one request is
-- open and neither a result nor an error is shown; otherwise none is open, and a result and an error
-- are never shown together.
pub watches-IsCoherent : (es : List TraceEvent) → IsCoherent (watches es watched_first)
unfolding trace_mounted
watches-IsCoherent es = watches-Coherent es watched_first nothing

-- The button is enabled just where a press of it asks for a trace of the chosen user and resource
-- and no other trace is under way.
pub trace_disabled_lem :
    (s : TraceState)
    → (if trace_disabled s then none else some (s.selected_user, s.selected_resource))
      ≡ (if s.tracing then none else (start_trace s).0)
unfolding trace_disabled start_trace
trace_disabled_lem s = ground arith
