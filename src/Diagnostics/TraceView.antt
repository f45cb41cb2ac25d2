-- ===== src/Diagnostics/TraceView.antt =====
-- frontend/components/dashboard/diagnostics/access-trace-panel.tsx: what the panel shows of a trace,
-- and of the errors of the client (frontend/lib/mock-api.ts).
use group_management_ui_back.Prelude.{
  ℕ, suc, String, ◌≡◌, ◌+◌, ◌-◌, refl, arith, Bool, Bool-cases, inl, inr, Option, none, some, List,
  [], ◌∷◌, map, filter, length, if◌then◌else◌, ltb, is_blank, eq_of_is_blank,
}
use group_management_ui_back.Diagnostics.Trace.{TraceState, finish_trace, threw, hop_label}
use group_management_ui_back.Types.{AccessTrace, TraceHop}
use group_management_ui_back.Api.{fails, Fetch}
use group_management_ui_back.Json.{str, obj, field, end}
use group_management_ui_back.Api.Outcomes.{request_message}
use group_management_ui_back.Api.Calls.{trace_access}
use group_management_ui_back.Diagnostics.{filled}

-- A hop, and whether an arrow follows it: `idx < result.path.length - 1`.
abbrev pub hops_from : ℕ → ℕ → List TraceHop → List (TraceHop × Bool)
hops_from count idx [] = []
hops_from count idx (h ∷ hs) = (h, ltb (suc idx) count) ∷ hops_from count (suc idx) hs

unfoldable pub hops : List TraceHop → List (TraceHop × Bool)
hops path = hops_from (length path) 0 path

-- A card of a hop: its label, its name, its status and whether it is healthy.
pub record HopCard : Type 0 where
  pub label : String
  pub name : String
  pub status : String
  pub healthy : Bool

unfoldable pub hop_card : TraceHop → HopCard
hop_card h = record {
  label = hop_label h.kind;
  name = h.name;
  status = h.status;
  healthy = h.healthy;
}

pub record Outcome : Type 0 where
  pub verdict : String
  pub reason : String
  pub cards : List (HopCard × Bool)
  pub groups : List String
  pub rules : List (String × Bool)

unfoldable pub outcome : AccessTrace → Outcome
unfolding hops hop_card
outcome t = record {
  verdict = if t.allowed then "ACCESS ALLOWED" else "ACCESS DENIED";
  reason = t.reason;
  cards = map (λ h. (hop_card h.0, h.1)) (hops t.path);
  groups = map (λ g. g.name) t.user_groups;
  rules = map (λ r. (r.name, r.enabled)) t.matched_rules;
}

abbrev outcome_of : Option AccessTrace → Option Outcome
unfolding outcome
outcome_of none = none
outcome_of (some t) = some (outcome t)

-- The box of an error, which is not shown where its text is empty, and the outcome
unfoldable pub trace_view : TraceState → Option String × Option Outcome
unfolding outcome_of
trace_view s = (filled s.error, outcome_of s.result)

arrows_from :
    (n : ℕ) (idx : ℕ) (hs : List TraceHop)
    → n ≡ idx + length hs
    → length (filter (λ h. h.1) (hops_from n idx hs)) ≡ length hs - 1
arrows_from n idx [] e = refl
arrows_from n idx (h ∷ []) e = ground arith
arrows_from n idx (h ∷ g ∷ hs) e = ground (arith, arrows_from n (suc idx) (g ∷ hs))

-- The cards of a path are joined by one arrow less than there are cards.
pub length-hops : (path : List TraceHop) → length (filter (λ h. h.1) (hops path)) ≡ length path - 1
unfolding hops
length-hops path = arrows_from (length path) 0 path (ground arith)

-- Whatever the server does, an error that the client throws is shown in the panel.
pub trace_error_shown :
    (base : String) (fetch : Fetch) (user resource message : String) (s : TraceState)
    → trace_access base fetch user resource ≡ fails message
    → (trace_view (finish_trace (threw (some message)) s)).0 ≡ some message
unfolding trace_view finish_trace trace_access
trace_error_shown base fetch user resource message s h = elim (Bool-cases (is_blank message)) [
  | inl e ↦ absurd (
      request_message base fetch "/api/diagnostics/trace"
        (record {
          method = some "POST";
          headers = none;
          body = some (obj (field "userId" (str user) (field "resourceId" (str resource) end)));
        })
        message h (eq_of_is_blank message e))
  | inr e ↦ rw e refl
]
