-- ===== src/ConnectorPage/Beating.antt =====
-- frontend/src/pages/connectors/ConnectorDetailPage.tsx: what the page sends, whatever happens to it.
use group_management_ui_back.Prelude.{
  ℕ, String, ◌≡◌, refl, arith, Bool, true, false, ◌||◌, not, Bool-cases, inl, inr, Option, none,
  some, List, [], ◌∷◌, length, filter, All, if◌then◌else◌, is_blank,
}
use group_management_ui_back.ConnectorPage.{
  Page, Request, automatic_heartbeat, Details, first_state, start_load, finish_load, start_token,
  finish_token, token_effect, load_effect, heartbeat_effect, is_polling, tick, start_heartbeat,
  finish_automatic, finish_manual, handle_revoke, copy, handle_copy_command, install_command,
  is_installed, seen_online, given,
}

-- What happens to the page: the ends of what it sent, the inputs, the buttons and the interval.
pub data Event : Type 0 where
  loads : Bool → Option Details → Event
  token_comes : Option String → Event
  retries : Event
  automatic_ends manual_ends : Bool → Event
  ticks presses_heartbeat revokes copies : Event
  types_addr types_http_addr types_key : String → Event

module _ (connector_id : Option String) where
  unfoldable pub handle : Event → Page → Page
  handle (loads silent details) s = finish_load silent details s
  handle (token_comes token) s = finish_token token s
  handle retries s = start_token s
  handle (automatic_ends ok) s = finish_automatic ok s
  handle (manual_ends ok) s = finish_manual ok s
  handle ticks s = tick connector_id s
  handle presses_heartbeat s = start_heartbeat connector_id s
  handle revokes s = handle_revoke s
  handle copies s = handle_copy_command connector_id s
  handle (types_addr t) s = record s { controller_addr = t }
  handle (types_http_addr t) s = record s { controller_http_addr = t }
  handle (types_key t) s = record s { policy_signing_key = t }

  -- The page is rendered after what happens, and then its effects run.
  abbrev pub lives : List Event → Page → Page
  lives [] s = s
  lives (e ∷ es) s = lives es (heartbeat_effect connector_id (handle e s))

  -- The effects of the first render, in their order.
  unfoldable pub mount : Page → Page
  mount s = heartbeat_effect connector_id (token_effect (load_effect connector_id s))

abbrev pub is_automatic : Request → Bool
is_automatic (automatic_heartbeat token) = true
is_automatic _ = false

-- A heartbeat that the page sends of its own accord carries a token.
abbrev pub IsTokened : Request → Type 0
IsTokened (automatic_heartbeat token) = is_blank token ≡ false
IsTokened _ = Unit

abbrev pub automatics : List Request → ℕ
automatics rs = length (filter is_automatic rs)

-- The page knows whether it sent its own heartbeat, sent at most one, and sent it with a token.
abbrev pub Once : Bool → List Request → Type 0
Once sent rs = (automatics rs ≡ (if sent then 1 else 0)) × All IsTokened rs

abbrev pub IsOnce : Page → Type 0
IsOnce s = Once s.auto_heartbeat_sent s.requests

finish_load-IsOnce :
    (silent : Bool) (d : Option Details) (s : Page) → IsOnce s → IsOnce (finish_load silent d s)
unfolding finish_load
finish_load-IsOnce silent none s h = h
finish_load-IsOnce silent (some d) s h = h

finish_token-IsOnce : (t : Option String) (s : Page) → IsOnce s → IsOnce (finish_token t s)
unfolding finish_token
finish_token-IsOnce none s h = h
finish_token-IsOnce (some t) s h = h

finish_automatic-IsOnce : (ok : Bool) (s : Page) → IsOnce s → IsOnce (finish_automatic ok s)
unfolding finish_automatic start_load
finish_automatic-IsOnce true s (h, k) = (h, (tt, k))
finish_automatic-IsOnce false s h = h

finish_manual-IsOnce : (ok : Bool) (s : Page) → IsOnce s → IsOnce (finish_manual ok s)
unfolding finish_manual start_load
finish_manual-IsOnce true s (h, k) = (h, (tt, k))
finish_manual-IsOnce false s h = h

module _ (connector_id : Option String) where
  tick-IsOnce : (s : Page) → IsOnce s → IsOnce (tick connector_id s)
  unfolding tick start_load
  tick-IsOnce s (h, k) = elim (Bool-cases (is_polling connector_id s)) [
    | inl e ↦ rw e (h, (tt, k))
    | inr e ↦ rw e (h, k)
  ]

  start_heartbeat-IsOnce : (s : Page) → IsOnce s → IsOnce (start_heartbeat connector_id s)
  unfolding start_heartbeat
  start_heartbeat-IsOnce s (h, k) = elim (Bool-cases (is_blank (given connector_id))) [
    | inl e ↦ rw e (h, k)
    | inr e ↦ rw e (h, (tt, k))
  ]

  copy-IsOnce : (c : Option String) (s : Page) → IsOnce s → IsOnce (copy connector_id c s)
  copy-IsOnce none s h = h
  copy-IsOnce (some c) s h = h

  handle-IsOnce : (e : Event) (s : Page) → IsOnce s → IsOnce (handle connector_id e s)
  unfolding handle start_token handle_revoke handle_copy_command
  handle-IsOnce (loads silent d) s h = finish_load-IsOnce silent d s h
  handle-IsOnce (token_comes t) s h = finish_token-IsOnce t s h
  handle-IsOnce retries s (h, k) = (h, (tt, k))
  handle-IsOnce (automatic_ends ok) s h = finish_automatic-IsOnce ok s h
  handle-IsOnce (manual_ends ok) s h = finish_manual-IsOnce ok s h
  handle-IsOnce ticks s h = tick-IsOnce s h
  handle-IsOnce presses_heartbeat s h = start_heartbeat-IsOnce s h
  handle-IsOnce revokes s h = h
  handle-IsOnce copies s h = copy-IsOnce (install_command connector_id s) s h
  handle-IsOnce (types_addr t) s h = h
  handle-IsOnce (types_http_addr t) s h = h
  handle-IsOnce (types_key t) s h = h

  heartbeat_effect-IsOnce : (s : Page) → IsOnce s → IsOnce (heartbeat_effect connector_id s)
  unfolding heartbeat_effect
  heartbeat_effect-IsOnce s (h, k) =
      elim (Bool-cases (is_blank (given connector_id) || not (is_installed s.connector))) [
        | inl e ↦ rw e (h, k)
        | inr e ↦ elim (Bool-cases (seen_online s.connector)) [
          | inl f ↦ rw (e, f) (h, k)
          | inr f ↦ elim (Bool-cases (is_blank s.enrollment_token || s.auto_heartbeat_sent)) [
            | inl g ↦ rw (e, f, g) (h, k)
            | inr g ↦ rw (e, f, g) (ground arith, (ground arith, k))
          ]
        ]
      ]

  lives-Once : (es : List Event) (s : Page) → IsOnce s → IsOnce (lives connector_id es s)
  lives-Once [] s h = h
  lives-Once (e ∷ es) s h =
      lives-Once es (heartbeat_effect connector_id (handle connector_id e s))
        (heartbeat_effect-IsOnce (handle connector_id e s) (handle-IsOnce e s h))

  load_effect-IsOnce : (s : Page) → IsOnce s → IsOnce (load_effect connector_id s)
  unfolding load_effect start_load
  load_effect-IsOnce s (h, k) = elim (Bool-cases (is_blank (given connector_id))) [
    | inl e ↦ rw e (h, k)
    | inr e ↦ rw e (h, (tt, k))
  ]

  token_effect-IsOnce : (s : Page) → IsOnce s → IsOnce (token_effect s)
  unfolding token_effect start_token
  token_effect-IsOnce s (h, k) = elim (Bool-cases s.did_fetch_token) [
    | inl e ↦ rw e (h, k)
    | inr e ↦ rw e (h, (tt, k))
  ]

-- From its first render on, whatever the user does and the server answers, the page sends at most
-- one heartbeat of its own accord, knows whether it did, and sends it only with an enrollment token.
pub lives-IsOnce :
    (connector_id : Option String) (hostname : String) (es : List Event)
    → IsOnce (lives connector_id es (mount connector_id (first_state hostname)))
unfolding mount first_state
lives-IsOnce id hostname es = lives-Once id es (mount id (first_state hostname)) (
    heartbeat_effect-IsOnce id (token_effect (load_effect id (first_state hostname))) (
      token_effect-IsOnce id (load_effect id (first_state hostname))
        (load_effect-IsOnce id (first_state hostname) (refl, tt))))
