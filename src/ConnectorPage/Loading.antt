-- ===== src/ConnectorPage/Loading.antt =====
-- frontend/src/pages/connectors/ConnectorDetailPage.tsx: what the page shows while it polls.
use group_management_ui_back.Prelude.{
  String, ◌≡◌, refl, arith, Bool, false, Option, none, some, List, [], ◌∷◌,
}
use group_management_ui_back.ConnectorPage.{
  Page, Details, start_load, finish_load, start_token, finish_token, heartbeat_effect, tick,
  start_heartbeat, finish_automatic, finish_manual, handle_revoke, handle_copy_command, copy,
  install_command, view, shown_connector,
}
use group_management_ui_back.ConnectorPage.Beating.{Event, handle, lives}

abbrev IsLoaded : Page → Type 0
IsLoaded s = s.loading ≡ false

finish_load-IsLoaded :
    (silent : Bool) (d : Option Details) (s : Page) → IsLoaded s → IsLoaded (finish_load silent d s)
unfolding finish_load
finish_load-IsLoaded silent none s h = rw h refl
finish_load-IsLoaded silent (some d) s h = rw h refl

finish_token-IsLoaded : (t : Option String) (s : Page) → IsLoaded s → IsLoaded (finish_token t s)
unfolding finish_token
finish_token-IsLoaded none s h = h
finish_token-IsLoaded (some t) s h = h

module _ (connector_id : Option String) where
  copy-IsLoaded : (c : Option String) (s : Page) → IsLoaded s → IsLoaded (copy connector_id c s)
  copy-IsLoaded none s h = h
  copy-IsLoaded (some c) s h = h

  handle-IsLoaded : (e : Event) (s : Page) → IsLoaded s → IsLoaded (handle connector_id e s)
  unfolding handle start_load start_token handle_revoke handle_copy_command tick start_heartbeat
      finish_automatic finish_manual
  handle-IsLoaded (Event.loads silent d) s h = finish_load-IsLoaded silent d s h
  handle-IsLoaded (Event.token_comes t) s h = finish_token-IsLoaded t s h
  handle-IsLoaded Event.retries s h = h
  handle-IsLoaded (Event.automatic_ends ok) s h = ground arith
  handle-IsLoaded (Event.manual_ends ok) s h = ground arith
  handle-IsLoaded Event.ticks s h = ground arith
  handle-IsLoaded Event.presses_heartbeat s h = ground arith
  handle-IsLoaded Event.revokes s h = h
  handle-IsLoaded Event.copies s h = copy-IsLoaded (install_command connector_id s) s h
  handle-IsLoaded (Event.types_addr t) s h = h
  handle-IsLoaded (Event.types_http_addr t) s h = h
  handle-IsLoaded (Event.types_key t) s h = h

  effect-IsLoaded : (s : Page) → IsLoaded s → IsLoaded (heartbeat_effect connector_id s)
  unfolding heartbeat_effect
  effect-IsLoaded s h = ground arith

  lives-IsLoaded : (es : List Event) (s : Page) → IsLoaded s → IsLoaded (lives connector_id es s)
  lives-IsLoaded [] s h = h
  lives-IsLoaded (e ∷ es) s h =
      lives-IsLoaded es (heartbeat_effect connector_id (handle connector_id e s))
        (effect-IsLoaded (handle connector_id e s) (handle-IsLoaded e s h))

-- Once the first load has ended, polls and heartbeats never bring the spinner back: the page shows
-- the last connector that it was told of, or that there is none.
pub lives-view :
    (connector_id : Option String) (es : List Event) (s : Page)
    → s.loading ≡ false
    → view (lives connector_id es s) ≡ shown_connector (lives connector_id es s).connector
unfolding view
lives-view id es s h = rw (lives-IsLoaded id es s h) refl
