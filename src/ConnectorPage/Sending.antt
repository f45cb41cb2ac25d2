-- ===== src/ConnectorPage/Sending.antt =====
-- frontend/src/pages/connectors/ConnectorDetailPage.tsx: the heartbeat of its own accord is sent as soon
-- as it can be.
use group_management_ui_back.Prelude.{
  String, ◌≡◌, ◌∙◌, ap, arith, Bool, true, false, ◌&&◌, not, Option, List, [], ◌∷◌, if◌then◌else◌,
  is_blank,
}
use group_management_ui_back.ConnectorPage.{
  Page, first_state, heartbeat_effect, load_effect, token_effect, is_installed, seen_online, given,
}
use group_management_ui_back.ConnectorPage.Beating.{
  Event, handle, lives, mount, automatics, lives-IsOnce,
}

module _ (connector_id : Option String) where
  -- All that a heartbeat needs is there, and none was sent.
  unfoldable is_due : Page → Bool
  is_due s =
      not (is_blank (given connector_id))
      && is_installed s.connector
      && not (seen_online s.connector)
      && not (is_blank s.enrollment_token)
      && not s.auto_heartbeat_sent

  effect_settles : (s : Page) → is_due (heartbeat_effect connector_id s) ≡ false
  unfolding is_due heartbeat_effect
  effect_settles s = ground arith

  lives_settle :
      (es : List Event) (s : Page) → is_due s ≡ false → is_due (lives connector_id es s) ≡ false
  lives_settle [] s h = h
  lives_settle (e ∷ es) s h =
      lives_settle es (heartbeat_effect connector_id (handle connector_id e s))
        (effect_settles (handle connector_id e s))

  settled_sent :
      (s : Page)
      → is_due s ≡ false
      → is_blank (given connector_id) ≡ false
      → is_installed s.connector ≡ true
      → seen_online s.connector ≡ false
      → is_blank s.enrollment_token ≡ false
      → s.auto_heartbeat_sent ≡ true
  unfolding is_due
  settled_sent s d i c o t = ground arith

-- Whatever happened since its first render, a page that has an identifier, an enrollment token and an
-- installed connector that is not online has sent exactly one heartbeat of its own accord.
pub lives-automatics :
    (connector_id : Option String) (hostname : String) (es : List Event)
    → is_blank (given connector_id) ≡ false
    → is_installed (lives connector_id es (mount connector_id (first_state hostname))).connector
      ≡ true
    → seen_online (lives connector_id es (mount connector_id (first_state hostname))).connector
      ≡ false
    → is_blank (lives connector_id es (mount connector_id (first_state hostname))).enrollment_token
      ≡ false
    → automatics (lives connector_id es (mount connector_id (first_state hostname))).requests ≡ 1
unfolding mount
lives-automatics id hostname es i c o t =
    let first = token_effect (load_effect id (first_state hostname)) in
    let last = lives id es (mount id (first_state hostname)) in
    let sent =
      settled_sent id last
        (lives_settle id es (mount id (first_state hostname)) (effect_settles id first)) i c o t in
    (lives-IsOnce id hostname es).0 ∙ ap (λ b. if b then 1 else 0) sent
