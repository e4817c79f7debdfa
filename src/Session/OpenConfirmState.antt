-- ===== src/Session/OpenConfirmState.antt =====
-- The arms of `run` in src/session.rs for the OpenConfirm state.
use amnesia_bgp.Base.{Bool, none, some, ltb, if◌then◌else◌, false}
use amnesia_bgp.Error.{Error, ErrorCode, cease, hold_timer_expired, finite_state_machine_error}
use amnesia_bgp.Extern.{Extern}
use amnesia_bgp.Message.Types.{OpenMsg, keepalive_msg, notification_msg, from_error}
use amnesia_bgp.Connection.{BgpConn, new_conn}
use amnesia_bgp.Fsm.Types.{
  Fsm, OpenConfirm, State, Event, idle, open_confirm, established, Timer, restart,
}
use amnesia_bgp.Fsm.Runtime.{
  M, pure, ◌>>=◌, ◌>>◌, unwrap, panic, emit, log_error, send_timer, send_out, new_channel, spawn,
  spawn_process, spawn_process_one,
}
use amnesia_bgp.Fsm.Convert.{open_confirm_to_idle, open_confirm_to_established}
use amnesia_bgp.Session.Common.{
  Source, set_connect_retry_counter, stop_connect_retry, count_retry, plain_notification,
}
use amnesia_bgp.Session.OpenSentState.{bool_ne}

module _ {X : Extern} where
  unfoldable pub manual_stop : Fsm (OpenConfirm X) → M X (State X)
  unfolding open_confirm_to_idle
  manual_stop s = do
    tx ← unwrap s.state.bgp_out_tx
    send_out tx (plain_notification cease)
    s₁ ← stop_connect_retry s
    fsm ← open_confirm_to_idle (set_connect_retry_counter 0 s₁)
    pure (idle fsm)

  -- The arms that notify the peer, count a retry and go to Idle.
  notify_and_count : ErrorCode → Fsm (OpenConfirm X) → M X (State X)
  unfolding open_confirm_to_idle
  notify_and_count code s = do
    tx ← unwrap s.state.bgp_out_tx
    send_out tx (plain_notification code)
    s₁ ← stop_connect_retry s
    s₂ ← count_retry s₁
    fsm ← open_confirm_to_idle s₂
    pure (idle fsm)

  unfoldable pub automatic_stop : Fsm (OpenConfirm X) → M X (State X)
  unfolding notify_and_count
  automatic_stop = notify_and_count cease

  unfoldable pub hold_timer_expires : Fsm (OpenConfirm X) → M X (State X)
  unfolding notify_and_count
  hold_timer_expires = notify_and_count hold_timer_expired

  unfoldable pub keepalive_timer_expires : Fsm (OpenConfirm X) → M X (State X)
  keepalive_timer_expires s = do
    tx ← unwrap s.state.bgp_out_tx
    send_out tx keepalive_msg
    send_timer (Timer.keepalive restart)
    pure (open_confirm s)

  unfoldable pub tcp_cr_acked : X.TcpStream → Fsm (OpenConfirm X) → M X (State X)
  unfolding new_conn
  tcp_cr_acked stream s = do
    h ← spawn (λ h. spawn_process_one h (new_conn stream) false)
    pure (open_confirm s)

  -- `TcpConnectionConfirmed` and `ProcessOneDone`
  unfoldable pub keep_collision_conn : BgpConn X → Fsm (OpenConfirm X) → M X (State X)
  keep_collision_conn conn s =
      pure (open_confirm (record s { state = record (s.state) { collision_conn = some conn } }))

  unfoldable pub tcp_connection_fails : Fsm (OpenConfirm X) → M X (State X)
  unfolding open_confirm_to_idle
  tcp_connection_fails s = do
    s₁ ← stop_connect_retry s
    s₂ ← count_retry s₁
    fsm ← open_confirm_to_idle s₂
    pure (idle fsm)

  unfoldable pub notify_msg_ver_err : Fsm (OpenConfirm X) → M X (State X)
  unfolding open_confirm_to_idle
  notify_msg_ver_err s = do
    s₁ ← stop_connect_retry s
    fsm ← open_confirm_to_idle s₁
    pure (idle fsm)

  -- An OPEN from the same direction is a panic. `Option::replace` drops the old task's handle.
  unfoldable pub bgp_open : OpenMsg → Bool → Fsm (OpenConfirm X) → M X (State X)
  bgp_open msg remote_syn s =
      if bool_ne s.state.remote_syn remote_syn
      then (do
        l ← unwrap s.state.local_open
        if ltb l.bgp_identifier msg.bgp_identifier
            then (do
              c ← new_channel
              bgp_conn ← unwrap s.state.collision_conn
              h ← spawn (λ h. spawn_process h bgp_conn c remote_syn)
              pure (
                  open_confirm (record s {
                    state = record (s.state) {
                      collision_conn = none;
                      bgp_conn_handle = some h;
                      bgp_out_tx = some c;
                    };
                  })))
            else pure
                (open_confirm (record s { state = record (s.state) { collision_conn = none } })))
      else (emit log_error >> panic)

  -- `BGPHeaderErr` and `BGPOpenMsgErr` on the session's own connection
  unfoldable pub bgp_msg_err : Error → Fsm (OpenConfirm X) → M X (State X)
  unfolding open_confirm_to_idle from_error
  bgp_msg_err err s = do
    tx ← unwrap s.state.bgp_out_tx
    send_out tx (notification_msg (from_error err))
    s₁ ← stop_connect_retry s
    s₂ ← count_retry s₁
    fsm ← open_confirm_to_idle s₂
    pure (idle fsm)

  unfoldable pub on_keepalive_msg : Fsm (OpenConfirm X) → M X (State X)
  unfolding open_confirm_to_established
  on_keepalive_msg s = do
    send_timer (Timer.hold restart)
    pure (established (open_confirm_to_established s))

  unfoldable pub otherwise : Fsm (OpenConfirm X) → M X (State X)
  unfolding notify_and_count
  otherwise = notify_and_count finite_state_machine_error

  unfoldable pub on_event : Event X → Source → Fsm (OpenConfirm X) → M X (State X)
  unfolding manual_stop automatic_stop hold_timer_expires keepalive_timer_expires tcp_cr_acked
      keep_collision_conn tcp_connection_fails notify_msg_ver_err bgp_open bgp_msg_err
      on_keepalive_msg otherwise
  on_event Event.manual_start src s = pure (open_confirm s)
  on_event Event.automatic_start src s = pure (open_confirm s)
  on_event Event.manual_start_with_passive_tcp_establishment src s = pure (open_confirm s)
  on_event Event.automatic_start_with_passive_tcp_establishment src s = pure (open_confirm s)
  on_event Event.automatic_start_with_damp_peer_oscillations src s = pure (open_confirm s)
  on_event Event.automatic_start_with_damp_peer_oscillations_and_passive_tcp_establishment src s =
      pure (open_confirm s)
  on_event Event.manual_stop src s = manual_stop s
  on_event Event.automatic_stop src s = automatic_stop s
  on_event Event.hold_timer_expires src s = hold_timer_expires s
  on_event Event.keepalive_timer_expires src s = keepalive_timer_expires s
  on_event Event.tcp_connection_valid src s = pure (open_confirm s)
  on_event (Event.tcp_cr_acked stream) src s = tcp_cr_acked stream s
  on_event (Event.tcp_connection_confirmed conn) src s = keep_collision_conn conn s
  on_event (Event.process_one_done conn) src s = keep_collision_conn conn s
  on_event Event.tcp_cr_invalid src s = pure (open_confirm s)
  on_event (Event.tcp_connection_fails err) src s = tcp_connection_fails s
  on_event (Event.notify_msg_ver_err err) src s = notify_msg_ver_err s
  on_event (Event.bgp_open msg remote_syn) src s = bgp_open msg remote_syn s
  on_event (Event.bgp_header_err err) Source.bgp s = bgp_msg_err err s
  on_event (Event.bgp_open_msg_err err) Source.bgp s = bgp_msg_err err s
  on_event (Event.bgp_header_err err) src s = pure (open_confirm s)
  on_event (Event.bgp_open_msg_err err) src s = pure (open_confirm s)
  on_event Event.open_collision_dump src s = pure (open_confirm s)
  on_event Event.keepalive_msg src s = on_keepalive_msg s
  on_event e src s = otherwise s
