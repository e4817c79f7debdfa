-- ===== src/Session/EstablishedState.antt =====
-- The arms of `run` in src/session.rs for the Established state.
use amnesia_bgp.Base.{Bool, none, some, false, ltb, not, ◌==◌, if◌then◌else◌}
use amnesia_bgp.Error.{Error, ErrorCode, cease, hold_timer_expired, finite_state_machine_error}
use amnesia_bgp.Extern.{Extern}
use amnesia_bgp.Message.Types.{OpenMsg, keepalive_msg, notification_msg, from_error}
use amnesia_bgp.Connection.{BgpConn, new_conn}
use amnesia_bgp.Fsm.Types.{
  Fsm, Established, State, Event, idle, established, Timer, restart, far_future,
}
use amnesia_bgp.Fsm.Runtime.{
  M, pure, ◌>>=◌, ◌>>◌, unwrap, panic, emit, log_error, send_timer, send_out, new_channel, spawn,
  spawn_process, spawn_process_one,
}
use amnesia_bgp.Fsm.Convert.{established_to_idle}
use amnesia_bgp.Session.Common.{
  Source, set_connect_retry_counter, stop_connect_retry, count_retry, plain_notification,
}
use amnesia_bgp.Session.OpenSentState.{bool_ne}

module _ {X : Extern} where
  unfoldable pub manual_stop : Fsm (Established X) → M X (State X)
  unfolding established_to_idle
  manual_stop s = do
    tx ← unwrap s.state.bgp_out_tx
    send_out tx (plain_notification cease)
    s₁ ← stop_connect_retry s
    fsm ← established_to_idle (set_connect_retry_counter 0 s₁)
    pure (idle fsm)

  -- The arms that notify the peer, count a retry and go to Idle.
  notify_and_count : ErrorCode → Fsm (Established X) → M X (State X)
  unfolding established_to_idle
  notify_and_count code s = do
    tx ← unwrap s.state.bgp_out_tx
    send_out tx (plain_notification code)
    s₁ ← stop_connect_retry s
    s₂ ← count_retry s₁
    fsm ← established_to_idle s₂
    pure (idle fsm)

  unfoldable pub automatic_stop : Fsm (Established X) → M X (State X)
  unfolding notify_and_count
  automatic_stop = notify_and_count cease

  unfoldable pub hold_timer_expires : Fsm (Established X) → M X (State X)
  unfolding notify_and_count
  hold_timer_expires = notify_and_count hold_timer_expired

  unfoldable pub keepalive_timer_expires : Fsm (Established X) → M X (State X)
  keepalive_timer_expires s = do
    tx ← unwrap s.state.bgp_out_tx
    send_out tx keepalive_msg
    if not (s.attr.hold_time == far_future) then send_timer (Timer.keepalive restart) else pure tt
    pure (established s)

  unfoldable pub tcp_cr_acked : X.TcpStream → Fsm (Established X) → M X (State X)
  unfolding new_conn
  tcp_cr_acked stream s = do
    h ← spawn (λ h. spawn_process_one h (new_conn stream) false)
    pure (established s)

  -- `TcpConnectionConfirmed` and `ProcessOneDone`
  unfoldable pub keep_collision_conn : BgpConn X → Fsm (Established X) → M X (State X)
  keep_collision_conn conn s =
      pure (established (record s { state = record (s.state) { collision_conn = some conn } }))

  -- The colliding connection takes the place of the current one.
  replace_connection : Bool → Fsm (Established X) → M X (State X)
  replace_connection remote_syn s = do
    tx ← unwrap s.state.bgp_out_tx
    send_out tx (plain_notification cease)
    c ← new_channel
    bgp_conn ← unwrap s.state.collision_conn
    h ← spawn (λ h. spawn_process h bgp_conn c remote_syn)
    pure (
        established (record s {
          state = record (s.state) {
            collision_conn = none;
            bgp_conn_handle = some h;
            bgp_out_tx = some c;
          };
        }))

  -- An OPEN from the same direction is a panic.
  unfoldable pub bgp_open : OpenMsg → Bool → Fsm (Established X) → M X (State X)
  unfolding replace_connection
  bgp_open msg remote_syn s =
      let drop = record s { state = record (s.state) { collision_conn = none } } in
      if bool_ne s.state.remote_syn remote_syn
      then (if s.attr.collision_detect_established_state
          then (do
            l ← unwrap s.state.local_open
            if ltb l.bgp_identifier msg.bgp_identifier
                then replace_connection remote_syn s
                else pure (established drop))
          else pure (established drop))
      else (emit log_error >> panic)

  -- `NotifyMsgVerErr`, `NotifyMsg` and `TcpConnectionFails`
  unfoldable pub connection_lost : Fsm (Established X) → M X (State X)
  unfolding established_to_idle
  connection_lost s = do
    s₁ ← stop_connect_retry s
    s₂ ← count_retry s₁
    fsm ← established_to_idle s₂
    pure (idle fsm)

  -- `KeepaliveMsg`, and `UpdateMsg`, which is not processed any further
  unfoldable pub restart_hold_timer : Fsm (Established X) → M X (State X)
  restart_hold_timer s = do send_timer (Timer.hold restart); pure (established s)

  unfoldable pub update_msg_err : Error → Fsm (Established X) → M X (State X)
  unfolding established_to_idle from_error
  update_msg_err err s = do
    tx ← unwrap s.state.bgp_out_tx
    send_out tx (notification_msg (from_error err))
    s₁ ← stop_connect_retry s
    s₂ ← count_retry s₁
    fsm ← established_to_idle s₂
    pure (idle fsm)

  unfoldable pub otherwise : Fsm (Established X) → M X (State X)
  unfolding notify_and_count
  otherwise = notify_and_count finite_state_machine_error

  unfoldable pub on_event : Event X → Source → Fsm (Established X) → M X (State X)
  unfolding manual_stop automatic_stop hold_timer_expires keepalive_timer_expires tcp_cr_acked
      keep_collision_conn bgp_open connection_lost restart_hold_timer update_msg_err otherwise
  on_event Event.manual_start src s = pure (established s)
  on_event Event.automatic_start src s = pure (established s)
  on_event Event.manual_start_with_passive_tcp_establishment src s = pure (established s)
  on_event Event.automatic_start_with_passive_tcp_establishment src s = pure (established s)
  on_event Event.automatic_start_with_damp_peer_oscillations src s = pure (established s)
  on_event Event.automatic_start_with_damp_peer_oscillations_and_passive_tcp_establishment src s =
      pure (established s)
  on_event Event.manual_stop src s = manual_stop s
  on_event Event.automatic_stop src s = automatic_stop s
  on_event Event.hold_timer_expires src s = hold_timer_expires s
  on_event Event.keepalive_timer_expires src s = keepalive_timer_expires s
  on_event Event.tcp_connection_valid src s = pure (established s)
  on_event Event.tcp_cr_invalid src s = pure (established s)
  on_event (Event.tcp_cr_acked stream) src s = tcp_cr_acked stream s
  on_event (Event.tcp_connection_confirmed conn) src s = keep_collision_conn conn s
  on_event (Event.process_one_done conn) src s = keep_collision_conn conn s
  on_event (Event.bgp_open msg remote_syn) src s = bgp_open msg remote_syn s
  on_event (Event.notify_msg_ver_err err) src s = connection_lost s
  on_event (Event.notify_msg err) src s = connection_lost s
  on_event (Event.tcp_connection_fails err) src s = connection_lost s
  on_event Event.keepalive_msg src s = restart_hold_timer s
  on_event (Event.update_msg msg) src s = restart_hold_timer s
  on_event (Event.update_msg_err err) src s = update_msg_err err s
  on_event e src s = otherwise s
