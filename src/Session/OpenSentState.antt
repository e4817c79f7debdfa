-- ===== src/Session/OpenSentState.antt =====
-- The arms of `run` in src/session.rs for the OpenSent state.
use amnesia_bgp.Base.{Bool, true, false, none, some, ltb, not, ◌==◌, if◌then◌else◌}
use amnesia_bgp.Error.{Error, ErrorCode, cease, hold_timer_expired, finite_state_machine_error}
use amnesia_bgp.Extern.{Extern}
use amnesia_bgp.Message.Types.{OpenMsg, open_msg, notification_msg, from_conf, from_error}
use amnesia_bgp.Connection.{BgpConn, new_conn}
use amnesia_bgp.Fsm.Types.{
  Fsm, OpenSent, State, Event, active, idle, open_sent, open_confirm, Timer, restart, far_future,
}
use amnesia_bgp.Fsm.Runtime.{
  M, pure, ◌>>=◌, ◌>>◌, unwrap, ask_conf, send_timer, send_out, new_channel, spawn, spawn_process,
  spawn_process_one,
}
use amnesia_bgp.Fsm.Convert.{open_sent_to_idle, open_sent_to_active, open_sent_to_open_confirm}
use amnesia_bgp.Session.Common.{
  Source, set_connect_retry_counter, set_hold_time, stop_connect_retry, stop_delay_open,
  count_retry, start_hold_timers, restart_keepalive_stop_hold, negotiated_hold_time,
  plain_notification,
}

abbrev pub bool_ne : Bool → Bool → Bool
bool_ne true b = not b
bool_ne false b = b

module _ {X : Extern} where
  unfoldable pub manual_stop : Fsm (OpenSent X) → M X (State X)
  unfolding open_sent_to_idle
  manual_stop s = do
    tx ← unwrap s.state.bgp_out_tx
    send_out tx (plain_notification cease)
    s₁ ← stop_connect_retry s
    fsm ← open_sent_to_idle (set_connect_retry_counter 0 s₁)
    pure (idle fsm)

  -- The arms that notify the peer, count a retry and go to Idle.
  notify_and_count : ErrorCode → Fsm (OpenSent X) → M X (State X)
  unfolding open_sent_to_idle
  notify_and_count code s = do
    tx ← unwrap s.state.bgp_out_tx
    send_out tx (plain_notification code)
    s₁ ← stop_connect_retry s
    s₂ ← count_retry s₁
    fsm ← open_sent_to_idle s₂
    pure (idle fsm)

  unfoldable pub automatic_stop : Fsm (OpenSent X) → M X (State X)
  unfolding notify_and_count
  automatic_stop = notify_and_count cease

  unfoldable pub hold_timer_expires : Fsm (OpenSent X) → M X (State X)
  unfolding notify_and_count
  hold_timer_expires = notify_and_count hold_timer_expired

  -- A second connection of our own is read to its OPEN beside the first.
  unfoldable pub tcp_cr_acked : X.TcpStream → Fsm (OpenSent X) → M X (State X)
  unfolding new_conn
  tcp_cr_acked stream s = do
    h ← spawn (λ h. spawn_process_one h (new_conn stream) false)
    pure (open_sent s)

  -- `TcpConnectionConfirmed` and `ProcessOneDone`
  unfoldable pub keep_collision_conn : BgpConn X → Fsm (OpenSent X) → M X (State X)
  keep_collision_conn conn s =
      pure (open_sent (record s { state = record (s.state) { collision_conn = some conn } }))

  unfoldable pub tcp_connection_fails : Fsm (OpenSent X) → M X (State X)
  unfolding open_sent_to_active
  tcp_connection_fails s = do
    send_timer (Timer.connect_retry restart)
    fsm ← open_sent_to_active s
    pure (active fsm)

  -- The colliding connection takes the place of the current one.
  replace_connection : Bool → Fsm (OpenSent X) → M X (Fsm (OpenSent X))
  unfolding from_conf
  replace_connection remote_syn s = do
    c ← new_channel
    bgp_conn ← unwrap s.state.collision_conn
    old_out_tx ← unwrap s.state.bgp_out_tx
    send_out old_out_tx (plain_notification cease)
    h ← spawn (λ h. spawn_process h bgp_conn c remote_syn)
    conf ← ask_conf
    if remote_syn then send_out c (open_msg (from_conf conf)) else pure tt
    pure (record s {
      state = record (s.state) {
        collision_conn = none;
        bgp_out_tx = some c;
        bgp_conn_handle = some h;
      };
    })

  -- The collision detection of an OPEN from the other direction.
  detect_collision : OpenMsg → Bool → Fsm (OpenSent X) → M X (Fsm (OpenSent X))
  unfolding replace_connection
  detect_collision msg remote_syn s =
      if bool_ne s.state.remote_syn remote_syn
      then (do
        l ← unwrap s.state.local_open
        if ltb l.bgp_identifier msg.bgp_identifier
            then replace_connection remote_syn s
            else pure (record s { state = record (s.state) { collision_conn = none } }))
      else pure s

  unfoldable pub bgp_open : OpenMsg → Bool → Fsm (OpenSent X) → M X (State X)
  unfolding detect_collision open_sent_to_open_confirm
  bgp_open msg remote_syn s₀ = do
    s ← detect_collision msg remote_syn s₀
    s₁ ← stop_delay_open s
    s₂ ← stop_connect_retry s₁
    let fsm₀ = open_sent_to_open_confirm s₂
    let fsm = record fsm₀ { state = record (fsm₀.state) { peer_open = some msg } }
    l ← unwrap fsm.state.local_open
    let fsm₁ = set_hold_time (negotiated_hold_time l msg) fsm
    fsm₂ ←
        if not (fsm₁.attr.hold_time == far_future)
        then start_hold_timers fsm₁
        else restart_keepalive_stop_hold fsm₁
    pure (open_confirm fsm₂)

  -- `BGPHeaderErr` and `BGPOpenMsgErr` on the session's own connection
  unfoldable pub bgp_msg_err : Error → Fsm (OpenSent X) → M X (State X)
  unfolding open_sent_to_idle from_error
  bgp_msg_err err s = do
    tx ← unwrap s.state.bgp_out_tx
    send_out tx (notification_msg (from_error err))
    s₁ ← stop_connect_retry s
    s₂ ← count_retry s₁
    fsm ← open_sent_to_idle s₂
    pure (idle fsm)

  unfoldable pub notify_msg_ver_err : Fsm (OpenSent X) → M X (State X)
  unfolding open_sent_to_idle
  notify_msg_ver_err s = do s₁ ← stop_connect_retry s; fsm ← open_sent_to_idle s₁; pure (idle fsm)

  -- Here no retry is counted.
  unfoldable pub otherwise : Fsm (OpenSent X) → M X (State X)
  unfolding open_sent_to_idle
  otherwise s = do
    tx ← unwrap s.state.bgp_out_tx
    send_out tx (plain_notification finite_state_machine_error)
    s₁ ← stop_connect_retry s
    fsm ← open_sent_to_idle s₁
    pure (idle fsm)

  unfoldable pub on_event : Event X → Source → Fsm (OpenSent X) → M X (State X)
  unfolding manual_stop automatic_stop hold_timer_expires tcp_cr_acked keep_collision_conn
      tcp_connection_fails bgp_open bgp_msg_err notify_msg_ver_err otherwise
  on_event Event.manual_start src s = pure (open_sent s)
  on_event Event.automatic_start src s = pure (open_sent s)
  on_event Event.manual_start_with_passive_tcp_establishment src s = pure (open_sent s)
  on_event Event.automatic_start_with_passive_tcp_establishment src s = pure (open_sent s)
  on_event Event.automatic_start_with_damp_peer_oscillations src s = pure (open_sent s)
  on_event Event.automatic_start_with_damp_peer_oscillations_and_passive_tcp_establishment src s =
      pure (open_sent s)
  on_event Event.manual_stop src s = manual_stop s
  on_event Event.automatic_stop src s = automatic_stop s
  on_event Event.hold_timer_expires src s = hold_timer_expires s
  on_event Event.tcp_connection_valid src s = pure (open_sent s)
  on_event (Event.tcp_cr_acked stream) src s = tcp_cr_acked stream s
  on_event (Event.tcp_connection_confirmed conn) src s = keep_collision_conn conn s
  on_event (Event.process_one_done conn) src s = keep_collision_conn conn s
  on_event Event.tcp_cr_invalid src s = pure (open_sent s)
  on_event (Event.tcp_connection_fails err) src s = tcp_connection_fails s
  on_event (Event.bgp_open msg remote_syn) src s = bgp_open msg remote_syn s
  on_event (Event.bgp_header_err err) Source.bgp s = bgp_msg_err err s
  on_event (Event.bgp_open_msg_err err) Source.bgp s = bgp_msg_err err s
  on_event (Event.bgp_header_err err) src s = pure (open_sent s)
  on_event (Event.bgp_open_msg_err err) src s = pure (open_sent s)
  on_event (Event.notify_msg_ver_err err) src s = notify_msg_ver_err s
  on_event e src s = otherwise s
