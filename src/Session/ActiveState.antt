-- ===== src/Session/ActiveState.antt =====
-- The arms of `run` in src/session.rs for the Active state.
use amnesia_bgp.Base.{Bool, true, false, some, not, ◌==◌, if◌then◌else◌}
use amnesia_bgp.Error.{Error, cease}
use amnesia_bgp.Extern.{Extern}
use amnesia_bgp.Message.Types.{
  OpenMsg, open_msg, keepalive_msg, notification_msg, from_conf, from_error,
}
use amnesia_bgp.Connection.{BgpConn, new_conn}
use amnesia_bgp.Fsm.Types.{
  Fsm, Active, State, Event, connect, active, idle, open_sent, open_confirm, Timer, restart, update,
  far_future,
}
use amnesia_bgp.Fsm.Runtime.{
  M, pure, ◌>>=◌, ◌>>◌, unwrap, ask_conf, send_timer, send_out, spawn, spawn_try_tcp_conn,
}
use amnesia_bgp.Fsm.Convert.{
  active_to_idle, active_to_connect, active_to_open_sent, active_to_open_confirm,
}
use amnesia_bgp.Session.Common.{
  Source, set_connect_retry_counter, set_hold_time, set_keepalive_time, set_cur_delay_open_time,
  stop_connect_retry, stop_delay_open, count_retry, start_hold_timers, stop_keepalive_stop_hold,
  negotiated_hold_time, negotiated_keepalive_time, start_process, plain_notification,
}

module _ {X : Extern} where
  unfoldable pub manual_stop : Fsm Active → M X (State X)
  unfolding active_to_idle
  manual_stop s = do
    s₁ ←
        if not (s.attr.cur_hold_time == far_future)
        then (do
          t ← stop_delay_open s
          if t.attr.send_notification_without_open
              then (do
                tx ← unwrap t.state.bgp_out_tx
                send_out tx (plain_notification cease)
                pure t)
              else pure t)
        else pure s
    s₂ ← stop_connect_retry s₁
    fsm ← active_to_idle (set_connect_retry_counter 0 s₂)
    pure (idle fsm)

  unfoldable pub connect_retry_timer_expires : Fsm Active → M X (State X)
  unfolding active_to_connect
  connect_retry_timer_expires s = do
    send_timer (Timer.connect_retry restart)
    let fsm = active_to_connect s
    h ← spawn (λ h. spawn_try_tcp_conn h fsm.peer)
    pure (connect (record fsm { state = record (fsm.state) { tcp_conn_handle = some h } }))

  unfoldable pub delay_open_timer_expires : Fsm Active → M X (State X)
  unfolding active_to_open_sent from_conf
  delay_open_timer_expires s = do
    s₁ ← stop_connect_retry s
    s₂ ← stop_delay_open s₁
    let fsm = active_to_open_sent s₂
    tx ← unwrap fsm.state.bgp_out_tx
    conf ← ask_conf
    send_out tx (open_msg (from_conf conf))
    pure (
        open_sent
          (record fsm { state = record (fsm.state) { local_open = some (from_conf conf) } }))

  -- What `TcpCRAcked` and `TcpConnectionConfirmed` do alike, on the connection that they bring.
  connection_up : BgpConn X → Bool → Fsm Active → M X (State X)
  unfolding active_to_open_sent from_conf
  connection_up bgp_conn remote_syn s₀ = do
    s ← stop_connect_retry (set_connect_retry_counter 0 s₀)
    (h, c) ← start_process bgp_conn remote_syn
    let s' = record s { state = record (s.state) { bgp_conn_handle = some h; bgp_out_tx = some c } }
    conf ← ask_conf
    if s'.attr.delay_open
        then (do
          send_timer (Timer.delay_open (update s'.attr.delay_open_time))
          pure (active (set_cur_delay_open_time s'.attr.delay_open_time s')))
        else (do
          send_out c (open_msg (from_conf conf))
          let fsm = active_to_open_sent s'
          pure (open_sent (record fsm { state = record (fsm.state) { remote_syn = remote_syn } })))

  unfoldable pub tcp_cr_acked : X.TcpStream → Fsm Active → M X (State X)
  unfolding connection_up new_conn
  tcp_cr_acked stream s = connection_up (new_conn stream) false s

  unfoldable pub tcp_connection_confirmed : BgpConn X → Fsm Active → M X (State X)
  unfolding connection_up
  tcp_connection_confirmed bgp_conn s = connection_up bgp_conn true s

  unfoldable pub tcp_connection_fails : Fsm Active → M X (State X)
  unfolding active_to_idle
  tcp_connection_fails s = do
    send_timer (Timer.connect_retry restart)
    s₁ ← stop_delay_open s
    s₂ ← count_retry s₁
    fsm ← active_to_idle s₂
    pure (idle fsm)

  unfoldable pub bgp_open_with_delay_open_timer_running :
      OpenMsg → Bool → Fsm Active → M X (State X)
  unfolding active_to_open_confirm from_conf
  bgp_open_with_delay_open_timer_running msg remote_syn s₀ = do
    s₁ ← stop_connect_retry s₀
    s₂ ← stop_delay_open s₁
    conf ← ask_conf
    let l = from_conf conf
    let fsm₀ = active_to_open_confirm s₂
    let fsm = record fsm₀ {
      state = record (fsm₀.state) { peer_open = some msg; local_open = some l };
    }
    tx ← unwrap fsm.state.bgp_out_tx
    send_out tx (open_msg l)
    send_out tx keepalive_msg
    let fsm₁ = set_hold_time (negotiated_hold_time l msg) fsm
    let fsm₂ = set_keepalive_time (negotiated_keepalive_time fsm₁.attr.hold_time) fsm₁
    fsm₃ ←
        if not (fsm₂.attr.hold_time == far_future)
        then start_hold_timers fsm₂
        else stop_keepalive_stop_hold fsm₂
    pure (open_confirm fsm₃)

  -- `BGPHeaderErr` and `BGPOpenMsgErr`
  unfoldable pub bgp_msg_err : Error → Fsm Active → M X (State X)
  unfolding active_to_idle from_error
  bgp_msg_err err s = do
    if s.attr.send_notification_without_open
        then (do tx ← unwrap s.state.bgp_out_tx; send_out tx (notification_msg (from_error err)))
        else pure tt
    s₁ ← stop_connect_retry s
    s₂ ← count_retry s₁
    fsm ← active_to_idle s₂
    pure (idle fsm)

  unfoldable pub notify_msg_ver_err : Fsm Active → M X (State X)
  unfolding active_to_idle
  notify_msg_ver_err s = do
    s₁ ← stop_connect_retry s
    fsm ← active_to_idle s₁
    fsm' ←
        if not (fsm.attr.cur_hold_time == far_future) then stop_delay_open fsm else count_retry fsm
    pure (idle fsm')

  unfoldable pub otherwise : Fsm Active → M X (State X)
  unfolding active_to_idle
  otherwise s = do
    s₁ ← stop_connect_retry s
    s₂ ← count_retry s₁
    fsm ← active_to_idle s₂
    pure (idle fsm)

  unfoldable pub on_event : Event X → Source → Fsm Active → M X (State X)
  unfolding manual_stop connect_retry_timer_expires delay_open_timer_expires tcp_cr_acked
      tcp_connection_confirmed tcp_connection_fails bgp_open_with_delay_open_timer_running
      bgp_msg_err notify_msg_ver_err otherwise
  on_event Event.manual_start src s = pure (active s)
  on_event Event.automatic_start src s = pure (active s)
  on_event Event.manual_start_with_passive_tcp_establishment src s = pure (active s)
  on_event Event.automatic_start_with_passive_tcp_establishment src s = pure (active s)
  on_event Event.automatic_start_with_damp_peer_oscillations src s = pure (active s)
  on_event Event.automatic_start_with_damp_peer_oscillations_and_passive_tcp_establishment src s =
      pure (active s)
  on_event Event.manual_stop src s = manual_stop s
  on_event Event.connect_retry_timer_expires src s = connect_retry_timer_expires s
  on_event Event.delay_open_timer_expires src s = delay_open_timer_expires s
  on_event Event.tcp_connection_valid src s = pure (active s)
  on_event Event.tcp_cr_invalid src s = pure (active s)
  on_event (Event.tcp_cr_acked stream) src s = tcp_cr_acked stream s
  on_event (Event.tcp_connection_confirmed conn) src s = tcp_connection_confirmed conn s
  on_event (Event.tcp_connection_fails err) src s = tcp_connection_fails s
  on_event (Event.bgp_open_with_delay_open_timer_running msg remote_syn) src s =
      bgp_open_with_delay_open_timer_running msg remote_syn s
  on_event (Event.bgp_header_err err) src s = bgp_msg_err err s
  on_event (Event.bgp_open_msg_err err) src s = bgp_msg_err err s
  on_event (Event.notify_msg_ver_err err) src s = notify_msg_ver_err s
  on_event e src s = otherwise s
