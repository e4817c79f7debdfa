-- ===== src/Session/ConnectState.antt =====
-- The arms of `run` in src/session.rs for the Connect state.
use amnesia_bgp.Base.{Bool, true, false, some, not, ◌==◌, if◌then◌else◌}
use amnesia_bgp.Error.{Error}
use amnesia_bgp.Extern.{Extern}
use amnesia_bgp.Message.Types.{
  OpenMsg, open_msg, keepalive_msg, notification_msg, from_conf, from_error,
}
use amnesia_bgp.Connection.{BgpConn, new_conn}
use amnesia_bgp.Fsm.Types.{
  Fsm, Connect, State, Event, connect, active, idle, open_sent, open_confirm, Timer, restart,
  update, far_future,
}
use amnesia_bgp.Fsm.Runtime.{
  M, pure, ◌>>=◌, ◌>>◌, unwrap, ask_conf, send_timer, send_out, abort_if_some, spawn,
  spawn_try_tcp_conn,
}
use amnesia_bgp.Fsm.Convert.{
  connect_to_idle, connect_to_active, connect_to_open_sent, connect_to_open_confirm,
}
use amnesia_bgp.Session.Common.{
  Source, set_connect_retry_counter, set_hold_time, set_keepalive_time, set_cur_delay_open_time,
  stop_connect_retry, stop_delay_open, count_retry, start_hold_timers, restart_keepalive_stop_hold,
  negotiated_hold_time, negotiated_keepalive_time, start_process,
}

module _ {X : Extern} where
  unfoldable pub manual_stop : Fsm Connect → M X (State X)
  unfolding connect_to_idle
  manual_stop s = do
    fsm ← connect_to_idle s
    fsm' ← stop_connect_retry (set_connect_retry_counter 0 fsm)
    pure (idle fsm')

  unfoldable pub connect_retry_timer_expires : Fsm Connect → M X (State X)
  connect_retry_timer_expires s = do
    abort_if_some s.state.tcp_conn_handle
    send_timer (Timer.connect_retry restart)
    s' ← stop_delay_open s
    h ← spawn (λ h. spawn_try_tcp_conn h s'.peer)
    pure (connect (record s' { state = record (s'.state) { tcp_conn_handle = some h } }))

  unfoldable pub delay_open_timer_expires : Fsm Connect → M X (State X)
  unfolding connect_to_open_sent from_conf
  delay_open_timer_expires s = do
    let fsm = connect_to_open_sent s
    tx ← unwrap fsm.state.bgp_out_tx
    conf ← ask_conf
    send_out tx (open_msg (from_conf conf))
    pure (
        open_sent
          (record fsm { state = record (fsm.state) { local_open = some (from_conf conf) } }))

  -- The connection is up: OPEN goes out at once, or after the DelayOpenTimer.
  unfoldable pub tcp_cr_acked : X.TcpStream → Fsm Connect → M X (State X)
  unfolding connect_to_open_sent new_conn from_conf
  tcp_cr_acked stream s₀ = do
    s ← stop_connect_retry (set_connect_retry_counter 0 s₀)
    (h, c) ← start_process (new_conn stream) false
    let s' = record s { state = record (s.state) { bgp_conn_handle = some h; bgp_out_tx = some c } }
    conf ← ask_conf
    if s'.attr.delay_open
        then (do
          send_timer (Timer.delay_open (update s'.attr.delay_open_time))
          pure (connect (set_cur_delay_open_time s'.attr.delay_open_time s')))
        else (do
          send_out c (open_msg (from_conf conf))
          let fsm = connect_to_open_sent s'
          pure (open_sent (record fsm { state = record (fsm.state) { remote_syn = false } })))

  unfoldable pub tcp_connection_confirmed : BgpConn X → Fsm Connect → M X (State X)
  unfolding connect_to_open_sent from_conf
  tcp_connection_confirmed bgp_conn s₀ = do
    s ← stop_connect_retry (set_connect_retry_counter 0 s₀)
    (h, c) ← start_process bgp_conn true
    let s' = record s { state = record (s.state) { bgp_conn_handle = some h; bgp_out_tx = some c } }
    conf ← ask_conf
    if s'.attr.delay_open
        then (do send_timer (Timer.delay_open (update s'.attr.delay_open_time)); pure (connect s'))
        else (do
          send_out c (open_msg (from_conf conf))
          let fsm = connect_to_open_sent s'
          pure (open_sent (record fsm { state = record (fsm.state) { remote_syn = true } })))

  unfoldable pub tcp_connection_fails : Fsm Connect → M X (State X)
  unfolding connect_to_idle connect_to_active
  tcp_connection_fails s =
      if s.attr.cur_delay_open_time == far_future
      then (do s' ← stop_connect_retry s; fsm ← connect_to_idle s'; pure (idle fsm))
      else (do
        send_timer (Timer.connect_retry restart)
        s' ← stop_delay_open s
        fsm ← connect_to_active s'
        pure (active fsm))

  unfoldable pub bgp_open_with_delay_open_timer_running :
      OpenMsg → Bool → Fsm Connect → M X (State X)
  unfolding connect_to_open_confirm from_conf
  bgp_open_with_delay_open_timer_running msg remote_syn s₀ = do
    s₁ ← stop_connect_retry s₀
    s₂ ← stop_delay_open s₁
    conf ← ask_conf
    let l = from_conf conf
    let fsm₀ = connect_to_open_confirm s₂
    let fsm = record fsm₀ {
      state = record (fsm₀.state) { peer_open = some msg; local_open = some l };
    }
    tx ← unwrap fsm.state.bgp_out_tx
    send_out tx (open_msg l)
    send_out tx keepalive_msg
    let fsm₁ = set_hold_time (negotiated_hold_time l msg) fsm
    let fsm₂ = set_keepalive_time (negotiated_keepalive_time fsm₁.attr.hold_time) fsm₁
    fsm₃ ←
        if not (fsm₂.attr.hold_time == far_future)
        then start_hold_timers fsm₂
        else restart_keepalive_stop_hold fsm₂
    pure (open_confirm fsm₃)

  -- `BGPHeaderErr` and `BGPOpenMsgErr`
  unfoldable pub bgp_msg_err : Error → Fsm Connect → M X (State X)
  unfolding connect_to_idle from_error
  bgp_msg_err err s = do
    if s.attr.send_notification_without_open
        then (do tx ← unwrap s.state.bgp_out_tx; send_out tx (notification_msg (from_error err)))
        else pure tt
    s' ← stop_connect_retry s
    s'' ← count_retry s'
    fsm ← connect_to_idle s''
    pure (idle fsm)

  unfoldable pub notify_msg_ver_err : Fsm Connect → M X (State X)
  unfolding connect_to_idle
  notify_msg_ver_err s = do
    s' ← stop_connect_retry s
    fsm ← connect_to_idle s'
    fsm' ←
        if not (fsm.attr.cur_hold_time == far_future) then stop_delay_open fsm else count_retry fsm
    pure (idle fsm')

  unfoldable pub otherwise : Fsm Connect → M X (State X)
  unfolding connect_to_idle
  otherwise s = do
    s₁ ← stop_connect_retry s
    s₂ ← stop_delay_open s₁
    s₃ ← count_retry s₂
    fsm ← connect_to_idle s₃
    pure (idle fsm)

  unfoldable pub on_event : Event X → Source → Fsm Connect → M X (State X)
  unfolding manual_stop connect_retry_timer_expires delay_open_timer_expires tcp_cr_acked
      tcp_connection_confirmed tcp_connection_fails bgp_open_with_delay_open_timer_running
      bgp_msg_err notify_msg_ver_err otherwise
  on_event Event.manual_stop src s = manual_stop s
  on_event Event.connect_retry_timer_expires src s = connect_retry_timer_expires s
  on_event Event.delay_open_timer_expires src s = delay_open_timer_expires s
  on_event Event.tcp_connection_valid src s = pure (connect s)
  on_event Event.tcp_cr_invalid src s = pure (connect s)
  on_event (Event.tcp_cr_acked stream) src s = tcp_cr_acked stream s
  on_event (Event.tcp_connection_confirmed conn) src s = tcp_connection_confirmed conn s
  on_event (Event.tcp_connection_fails err) src s = tcp_connection_fails s
  on_event (Event.bgp_open_with_delay_open_timer_running msg remote_syn) src s =
      bgp_open_with_delay_open_timer_running msg remote_syn s
  on_event (Event.bgp_header_err err) src s = bgp_msg_err err s
  on_event (Event.bgp_open_msg_err err) src s = bgp_msg_err err s
  on_event (Event.notify_msg_ver_err err) src s = notify_msg_ver_err s
  on_event e src s = otherwise s
