-- ===== src/Session/Common.antt =====
-- What the arms of `run` in src/session.rs share: the snippets that several of them repeat.
use amnesia_bgp.Base.{ℕ, Bool, none, min, ◌==◌, if◌then◌else◌}
use amnesia_bgp.Net.{Duration, from_secs, div_duration}
use amnesia_bgp.Error.{ErrorCode, undefined}
use amnesia_bgp.Extern.{Extern}
use amnesia_bgp.Message.Types.{Message, OpenMsg, from_enum, notification_msg}
use amnesia_bgp.Connection.{BgpConn}
use amnesia_bgp.Fsm.Types.{
  Fsm, JoinHandle, Sender, Timer, stop, restart, update, far_future, dflt_keepalive_factor,
}
use amnesia_bgp.Fsm.Runtime.{
  M, pure, ◌>>=◌, ◌>>◌, send_timer, new_channel, spawn, spawn_process, add_one_u64,
}

-- The channel that an event came by.
pub data Source : Type 0 where
  admin tcp bgp coll timer : Source

module _ {S : Type 0} where
  abbrev pub set_connect_retry_counter : ℕ → Fsm S → Fsm S
  set_connect_retry_counter n s = record s { attr = record (s.attr) { connect_retry_counter = n } }

  abbrev pub set_hold_time : Duration → Fsm S → Fsm S
  set_hold_time d s = record s { attr = record (s.attr) { hold_time = d } }

  abbrev pub set_keepalive_time : Duration → Fsm S → Fsm S
  set_keepalive_time d s = record s { attr = record (s.attr) { keepalive_time = d } }

  abbrev pub set_cur_connect_retry_time : Duration → Fsm S → Fsm S
  set_cur_connect_retry_time d s = record s {
    attr = record (s.attr) { cur_connect_retry_time = d };
  }

  abbrev pub set_cur_hold_time : Duration → Fsm S → Fsm S
  set_cur_hold_time d s = record s { attr = record (s.attr) { cur_hold_time = d } }

  abbrev pub set_cur_keepalive_time : Duration → Fsm S → Fsm S
  set_cur_keepalive_time d s = record s { attr = record (s.attr) { cur_keepalive_time = d } }

  abbrev pub set_cur_delay_open_time : Duration → Fsm S → Fsm S
  set_cur_delay_open_time d s = record s { attr = record (s.attr) { cur_delay_open_time = d } }

module _ {X : Extern} {S : Type 0} where
  -- Stops the ConnectRetryTimer and notes it in the attributes.
  abbrev pub stop_connect_retry : Fsm S → M X (Fsm S)
  stop_connect_retry s = do
    send_timer (Timer.connect_retry stop)
    pure (set_cur_connect_retry_time far_future s)

  -- Sets the ConnectRetryTimer to `d` and notes it in the attributes.
  abbrev pub update_connect_retry : Duration → Fsm S → M X (Fsm S)
  update_connect_retry d s = do
    send_timer (Timer.connect_retry (update d))
    pure (set_cur_connect_retry_time d s)

  abbrev pub stop_delay_open : Fsm S → M X (Fsm S)
  stop_delay_open s = do
    send_timer (Timer.delay_open stop)
    pure (set_cur_delay_open_time far_future s)

  -- `connect_retry_counter += 1`
  abbrev pub count_retry : Fsm S → M X (Fsm S)
  count_retry s = do
    n ← add_one_u64 s.attr.connect_retry_counter
    pure (set_connect_retry_counter n s)

  -- The KeepaliveTimer and the HoldTimer are set to the session's times.
  abbrev pub start_hold_timers : Fsm S → M X (Fsm S)
  start_hold_timers s = do
    send_timer (Timer.keepalive (update s.attr.keepalive_time))
    let t = set_cur_keepalive_time s.attr.keepalive_time s
    send_timer (Timer.hold (update t.attr.hold_time))
    pure (set_cur_hold_time t.attr.hold_time t)

  -- The other branch, as the Connect and OpenSent states have it.
  abbrev pub restart_keepalive_stop_hold : Fsm S → M X (Fsm S)
  restart_keepalive_stop_hold s = do
    send_timer (Timer.keepalive restart)
    send_timer (Timer.hold stop)
    pure (set_cur_hold_time far_future s)

  -- The other branch, as the Active state has it.
  abbrev pub stop_keepalive_stop_hold : Fsm S → M X (Fsm S)
  stop_keepalive_stop_hold s = do
    send_timer (Timer.keepalive stop)
    let t = set_cur_keepalive_time far_future s
    send_timer (Timer.hold stop)
    pure (set_cur_hold_time far_future t)

-- `match Duration::from_secs(min(..)) { FAR_FUTURE => FAR_FUTURE, hold_time => hold_time }`
abbrev pub negotiated_hold_time : OpenMsg → OpenMsg → Duration
negotiated_hold_time l p =
    let d = from_secs (min l.hold_time p.hold_time) in if d == far_future then far_future else d

-- `match hold_time { FAR_FUTURE => FAR_FUTURE, _ => hold_time / DFLT_KEEPALIVE_FACTOR }`
abbrev pub negotiated_keepalive_time : Duration → Duration
negotiated_keepalive_time d =
    if d == far_future then far_future else div_duration d dflt_keepalive_factor

-- A channel to a new connection task, and that task.
abbrev pub start_process : {X : Extern} → BgpConn X → Bool → M X (JoinHandle × Sender)
start_process conn remote_syn = do
  c ← new_channel
  h ← spawn (λ h. spawn_process h conn c remote_syn)
  pure (h, c)

-- `NotificationMsg::from_enum(code, Undefined, None).into()`
abbrev pub plain_notification : ErrorCode → Message
unfolding from_enum
plain_notification code = notification_msg (from_enum code undefined none)
