-- ===== src/Fsm/TimerTask.antt =====
-- `timer_loop` of src/session.rs: five timer tasks, one for each kind, and the task that hands a
-- command of the session to the timer that it names.
use amnesia_bgp.Base.{Option, none, some}
use amnesia_bgp.Net.{Duration}
use amnesia_bgp.Extern.{Extern}
use amnesia_bgp.Fsm.Types.{
  far_future, Event, Operation, stop, restart, update, TimerKind, Timer, into_event,
}

-- How a task's wait `timeout(dur, rx.recv())` ends: by the time, by a command, or by the channel
-- being closed.
pub data Wake : Type 0 where
  timed_out : Wake
  received : Operation → Wake
  closed : Wake

-- One round of a timer task: the duration of its next wait, and the event that it sends.
unfoldable pub timer_round :
    {X : Extern} → TimerKind → Duration → Wake → Duration × Option (Event X)
unfolding into_event
timer_round kind dur timed_out = (dur, some (into_event kind))
timer_round kind dur (received stop) = (far_future, none)
timer_round kind dur (received restart) = (dur, none)
timer_round kind dur (received (update d)) = (d, none)
timer_round kind dur closed = (dur, none)

-- The control task's `match`: the timer that a command is for, and its operation.
unfoldable pub route : Timer → TimerKind × Operation
route (Timer.connect_retry op) = (TimerKind.connect_retry, op)
route (Timer.hold op) = (TimerKind.hold, op)
route (Timer.keepalive op) = (TimerKind.keepalive, op)
route (Timer.delay_open op) = (TimerKind.delay_open, op)
route (Timer.idle_hold op) = (TimerKind.idle_hold, op)
