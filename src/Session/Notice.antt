-- ===== src/Session/Notice.antt =====
-- A fatal event past the Active state: what the session puts on the channel to its connection task.
use amnesia_bgp.Base.{◌+◌, ◌^◌, ◌<◌, true, Option, none, some, List, ◌∷◌, ◌≡◌, arith}
use amnesia_bgp.Error.{ErrorCode, cease, hold_timer_expired, finite_state_machine_error}
use amnesia_bgp.Extern.{Extern}
use amnesia_bgp.Fsm.Types.{
  State, Event, idle, connect, active, open_sent, open_confirm, established, Fsm, OpenSent,
  OpenConfirm, Established, Sender, JoinHandle, Timer, stop, get_attr,
}
use amnesia_bgp.Fsm.Runtime.{Env, World, Effect, timer_ctr, out, abort}
use amnesia_bgp.Session.Common.{Source, plain_notification}
use amnesia_bgp.Session.Post.{Ends}
use amnesia_bgp.Session.OpenSentState
use amnesia_bgp.Session.OpenConfirmState
use amnesia_bgp.Session.EstablishedState
use amnesia_bgp.Session.Run.{step}

abbrev pub out_tx : {X : Extern} → State X → Option Sender
out_tx (open_sent s) = s.state.bgp_out_tx
out_tx (open_confirm s) = s.state.bgp_out_tx
out_tx (established s) = s.state.bgp_out_tx
out_tx _ = none

abbrev pub conn_handle : {X : Extern} → State X → Option JoinHandle
conn_handle (open_sent s) = s.state.bgp_conn_handle
conn_handle (open_confirm s) = s.state.bgp_conn_handle
conn_handle (established s) = s.state.bgp_conn_handle
conn_handle _ = none

-- The timers and the administrator: the same in the three states.
abbrev pub stops_session : {X : Extern} → Event X → Option ErrorCode
stops_session Event.manual_stop = some cease
stops_session Event.automatic_stop = some cease
stops_session Event.hold_timer_expires = some hold_timer_expired
stops_session Event.connect_retry_timer_expires = some finite_state_machine_error
stops_session Event.delay_open_timer_expires = some finite_state_machine_error
stops_session Event.idle_hold_timer_expires = some finite_state_machine_error
stops_session (Event.bgp_open_with_delay_open_timer_running msg remote_syn) =
    some finite_state_machine_error
stops_session _ = none

-- The events that are out of place in one of the three states only.
abbrev pub notice : {X : Extern} → State X → Event X → Option ErrorCode
notice (open_sent s) Event.keepalive_timer_expires = some finite_state_machine_error
notice (open_sent s) Event.open_collision_dump = some finite_state_machine_error
notice (open_sent s) Event.keepalive_msg = some finite_state_machine_error
notice (open_sent s) (Event.notify_msg err) = some finite_state_machine_error
notice (open_sent s) (Event.update_msg msg) = some finite_state_machine_error
notice (open_sent s) (Event.update_msg_err err) = some finite_state_machine_error
notice (open_sent s) e = stops_session e
notice (open_confirm s) (Event.notify_msg err) = some finite_state_machine_error
notice (open_confirm s) (Event.update_msg msg) = some finite_state_machine_error
notice (open_confirm s) (Event.update_msg_err err) = some finite_state_machine_error
notice (open_confirm s) e = stops_session e
notice (established s) Event.open_collision_dump = some finite_state_machine_error
notice (established s) (Event.bgp_header_err err) = some finite_state_machine_error
notice (established s) (Event.bgp_open_msg_err err) = some finite_state_machine_error
notice (established s) e = stops_session e
notice _ _ = none

-- The log with the connection task's abort, if there is a task.
abbrev pub aborted : {X : Extern} → Option JoinHandle → List (Effect X) → List (Effect X)
aborted none log = log
aborted (some h) log = abort h ∷ log

-- The session is Idle; since the log of `w` a NOTIFICATION with the code was put on the channel, the
-- ConnectRetryTimer was stopped, and the connection task was aborted.
abbrev pub Notified :
    {X : Extern} → ErrorCode → Sender → Option JoinHandle → World X → State X → World X → Type 0
Notified code c h w (idle t) v =
    v.log
    ≡ aborted h (timer_ctr (Timer.connect_retry stop) ∷ out c (plain_notification code) ∷ w.log)
Notified code c h w _ v = ⊥

module _ {X : Extern} (src : Source) (env : Env) (w : World X) {code : ErrorCode} {c : Sender} where
  on_open_sent-Notified :
      (e : Event X) (s : Fsm (OpenSent X))
      → notice (open_sent s) e ≡ some code
      → s.state.bgp_out_tx ≡ some c
      → env.alive c ≡ true
      → s.attr.connect_retry_counter + 1 < 2 ^ 64
      → Ends (Notified code c s.state.bgp_conn_handle w) (OpenSentState.on_event e src s env w)
  unfolding OpenSentState.on_event
  on_open_sent-Notified Event.manual_stop s n p a b = ground arith
  on_open_sent-Notified e s n p a b = ground arith

  on_open_confirm-Notified :
      (e : Event X) (s : Fsm (OpenConfirm X))
      → notice (open_confirm s) e ≡ some code
      → s.state.bgp_out_tx ≡ some c
      → env.alive c ≡ true
      → s.attr.connect_retry_counter + 1 < 2 ^ 64
      → Ends (Notified code c s.state.bgp_conn_handle w) (OpenConfirmState.on_event e src s env w)
  unfolding OpenConfirmState.on_event
  on_open_confirm-Notified Event.manual_stop s n p a b = ground arith
  on_open_confirm-Notified e s n p a b = ground arith

  on_established-Notified :
      (e : Event X) (s : Fsm (Established X))
      → notice (established s) e ≡ some code
      → s.state.bgp_out_tx ≡ some c
      → env.alive c ≡ true
      → s.attr.connect_retry_counter + 1 < 2 ^ 64
      → Ends (Notified code c s.state.bgp_conn_handle w) (EstablishedState.on_event e src s env w)
  unfolding EstablishedState.on_event
  on_established-Notified Event.manual_stop s n p a b = ground arith
  on_established-Notified e s n p a b = ground arith

-- In OpenSent, OpenConfirm and Established, with a live channel to the connection and the retry
-- counter below its limit, each event that stops the session or is out of place puts a NOTIFICATION
-- with the error code of `notice` on the channel to the connection task, then stops the
-- ConnectRetryTimer, aborts that task, if there is one, and ends in Idle; there is no panic, and
-- nothing else is logged. Whether the task takes the NOTIFICATION before it is aborted is not said.
pub step-Notified :
    {X : Extern} (s : State X) (e : Event X) (src : Source) (env : Env) (w : World X)
    {code : ErrorCode} {c : Sender}
    → notice s e ≡ some code
    → out_tx s ≡ some c
    → env.alive c ≡ true
    → (get_attr s).connect_retry_counter + 1 < 2 ^ 64
    → Ends (Notified code c (conn_handle s) w) (step s e src env w)
unfolding step get_attr
step-Notified (idle s) e src env w n p a b = cc
step-Notified (connect s) e src env w n p a b = cc
step-Notified (active s) e src env w n p a b = cc
step-Notified (open_sent s) e src env w n p a b = on_open_sent-Notified src env w e s n p a b
step-Notified (open_confirm s) e src env w n p a b = on_open_confirm-Notified src env w e s n p a b
step-Notified (established s) e src env w n p a b = on_established-Notified src env w e s n p a b
