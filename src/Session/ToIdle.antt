-- ===== src/Session/ToIdle.antt =====
-- What a move to the Idle state leaves behind: the timers, the retry counter, the notice to the
-- peer.
use amnesia_bgp.Base.{◌+◌, ◌≤◌, Bool, true, false, ◌≡◌, arith}
use amnesia_bgp.Extern.{Extern}
use amnesia_bgp.Fsm.Types.{
  State, Event, idle, connect, active, open_sent, open_confirm, established, Fsm, Idle, Connect,
  Active, OpenSent, OpenConfirm, Established, TimerKind, far_future, get_attr,
}
use amnesia_bgp.Fsm.Runtime.{Env, World}
use amnesia_bgp.Fsm.TimerTask.{timer_round, route}
use amnesia_bgp.Session.Common.{Source}
use amnesia_bgp.Session.Post.{Post}
use amnesia_bgp.Session.IdleState
use amnesia_bgp.Session.ConnectState
use amnesia_bgp.Session.ActiveState
use amnesia_bgp.Session.OpenSentState
use amnesia_bgp.Session.OpenConfirmState
use amnesia_bgp.Session.EstablishedState
use amnesia_bgp.Session.Run.{step}
use amnesia_bgp.Session.Clock.{waits}

-- The one transition to Idle that leaves the ConnectRetryTimer running.
abbrev pub leaves_retry_timer : {X : Extern} → State X → Event X → Bool
leaves_retry_timer (active s) (Event.tcp_connection_fails err) = true
leaves_retry_timer (idle s) _ = true
leaves_retry_timer _ _ = false

-- If the new state is Idle, the ConnectRetryTimer is stopped, and noted so.
abbrev pub RetryStopped : {X : Extern} → State X → World X → Type 0
RetryStopped (idle t) v =
    (waits TimerKind.connect_retry v.log ≡ far_future)
    × (t.attr.cur_connect_retry_time ≡ far_future)
RetryStopped _ v = Unit {0}

-- If the new state is Idle, the HoldTimer and the KeepaliveTimer are set as they were before.
abbrev pub HoldKept : {X : Extern} → World X → State X → World X → Type 0
HoldKept w (idle t) v =
    (waits TimerKind.hold v.log ≡ waits TimerKind.hold w.log)
    × (waits TimerKind.keepalive v.log ≡ waits TimerKind.keepalive w.log)
HoldKept w _ v = Unit {0}

-- At most one retry is counted.
abbrev pub CountedOnce : {X : Extern} → State X → State X → World X → Type 0
CountedOnce s t w = (get_attr t).connect_retry_counter ≤ (get_attr s).connect_retry_counter + 1

module _ {X : Extern} (src : Source) (env : Env) (w : World X) where
  on_idle-RetryStopped :
      (e : Event X) (s : Fsm Idle)
      → leaves_retry_timer (idle s) e ≡ false
      → Post RetryStopped (IdleState.on_event e src s env w)
  unfolding IdleState.on_event timer_round route
  on_idle-RetryStopped Event.manual_start s h = ground arith
  on_idle-RetryStopped e s h = ground arith

  on_idle-HoldKept :
      (e : Event X) (s : Fsm Idle) → Post (HoldKept w) (IdleState.on_event e src s env w)
  unfolding IdleState.on_event timer_round route
  on_idle-HoldKept Event.manual_start s = ground arith
  on_idle-HoldKept e s = ground arith

  on_idle-CountedOnce :
      (e : Event X) (s : Fsm Idle) → Post (CountedOnce (idle s)) (IdleState.on_event e src s env w)
  unfolding IdleState.on_event get_attr
  on_idle-CountedOnce Event.manual_start s = ground arith
  on_idle-CountedOnce e s = ground arith

  on_connect-RetryStopped :
      (e : Event X) (s : Fsm Connect)
      → leaves_retry_timer (connect s) e ≡ false
      → Post RetryStopped (ConnectState.on_event e src s env w)
  unfolding ConnectState.on_event timer_round route
  on_connect-RetryStopped Event.manual_stop s h = ground arith
  on_connect-RetryStopped e s h = ground arith

  on_connect-HoldKept :
      (e : Event X) (s : Fsm Connect) → Post (HoldKept w) (ConnectState.on_event e src s env w)
  unfolding ConnectState.on_event timer_round route
  on_connect-HoldKept Event.manual_stop s = ground arith
  on_connect-HoldKept e s = ground arith

  on_connect-CountedOnce :
      (e : Event X) (s : Fsm Connect)
      → Post (CountedOnce (connect s)) (ConnectState.on_event e src s env w)
  unfolding ConnectState.on_event get_attr
  on_connect-CountedOnce Event.manual_stop s = ground arith
  on_connect-CountedOnce e s = ground arith

  on_active-RetryStopped :
      (e : Event X) (s : Fsm Active)
      → leaves_retry_timer (active s) e ≡ false
      → Post RetryStopped (ActiveState.on_event e src s env w)
  unfolding ActiveState.on_event timer_round route
  on_active-RetryStopped Event.manual_stop s h = ground arith
  on_active-RetryStopped e s h = ground arith

  on_active-HoldKept :
      (e : Event X) (s : Fsm Active) → Post (HoldKept w) (ActiveState.on_event e src s env w)
  unfolding ActiveState.on_event timer_round route
  on_active-HoldKept Event.manual_stop s = ground arith
  on_active-HoldKept e s = ground arith

  on_active-CountedOnce :
      (e : Event X) (s : Fsm Active)
      → Post (CountedOnce (active s)) (ActiveState.on_event e src s env w)
  unfolding ActiveState.on_event get_attr
  on_active-CountedOnce Event.manual_stop s = ground arith
  on_active-CountedOnce e s = ground arith

  on_open_sent-RetryStopped :
      (e : Event X) (s : Fsm (OpenSent X))
      → leaves_retry_timer (open_sent s) e ≡ false
      → Post RetryStopped (OpenSentState.on_event e src s env w)
  unfolding OpenSentState.on_event timer_round route
  on_open_sent-RetryStopped Event.manual_stop s h = ground arith
  on_open_sent-RetryStopped e s h = ground arith

  on_open_sent-HoldKept :
      (e : Event X) (s : Fsm (OpenSent X))
      → Post (HoldKept w) (OpenSentState.on_event e src s env w)
  unfolding OpenSentState.on_event timer_round route
  on_open_sent-HoldKept Event.manual_stop s = ground arith
  on_open_sent-HoldKept e s = ground arith

  on_open_sent-CountedOnce :
      (e : Event X) (s : Fsm (OpenSent X))
      → Post (CountedOnce (open_sent s)) (OpenSentState.on_event e src s env w)
  unfolding OpenSentState.on_event get_attr
  on_open_sent-CountedOnce Event.manual_stop s = ground arith
  on_open_sent-CountedOnce e s = ground arith

  on_open_confirm-RetryStopped :
      (e : Event X) (s : Fsm (OpenConfirm X))
      → leaves_retry_timer (open_confirm s) e ≡ false
      → Post RetryStopped (OpenConfirmState.on_event e src s env w)
  unfolding OpenConfirmState.on_event timer_round route
  on_open_confirm-RetryStopped Event.manual_stop s h = ground arith
  on_open_confirm-RetryStopped e s h = ground arith

  on_open_confirm-HoldKept :
      (e : Event X) (s : Fsm (OpenConfirm X))
      → Post (HoldKept w) (OpenConfirmState.on_event e src s env w)
  unfolding OpenConfirmState.on_event timer_round route
  on_open_confirm-HoldKept Event.manual_stop s = ground arith
  on_open_confirm-HoldKept e s = ground arith

  on_open_confirm-CountedOnce :
      (e : Event X) (s : Fsm (OpenConfirm X))
      → Post (CountedOnce (open_confirm s)) (OpenConfirmState.on_event e src s env w)
  unfolding OpenConfirmState.on_event get_attr
  on_open_confirm-CountedOnce Event.manual_stop s = ground arith
  on_open_confirm-CountedOnce e s = ground arith

  on_established-RetryStopped :
      (e : Event X) (s : Fsm (Established X))
      → leaves_retry_timer (established s) e ≡ false
      → Post RetryStopped (EstablishedState.on_event e src s env w)
  unfolding EstablishedState.on_event timer_round route
  on_established-RetryStopped Event.manual_stop s h = ground arith
  on_established-RetryStopped e s h = ground arith

  on_established-HoldKept :
      (e : Event X) (s : Fsm (Established X))
      → Post (HoldKept w) (EstablishedState.on_event e src s env w)
  unfolding EstablishedState.on_event timer_round route
  on_established-HoldKept Event.manual_stop s = ground arith
  on_established-HoldKept e s = ground arith

  on_established-CountedOnce :
      (e : Event X) (s : Fsm (Established X))
      → Post (CountedOnce (established s)) (EstablishedState.on_event e src s env w)
  unfolding EstablishedState.on_event get_attr
  on_established-CountedOnce Event.manual_stop s = ground arith
  on_established-CountedOnce e s = ground arith

-- A transition from another state that ends in Idle leaves the ConnectRetryTimer stopped, and
-- noted so, except where a connection fails in Active.
pub step-RetryStopped :
    {X : Extern} (s : State X) (e : Event X) (src : Source) (env : Env) (w : World X)
    → leaves_retry_timer s e ≡ false
    → Post RetryStopped (step s e src env w)
unfolding step
step-RetryStopped (idle s) e src env w h = on_idle-RetryStopped src env w e s h
step-RetryStopped (connect s) e src env w h = on_connect-RetryStopped src env w e s h
step-RetryStopped (active s) e src env w h = on_active-RetryStopped src env w e s h
step-RetryStopped (open_sent s) e src env w h = on_open_sent-RetryStopped src env w e s h
step-RetryStopped (open_confirm s) e src env w h = on_open_confirm-RetryStopped src env w e s h
step-RetryStopped (established s) e src env w h = on_established-RetryStopped src env w e s h

-- A transition that ends in Idle leaves the HoldTimer and the KeepaliveTimer set as they were
-- before it: it stops neither of them.
pub step-HoldKept :
    {X : Extern} (s : State X) (e : Event X) (src : Source) (env : Env) (w : World X)
    → Post (HoldKept w) (step s e src env w)
unfolding step
step-HoldKept (idle s) e src env w = on_idle-HoldKept src env w e s
step-HoldKept (connect s) e src env w = on_connect-HoldKept src env w e s
step-HoldKept (active s) e src env w = on_active-HoldKept src env w e s
step-HoldKept (open_sent s) e src env w = on_open_sent-HoldKept src env w e s
step-HoldKept (open_confirm s) e src env w = on_open_confirm-HoldKept src env w e s
step-HoldKept (established s) e src env w = on_established-HoldKept src env w e s

-- A transition that ends raises the retry counter by one at most.
pub step-CountedOnce :
    {X : Extern} (s : State X) (e : Event X) (src : Source) (env : Env) (w : World X)
    → Post (CountedOnce s) (step s e src env w)
unfolding step
step-CountedOnce (idle s) e src env w = on_idle-CountedOnce src env w e s
step-CountedOnce (connect s) e src env w = on_connect-CountedOnce src env w e s
step-CountedOnce (active s) e src env w = on_active-CountedOnce src env w e s
step-CountedOnce (open_sent s) e src env w = on_open_sent-CountedOnce src env w e s
step-CountedOnce (open_confirm s) e src env w = on_open_confirm-CountedOnce src env w e s
step-CountedOnce (established s) e src env w = on_established-CountedOnce src env w e s
