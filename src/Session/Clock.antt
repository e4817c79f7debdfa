-- ===== src/Session/Clock.antt =====
-- The session notes in its attributes what its timers are set to. Here the timers are replayed from
-- the commands of the log, and the notes are compared with them.
use amnesia_bgp.Base.{Bool, true, false, ◌≡◌, refl, arith, List, [], ◌∷◌, if◌then◌else◌}
use amnesia_bgp.Net.{Duration, SocketAddr}
use amnesia_bgp.Config.{Neighbor}
use amnesia_bgp.Extern.{Extern}
use amnesia_bgp.Fsm.Types.{
  State, Event, idle, connect, active, open_sent, open_confirm, established, Fsm, Idle, Connect,
  Active, OpenSent, OpenConfirm, Established, TimerKind, JoinHandle, Sender, far_future, get_attr,
  new_state,
}
use amnesia_bgp.Fsm.Runtime.{Env, World, Effect, timer_ctr}
use amnesia_bgp.Fsm.TimerTask.{timer_round, received, route}
use amnesia_bgp.Session.Common.{Source}
use amnesia_bgp.Session.Post.{Post}
use amnesia_bgp.Session.IdleState
use amnesia_bgp.Session.ConnectState
use amnesia_bgp.Session.ActiveState
use amnesia_bgp.Session.OpenSentState
use amnesia_bgp.Session.OpenConfirmState
use amnesia_bgp.Session.EstablishedState
use amnesia_bgp.Session.Run.{Delivery, receive, step, run}
use amnesia_bgp.Session.Runs.{Allows-all, run-keeps}

abbrev same_kind : TimerKind → TimerKind → Bool
same_kind TimerKind.connect_retry TimerKind.connect_retry = true
same_kind TimerKind.hold TimerKind.hold = true
same_kind TimerKind.keepalive TimerKind.keepalive = true
same_kind TimerKind.delay_open TimerKind.delay_open = true
same_kind TimerKind.idle_hold TimerKind.idle_hold = true
same_kind _ _ = false

-- How long a timer's task waits after the commands of a log, of which the newest stands first.
abbrev pub waits : {X : Extern} → TimerKind → List (Effect X) → Duration
unfolding timer_round route
waits kind [] = far_future
waits {X} kind (timer_ctr t ∷ log) =
    let (k, op) = route t in
    let before = waits kind log in
    if same_kind k kind then (timer_round {X = X} kind before (received op)).0 else before
waits kind (_ ∷ log) = waits kind log

-- The notes on the ConnectRetryTimer, the HoldTimer and the KeepaliveTimer are right.
abbrev pub Noted : {X : Extern} → State X → World X → Type 0
Noted s w =
    ((get_attr s).cur_connect_retry_time ≡ waits TimerKind.connect_retry w.log)
    × ((get_attr s).cur_hold_time ≡ waits TimerKind.hold w.log)
    × ((get_attr s).cur_keepalive_time ≡ waits TimerKind.keepalive w.log)

-- The note on the DelayOpenTimer is right.
abbrev pub NotedDelay : {X : Extern} → State X → World X → Type 0
NotedDelay s w = (get_attr s).cur_delay_open_time ≡ waits TimerKind.delay_open w.log

-- The one transition that sets the DelayOpenTimer and does not note it.
abbrev pub is_unnoted : {X : Extern} → State X → Event X → Bool
is_unnoted (connect s) (Event.tcp_connection_confirmed conn) = s.attr.delay_open
is_unnoted _ _ = false

module _ {X : Extern} (src : Source) (env : Env) (w : World X) where
  on_idle-Noted :
      (e : Event X) (s : Fsm Idle)
      → Noted (idle s) w
      → Post Noted (IdleState.on_event e src s env w)
  unfolding IdleState.on_event get_attr timer_round route
  on_idle-Noted Event.manual_start s h = ground arith
  on_idle-Noted e s h = ground arith

  on_connect-Noted :
      (e : Event X) (s : Fsm Connect)
      → Noted (connect s) w
      → Post Noted (ConnectState.on_event e src s env w)
  unfolding ConnectState.on_event get_attr timer_round route
  on_connect-Noted Event.manual_stop s h = ground arith
  on_connect-Noted e s h = ground arith

  on_active-Noted :
      (e : Event X) (s : Fsm Active)
      → Noted (active s) w
      → Post Noted (ActiveState.on_event e src s env w)
  unfolding ActiveState.on_event get_attr timer_round route
  on_active-Noted Event.manual_stop s h = ground arith
  on_active-Noted e s h = ground arith

  on_open_sent-Noted :
      (e : Event X) (s : Fsm (OpenSent X))
      → Noted (open_sent s) w
      → Post Noted (OpenSentState.on_event e src s env w)
  unfolding OpenSentState.on_event get_attr timer_round route
  on_open_sent-Noted Event.manual_stop s h = ground arith
  on_open_sent-Noted e s h = ground arith

  on_open_confirm-Noted :
      (e : Event X) (s : Fsm (OpenConfirm X))
      → Noted (open_confirm s) w
      → Post Noted (OpenConfirmState.on_event e src s env w)
  unfolding OpenConfirmState.on_event get_attr timer_round route
  on_open_confirm-Noted Event.manual_stop s h = ground arith
  on_open_confirm-Noted e s h = ground arith

  on_established-Noted :
      (e : Event X) (s : Fsm (Established X))
      → Noted (established s) w
      → Post Noted (EstablishedState.on_event e src s env w)
  unfolding EstablishedState.on_event get_attr timer_round route
  on_established-Noted Event.manual_stop s h = ground arith
  on_established-Noted e s h = ground arith

  on_idle-NotedDelay :
      (e : Event X) (s : Fsm Idle)
      → is_unnoted (idle s) e ≡ false
      → NotedDelay (idle s) w
      → Post NotedDelay (IdleState.on_event e src s env w)
  unfolding IdleState.on_event get_attr timer_round route
  on_idle-NotedDelay Event.manual_start s u h = ground arith
  on_idle-NotedDelay e s u h = ground arith

  on_connect-NotedDelay :
      (e : Event X) (s : Fsm Connect)
      → is_unnoted (connect s) e ≡ false
      → NotedDelay (connect s) w
      → Post NotedDelay (ConnectState.on_event e src s env w)
  unfolding ConnectState.on_event get_attr timer_round route
  on_connect-NotedDelay Event.manual_stop s u h = ground arith
  on_connect-NotedDelay e s u h = ground arith

  on_active-NotedDelay :
      (e : Event X) (s : Fsm Active)
      → is_unnoted (active s) e ≡ false
      → NotedDelay (active s) w
      → Post NotedDelay (ActiveState.on_event e src s env w)
  unfolding ActiveState.on_event get_attr timer_round route
  on_active-NotedDelay Event.manual_stop s u h = ground arith
  on_active-NotedDelay e s u h = ground arith

  on_open_sent-NotedDelay :
      (e : Event X) (s : Fsm (OpenSent X))
      → is_unnoted (open_sent s) e ≡ false
      → NotedDelay (open_sent s) w
      → Post NotedDelay (OpenSentState.on_event e src s env w)
  unfolding OpenSentState.on_event get_attr timer_round route
  on_open_sent-NotedDelay Event.manual_stop s u h = ground arith
  on_open_sent-NotedDelay e s u h = ground arith

  on_open_confirm-NotedDelay :
      (e : Event X) (s : Fsm (OpenConfirm X))
      → is_unnoted (open_confirm s) e ≡ false
      → NotedDelay (open_confirm s) w
      → Post NotedDelay (OpenConfirmState.on_event e src s env w)
  unfolding OpenConfirmState.on_event get_attr timer_round route
  on_open_confirm-NotedDelay Event.manual_stop s u h = ground arith
  on_open_confirm-NotedDelay e s u h = ground arith

  on_established-NotedDelay :
      (e : Event X) (s : Fsm (Established X))
      → is_unnoted (established s) e ≡ false
      → NotedDelay (established s) w
      → Post NotedDelay (EstablishedState.on_event e src s env w)
  unfolding EstablishedState.on_event get_attr timer_round route
  on_established-NotedDelay Event.manual_stop s u h = ground arith
  on_established-NotedDelay e s u h = ground arith

-- Every transition that ends keeps right the session's notes on the ConnectRetryTimer, the
-- HoldTimer and the KeepaliveTimer: each is the duration that the commands of the log have set.
pub step-Noted :
    {X : Extern} (s : State X) (e : Event X) (src : Source) (env : Env) (w : World X)
    → Noted s w
    → Post Noted (step s e src env w)
unfolding step
step-Noted (idle s) e src env w h = on_idle-Noted src env w e s h
step-Noted (connect s) e src env w h = on_connect-Noted src env w e s h
step-Noted (active s) e src env w h = on_active-Noted src env w e s h
step-Noted (open_sent s) e src env w h = on_open_sent-Noted src env w e s h
step-Noted (open_confirm s) e src env w h = on_open_confirm-Noted src env w e s h
step-Noted (established s) e src env w h = on_established-Noted src env w e s h

-- Every transition that ends keeps right the note on the DelayOpenTimer, but for a passive
-- connection that comes up in Connect under `delay_open`.
pub step-NotedDelay :
    {X : Extern} (s : State X) (e : Event X) (src : Source) (env : Env) (w : World X)
    → is_unnoted s e ≡ false
    → NotedDelay s w
    → Post NotedDelay (step s e src env w)
unfolding step
step-NotedDelay (idle s) e src env w u h = on_idle-NotedDelay src env w e s u h
step-NotedDelay (connect s) e src env w u h = on_connect-NotedDelay src env w e s u h
step-NotedDelay (active s) e src env w u h = on_active-NotedDelay src env w e s u h
step-NotedDelay (open_sent s) e src env w u h = on_open_sent-NotedDelay src env w e s u h
step-NotedDelay (open_confirm s) e src env w u h = on_open_confirm-NotedDelay src env w e s u h
step-NotedDelay (established s) e src env w u h = on_established-NotedDelay src env w e s u h

-- From `State::new` with an empty log, a run over any schedule that does not panic ends with the
-- notes on the ConnectRetryTimer, the HoldTimer and the KeepaliveTimer right.
pub run-Noted :
    {X : Extern} (conf : Neighbor) (checks : Bool) (peer : SocketAddr) (ds : List (Delivery X))
    (task : JoinHandle) (channel : Sender)
    → Post Noted (
        run conf checks ds
          (new_state peer)
          (record { next_task = task; next_channel = channel; log = [] }))
unfolding new_state get_attr waits
run-Noted {X} conf checks peer ds task channel =
    run-keeps conf checks Noted (λ e. Unit {0})
      (λ s e src env w _ h. step-Noted s (receive s src e) src env w h) ds (new_state peer) _
      (Allows-all ds) (refl, refl, refl)
