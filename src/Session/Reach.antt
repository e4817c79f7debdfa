-- ===== src/Session/Reach.antt =====
-- Which states a session gets to from `State::new`. No transition sets `delay_open`, so the
-- DelayOpenTimer never runs, and only that timer's arms send an OPEN that is noted in `local_open`.
use amnesia_bgp.Base.{Bool, true, false, none, List, ◌≡◌, refl, arith}
use amnesia_bgp.Net.{SocketAddr}
use amnesia_bgp.Config.{Neighbor}
use amnesia_bgp.Extern.{Extern}
use amnesia_bgp.Fsm.Types.{
  State, Event, idle, connect, active, open_sent, open_confirm, established, Fsm, Idle, Connect,
  Active, OpenSent, far_future, get_attr, new_state,
}
use amnesia_bgp.Fsm.Runtime.{Env, World}
use amnesia_bgp.Session.Common.{Source}
use amnesia_bgp.Session.Post.{Post}
use amnesia_bgp.Session.IdleState
use amnesia_bgp.Session.ConnectState
use amnesia_bgp.Session.ActiveState
use amnesia_bgp.Session.OpenSentState
use amnesia_bgp.Session.Run.{Delivery, receive, step, run}
use amnesia_bgp.Session.Runs.{Allows, run-keeps}

-- The senders of the program deliver every event but this one, which `run` makes itself.
abbrev pub is_renamed : {X : Extern} → Event X → Bool
is_renamed (Event.bgp_open_with_delay_open_timer_running msg remote_syn) = true
is_renamed _ = false

-- No OPEN of the session is noted, and the DelayOpenTimer does not run.
abbrev pub IsUnopened : {X : Extern} → State X → World X → Type 0
IsUnopened (idle s) w = (s.attr.delay_open ≡ false) × (s.attr.cur_delay_open_time ≡ far_future)
IsUnopened (connect s) w = (s.attr.delay_open ≡ false) × (s.attr.cur_delay_open_time ≡ far_future)
IsUnopened (active s) w =
    (s.attr.delay_open ≡ false)
    × (s.attr.cur_delay_open_time ≡ far_future)
    × (s.state.bgp_out_tx ≡ none)
IsUnopened (open_sent s) w =
    (s.attr.delay_open ≡ false)
    × (s.attr.cur_delay_open_time ≡ far_future)
    × (s.state.local_open ≡ none)
IsUnopened _ w = ⊥

module _ {X : Extern} (src : Source) (env : Env) (w : World X) where
  on_idle-IsUnopened :
      (e : Event X) (s : Fsm Idle)
      → is_renamed e ≡ false
      → IsUnopened (idle s) w
      → Post IsUnopened (IdleState.on_event e src s env w)
  unfolding IdleState.on_event
  on_idle-IsUnopened Event.manual_start s a h = ground arith
  on_idle-IsUnopened e s a h = ground arith

  on_connect-IsUnopened :
      (e : Event X) (s : Fsm Connect)
      → is_renamed e ≡ false
      → IsUnopened (connect s) w
      → Post IsUnopened (ConnectState.on_event e src s env w)
  unfolding ConnectState.on_event
  on_connect-IsUnopened Event.manual_stop s a h = ground arith
  on_connect-IsUnopened e s a h = ground arith

  on_active-IsUnopened :
      (e : Event X) (s : Fsm Active)
      → is_renamed e ≡ false
      → IsUnopened (active s) w
      → Post IsUnopened (ActiveState.on_event e src s env w)
  unfolding ActiveState.on_event
  on_active-IsUnopened Event.manual_stop s a h = ground arith
  on_active-IsUnopened e s a h = ground arith

  on_open_sent-IsUnopened :
      (e : Event X) (s : Fsm (OpenSent X))
      → is_renamed e ≡ false
      → IsUnopened (open_sent s) w
      → Post IsUnopened (OpenSentState.on_event e src s env w)
  unfolding OpenSentState.on_event
  on_open_sent-IsUnopened Event.manual_stop s a h = ground arith
  on_open_sent-IsUnopened e s a h = ground arith

-- While the DelayOpenTimer does not run, no event is renamed.
receive-is_renamed :
    {X : Extern} (s : State X) (src : Source) (e : Event X) (w : World X)
    → is_renamed e ≡ false
    → IsUnopened s w
    → is_renamed (receive s src e) ≡ false
unfolding receive get_attr
receive-is_renamed (idle s) src e w a h = ground arith
receive-is_renamed (connect s) src e w a h = ground arith
receive-is_renamed (active s) src e w a h = ground arith
receive-is_renamed (open_sent s) src e w a h = ground arith
receive-is_renamed (open_confirm s) src e w a h = absurd h
receive-is_renamed (established s) src e w a h = absurd h

step-IsUnopened :
    {X : Extern} (s : State X) (e : Event X) (src : Source) (env : Env) (w : World X)
    → is_renamed e ≡ false
    → IsUnopened s w
    → Post IsUnopened (step s e src env w)
unfolding step
step-IsUnopened (idle s) e src env w a h = on_idle-IsUnopened src env w e s a h
step-IsUnopened (connect s) e src env w a h = on_connect-IsUnopened src env w e s a h
step-IsUnopened (active s) e src env w a h = on_active-IsUnopened src env w e s a h
step-IsUnopened (open_sent s) e src env w a h = on_open_sent-IsUnopened src env w e s a h
step-IsUnopened (open_confirm s) e src env w a h = absurd h
step-IsUnopened (established s) e src env w a h = absurd h

-- From `State::new` no schedule of events that the program's senders send leads to OpenConfirm or
-- Established: a run that does not panic ends in one of the four states before.
pub run-IsUnopened :
    {X : Extern} (conf : Neighbor) (checks : Bool) (peer : SocketAddr) (ds : List (Delivery X))
    (w : World X)
    → Allows (λ e. is_renamed e ≡ false) ds
    → Post IsUnopened (run conf checks ds (new_state peer) w)
unfolding new_state
run-IsUnopened conf checks peer ds w a =
    run-keeps conf checks IsUnopened (λ e. is_renamed e ≡ false)
      (λ s e src env v b h.
        step-IsUnopened s (receive s src e) src env v (receive-is_renamed s src e v b h) h)
      ds (new_state peer) w a (refl, refl)
