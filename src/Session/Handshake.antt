-- ===== src/Session/Handshake.antt =====
-- The way to Established that the DelayOpenTimer opens, and the times that it negotiates.
use amnesia_bgp.Base.{◌/◌, ◌^◌, ◌<◌, Bool, true, Option, none, some, ◌≡◌, refl, arith, min}
use amnesia_bgp.Net.{from_secs}
use amnesia_bgp.Extern.{Extern}
use amnesia_bgp.Message.Types.{OpenMsg, from_conf}
use amnesia_bgp.Fsm.Types.{
  State, Event, connect, active, open_sent, open_confirm, established, Fsm, Connect, Active,
  OpenSent, Sender, SessionAttributes, TimerKind, get_attr,
}
use amnesia_bgp.Fsm.Runtime.{Env, World}
use amnesia_bgp.Fsm.TimerTask.{timer_round, route}
use amnesia_bgp.Session.Common.{Source}
use amnesia_bgp.Session.Post.{Ends, Ends-map}
use amnesia_bgp.Session.ConnectState
use amnesia_bgp.Session.ActiveState
use amnesia_bgp.Session.OpenSentState
use amnesia_bgp.Session.OpenConfirmState
use amnesia_bgp.Session.Run.{step}
use amnesia_bgp.Session.Clock.{waits}

-- The HoldTimer is set to the smaller of the two hold times, both in fact and in the attributes.
abbrev pub Holds : {X : Extern} → OpenMsg → OpenMsg → SessionAttributes → World X → Type 0
Holds l p a w =
    (waits TimerKind.hold w.log ≡ from_secs (min l.hold_time p.hold_time))
    × (a.cur_hold_time ≡ from_secs (min l.hold_time p.hold_time))
    × (a.hold_time ≡ from_secs (min l.hold_time p.hold_time))

-- The session is in OpenConfirm with both OPENs, and its HoldTimer is set by them.
abbrev pub Negotiated : {X : Extern} → OpenMsg → OpenMsg → State X → World X → Type 0
Negotiated l p (open_confirm f) w =
    (f.state.local_open ≡ some l) × (f.state.peer_open ≡ some p) × Holds l p f.attr w
Negotiated l p _ w = ⊥

-- The KeepaliveTimer is set to a third of the HoldTimer.
abbrev pub KeepaliveThird : {X : Extern} → State X → World X → Type 0
KeepaliveThird s w = waits TimerKind.keepalive w.log ≡ (get_attr s).cur_hold_time / 3

module _ {X : Extern} (src : Source) (env : Env) (w : World X) (msg : OpenMsg) (syn : Bool)
    (small : msg.hold_time < 2 ^ 16) where
  -- In Connect, with a live channel, an OPEN under the DelayOpenTimer sets the timers.
  on_connect-Negotiated :
      (s : Fsm Connect) {c : Sender}
      → s.state.bgp_out_tx ≡ some c
      → env.alive c ≡ true
      → Ends
          (λ t v. Negotiated (from_conf env.conf) msg t v × KeepaliveThird t v)
          (ConnectState.on_event (Event.bgp_open_with_delay_open_timer_running msg syn) src s env w)
  unfolding ConnectState.on_event get_attr timer_round route
  on_connect-Negotiated s p a = ground arith

  on_active-Negotiated :
      (s : Fsm Active) {c : Sender}
      → s.state.bgp_out_tx ≡ some c
      → env.alive c ≡ true
      → Ends
          (λ t v. Negotiated (from_conf env.conf) msg t v × KeepaliveThird t v)
          (ActiveState.on_event (Event.bgp_open_with_delay_open_timer_running msg syn) src s env w)
  unfolding ActiveState.on_event get_attr timer_round route
  on_active-Negotiated s p a = ground arith

  -- In OpenSent an OPEN on the session's own connection sets the timers, but for the time of the
  -- KeepaliveTimer, which stays what the attributes have.
  on_open_sent-Negotiated :
      (s : Fsm (OpenSent X)) {l : OpenMsg}
      → s.state.local_open ≡ some l
      → s.state.remote_syn ≡ syn
      → Ends
          (λ t v. Negotiated l msg t v × (waits TimerKind.keepalive v.log ≡ s.attr.keepalive_time))
          (OpenSentState.on_event (Event.bgp_open msg syn) src s env w)
  unfolding OpenSentState.on_event get_attr timer_round route
  on_open_sent-Negotiated s p a = ground arith

-- The channel of a session that waits for a connection.
abbrev pub waiting_tx : {X : Extern} → State X → Option Sender
waiting_tx (connect s) = s.state.bgp_out_tx
waiting_tx (active s) = s.state.bgp_out_tx
waiting_tx _ = none

-- In Connect or Active, with a live channel, the peer's OPEN under the DelayOpenTimer leads to
-- OpenConfirm with both OPENs kept: the HoldTimer is set to the smaller hold time, the KeepaliveTimer
-- to a third of it. There is no panic.
pub step-Negotiated :
    {X : Extern} (s : State X) (src : Source) (env : Env) (w : World X) (msg : OpenMsg) (syn : Bool)
    {c : Sender}
    → msg.hold_time < 2 ^ 16
    → waiting_tx s ≡ some c
    → env.alive c ≡ true
    → Ends
        (λ t v. Negotiated (from_conf env.conf) msg t v × KeepaliveThird t v)
        (step s (Event.bgp_open_with_delay_open_timer_running msg syn) src env w)
unfolding step
step-Negotiated (connect s) src env w msg syn small p a =
    on_connect-Negotiated src env w msg syn small s p a
step-Negotiated (active s) src env w msg syn small p a =
    on_active-Negotiated src env w msg syn small s p a
step-Negotiated _ src env w msg syn small p a = cc

-- In OpenSent, with the session's own OPEN noted, the peer's OPEN on the session's own connection
-- leads to OpenConfirm with both kept and the HoldTimer set to the smaller hold time, zero included;
-- the KeepaliveTimer is set to the time that the attributes had before, whatever was negotiated.
pub open_sent-Negotiated :
    {X : Extern} (s : Fsm (OpenSent X)) (src : Source) (env : Env) (w : World X) (msg : OpenMsg)
    {l : OpenMsg}
    → msg.hold_time < 2 ^ 16
    → s.state.local_open ≡ some l
    → Ends
        (λ t v. Negotiated l msg t v × (waits TimerKind.keepalive v.log ≡ s.attr.keepalive_time))
        (step (open_sent s) (Event.bgp_open msg s.state.remote_syn) src env w)
unfolding step
open_sent-Negotiated s src env w msg small p =
    on_open_sent-Negotiated src env w msg s.state.remote_syn small s p refl

-- The session is Established with the two OPENs, and its HoldTimer runs by them.
abbrev pub IsUp : {X : Extern} → OpenMsg → OpenMsg → State X → World X → Type 0
IsUp l p (established f) w =
    (f.state.local_open ≡ some l) × (f.state.peer_open ≡ some p) × Holds l p f.attr w
IsUp l p _ w = ⊥

keepalive-IsUp :
    {X : Extern} (l p : OpenMsg) (t : State X) (src : Source) (env : Env) (v : World X)
    → Negotiated l p t v
    → Ends (IsUp l p) (step t Event.keepalive_msg src env v)
unfolding step OpenConfirmState.on_event timer_round route
keepalive-IsUp l p (open_confirm f) src env v h = ground arith
keepalive-IsUp l p (connect f) src env v h = absurd h
keepalive-IsUp l p _ src env v h = absurd h

-- From Connect or Active, with a live channel, the peer's OPEN under the DelayOpenTimer and a
-- KEEPALIVE bring the session to Established with no panic, both OPENs kept and the HoldTimer set to
-- the smaller hold time.
pub handshake-IsUp :
    {X : Extern} (s : State X) (src src' : Source) (env env' : Env) (w : World X) (msg : OpenMsg)
    (syn : Bool) {c : Sender}
    → msg.hold_time < 2 ^ 16
    → waiting_tx s ≡ some c
    → env.alive c ≡ true
    → Ends
        (λ t v. Ends (IsUp (from_conf env.conf) msg) (step t Event.keepalive_msg src' env' v))
        (step s (Event.bgp_open_with_delay_open_timer_running msg syn) src env w)
handshake-IsUp s src src' env env' w msg syn small p a =
    Ends-map (λ t v h. keepalive-IsUp (from_conf env.conf) msg t src' env' v h.0)
      (step s (Event.bgp_open_with_delay_open_timer_running msg syn) src env w)
      (step-Negotiated s src env w msg syn small p a)
