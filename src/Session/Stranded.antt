-- ===== src/Session/Stranded.antt =====
-- The conversion from Connect to OpenSent drops the channel to the connection that was just made,
-- so the session that waits for the peer's OPEN cannot speak, and most events are its end.
use amnesia_bgp.Base.{Bool, true, false, none, ◌≡◌, arith}
use amnesia_bgp.Extern.{Extern}
use amnesia_bgp.Fsm.Types.{State, Event, connect, open_sent, Fsm, Connect, OpenSent}
use amnesia_bgp.Fsm.Runtime.{Env, World, Exec, done, panicked}
use amnesia_bgp.Session.Common.{Source}
use amnesia_bgp.Session.Post.{Ends, Ends-map}
use amnesia_bgp.Session.ConnectState
use amnesia_bgp.Session.OpenSentState
use amnesia_bgp.Session.Run.{step}

abbrev pub Panics : {X : Extern} {A : Type 0} → Exec X A → Type 0
Panics (done a w) = ⊥
Panics (panicked w) = Unit {0}

-- The events that bring a connection.
abbrev pub brings_connection : {X : Extern} → Event X → Bool
brings_connection (Event.tcp_cr_acked stream) = true
brings_connection (Event.tcp_connection_confirmed conn) = true
brings_connection _ = false

-- The events whose arm in OpenSent reads the channel or the session's own OPEN.
abbrev pub needs_connection : {X : Extern} → Event X → Bool
needs_connection Event.manual_start = false
needs_connection Event.automatic_start = false
needs_connection Event.manual_start_with_passive_tcp_establishment = false
needs_connection Event.automatic_start_with_passive_tcp_establishment = false
needs_connection Event.automatic_start_with_damp_peer_oscillations = false
needs_connection Event.automatic_start_with_damp_peer_oscillations_and_passive_tcp_establishment =
    false
needs_connection Event.tcp_connection_valid = false
needs_connection (Event.tcp_cr_acked stream) = false
needs_connection (Event.tcp_connection_confirmed conn) = false
needs_connection (Event.process_one_done conn) = false
needs_connection Event.tcp_cr_invalid = false
needs_connection (Event.tcp_connection_fails err) = false
needs_connection (Event.bgp_header_err err) = false
needs_connection (Event.bgp_open_msg_err err) = false
needs_connection (Event.notify_msg_ver_err err) = false
needs_connection _ = true

module _ {X : Extern} (src : Source) (env : Env) (w : World X) where
  open_sent-Panics :
      (e : Event X) (s : Fsm (OpenSent X))
      → needs_connection e ≡ true
      → s.state.bgp_out_tx ≡ none
      → s.state.local_open ≡ none
      → Panics (step (open_sent s) e src env w)
  unfolding step OpenSentState.on_event
  open_sent-Panics Event.manual_stop s n p q = ground arith
  open_sent-Panics e s n p q = ground arith

-- A state of OpenSent with neither channel nor OPEN of its own.
abbrev pub IsStranded : {X : Extern} → State X → World X → Type 0
IsStranded (open_sent s) w = (s.state.bgp_out_tx ≡ none) × (s.state.local_open ≡ none)
IsStranded _ w = ⊥

connect-IsStranded :
    {X : Extern} (e : Event X) (s : Fsm Connect) (src : Source) (env : Env) (w : World X)
    → brings_connection e ≡ true
    → s.attr.delay_open ≡ false
    → env.alive w.next_channel ≡ true
    → Ends IsStranded (step (connect s) e src env w)
unfolding step ConnectState.on_event
connect-IsStranded Event.manual_stop s src env w b d a = cc
connect-IsStranded e s src env w b d a = ground arith

IsStranded-Panics :
    {X : Extern} (t : State X) (e : Event X) (src : Source) (env : Env) (w v : World X)
    → needs_connection e ≡ true
    → IsStranded t v
    → Panics (step t e src env w)
IsStranded-Panics (open_sent s) e src env w v n h = open_sent-Panics src env w e s n h.0 h.1
IsStranded-Panics (State.connect s) e src env w v n h = absurd h
IsStranded-Panics t e src env w v n h = absurd h

-- In Connect with no delay, and if the channel that it creates for the connection has its receiver, a
-- connection that comes up moves the session with no panic to OpenSent, with neither a channel nor an
-- OPEN of its own. There each event whose arm needs one of them, the peer's OPEN among them, panics if
-- it is the next one.
pub connect-Panics :
    {X : Extern} (s : Fsm Connect) (e e' : Event X) (src src' : Source) (env env' : Env)
    (w : World X)
    → brings_connection e ≡ true
    → s.attr.delay_open ≡ false
    → env.alive w.next_channel ≡ true
    → needs_connection e' ≡ true
    → Ends (λ t v. IsStranded t v × Panics (step t e' src' env' v)) (step (connect s) e src env w)
connect-Panics s e e' src src' env env' w b d a n =
    Ends-map (λ t v h. (h, IsStranded-Panics t e' src' env' v v n h)) (step (connect s) e src env w)
      (connect-IsStranded e s src env w b d a)
