-- ===== src/Session/Collision.antt =====
-- Collision detection: an OPEN from the other direction than the session's own connection.
use amnesia_bgp.Base.{
  List, [], ◌∷◌, ◌++◌, Bool, true, false, Option, none, some, ltb, ◌&&◌, ◌≡◌, arith, if◌then◌else◌,
}
use amnesia_bgp.Extern.{Extern}
use amnesia_bgp.Error.{cease}
use amnesia_bgp.Config.{Neighbor}
use amnesia_bgp.Message.Types.{OpenMsg, open_msg, from_conf}
use amnesia_bgp.Connection.{BgpConn}
use amnesia_bgp.Fsm.Types.{
  State, Event, open_sent, open_confirm, established, Fsm, OpenSent, OpenConfirm, Established,
  Sender,
}
use amnesia_bgp.Fsm.Runtime.{Env, World, Effect, timer_ctr, out, spawn_process}
use amnesia_bgp.Session.Common.{Source, plain_notification}
use amnesia_bgp.Session.Post.{Ends}
use amnesia_bgp.Session.OpenSentState
use amnesia_bgp.Session.OpenSentState.{bool_ne}
use amnesia_bgp.Session.OpenConfirmState
use amnesia_bgp.Session.EstablishedState
use amnesia_bgp.Session.Run.{step}
use amnesia_bgp.Session.Notice.{out_tx, conn_handle}

abbrev pub local_open_of : {X : Extern} → State X → Option OpenMsg
local_open_of (open_sent s) = s.state.local_open
local_open_of (open_confirm s) = s.state.local_open
local_open_of (established s) = s.state.local_open
local_open_of _ = none

abbrev pub collision_conn_of : {X : Extern} → State X → Option (BgpConn X)
collision_conn_of (open_sent s) = s.state.collision_conn
collision_conn_of (open_confirm s) = s.state.collision_conn
collision_conn_of (established s) = s.state.collision_conn
collision_conn_of _ = none

abbrev pub remote_syn_of : {X : Extern} → State X → Bool
remote_syn_of (open_sent s) = s.state.remote_syn
remote_syn_of (open_confirm s) = s.state.remote_syn
remote_syn_of (established s) = s.state.remote_syn
remote_syn_of _ = false

-- Established detects collisions only where the attribute asks for it.
abbrev pub detects : {X : Extern} → State X → Bool
detects (established s) = s.attr.collision_detect_established_state
detects _ = true

-- What is done but to timers, the newest first.
abbrev pub untimed : {X : Extern} → List (Effect X) → List (Effect X)
untimed [] = []
untimed (timer_ctr t ∷ es) = untimed es
untimed (e ∷ es) = e ∷ untimed es

-- A takeover, the newest effect first: a Cease on the old channel (not in OpenConfirm), the task of
-- the colliding connection, and in OpenSent the OPEN on the new channel for a remote connection.
abbrev pub takeover :
    {X : Extern} → Neighbor → State X → World X → Sender → BgpConn X → Bool → List (Effect X)
takeover conf (open_sent s) w c conn true =
    out w.next_channel (open_msg (from_conf conf))
    ∷ spawn_process w.next_task conn w.next_channel true
    ∷ out c (plain_notification cease)
    ∷ []
takeover conf (open_sent s) w c conn false =
    spawn_process w.next_task conn w.next_channel false ∷ out c (plain_notification cease) ∷ []
takeover conf (established s) w c conn syn =
    spawn_process w.next_task conn w.next_channel syn ∷ out c (plain_notification cease) ∷ []
takeover conf s w c conn syn = spawn_process w.next_task conn w.next_channel syn ∷ []

-- The colliding connection has taken over, or is dropped. The direction is not updated.
abbrev pub Resolved :
    {X : Extern} → Bool → List (Effect X) → State X → World X → State X → World X → Type 0
Resolved wins effects s w t v =
    (untimed v.log ≡ (if wins then effects ++ untimed w.log else untimed w.log))
    × (collision_conn_of t ≡ none)
    × (out_tx t ≡ (if wins then some w.next_channel else out_tx s))
    × (conn_handle t ≡ (if wins then some w.next_task else conn_handle s))
    × (local_open_of t ≡ local_open_of s)
    × (remote_syn_of t ≡ remote_syn_of s)

module _ {X : Extern} (src : Source) (env : Env) (w : World X) (msg : OpenMsg) (syn : Bool)
    (alive : (c : Sender) → env.alive c ≡ true) {l : OpenMsg} {conn : BgpConn X} {c : Sender} where
  on_open_sent-Resolved :
      (s : Fsm (OpenSent X))
      → s.state.local_open ≡ some l
      → s.state.collision_conn ≡ some conn
      → s.state.bgp_out_tx ≡ some c
      → bool_ne s.state.remote_syn syn ≡ true
      → Ends
          (Resolved
            (ltb l.bgp_identifier msg.bgp_identifier)
            (takeover env.conf (open_sent s) w c conn syn)
            (open_sent s)
            w)
          (OpenSentState.on_event (Event.bgp_open msg syn) src s env w)
  unfolding OpenSentState.on_event
  on_open_sent-Resolved s p q r d = grind (arith, alive)

  on_open_confirm-Resolved :
      (s : Fsm (OpenConfirm X))
      → s.state.local_open ≡ some l
      → s.state.collision_conn ≡ some conn
      → s.state.bgp_out_tx ≡ some c
      → bool_ne s.state.remote_syn syn ≡ true
      → Ends
          (Resolved
            (ltb l.bgp_identifier msg.bgp_identifier)
            (takeover env.conf (open_confirm s) w c conn syn)
            (open_confirm s)
            w)
          (OpenConfirmState.on_event (Event.bgp_open msg syn) src s env w)
  unfolding OpenConfirmState.on_event
  on_open_confirm-Resolved s p q r d = grind (arith, alive)

  on_established-Resolved :
      (s : Fsm (Established X))
      → s.state.local_open ≡ some l
      → s.state.collision_conn ≡ some conn
      → s.state.bgp_out_tx ≡ some c
      → bool_ne s.state.remote_syn syn ≡ true
      → Ends
          (Resolved
            (s.attr.collision_detect_established_state && ltb l.bgp_identifier msg.bgp_identifier)
            (takeover env.conf (established s) w c conn syn)
            (established s)
            w)
          (EstablishedState.on_event (Event.bgp_open msg syn) src s env w)
  unfolding EstablishedState.on_event
  on_established-Resolved s p q r d = grind (arith, alive)

-- An OPEN from the other direction, with the session's own OPEN, its channel and the colliding
-- connection kept, and with every channel live. If the session's BGP identifier is the smaller one
-- (and, in Established, if detection is on) the colliding connection takes over: `process` is spawned
-- for it, with a new channel and its direction, and channel and task are the session's from then on.
-- Except in OpenConfirm, a Cease is put on the old channel before that; in OpenSent, if the direction
-- is that of a remote connection, an OPEN is put on the new channel behind it. Else the colliding
-- connection is dropped and the session keeps its own. Either way nothing else is done but to timers,
-- nothing colliding is kept, nothing panics, and `remote_syn` stays the old connection's.
pub step-Resolved :
    {X : Extern} (s : State X) (src : Source) (env : Env) (w : World X) (msg : OpenMsg) (syn : Bool)
    {l : OpenMsg} {conn : BgpConn X} {c : Sender}
    → ((c : Sender) → env.alive c ≡ true)
    → local_open_of s ≡ some l
    → collision_conn_of s ≡ some conn
    → out_tx s ≡ some c
    → bool_ne (remote_syn_of s) syn ≡ true
    → Ends
        (Resolved
          (detects s && ltb l.bgp_identifier msg.bgp_identifier)
          (takeover env.conf s w c conn syn)
          s
          w)
        (step s (Event.bgp_open msg syn) src env w)
unfolding step
step-Resolved (open_sent s) src env w msg syn alive p q r d =
    on_open_sent-Resolved src env w msg syn alive s p q r d
step-Resolved (open_confirm s) src env w msg syn alive p q r d =
    on_open_confirm-Resolved src env w msg syn alive s p q r d
step-Resolved (established s) src env w msg syn alive p q r d =
    on_established-Resolved src env w msg syn alive s p q r d
step-Resolved _ src env w msg syn alive p q r d = cc
