-- ===== src/Session/Equipped.antt =====
-- Past the exchange of OPENs a session holds both messages and the channel to its connection, and
-- no transition panics but for four reasons.
use amnesia_bgp.Base.{is_some, ◌+◌, ◌^◌, ◌<◌, Bool, true, false, List, ◌≡◌, arith, ◌&&◌, ◌⊎◌}
use amnesia_bgp.Net.{SocketAddr}
use amnesia_bgp.Config.{Neighbor}
use amnesia_bgp.Extern.{Extern}
use amnesia_bgp.Fsm.Types.{
  State, Event, idle, connect, active, open_sent, open_confirm, established, Fsm, Idle, Connect,
  Active, OpenSent, OpenConfirm, Established, Sender, get_attr, new_state,
}
use amnesia_bgp.Fsm.Runtime.{Env, World}
use amnesia_bgp.Session.Common.{Source}
use amnesia_bgp.Session.Post.{Post, Ends}
use amnesia_bgp.Session.IdleState
use amnesia_bgp.Session.ConnectState
use amnesia_bgp.Session.ActiveState
use amnesia_bgp.Session.OpenSentState
use amnesia_bgp.Session.OpenSentState.{bool_ne}
use amnesia_bgp.Session.OpenConfirmState
use amnesia_bgp.Session.EstablishedState
use amnesia_bgp.Session.Run.{Delivery, receive, step, run}
use amnesia_bgp.Session.Runs.{Allows-all, run-keeps}

-- In OpenConfirm and Established both OPENs and the channel are there. In OpenSent the channel is
-- there if the session's own OPEN is.
abbrev pub IsEquipped : {X : Extern} → State X → World X → Type 0
IsEquipped (open_sent s) w =
    (is_some s.state.local_open ≡ false) ⊎ (is_some s.state.bgp_out_tx ≡ true)
IsEquipped (open_confirm s) w =
    (is_some s.state.local_open ≡ true)
    × (is_some s.state.peer_open ≡ true)
    × (is_some s.state.bgp_out_tx ≡ true)
IsEquipped (established s) w =
    (is_some s.state.local_open ≡ true)
    × (is_some s.state.peer_open ≡ true)
    × (is_some s.state.bgp_out_tx ≡ true)
IsEquipped _ w = Unit {0}

module _ {X : Extern} (src : Source) (env : Env) (w : World X) where
  on_idle-IsEquipped :
      (e : Event X) (s : Fsm Idle)
      → IsEquipped (idle s) w
      → Post IsEquipped (IdleState.on_event e src s env w)
  unfolding IdleState.on_event
  on_idle-IsEquipped Event.manual_start s h = ground arith
  on_idle-IsEquipped e s h = ground arith

  on_connect-IsEquipped :
      (e : Event X) (s : Fsm Connect)
      → IsEquipped (connect s) w
      → Post IsEquipped (ConnectState.on_event e src s env w)
  unfolding ConnectState.on_event
  on_connect-IsEquipped Event.manual_stop s h = ground arith
  on_connect-IsEquipped e s h = ground arith

  on_active-IsEquipped :
      (e : Event X) (s : Fsm Active)
      → IsEquipped (active s) w
      → Post IsEquipped (ActiveState.on_event e src s env w)
  unfolding ActiveState.on_event
  on_active-IsEquipped Event.manual_stop s h = ground arith
  on_active-IsEquipped e s h = ground arith

  on_open_sent-IsEquipped :
      (e : Event X) (s : Fsm (OpenSent X))
      → IsEquipped (open_sent s) w
      → Post IsEquipped (OpenSentState.on_event e src s env w)
  unfolding OpenSentState.on_event
  on_open_sent-IsEquipped Event.manual_stop s h = ground arith
  on_open_sent-IsEquipped e s h = ground arith

  on_open_confirm-IsEquipped :
      (e : Event X) (s : Fsm (OpenConfirm X))
      → IsEquipped (open_confirm s) w
      → Post IsEquipped (OpenConfirmState.on_event e src s env w)
  unfolding OpenConfirmState.on_event
  on_open_confirm-IsEquipped Event.manual_stop s h = ground arith
  on_open_confirm-IsEquipped e s h = ground arith

  on_established-IsEquipped :
      (e : Event X) (s : Fsm (Established X))
      → IsEquipped (established s) w
      → Post IsEquipped (EstablishedState.on_event e src s env w)
  unfolding EstablishedState.on_event
  on_established-IsEquipped Event.manual_stop s h = ground arith
  on_established-IsEquipped e s h = ground arith

-- Every transition that ends keeps a session equipped: with both OPENs and the channel in
-- OpenConfirm and Established, and in OpenSent with the channel if its own OPEN is there.
pub step-IsEquipped :
    {X : Extern} (s : State X) (e : Event X) (src : Source) (env : Env) (w : World X)
    → IsEquipped s w
    → Post IsEquipped (step s e src env w)
unfolding step
step-IsEquipped (idle s) e src env w h = on_idle-IsEquipped src env w e s h
step-IsEquipped (connect s) e src env w h = on_connect-IsEquipped src env w e s h
step-IsEquipped (active s) e src env w h = on_active-IsEquipped src env w e s h
step-IsEquipped (open_sent s) e src env w h = on_open_sent-IsEquipped src env w e s h
step-IsEquipped (open_confirm s) e src env w h = on_open_confirm-IsEquipped src env w e s h
step-IsEquipped (established s) e src env w h = on_established-IsEquipped src env w e s h

-- From `State::new` a run over any schedule that does not panic ends with the session equipped.
pub run-IsEquipped :
    {X : Extern} (conf : Neighbor) (checks : Bool) (peer : SocketAddr) (ds : List (Delivery X))
    (w : World X)
    → Post IsEquipped (run conf checks ds (new_state peer) w)
unfolding new_state
run-IsEquipped conf checks peer ds w =
    run-keeps conf checks IsEquipped (λ e. Unit {0})
      (λ s e src env v _ h. step-IsEquipped s (receive s src e) src env v h) ds (new_state peer) w
      (Allows-all ds) tt

-- The event is no OPEN, or the OPEN comes from the other direction than the session's connection
-- and the connection that it came by has been kept.
abbrev pub is_calm : {X : Extern} → State X → Event X → Bool
is_calm (open_confirm s) (Event.bgp_open msg remote_syn) =
    bool_ne s.state.remote_syn remote_syn && is_some s.state.collision_conn
is_calm (established s) (Event.bgp_open msg remote_syn) =
    bool_ne s.state.remote_syn remote_syn && is_some s.state.collision_conn
is_calm _ _ = true

module _ {X : Extern} (src : Source) (env : Env) (w : World X)
    (alive : (c : Sender) → env.alive c ≡ true) where
  on_open_confirm-Ends :
      (e : Event X) (s : Fsm (OpenConfirm X))
      → IsEquipped (open_confirm s) w
      → is_calm (open_confirm s) e ≡ true
      → s.attr.connect_retry_counter + 1 < 2 ^ 64
      → Ends IsEquipped (OpenConfirmState.on_event e src s env w)
  unfolding OpenConfirmState.on_event
  on_open_confirm-Ends Event.manual_stop s h q b = grind (arith, alive)
  on_open_confirm-Ends e s h q b = grind (arith, alive)

  on_established-Ends :
      (e : Event X) (s : Fsm (Established X))
      → IsEquipped (established s) w
      → is_calm (established s) e ≡ true
      → s.attr.connect_retry_counter + 1 < 2 ^ 64
      → Ends IsEquipped (EstablishedState.on_event e src s env w)
  unfolding EstablishedState.on_event
  on_established-Ends Event.manual_stop s h q b = grind (arith, alive)
  on_established-Ends e s h q b = grind (arith, alive)

abbrev pub is_late : {X : Extern} → State X → Bool
is_late (open_confirm s) = true
is_late (established s) = true
is_late _ = false

-- An equipped session in OpenConfirm or Established, whose channels all have their receiver and
-- whose retry counter is below its limit, takes with no panic every event that is no OPEN, and
-- stays equipped. So it takes an OPEN from the other direction than its own connection's, if the
-- connection that it came by was kept.
pub step-Ends :
    {X : Extern} (s : State X) (e : Event X) (src : Source) (env : Env) (w : World X)
    → ((c : Sender) → env.alive c ≡ true)
    → is_late s ≡ true
    → IsEquipped s w
    → is_calm s e ≡ true
    → (get_attr s).connect_retry_counter + 1 < 2 ^ 64
    → Ends IsEquipped (step s e src env w)
unfolding step get_attr
step-Ends (open_confirm s) e src env w alive late h q b =
    on_open_confirm-Ends src env w alive e s h q b
step-Ends (established s) e src env w alive late h q b =
    on_established-Ends src env w alive e s h q b
step-Ends (idle s) e src env w alive late h q b = cc
step-Ends (connect s) e src env w alive late h q b = cc
step-Ends (active s) e src env w alive late h q b = cc
step-Ends (open_sent s) e src env w alive late h q b = cc
