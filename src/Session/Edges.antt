-- ===== src/Session/Edges.antt =====
-- The transition diagram of the session, without its attributes.
use amnesia_bgp.Base.{arith}
use amnesia_bgp.Extern.{Extern}
use amnesia_bgp.Fsm.Types.{
  State, Event, idle, connect, active, open_sent, open_confirm, established, Fsm, Idle, Connect,
  Active, OpenSent, OpenConfirm, Established,
}
use amnesia_bgp.Fsm.Runtime.{Env, World}
use amnesia_bgp.Session.Common.{Source}
use amnesia_bgp.Session.Post.{Post}
use amnesia_bgp.Session.IdleState
use amnesia_bgp.Session.ConnectState
use amnesia_bgp.Session.ActiveState
use amnesia_bgp.Session.OpenSentState
use amnesia_bgp.Session.OpenConfirmState
use amnesia_bgp.Session.EstablishedState
use amnesia_bgp.Session.Run.{step}

pub data Phase : Type 0 where
  is_idle is_connect is_active is_open_sent is_open_confirm is_established : Phase

abbrev pub phase : {X : Extern} → State X → Phase
phase (idle s) = is_idle
phase (connect s) = is_connect
phase (active s) = is_active
phase (open_sent s) = is_open_sent
phase (open_confirm s) = is_open_confirm
phase (established s) = is_established

infix 40 ◌⟶◌
pub data ◌⟶◌ : Phase → Phase → Type 0 where
  stay : {p : Phase} → p ⟶ p
  drop : {p : Phase} → p ⟶ is_idle
  start : is_idle ⟶ is_connect
  listen : is_idle ⟶ is_active
  give_way : is_connect ⟶ is_active
  retry : is_active ⟶ is_connect
  connect_open : is_connect ⟶ is_open_sent
  active_open : is_active ⟶ is_open_sent
  connect_confirm : is_connect ⟶ is_open_confirm
  active_confirm : is_active ⟶ is_open_confirm
  lose : is_open_sent ⟶ is_active
  confirm : is_open_sent ⟶ is_open_confirm
  establish : is_open_confirm ⟶ is_established

ruleset edges = (
  stay, drop, start, listen, give_way, retry, connect_open, active_open, connect_confirm,
  active_confirm, lose, confirm, establish,
)

module _ {X : Extern} (src : Source) (env : Env) (w : World X) where
  on_idle-⟶ :
      (e : Event X) (s : Fsm Idle)
      → Post (λ t _. is_idle ⟶ phase t) (IdleState.on_event e src s env w)
  unfolding IdleState.on_event
  on_idle-⟶ Event.manual_start s = grind (arith, edges)
  on_idle-⟶ e s = grind (arith, edges)

  on_connect-⟶ :
      (e : Event X) (s : Fsm Connect)
      → Post (λ t _. is_connect ⟶ phase t) (ConnectState.on_event e src s env w)
  unfolding ConnectState.on_event
  on_connect-⟶ Event.manual_stop s = grind (arith, edges)
  on_connect-⟶ e s = grind (arith, edges)

  on_active-⟶ :
      (e : Event X) (s : Fsm Active)
      → Post (λ t _. is_active ⟶ phase t) (ActiveState.on_event e src s env w)
  unfolding ActiveState.on_event
  on_active-⟶ Event.manual_stop s = grind (arith, edges)
  on_active-⟶ e s = grind (arith, edges)

  on_open_sent-⟶ :
      (e : Event X) (s : Fsm (OpenSent X))
      → Post (λ t _. is_open_sent ⟶ phase t) (OpenSentState.on_event e src s env w)
  unfolding OpenSentState.on_event
  on_open_sent-⟶ Event.manual_stop s = grind (arith, edges)
  on_open_sent-⟶ e s = grind (arith, edges)

  on_open_confirm-⟶ :
      (e : Event X) (s : Fsm (OpenConfirm X))
      → Post (λ t _. is_open_confirm ⟶ phase t) (OpenConfirmState.on_event e src s env w)
  unfolding OpenConfirmState.on_event
  on_open_confirm-⟶ Event.manual_stop s = grind (arith, edges)
  on_open_confirm-⟶ e s = grind (arith, edges)

  on_established-⟶ :
      (e : Event X) (s : Fsm (Established X))
      → Post (λ t _. is_established ⟶ phase t) (EstablishedState.on_event e src s env w)
  unfolding EstablishedState.on_event
  on_established-⟶ Event.manual_stop s = grind (arith, edges)
  on_established-⟶ e s = grind (arith, edges)

-- Every transition that ends follows an edge of the diagram `◌⟶◌`.
pub step-⟶ :
    {X : Extern} (s : State X) (e : Event X) (src : Source) (env : Env) (w : World X)
    → Post (λ t _. phase s ⟶ phase t) (step s e src env w)
unfolding step
step-⟶ (idle s) e src env w = on_idle-⟶ src env w e s
step-⟶ (connect s) e src env w = on_connect-⟶ src env w e s
step-⟶ (active s) e src env w = on_active-⟶ src env w e s
step-⟶ (open_sent s) e src env w = on_open_sent-⟶ src env w e s
step-⟶ (open_confirm s) e src env w = on_open_confirm-⟶ src env w e s
step-⟶ (established s) e src env w = on_established-⟶ src env w e s
