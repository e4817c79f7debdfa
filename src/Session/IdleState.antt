-- ===== src/Session/IdleState.antt =====
-- The arms of `run` in src/session.rs for the Idle state.
use amnesia_bgp.Base.{some}
use amnesia_bgp.Extern.{Extern}
use amnesia_bgp.Fsm.Types.{Fsm, Idle, State, Event, connect, active, idle, dflt_bgp_timers_connect}
use amnesia_bgp.Fsm.Runtime.{M, pure, ◌>>=◌, spawn, spawn_try_tcp_conn}
use amnesia_bgp.Fsm.Convert.{idle_to_connect, idle_to_active}
use amnesia_bgp.Session.Common.{Source, set_connect_retry_counter, update_connect_retry}

module _ {X : Extern} where
  -- Events 1 and 3: the session connects to its peer.
  unfoldable pub start : Fsm Idle → M X (State X)
  unfolding idle_to_connect
  start s = do
    let fsm = set_connect_retry_counter 0 (idle_to_connect s)
    fsm' ← update_connect_retry dflt_bgp_timers_connect fsm
    h ← spawn (λ h. spawn_try_tcp_conn h fsm'.peer)
    pure (connect (record fsm' { state = record (fsm'.state) { tcp_conn_handle = some h } }))

  -- Events 4 and 5: the session waits for its peer.
  unfoldable pub start_passive : Fsm Idle → M X (State X)
  unfolding idle_to_active
  start_passive s = do
    let fsm = set_connect_retry_counter 0 (idle_to_active s)
    fsm' ← update_connect_retry dflt_bgp_timers_connect fsm
    pure (active fsm')

  unfoldable pub on_event : Event X → Source → Fsm Idle → M X (State X)
  unfolding start start_passive
  on_event Event.manual_start src s = start s
  on_event Event.automatic_start src s = start s
  on_event Event.manual_start_with_passive_tcp_establishment src s = start_passive s
  on_event Event.automatic_start_with_passive_tcp_establishment src s = start_passive s
  on_event e src s = pure (idle s)
