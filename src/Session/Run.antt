-- ===== src/Session/Run.antt =====
-- The loop of `run` in src/session.rs: it takes the next event off one of the five channels and
-- dispatches on the state.
use amnesia_bgp.Base.{Bool, Option, none, some, List, [], ◌∷◌, not, ◌==◌, if◌then◌else◌}
use amnesia_bgp.Config.{Neighbor}
use amnesia_bgp.Extern.{Extern}
use amnesia_bgp.Fsm.Types.{
  State, Event, idle, connect, active, open_sent, open_confirm, established, Sender, far_future,
  get_attr,
}
use amnesia_bgp.Fsm.Runtime.{M, Exec, done, panicked, World}
use amnesia_bgp.Session.Common.{Source}
use amnesia_bgp.Session.IdleState
use amnesia_bgp.Session.ConnectState
use amnesia_bgp.Session.ActiveState
use amnesia_bgp.Session.OpenSentState
use amnesia_bgp.Session.OpenConfirmState
use amnesia_bgp.Session.EstablishedState

module _ {X : Extern} where
  -- An OPEN that arrives by the admin channel is renamed while the DelayOpenTimer runs.
  unfoldable pub receive : State X → Source → Event X → Event X
  unfolding get_attr
  receive s Source.admin (Event.bgp_open msg remote_syn) =
      if not ((get_attr s).cur_delay_open_time == far_future)
      then Event.bgp_open_with_delay_open_timer_running msg remote_syn
      else Event.bgp_open msg remote_syn
  receive s src e = e

  -- `match (session, event, source)`
  unfoldable pub step : State X → Event X → Source → M X (State X)
  step (idle s) e src = IdleState.on_event e src s
  step (connect s) e src = ConnectState.on_event e src s
  step (active s) e src = ActiveState.on_event e src s
  step (open_sent s) e src = OpenSentState.on_event e src s
  step (open_confirm s) e src = OpenConfirmState.on_event e src s
  step (established s) e src = EstablishedState.on_event e src s

-- What `select!` delivers: an event by one of the channels (`none` if that channel is closed), at a
-- time when certain channels to connection tasks still have their receiver.
pub record Delivery (X : Extern) : Type 0 where
  pub source : Source
  pub event : Option (Event X)
  pub alive : Sender → Bool

module _ {X : Extern} (conf : Neighbor) (overflow_checks : Bool) where
  -- One round of the loop: `event.unwrap()`, and the transition.
  unfoldable pub round : State X → Delivery X → World X → Exec X (State X)
  round s d w = elim d.event [
    | none ↦ panicked w
    | some e ↦
        step s (receive s d.source e) d.source
          (record { conf = conf; overflow_checks = overflow_checks; alive = d.alive }) w
  ]

  -- The loop over the deliveries of a schedule, until they end or a round panics.
  unfoldable pub run : List (Delivery X) → State X → World X → Exec X (State X)
  run [] s w = done s w
  run (d ∷ ds) s w = elim (round s d w) [ done s' w' ↦ run ds s' w' | panicked w' ↦ panicked w' ]
