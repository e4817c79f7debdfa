-- ===== src/Session/Process.antt =====
-- `process` of src/session.rs: the task that owns a connection, between the session's channel to it
-- and the bytes of the peer.
pub mod Told
pub mod Repeats
mod Tests
use amnesia_bgp.Base.{Bool, Option, none, some, List, [], ◌∷◌, ◌++◌, if◌then◌else◌}
use amnesia_bgp.Extern.{Extern, Outcome, ok, err, panicked, exhausted}
use amnesia_bgp.Message.Types.{Message}
use amnesia_bgp.Connection.{
  BgpConn, Arrival, Reading, returned, refused, waiting, broken, read_message, write_message,
}
use amnesia_bgp.Fsm.Types.{Event}
use amnesia_bgp.Session.Tasks.{process_event, error_event}

-- What `select!` finds in a round: the session's channel gives a message, or `none` when it is closed;
-- or the connection is read, after the socket has delivered some more, while the session still
-- receives events or not.
pub data Turn : Type 0 where
  outgoing : Option Message → Turn
  reading : List Arrival → Bool → Turn

-- How the task stands: it goes on with a connection and the arrivals that are not read yet, it has
-- ended, or it has panicked.
pub data Task (X : Extern) : Type 0 where
  going : BgpConn X → List Arrival → Task X
  ended crashed : Task X

module _ {X : Extern} where
  -- `bgp_tx.send(e).await.unwrap()`, and what the task does then.
  abbrev pub send_event : Bool → Event X → Task X → List (Event X) × Task X
  send_event heard e t = if heard then (e ∷ [], t) else ([], crashed)

  abbrev pub send_if_some : Bool → Option (Event X) → Task X → List (Event X) × Task X
  send_if_some heard none t = ([], t)
  send_if_some heard (some e) t = send_event heard e t

  -- `match e.code`: an error with no event breaks the loop.
  abbrev pub on_refusal : Bool → Option (Event X) → Task X → List (Event X) × Task X
  on_refusal heard none t = ([], ended)
  on_refusal heard (some e) t = send_event heard e t

  -- The branch for a message of the session.
  unfoldable pub on_outgoing : Option Message → BgpConn X → List Arrival → List (Event X) × Task X
  unfolding write_message
  on_outgoing none conn arrivals = ([], ended)
  on_outgoing (some m) conn arrivals = elim (write_message conn m) [
    | ok conn' ↦ ([], going conn' arrivals)
    | _ ↦ ([], crashed)
  ]

  -- The branch for what `read_message` gives. A message that has no event is dropped, and the task
  -- ends with an error that has none.
  unfoldable pub on_reading : Bool → Bool → Reading X → List (Event X) × Task X
  unfolding process_event
  on_reading remote_syn heard (returned m conn rest) =
      send_if_some heard (process_event remote_syn (returned m conn rest)) (going conn rest)
  on_reading remote_syn heard (refused e conn rest) =
      on_refusal heard (error_event e) (going conn rest)
  on_reading remote_syn heard (waiting conn) = ([], going conn [])
  on_reading remote_syn heard broken = ([], crashed)

  module _ (overflow_checks remote_syn : Bool) where
    -- A round of the loop.
    unfoldable pub turn : Turn → BgpConn X → List Arrival → List (Event X) × Task X
    unfolding on_outgoing on_reading read_message
    turn (outgoing msg) conn arrivals = on_outgoing msg conn arrivals
    turn (reading more heard) conn arrivals =
        on_reading remote_syn heard (read_message overflow_checks (arrivals ++ more) conn)

    -- The task over a sequence of rounds: the events that it sends, and how it stands behind them.
    unfoldable pub process : List Turn → Task X → List (Event X) × Task X
    unfolding turn
    process [] t = ([], t)
    process (r ∷ rs) ended = ([], ended)
    process (r ∷ rs) crashed = ([], crashed)
    process (r ∷ rs) (going conn arrivals) =
        let now = turn r conn arrivals in
        let later = process rs now.1 in (now.0 ++ later.0, later.1)
