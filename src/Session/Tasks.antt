-- ===== src/Session/Tasks.antt =====
-- The tasks of src/session.rs that turn what the sockets deliver into events: `try_tcp_conn`,
-- `process_one` and `process`.
use amnesia_bgp.Base.{Bool, true, false, Option, none, some, List, [], ◌∷◌, ◌≡◌, arith}
use amnesia_bgp.Error.{Error, from_io, message_header_error, open_message_error}
use amnesia_bgp.Extern.{Extern}
use amnesia_bgp.Message.Types.{open_msg, update_msg}
use amnesia_bgp.Connection.{Reading, returned, refused}
use amnesia_bgp.Fsm.Types.{Event}

module _ {X : Extern} where
  -- What an error of the decoder is sent as.
  abbrev pub error_event : Error → Option (Event X)
  error_event e = elim e.code [
    | message_header_error ↦ some (Event.bgp_header_err e)
    | open_message_error ↦ some (Event.bgp_open_msg_err e)
    | _ ↦ none
  ]

  abbrev pub to_list : Option (Event X) → List (Event X)
  to_list none = []
  to_list (some e) = e ∷ []

  -- `process_one`: the events that the task sends before it ends.
  unfoldable pub process_one_events : Bool → Reading X → List (Event X)
  process_one_events remote_syn (returned (open_msg m) conn rest) =
      Event.process_one_done conn ∷ Event.bgp_open m remote_syn ∷ []
  process_one_events remote_syn (refused e conn rest) = to_list (error_event e)
  process_one_events remote_syn r = []

  -- `process`: the event that the task sends for what one `read_message` gives it.
  unfoldable pub process_event : Bool → Reading X → Option (Event X)
  process_event remote_syn (returned (open_msg m) conn rest) = some (Event.bgp_open m remote_syn)
  process_event remote_syn (returned (update_msg m) conn rest) = some (Event.update_msg m)
  process_event remote_syn (refused e conn rest) = error_event e
  process_event remote_syn r = none

  -- `try_tcp_conn`: the event for a connection, or for the error of one.
  unfoldable pub try_tcp_conn_event : Option X.TcpStream → Event X
  try_tcp_conn_event (some stream) = Event.tcp_cr_acked stream
  try_tcp_conn_event none = Event.tcp_connection_fails from_io

-- The events that a session makes of a message of its peer, or of a connection.
abbrev pub comes_by_task : {X : Extern} → Event X → Bool
comes_by_task (Event.process_one_done conn) = true
comes_by_task (Event.bgp_open m remote_syn) = true
comes_by_task (Event.update_msg m) = true
comes_by_task (Event.bgp_header_err e) = true
comes_by_task (Event.bgp_open_msg_err e) = true
comes_by_task (Event.tcp_cr_acked stream) = true
comes_by_task (Event.tcp_connection_fails e) = true
comes_by_task _ = false

-- Every event of the list is one that a task sends.
abbrev pub ByTask : {X : Extern} → List (Event X) → Type 0
ByTask [] = Unit {0}
ByTask (e ∷ es) = (comes_by_task e ≡ true) × (ByTask es)

-- Whatever a socket delivers, the tasks send the session a connection made, failed or read to its
-- OPEN, an OPEN, an UPDATE, or an error of the header or of an OPEN: a KEEPALIVE, a NOTIFICATION and
-- an error of an UPDATE never reach it.
pub task_events-ByTask :
    (X : Extern) (syn : Bool) (r : Reading X) (stream : Option X.TcpStream)
    → ByTask (process_one_events syn r)
      × ByTask (to_list (process_event syn r))
      × (comes_by_task (try_tcp_conn_event {X = X} stream) ≡ true)
unfolding process_one_events process_event try_tcp_conn_event
task_events-ByTask X syn r stream = ground arith
