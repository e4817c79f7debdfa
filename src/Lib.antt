-- ===== src/Lib.antt =====
-- A BGP speaker, `amnesiaBGP`: one session for each neighbour, which is a finite state machine in
-- the sense of RFC 4271 driven by events from the administrator, the TCP connections, the peer's
-- messages and five timers.
--
-- The parts of the program and the files that model them:
--   * src/error.rs is Error: the codes and subcodes of a NOTIFICATION, and the error that the
--     decoders return. A field `data` is called `payload`, a field `length` is called `len`.
--   * src/config.rs is Config: the records of a neighbour and of the router.
--   * src/message.rs is Message: Types (the messages), Header (`MessageHeader::decode`), Open
--     (`OpenMsg::decode` and the optional parameters), Prefix (`Cidr::decode`), Attribute (the path
--     attributes), Update (`UpdateMsg::decode`), Frame (`NotificationMsg::decode`,
--     `Message::decode`, `Message::encode`). Message.Layout has the bytes of messages
--     as the decoders read them, which for an OPEN are not the documented ones.
--   * src/connection.rs is Connection: `BgpConn`, its constructor, `read_message` over a sequence of
--     what the socket delivers, `write_message` and `peer_sock`.
--   * src/fsm.rs is Fsm: Types (states, events, timers, `SessionAttributes`), Convert (the `From`
--     instances between the states).
--   * src/session.rs: `timer_loop` is Fsm.TimerTask; the arms of `run` are Session.IdleState,
--     Session.ConnectState, Session.ActiveState, Session.OpenSentState, Session.OpenConfirmState and
--     Session.EstablishedState, with one function for each arm that does something and `on_event`
--     for the `match`; the loop is Session.Run, and Session.Common has what several arms repeat.
--     Session.Tasks has the events that `try_tcp_conn`, `process_one` and `process` send, and
--     Session.Process the loop of `process` over a sequence of rounds, in each of which `select!` finds a
--     message of the session or reads the connection.
--   * src/main.rs is Main: the start of the sessions, the task that dispatches the connections of peers,
--     and `process_passive`.
--
-- How the code is modelled. A decoder is a function of the cursor monad of Extern.Cursor: it reads
-- off a buffer, returns a value or an error, or panics. A transition of the session runs in the monad
-- of Fsm.Runtime: it reads an environment (the neighbour's configuration, the build profile, which
-- channels still have their receiver), returns the new state or panics, and leaves a log of what it
-- did to the runtime: timer commands, messages to the connection task, tasks spawned and aborted.
-- Tasks and channels are numbered in the order of their creation. `select!` may take any event that
-- is there, so the loop runs over a schedule of deliveries, which is arbitrary. Durations are in
-- nanoseconds, addresses are their big-endian value, and the overflow of `u64` and `u8` additions is
-- written out for both build profiles.
--
-- What is not under src/ is a parameter. Extern.Defs is the record of what the program calls of the
-- crates `octets` and `bytes` and of tokio's stream; Extern.Laws has what their documentation says,
-- over byte lists; Extern.Slices is an instance, and Extern.Instance shows that it obeys the laws.
-- Extern.Simulate and Message.Refine carry a decoder over any lawful crate to the same decoder over
-- byte lists, where Extern.Progress and Message.Reading say how far it reads. Over byte lists,
-- Extern.Taking has what a decoder makes of bytes that are laid out for it, and Extern.Growth what it
-- makes of a buffer that has grown; Message.Bytes and Message.Front have both for `Message::decode`,
-- and Connection.Fragments and Connection.Delivered use them for the read loop.
--
-- Bounds and fuel. The loops of an UPDATE run while bytes are left; their fuel is the number of bytes
-- that the buffer holds when the loop begins, which is enough since each round reads one at least.
-- The loops over a count are structural recursion.
--
-- A task that sends to another asks whether the receiver is there, which is a parameter: the rounds of
-- `process`, the deliveries of the loop and the offers of Main carry it. In src/main.rs itself each
-- spawned block drops the future of `session::run` that it makes, and the receiver with it.
--
-- Not modelled: the binding of the listener in src/main.rs and its accept loop; src/table.rs, which
-- holds declarations that nothing uses; the text of log messages; the moment at which a timer fires,
-- which is a delivery of the schedule; the bound of 32 on the channels.
pub mod Base
pub mod Net
pub mod Error
pub mod Extern
pub mod Config
pub mod Message
pub mod Connection
pub mod Fsm
pub mod Session
pub mod Main
