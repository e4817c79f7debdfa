-- ===== src/Connection.antt =====
-- `BgpConn` of src/connection.rs: a socket with its read buffer, and the loop that reads a message.
pub mod Stream
pub mod Fragments
pub mod Delivered
mod Tests
use amnesia_bgp.Base.{ℕ, Bool, true, false, Option, none, some, List, [], ◌∷◌, if◌then◌else◌}
use amnesia_bgp.Error.{
  Error, local_logic_error, local_logic_error_subcode, buffer_too_short_error, from_io,
}
use amnesia_bgp.Net.{SocketAddr}
use amnesia_bgp.Extern.{Extern, Outcome, ok, err, panicked, exhausted}
use amnesia_bgp.Message.Types.{OpenMsg, Message, open_msg}
use amnesia_bgp.Message.Frame.{decode_message, encode_message}

pub record BgpConn (X : Extern) : Type 0 where
  pub stream : X.TcpStream
  pub buffer : X.BytesMut
  pub peer : Option OpenMsg

-- `BgpConn::new`
unfoldable pub new_conn : {X : Extern} → X.TcpStream → BgpConn X
new_conn {X} s = record { stream = s; buffer = X.with_capacity 4096; peer = none }

-- What the socket delivers to a `read_buf`: some bytes, the end of the stream, or an error.
pub data Arrival : Type 0 where
  bytes : List ℕ → Arrival
  end_of_stream io_failed : Arrival

-- How far `read_message` is when a given sequence of arrivals is used up.
pub data Reading (X : Extern) : Type 0 where
  returned : Message → BgpConn X → List Arrival → Reading X
  refused : Error → BgpConn X → List Arrival → Reading X
  waiting : BgpConn X → Reading X
  broken : Reading X

-- `e.code == LocalLogicError && e.subcode == BufferTooShortError.into()`
abbrev pub is_too_short : Error → Bool
is_too_short e = elim e.code [
  | local_logic_error ↦ elim e.subcode [
    | local_logic_error_subcode s ↦ elim s [ buffer_too_short_error ↦ true | _ ↦ false ]
    | _ ↦ false
  ]
  | _ ↦ false
]

-- `self.peer = Some(open)` for an OPEN.
abbrev pub note_open : Message → Option OpenMsg → Option OpenMsg
note_open (open_msg m) peer = some m
note_open m peer = peer

module _ {X : Extern} where
  -- What a round makes of the result of `Message::decode` and the buffer behind it: a message, an
  -- error, or more bytes are wanted.
  abbrev pub sort_frame : BgpConn X → List Arrival → Outcome Message × X.BytesMut → Reading X
  sort_frame conn arrivals (ok m, buf) =
      returned m (record conn { buffer = buf; peer = note_open m conn.peer }) arrivals
  sort_frame conn arrivals (err e, buf) =
      if is_too_short e
      then waiting (record conn { buffer = buf })
      else refused e (record conn { buffer = buf }) arrivals
  sort_frame conn arrivals (panicked, buf) = broken
  sort_frame conn arrivals (exhausted, buf) = broken

  -- `self.stream.read_buf(&mut self.buffer).await?`, where more bytes are wanted, and what follows. A
  -- stream that has ended delivers nothing, and the loop goes on.
  abbrev pub resume : (BgpConn X → Reading X) → Arrival → List Arrival → Reading X → Reading X
  resume again (bytes bs) rest (waiting c) = again (record c { buffer = X.append_read c.buffer bs })
  resume again end_of_stream rest (waiting c) = again c
  resume again io_failed rest (waiting c) = refused from_io c rest
  resume again a rest r = r

module _ {X : Extern} (overflow_checks : Bool) where
  -- `read_message` over a sequence of arrivals.
  unfoldable pub read_message : List Arrival → BgpConn X → Reading X
  read_message [] conn = sort_frame conn [] (decode_message X overflow_checks conn.peer conn.buffer)
  read_message (a ∷ rest) conn =
      resume (read_message rest) a rest
        (sort_frame conn (a ∷ rest) (decode_message X overflow_checks conn.peer conn.buffer))

-- `write_message`: the bytes of the message are dropped, and nothing goes to the stream.
unfoldable pub write_message : {X : Extern} → BgpConn X → Message → Outcome (BgpConn X)
write_message {X} conn m = elim (encode_message X m) [
  | ok buf ↦ ok conn
  | err e ↦ err e
  | panicked ↦ panicked
  | exhausted ↦ exhausted
]

-- `peer_sock`
unfoldable pub peer_sock : {X : Extern} → BgpConn X → Option SocketAddr
peer_sock {X} conn = X.peer_addr conn.stream
