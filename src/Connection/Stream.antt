-- ===== src/Connection/Stream.antt =====
-- `read_message` on a stream that has ended.
use amnesia_bgp.Base.{
  ℕ, zero, suc, ◌<◌, ◌-◌, Bool, Option, replicate, List, length, lt→ltb, ◌≡◌, refl,
}
use amnesia_bgp.Error.{from_buffer_too_short}
use amnesia_bgp.Extern.{Extern, Lawful, err}
use amnesia_bgp.Message.Types.{OpenMsg}
use amnesia_bgp.Message.Frame.{decode_message}
use amnesia_bgp.Connection.{BgpConn, Reading, waiting, read_message, end_of_stream}

-- The loop still waits for bytes, and its buffer shows these.
abbrev pub IsWaiting : (X : Extern) → List ℕ → Reading X → Type 0
IsWaiting X bs (waiting c) = X.as_slice c.buffer ≡ bs
IsWaiting X bs _ = ⊥

short_buffer :
    (X : Extern) (checks : Bool) (peer : Option OpenMsg) (buf : X.BytesMut)
    → length (X.as_slice buf) < 19
    → decode_message X checks peer buf
      ≡ (err from_buffer_too_short, X.reserve buf (19 - length (X.as_slice buf)))
unfolding decode_message
short_buffer X checks peer buf l = rw (lt→ltb (length (X.as_slice buf)) 19 l) refl

-- Over a lawful crate, with less than a header in the buffer, the loop goes on however often the
-- socket reports the end of the stream: it returns no error, and its buffer stays as it is.
pub read_message_ended :
    (X : Extern) (checks : Bool) (n : ℕ) (conn : BgpConn X)
    → Lawful X
    → length (X.as_slice conn.buffer) < 19
    → IsWaiting X (X.as_slice conn.buffer) (read_message checks (replicate n end_of_stream) conn)
unfolding read_message
read_message_ended X checks zero conn L l =
    rw (short_buffer X checks conn.peer conn.buffer l) (L.as_slice-reserve conn.buffer _)
read_message_ended X checks (suc n) conn L l =
    rw (short_buffer X checks conn.peer conn.buffer l)
      (rw same at (read_message_ended X checks n c L (rw same l)))
  where
    c : BgpConn X
    c = record conn { buffer = X.reserve conn.buffer (19 - length (X.as_slice conn.buffer)) }

    same : X.as_slice c.buffer ≡ X.as_slice conn.buffer
    same = L.as_slice-reserve conn.buffer _
