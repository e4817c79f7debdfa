-- ===== src/Message/Framing.antt =====
-- Which headers are taken, and how a message is cut out of the read buffer.
use amnesia_bgp.Base.{
  ℕ, ◌+◌, ◌*◌, ◌≤◌, Bool, Option, none, List, ◌∷◌, ◌++◌, replicate, length, ◌≡◌, refl, ◌∙◌, arith,
}
use amnesia_bgp.Error.{Error, connection_not_sync, new_header}
use amnesia_bgp.Extern.{
  Extern, Lawful, slices, slice_of, view, Outcome, ok, err, panicked, exhausted, map_outcome, id,
  combinators,
}
use amnesia_bgp.Message.Types.{
  OpenMsg, MsgType, open_type, update_type, notification_type, keepalive_type,
}
use amnesia_bgp.Message.Header.{marker, decode_header, msg_type_of}
use amnesia_bgp.Message.Frame.{decode_message}
use amnesia_bgp.Message.Refine.{decode_header-Sim}

-- A length and a type byte that go together, and the type: RFC 4271, 6.1.
pub data Fits : ℕ → ℕ → MsgType → Type 0 where
  open_fits : {len : ℕ} → 29 ≤ len → Fits len 1 open_type
  update_fits : {len : ℕ} → 23 ≤ len → Fits len 2 update_type
  notification_fits : {len : ℕ} → 21 ≤ len → Fits len 3 notification_type
  keepalive_fits : Fits 19 4 keepalive_type

-- The marker of the program, a length, and a type byte, before the rest.
abbrev pub frame : ℕ → ℕ → ℕ → List ℕ → List ℕ
frame hi lo t rest = marker ++ (hi ∷ lo ∷ t ∷ rest)

pub header-run :
    {len : ℕ} (hi lo : ℕ) {t : ℕ} {k : MsgType} (rest : List ℕ)
    → hi * 256 + lo ≡ len
    → Fits len t k
    → (decode_header {X = slices}).run (slice_of (frame hi lo t rest))
      ≡ ok (
        record { len = hi * 256 + lo; msg_type = k },
        record { whole = frame hi lo t rest; pos = 19; rest = rest },
      )
unfolding decode_header msg_type_of combinators
header-run hi lo rest q (open_fits l) = ground arith
header-run hi lo rest q (update_fits l) = ground arith
header-run hi lo rest q (notification_fits l) = ground arith
header-run hi lo rest q keepalive_fits = ground arith

-- Over a lawful crate a buffer that begins with the program's marker and with a length and a type
-- that go together is decoded to that header, and what it shows then is the rest.
pub decode_header-Fits :
    (X : Extern) (o : X.Octets) (hi lo t : ℕ) (rest : List ℕ) {k : MsgType}
    → Lawful X
    → view X o ≡ slice_of (frame hi lo t rest)
    → Fits (hi * 256 + lo) t k
    → map_outcome X id ((decode_header {X = X}).run o)
      ≡ ok (
        record { len = hi * 256 + lo; msg_type = k },
        record { whole = frame hi lo t rest; pos = 19; rest = rest },
      )
decode_header-Fits X o hi lo t rest L v f =
    (decode_header-Sim L).same o ∙ (rw v (header-run hi lo rest refl f))

all_ones :
    (rest : List ℕ)
    → 3 ≤ length rest
    → (decode_header {X = slices}).run (slice_of (replicate 16 255 ++ rest))
      ≡ err (new_header connection_not_sync none)
unfolding decode_header combinators
all_ones rest l = ground arith

map_outcome-err :
    (X : Extern) {A : Type 0} (r : Outcome (A × X.Octets)) {e : Error}
    → map_outcome X id r ≡ err e
    → r ≡ err e
map_outcome-err X (ok (a, o)) h = cc
map_outcome-err X (err d) h = cc
map_outcome-err X panicked h = cc
map_outcome-err X exhausted h = cc

-- RFC 4271, 4.1, sets every bit of the marker. Over a lawful crate the program refuses such a
-- message, whatever stands behind its marker, as a connection that is not synchronised, and leaves
-- the buffer as it is.
pub decode_message_all_ones :
    (X : Extern) (checks : Bool) (peer : Option OpenMsg) (buf : X.BytesMut) (rest : List ℕ)
    → Lawful X
    → X.as_slice buf ≡ replicate 16 255 ++ rest
    → 3 ≤ length rest
    → decode_message X checks peer buf ≡ (err (new_header connection_not_sync none), buf)
unfolding decode_message
decode_message_all_ones X checks peer buf rest L h l = rw h (rw refused (ground arith))
  where
    shown : view X (X.with_slice (replicate 16 255 ++ rest)) ≡ slice_of (replicate 16 255 ++ rest)
    shown = L.view-with_slice (replicate 16 255 ++ rest)

    refused :
        (decode_header {X = X}).run (X.with_slice (replicate 16 255 ++ rest))
        ≡ err (new_header connection_not_sync none)
    refused = map_outcome-err X _ (
        (decode_header-Sim L).same (X.with_slice (replicate 16 255 ++ rest))
        ∙ rw shown (all_ones rest l))
