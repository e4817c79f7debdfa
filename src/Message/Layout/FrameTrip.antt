-- ===== src/Message/Layout/FrameTrip.antt =====
-- `Message::decode` of src/message.rs on a read buffer that holds a message laid out.
use mathlib.Core.List.{append_assoc, append-nil}
use amnesia_bgp.Base.{
  ◌≤◌, ℕ, ◌+◌, ◌*◌, Bool, false, Option, some, List, [], ◌∷◌, ◌++◌, length, length-append, ltb, ◌≡◌,
  refl, ◌∙◌, arith,
}
use amnesia_bgp.Extern.{
  Extern, Lawful, slices, Slice, slice_of, ok, split-append, split, Takes-last, Takes-pure, drop?,
  combinators,
}
use amnesia_bgp.Message.Types.{OpenMsg, Message, open_msg, notification_msg, MsgType, open_type}
use amnesia_bgp.Message.Frame.{decode_body, decode_notification, finish, decode_message}
use amnesia_bgp.Message.Framing.{Fits, open_fits, notification_fits, frame, header-run}
use amnesia_bgp.Message.Acceptable.{IsAcceptable}
use amnesia_bgp.Message.Bytes.{on_bytes, decode_message-bytes}
use amnesia_bgp.Message.Layout.OpenBytes.{open_bytes}
use amnesia_bgp.Message.Layout.OpenTrip.{open_bytes_size, IsCounted, open_bytes-Takes}

module _ (hi lo t : ℕ) where
  -- What is left behind a header and some bytes.
  drop_frame :
      (xs ys : List ℕ) (n : ℕ) → n ≡ length xs + 19 → drop? n (frame hi lo t (xs ++ ys)) ≡ some ys
  drop_frame xs ys n e = rw (here, split-append (frame hi lo t xs) ys) refl
    where
      here : n ≡ length (frame hi lo t xs)
      here = omega arith

module _ (checks : Bool) (peer : Option OpenMsg) (hi lo : ℕ) {t : ℕ} {k : MsgType}
    (f : Fits (hi * 256 + lo) t k) where
  -- The body of a message is the bytes of the length that stands in its header, and what its decoder
  -- reads of them is taken off the buffer, with the header.
  decode_frame :
      (body rest xs ys : List ℕ) (m : Message) (left : Slice)
      → length body ≡ hi * 256 + lo
      → body ++ rest ≡ xs ++ ys
      → (decode_body {X = slices} checks peer k).run (slice_of body) ≡ ok (m, left)
      → left.pos ≡ length xs
      → decode_message slices checks peer (frame hi lo t (body ++ rest)) ≡ (ok m, ys)
  unfolding decode_message
  decode_frame body rest xs ys m left n e d p =
      rw (long, header-run hi lo (body ++ rest) refl f, enough, cut, d) taken
    where
      all : List ℕ
      all = frame hi lo t (body ++ rest)

      long : ltb (length all) 19 ≡ false
      long = ground arith

      enough : ltb (length all) (hi * 256 + lo) ≡ false
      enough = ground (arith, n, length-append body rest)

      cut : split (hi * 256 + lo) (body ++ rest) ≡ some (body, rest)
      cut = rw (← n) (split-append body rest)

      taken : finish slices all (ok (m, left)) ≡ (ok m, ys)
      taken = rw (e, finish, drop_frame hi lo t xs ys (left.pos + 19) (omega arith)) refl

split_all : (xs : List ℕ) → split (length xs) xs ≡ some (xs, [])
split_all xs = rw (append-nil xs) at (split-append xs [])

open-Fits : (m : OpenMsg) (len : ℕ) → len ≡ 19 + length (open_bytes m) → Fits len 1 open_type
open-Fits m len e = open_fits (omega arith)

-- Nineteen bytes that stand behind a message, as many as its decoding asks for over its own.
abbrev pub IsOverlap : List ℕ → Type 0
IsOverlap follow = length follow ≡ 19

body_length :
    (bs follow : List ℕ) (len : ℕ)
    → IsOverlap follow
    → len ≡ 19 + length bs
    → length (bs ++ follow) ≡ len
body_length bs follow len o e = rw (length-append bs follow) (omega arith)

module _ (checks : Bool) (peer : Option OpenMsg) (hi lo : ℕ) (follow rest : List ℕ)
    (o : IsOverlap follow) where
  open_frame :
      (m : OpenMsg)
      → IsAcceptable m
      → IsCounted m
      → hi * 256 + lo ≡ 19 + length (open_bytes m)
      → decode_message slices checks peer (frame hi lo 1 (open_bytes m ++ follow ++ rest))
        ≡ (ok (open_msg m), follow ++ rest)
  unfolding decode_body
  open_frame m a c n =
      decode_frame checks peer hi lo (open-Fits m (hi * 256 + lo) n) (open_bytes m ++ follow) rest
        (open_bytes m) (follow ++ rest) (open_msg m)
        (record { whole = open_bytes m ++ follow; pos = 0 + length (open_bytes m); rest = follow })
        (body_length (open_bytes m) follow (hi * 256 + lo) o n)
        (append_assoc (open_bytes m) follow rest)
        ((Takes-last _ _ (open_bytes m) (open_bytes-Takes m follow a c)
            (Takes-pure (open_msg m))).taken
          (open_bytes m ++ follow) 0)
        (omega arith)

  notification_frame :
      (code subcode : ℕ) (payload : List ℕ)
      → hi * 256 + lo ≡ 21 + length payload
      → decode_message slices checks peer
          (frame hi lo 3 (code ∷ subcode ∷ (payload ++ follow) ++ rest))
        ≡ (
          ok (
              notification_msg (record {
                error_code = code;
                error_subcode = subcode;
                payload = some (payload ++ follow);
              })),
          rest,
        )
  unfolding decode_body decode_notification combinators
  notification_frame code subcode payload n =
      decode_frame checks peer hi lo (notification_fits (omega arith))
        (code ∷ subcode ∷ (payload ++ follow)) rest (code ∷ subcode ∷ (payload ++ follow)) rest
        (notification_msg (record {
          error_code = code;
          error_subcode = subcode;
          payload = some (payload ++ follow);
        }))
        (record {
          whole = code ∷ subcode ∷ (payload ++ follow);
          pos = 2 + length (payload ++ follow);
          rest = [];
        })
        (body_length (code ∷ subcode ∷ payload) follow (hi * 256 + lo) o (omega arith)) refl
        (ground (arith, split_all (payload ++ follow))) (omega arith)

-- Over a lawful crate a buffer that holds an acceptable OPEN with counted parameters, laid out behind
-- a header with the length of both, is decoded to this OPEN where nineteen more bytes stand behind
-- it; header and OPEN are taken off the buffer, and all that stands behind them is left. The layout is
-- the one that the decoder reads, with its padding: the length in the header is 39 at least, where
-- 29 octets are documented as the least.
pub decode_message-open_bytes :
    (X : Extern) (checks : Bool) (peer : Option OpenMsg) (buf : X.BytesMut) (hi lo : ℕ)
    (follow rest : List ℕ) (m : OpenMsg)
    → Lawful X
    → IsAcceptable m
    → IsCounted m
    → IsOverlap follow
    → hi * 256 + lo ≡ 19 + length (open_bytes m)
    → X.as_slice buf ≡ frame hi lo 1 (open_bytes m ++ follow ++ rest)
    → (39 ≤ hi * 256 + lo)
      × (on_bytes X (decode_message X checks peer buf) ≡ (ok (open_msg m), follow ++ rest))
decode_message-open_bytes X checks peer buf hi lo follow rest m L a c o n b = (
  rw n (omega (arith, open_bytes_size m)),
  decode_message-bytes X checks peer buf L
      ∙ rw b (open_frame checks peer hi lo follow rest o m a c n),
)

-- Over a lawful crate a buffer that holds a NOTIFICATION behind a header with the length of both is
-- decoded, where nineteen more bytes stand behind it, to a NOTIFICATION with its codes whose data
-- ends with those bytes: only what stands behind them is left.
pub decode_message_notification :
    (X : Extern) (checks : Bool) (peer : Option OpenMsg) (buf : X.BytesMut) (hi lo : ℕ)
    (follow rest : List ℕ) (code subcode : ℕ) (payload : List ℕ)
    → Lawful X
    → IsOverlap follow
    → hi * 256 + lo ≡ 21 + length payload
    → X.as_slice buf ≡ frame hi lo 3 (code ∷ subcode ∷ (payload ++ follow) ++ rest)
    → on_bytes X (decode_message X checks peer buf) ≡ (
      ok (
          notification_msg (record {
            error_code = code;
            error_subcode = subcode;
            payload = some (payload ++ follow);
          })),
      rest,
    )
decode_message_notification X checks peer buf hi lo follow rest code subcode payload L o n b =
    decode_message-bytes X checks peer buf L
    ∙ rw b (notification_frame checks peer hi lo follow rest o code subcode payload n)
