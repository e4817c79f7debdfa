-- ===== src/Connection/Fragments.antt =====
-- `read_message` of src/connection.rs, and the arrivals that the bytes of a stream are cut into.
use mathlib.Core.List.{append-nil, append_assoc}
use amnesia_bgp.Base.{
  ℕ, Bool, true, false, Option, List, [], ◌∷◌, ◌++◌, Bool-cases, ◌≡◌, refl, inl, inr, arith,
}
use amnesia_bgp.Error.{Error, from_buffer_too_short}
use amnesia_bgp.Extern.{Extern, Lawful, slices, Outcome, ok, err, panicked, exhausted}
use amnesia_bgp.Message.Types.{OpenMsg, Message}
use amnesia_bgp.Message.Frame.{decode_message}
use amnesia_bgp.Message.Bytes.{on_bytes, decode_message-bytes}
use amnesia_bgp.Message.Front.{decode_message-Extends}
use amnesia_bgp.Connection.{
  BgpConn, Arrival, bytes, Reading, returned, refused, waiting, broken, is_too_short, note_open,
  sort_frame, resume, read_message,
}

-- The bytes of arrivals that are not read yet.
abbrev pub unread : List Arrival → List ℕ
unread [] = []
unread (bytes bs ∷ rest) = bs ++ unread rest
unread (_ ∷ rest) = unread rest

abbrev pub all_bytes : List (List ℕ) → List Arrival
all_bytes [] = []
all_bytes (bs ∷ rest) = bytes bs ∷ all_bytes rest

-- The reading ends as the decoding of all the bytes at once does. What is left of them stands in the
-- buffer and in the arrivals that are not read.
abbrev pub Agrees : (X : Extern) → Option OpenMsg → Outcome Message × List ℕ → Reading X → Type 0
Agrees X peer (ok m, left) (returned m' c rest) =
    (m' ≡ m) × (c.peer ≡ note_open m peer) × (X.as_slice c.buffer ++ unread rest ≡ left)
Agrees X peer (err e, left) (refused e' c rest) =
    (is_too_short e ≡ false)
    × (e' ≡ e)
    × (c.peer ≡ peer)
    × (X.as_slice c.buffer ++ unread rest ≡ left)
Agrees X peer (err e, left) (waiting c) =
    (is_too_short e ≡ true) × (c.peer ≡ peer) × (X.as_slice c.buffer ≡ left)
Agrees X peer (panicked, left) broken = Unit {0}
Agrees X peer (exhausted, left) broken = Unit {0}
Agrees X peer _ _ = ⊥

-- An error leaves the buffer as it was.
abbrev Unmoved : List ℕ → Outcome Message × List ℕ → Type 0
Unmoved bs (err e, left) = left ≡ bs
Unmoved bs _ = Unit {0}

decode_message-Unmoved :
    (checks : Bool) (peer : Option OpenMsg) (bs : List ℕ)
    → Unmoved bs (decode_message slices checks peer bs)
unfolding decode_message
decode_message-Unmoved checks peer bs = ground arith

pair_eq : {A B : Type 0} (p : A × B) {a : A} {b : B} → p.0 ≡ a → p.1 ≡ b → p ≡ (a, b)
pair_eq p h k = cc

-- Where the buffer holds a message, or bytes that are refused, more bytes change nothing.
grown :
    (checks : Bool) (peer : Option OpenMsg) (bs more : List ℕ) (o : Outcome Message) (left : List ℕ)
    → (o, left) ≡ decode_message slices checks peer bs
    → ((o ≡ err from_buffer_too_short) → ⊥)
    → decode_message slices checks peer (bs ++ more) ≡ (o, left ++ more)
grown checks peer bs more o left e n =
    elim (rw (← e) at (decode_message-Extends checks peer bs more)) [
      | inl short ↦ absurd (n short)
      | inr (x, y) ↦ pair_eq _ x y
    ]

not_short :
    (e : Error) (o : Outcome Message)
    → is_too_short e ≡ false
    → o ≡ err e
    → (o ≡ err from_buffer_too_short)
    → ⊥
not_short e o h p q = cc

module _ (X : Extern) (checks : Bool) where
  -- No more bytes come.
  sort-Agrees :
      (conn : BgpConn X) (p : Outcome Message × X.BytesMut)
      → Agrees X conn.peer (on_bytes X p) (sort_frame conn [] p)
  sort-Agrees conn (ok m, buf) = (refl, refl, append-nil (X.as_slice buf))
  sort-Agrees conn (err e, buf) = elim (Bool-cases (is_too_short e)) [
    | inl h ↦ rw h (h, refl, refl)
    | inr h ↦ rw h (h, refl, refl, append-nil (X.as_slice buf))
  ]
  sort-Agrees conn (panicked, buf) = tt
  sort-Agrees conn (exhausted, buf) = tt

  module _ (L : Lawful X) (b : List ℕ) (rest : List Arrival) (conn : BgpConn X) where
    -- The connection with the next bytes in its buffer.
    abbrev fed : X.BytesMut → BgpConn X
    fed buf = record conn { buffer = X.append_read buf b }

    resume-Agrees :
        (p : Outcome Message × X.BytesMut)
        → on_bytes X p ≡ decode_message slices checks conn.peer (X.as_slice conn.buffer)
        → ((buf : X.BytesMut)
            → X.as_slice buf ≡ X.as_slice conn.buffer
            → Agrees X conn.peer
                (decode_message slices checks conn.peer
                  (X.as_slice conn.buffer ++ (b ++ unread rest)))
                (read_message checks rest (fed buf)))
        → Agrees X conn.peer
            (decode_message slices checks conn.peer (X.as_slice conn.buffer ++ (b ++ unread rest)))
            (resume (read_message checks rest) (bytes b) rest (sort_frame conn (bytes b ∷ rest) p))
    resume-Agrees (ok m, buf) q ih =
        rw (grown checks conn.peer (X.as_slice conn.buffer) (b ++ unread rest) (ok m) _ q (λ h. cc))
          (refl, refl, refl)
    resume-Agrees (err e, buf) q ih = elim (Bool-cases (is_too_short e)) [
      | inl h ↦
          rw h (
            ih buf (rw (← q) at (decode_message-Unmoved checks conn.peer (X.as_slice conn.buffer))))
      | inr h ↦
          rw
            (
              h,
              grown checks conn.peer (X.as_slice conn.buffer) (b ++ unread rest) (err e) _ q
                  (not_short e (err e) h refl),
            )
            (h, refl, refl, refl)
    ]
    resume-Agrees (panicked, buf) q ih =
        rw
          (grown checks conn.peer (X.as_slice conn.buffer) (b ++ unread rest) panicked _ q
            (λ h. cc))
          tt
    resume-Agrees (exhausted, buf) q ih =
        rw
          (grown checks conn.peer (X.as_slice conn.buffer) (b ++ unread rest) exhausted _ q
            (λ h. cc))
          tt

-- Over a lawful crate `read_message` ends as one decoding of all the bytes would, the buffer's and
-- those that arrive, however these are cut: with the same message and the OPEN noted, the same error,
-- still waiting, or in the same panic. Nothing is lost: what the decoding leaves is in the buffer and
-- in the arrivals that are not read.
pub read_message-Agrees :
    (X : Extern) (checks : Bool) (chunks : List (List ℕ)) (conn : BgpConn X)
    → Lawful X
    → Agrees X conn.peer
        (decode_message slices checks conn.peer
          (X.as_slice conn.buffer ++ unread (all_bytes chunks)))
        (read_message checks (all_bytes chunks) conn)
unfolding read_message
read_message-Agrees X checks [] conn L = rw (append-nil (X.as_slice conn.buffer)) (
    rw (decode_message-bytes X checks conn.peer conn.buffer L) at
      (sort-Agrees X checks conn (decode_message X checks conn.peer conn.buffer)))
read_message-Agrees X checks (b ∷ chunks) conn L =
    resume-Agrees X checks L b (all_bytes chunks) conn
      (decode_message X checks conn.peer conn.buffer)
      (decode_message-bytes X checks conn.peer conn.buffer L)
      (λ buf same.
        rw
          (
            L.as_slice-append_read buf b,
            same,
            append_assoc (X.as_slice conn.buffer) b (unread (all_bytes chunks)),
          )
          at (read_message-Agrees X checks chunks (record conn { buffer = X.append_read buf b }) L))
