-- ===== src/Connection/Delivered.antt =====
-- `read_message` of src/connection.rs with a socket that delivers bytes only.
use mathlib.Core.List.{append_assoc}
use amnesia_bgp.Base.{ℕ, Bool, List, [], ◌∷◌, ◌++◌, ◌≡◌, refl, sym, arith}
use amnesia_bgp.Extern.{Extern, Lawful, slices, Outcome}
use amnesia_bgp.Message.Types.{Message}
use amnesia_bgp.Message.Frame.{decode_message}
use amnesia_bgp.Connection.{
  BgpConn, Arrival, bytes, end_of_stream, io_failed, Reading, returned, refused, waiting, broken,
  sort_frame, resume, read_message,
}
use amnesia_bgp.Connection.Fragments.{unread, all_bytes, Agrees, read_message-Agrees}

-- The socket delivers bytes: its stream neither ends nor fails.
abbrev pub OnlyBytes : List Arrival → Type 0
OnlyBytes [] = Unit {0}
OnlyBytes (bytes bs ∷ rest) = OnlyBytes rest
OnlyBytes (_ ∷ rest) = ⊥

pub OnlyBytes-append : (xs ys : List Arrival) → OnlyBytes xs → OnlyBytes ys → OnlyBytes (xs ++ ys)
OnlyBytes-append [] ys h k = k
OnlyBytes-append (bytes b ∷ xs) ys h k = OnlyBytes-append xs ys h k
OnlyBytes-append (end_of_stream ∷ xs) ys h k = absurd h
OnlyBytes-append (io_failed ∷ xs) ys h k = absurd h

pub unread-append : (xs ys : List Arrival) → unread (xs ++ ys) ≡ unread xs ++ unread ys
unread-append [] ys = refl
unread-append (bytes b ∷ xs) ys =
    rw (unread-append xs ys) (sym (append_assoc b (unread xs) (unread ys)))
unread-append (end_of_stream ∷ xs) ys = unread-append xs ys
unread-append (io_failed ∷ xs) ys = unread-append xs ys

chunks_of : (xs : List Arrival) → OnlyBytes xs → (cs : List (List ℕ)) × (all_bytes cs ≡ xs)
chunks_of [] h = ([], refl)
chunks_of (bytes b ∷ xs) h = (b ∷ (chunks_of xs h).0, rw (chunks_of xs h).1 refl)
chunks_of (end_of_stream ∷ xs) h = absurd h
chunks_of (io_failed ∷ xs) h = absurd h

pub bytes-Agrees :
    (X : Extern) (checks : Bool) (arrivals : List Arrival) (conn : BgpConn X)
    → Lawful X
    → OnlyBytes arrivals
    → Agrees X conn.peer
        (decode_message slices checks conn.peer (X.as_slice conn.buffer ++ unread arrivals))
        (read_message checks arrivals conn)
bytes-Agrees X checks arrivals conn L h =
    rw (chunks_of arrivals h).1 at (read_message-Agrees X checks (chunks_of arrivals h).0 conn L)

-- What a reading leaves of such arrivals.
abbrev pub Leaves : {X : Extern} → Reading X → Type 0
Leaves (returned m c rest) = OnlyBytes rest
Leaves (refused e c rest) = OnlyBytes rest
Leaves _ = Unit {0}

sort-Leaves :
    {X : Extern} (conn : BgpConn X) (arrivals : List Arrival) (p : Outcome Message × X.BytesMut)
    → OnlyBytes arrivals
    → Leaves (sort_frame conn arrivals p)
sort-Leaves conn arrivals p h = ground arith

resume-Leaves :
    {X : Extern} (checks : Bool) (b : List ℕ) (rest : List Arrival) (r : Reading X)
    → ((c : BgpConn X) → Leaves (read_message checks rest c))
    → Leaves r
    → Leaves (resume (read_message checks rest) (bytes b) rest r)
resume-Leaves checks b rest (returned m c xs) ih h = h
resume-Leaves checks b rest (refused e c xs) ih h = h
resume-Leaves checks b rest (waiting c) ih h = ih _
resume-Leaves checks b rest broken ih h = tt

pub read_message-Leaves :
    {X : Extern} (checks : Bool) (arrivals : List Arrival) (conn : BgpConn X)
    → OnlyBytes arrivals
    → Leaves (read_message checks arrivals conn)
unfolding read_message
read_message-Leaves checks [] conn h = sort-Leaves conn [] _ tt
read_message-Leaves {X} checks (bytes b ∷ rest) conn h =
    resume-Leaves {X = X} checks b rest
      (sort_frame conn (bytes b ∷ rest) (decode_message X checks conn.peer conn.buffer))
      (λ c. read_message-Leaves checks rest c h)
      (sort-Leaves conn (bytes b ∷ rest) (decode_message X checks conn.peer conn.buffer) h)
read_message-Leaves {X} checks (end_of_stream ∷ rest) conn h = absurd h
read_message-Leaves {X} checks (io_failed ∷ rest) conn h = absurd h
