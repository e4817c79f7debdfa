-- ===== src/Session/Process/Repeats.antt =====
-- `process` of src/session.rs behind an error of a header or of an OPEN.
use amnesia_bgp.Base.{
  Bool, true, false, Option, none, some, List, [], ◌∷◌, ◌++◌, map, Bool-cases, ◌≡◌, refl, ◌⊎◌, inl,
  inr, arith,
}
use amnesia_bgp.Error.{Error}
use amnesia_bgp.Extern.{Extern, Outcome, ok, err, panicked, exhausted}
use amnesia_bgp.Message.Types.{OpenMsg, Message}
use amnesia_bgp.Message.Frame.{decode_message}
use amnesia_bgp.Connection.{
  BgpConn, Arrival, bytes, end_of_stream, io_failed, Reading, returned, refused, waiting, broken,
  is_too_short, sort_frame, resume, read_message,
}
use amnesia_bgp.Fsm.Types.{Event}
use amnesia_bgp.Session.Tasks.{error_event}
use amnesia_bgp.Session.Process.{reading, going, process, on_reading, turn}

module _ (X : Extern) (checks : Bool) where
  -- An error that does not ask for more bytes leaves the buffer as it was.
  abbrev Unmoved : X.BytesMut → Outcome Message × X.BytesMut → Type 0
  Unmoved buf (err e, left) = (is_too_short e ≡ true) ⊎ (left ≡ buf)
  Unmoved buf _ = Unit {0}

  decode_message-Unmoved :
      (peer : Option OpenMsg) (buf : X.BytesMut) → Unmoved buf (decode_message X checks peer buf)
  unfolding decode_message
  decode_message-Unmoved peer buf = ground arith

  -- The connection is refused with the same error again, or the error has no event.
  abbrev IsStuck : Error → BgpConn X → Type 0
  IsStuck e c =
      (error_event {X = X} e ≡ none)
      ⊎ ((is_too_short e ≡ false) × (decode_message X checks c.peer c.buffer ≡ (err e, c.buffer)))

  abbrev Sticks : Reading X → Type 0
  Sticks (refused e c rest) = IsStuck e c
  Sticks _ = Unit {0}

  sort-Sticks :
      (conn : BgpConn X) (xs : List Arrival) (p : Outcome Message × X.BytesMut)
      → decode_message X checks conn.peer conn.buffer ≡ p
      → Unmoved conn.buffer p
      → Sticks (sort_frame conn xs p)
  sort-Sticks conn xs (ok m, buf) q u = tt
  sort-Sticks conn xs (err e, buf) q u = elim (Bool-cases (is_too_short e)) [
    | inl h ↦ rw h tt
    | inr h ↦ rw h (elim u [ inl z ↦ cc | inr z ↦ inr (h, rw (z, q, z) refl) ])
  ]
  sort-Sticks conn xs (panicked, buf) q u = tt
  sort-Sticks conn xs (exhausted, buf) q u = tt

  resume-Sticks :
      (a : Arrival) (rest : List Arrival) (r : Reading X)
      → ((c : BgpConn X) → Sticks (read_message checks rest c))
      → Sticks r
      → Sticks (resume (read_message checks rest) a rest r)
  resume-Sticks a rest (returned m c xs) ih h = ground arith
  resume-Sticks a rest (refused e c xs) ih h = ground arith
  resume-Sticks a rest broken ih h = ground arith
  resume-Sticks (bytes b) rest (waiting c) ih h = ih _
  resume-Sticks end_of_stream rest (waiting c) ih h = ih c
  resume-Sticks io_failed rest (waiting c) ih h = inl refl

  read_message-Sticks :
      (xs : List Arrival) (conn : BgpConn X) → Sticks (read_message checks xs conn)
  unfolding read_message
  read_message-Sticks [] conn =
      sort-Sticks conn [] _ refl (decode_message-Unmoved conn.peer conn.buffer)
  read_message-Sticks (a ∷ rest) conn =
      resume-Sticks a rest _ (read_message-Sticks rest)
        (sort-Sticks conn (a ∷ rest) _ refl (decode_message-Unmoved conn.peer conn.buffer))

  refused_again :
      (e : Error) (c : BgpConn X) (xs : List Arrival)
      → is_too_short e ≡ false
      → decode_message X checks c.peer c.buffer ≡ (err e, c.buffer)
      → read_message checks xs c ≡ refused e c xs
  unfolding read_message
  refused_again e c [] n q = rw (q, n) refl
  refused_again e c (bytes b ∷ xs) n q = rw (q, n) refl
  refused_again e c (end_of_stream ∷ xs) n q = rw (q, n) refl
  refused_again e c (io_failed ∷ xs) n q = rw (q, n) refl

-- What waits behind rounds that deliver arrivals and take none.
abbrev pub piled : List Arrival → List (List Arrival) → List Arrival
piled xs [] = xs
piled xs (m ∷ ms) = piled (xs ++ m) ms

module _ {X : Extern} (checks syn : Bool) (e : Error) (c : BgpConn X) (event : Event X) where
  on_reading_refused :
      (xs : List Arrival)
      → error_event e ≡ some event
      → on_reading syn true (refused e c xs) ≡ (event ∷ [], going c xs)
  unfolding on_reading
  on_reading_refused xs v = rw v refl

  process_stuck :
      (ms : List (List Arrival)) (rest : List Arrival)
      → error_event e ≡ some event
      → is_too_short e ≡ false
      → decode_message X checks c.peer c.buffer ≡ (err e, c.buffer)
      → process checks syn (map (λ m. reading m true) ms) (going c rest)
        ≡ (map (λ m. event) ms, going c (piled rest ms))
  unfolding process turn
  process_stuck [] rest v n q = refl
  process_stuck (m ∷ ms) rest v n q =
      rw
        (
          refused_again X checks e c (rest ++ m) n q,
          on_reading_refused (rest ++ m) v,
          process_stuck ms (rest ++ m) v n q,
        )
        refl

  by_refusal :
      (r : Reading X) (rest : List Arrival) (ms : List (List Arrival))
      → Sticks X checks r
      → r ≡ refused e c rest
      → error_event e ≡ some event
      → process checks syn (map (λ m. reading m true) ms) (going c rest)
        ≡ (map (λ m. event) ms, going c (piled rest ms))
  by_refusal r rest ms st h v = elim (rw h at st) [
    | inl none_e ↦ cc
    | inr (n, q) ↦ process_stuck ms rest v n q
  ]

-- Once a message of the peer is refused with an error that has an event, an error of the header or of
-- an OPEN, the task never gets past it: while the session receives events, each further round of
-- reading, whatever it delivers, sends it the same error again, takes no byte, and the task goes on.
pub process-Repeats :
    {X : Extern} (checks syn : Bool) (arrivals : List Arrival) (conn c : BgpConn X) (e : Error)
    (rest : List Arrival) (event : Event X) (ms : List (List Arrival))
    → read_message checks arrivals conn ≡ refused e c rest
    → error_event e ≡ some event
    → process checks syn (map (λ m. reading m true) ms) (going c rest)
      ≡ (map (λ m. event) ms, going c (piled rest ms))
process-Repeats {X} checks syn arrivals conn c e rest event ms h v =
    by_refusal checks syn e c event (read_message checks arrivals conn) rest ms
      (read_message-Sticks X checks arrivals conn) h v
