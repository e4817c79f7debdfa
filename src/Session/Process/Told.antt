-- ===== src/Session/Process/Told.antt =====
-- `process` of src/session.rs, and a task over byte lists that tells the session as much.
use amnesia_bgp.Base.{
  ℕ, Bool, true, false, Option, none, some, List, [], ◌∷◌, ◌++◌, ◌≡◌, refl, arith, ◌∙◌,
  if◌then◌else◌,
}
use mathlib.Core.List.{append_assoc, append-nil}
use amnesia_bgp.Extern.{Extern, Lawful, slices, Outcome, ok, err, panicked, exhausted}
use amnesia_bgp.Message.Types.{OpenMsg, Message, open_msg, update_msg}
use amnesia_bgp.Message.Frame.{decode_message, encode_message}
use amnesia_bgp.Connection.{
  BgpConn, Arrival, Reading, returned, refused, waiting, broken, is_too_short, note_open,
  write_message,
}
use amnesia_bgp.Connection.Fragments.{unread, Agrees}
use amnesia_bgp.Connection.Delivered.{
  OnlyBytes, OnlyBytes-append, unread-append, bytes-Agrees, Leaves, read_message-Leaves,
}
use amnesia_bgp.Fsm.Types.{Event}
use amnesia_bgp.Session.Tasks.{error_event, process_event}
use amnesia_bgp.Session.Process.{
  Turn, outgoing, reading, Task, going, ended, crashed, on_refusal, send_if_some, on_outgoing,
  on_reading, turn, process,
}

-- A task that sees bytes only: the peer's OPEN so far and the bytes that no message is made of yet.
pub data Talk : Type 0 where
  talking : Option OpenMsg → List ℕ → Talk
  hung_up cut_off : Talk

module _ (X : Extern) where
  abbrev pub tell : Bool → Option (Event X) → Talk → List (Event X) × Talk
  tell heard none t = ([], t)
  tell heard (some e) t = if heard then (e ∷ [], t) else ([], cut_off)

  -- An OPEN and an UPDATE have an event.
  abbrev pub message_event : Bool → Message → Option (Event X)
  message_event syn (open_msg m) = some (Event.bgp_open m syn)
  message_event syn (update_msg m) = some (Event.update_msg m)
  message_event syn m = none

  -- What is told of the first message of the bytes.
  abbrev pub on_decoded :
      Bool → Bool → Option OpenMsg → Outcome Message × List ℕ → List (Event X) × Talk
  on_decoded syn heard peer (ok m, left) =
      tell heard (message_event syn m) (talking (note_open m peer) left)
  on_decoded syn heard peer (err e, left) =
      if is_too_short e then ([], talking peer left) else elim (error_event {X = X} e) [
        | none ↦ ([], hung_up)
        | some event ↦ tell heard (some event) (talking peer left)
      ]
  on_decoded syn heard peer (panicked, left) = ([], cut_off)
  on_decoded syn heard peer (exhausted, left) = ([], cut_off)

  module _ (checks syn : Bool) where
    abbrev pub talk_turn : Turn → Option OpenMsg → List ℕ → List (Event X) × Talk
    talk_turn (outgoing none) peer bs = ([], hung_up)
    talk_turn (outgoing (some m)) peer bs = ([], talking peer bs)
    talk_turn (reading more heard) peer bs =
        on_decoded syn heard peer (decode_message slices checks peer (bs ++ unread more))

    abbrev pub talk : List Turn → Talk → List (Event X) × Talk
    talk [] t = ([], t)
    talk (r ∷ rs) hung_up = ([], hung_up)
    talk (r ∷ rs) cut_off = ([], cut_off)
    talk (r ∷ rs) (talking peer bs) =
        let now = talk_turn r peer bs in let later = talk rs now.1 in (now.0 ++ later.0, later.1)

  -- The buffer and the arrivals that are not read hold the bytes.
  abbrev pub Follows : Task X → Talk → Type 0
  Follows (going c xs) (talking peer bs) =
      OnlyBytes xs × (c.peer ≡ peer) × (X.as_slice c.buffer ++ unread xs ≡ bs)
  Follows ended hung_up = Unit {0}
  Follows crashed cut_off = Unit {0}
  Follows _ _ = ⊥

  abbrev pub Tells : List (Event X) × Task X → List (Event X) × Talk → Type 0
  Tells p q = (p.0 ≡ q.0) × Follows p.1 q.1

  send-Tells :
      (heard : Bool) (e : Option (Event X)) (t : Task X) (u : Talk)
      → Follows t u
      → Tells (send_if_some heard e t) (tell heard e u)
  send-Tells heard none t u h = (refl, h)
  send-Tells true (some e) t u h = (refl, h)
  send-Tells false (some e) t u h = (refl, tt)

  error-Tells :
      (heard : Bool) (o : Option (Event X)) (c : BgpConn X) (rest : List Arrival)
      (peer : Option OpenMsg) (left : List ℕ)
      → Follows (going c rest) (talking peer left)
      → Tells
          (on_refusal heard o (going c rest))
          (elim o [ none ↦ ([], hung_up) | some e ↦ tell heard (some e) (talking peer left) ])
  error-Tells heard none c rest peer left h = (refl, tt)
  error-Tells heard (some e) c rest peer left h =
      send-Tells heard (some e) (going c rest) (talking peer left) h

  process_event-message_event :
      (syn : Bool) (m : Message) (c : BgpConn X) (rest : List Arrival)
      → process_event syn (returned m c rest) ≡ message_event syn m
  unfolding process_event
  process_event-message_event syn m c rest = ground arith

  on_reading-Tells :
      (syn heard : Bool) (peer : Option OpenMsg) (d : Outcome Message × List ℕ) (r : Reading X)
      → Agrees X peer d r
      → Leaves r
      → Tells (on_reading syn heard r) (on_decoded syn heard peer d)
  unfolding on_reading
  on_reading-Tells syn heard peer (ok m, left) (returned m' c rest) (e, p, q) l =
      rw (e, process_event-message_event syn m c rest)
        (send-Tells heard (message_event syn m) (going c rest) (talking (note_open m peer) left)
          (l, p, q))
  on_reading-Tells syn heard peer (err e, left) (refused e' c rest) (n, s, p, q) l =
      rw (n, s) (error-Tells heard (error_event {X = X} e) c rest peer left (l, p, q))
  on_reading-Tells syn heard peer (err e, left) (waiting c) (n, p, q) l =
      rw n (refl, (tt, p, append-nil (X.as_slice c.buffer) ∙ q))
  on_reading-Tells syn heard peer (panicked, left) broken a l = (refl, tt)
  on_reading-Tells syn heard peer (exhausted, left) broken a l = (refl, tt)
  on_reading-Tells syn heard peer (ok m, left) (refused e' c rest) a l = absurd a
  on_reading-Tells syn heard peer (ok m, left) (waiting c) a l = absurd a
  on_reading-Tells syn heard peer (ok m, left) broken a l = absurd a
  on_reading-Tells syn heard peer (err e, left) (returned m c rest) a l = absurd a
  on_reading-Tells syn heard peer (err e, left) broken a l = absurd a
  on_reading-Tells syn heard peer (panicked, left) (returned m c rest) a l = absurd a
  on_reading-Tells syn heard peer (panicked, left) (refused e' c rest) a l = absurd a
  on_reading-Tells syn heard peer (panicked, left) (waiting c) a l = absurd a
  on_reading-Tells syn heard peer (exhausted, left) (returned m c rest) a l = absurd a
  on_reading-Tells syn heard peer (exhausted, left) (refused e' c rest) a l = absurd a
  on_reading-Tells syn heard peer (exhausted, left) (waiting c) a l = absurd a

abbrev pub Delivers : Turn → Type 0
Delivers (outgoing m) = Unit {0}
Delivers (reading more heard) = OnlyBytes more

-- The socket delivers bytes in every round.
abbrev pub DeliverBytes : List Turn → Type 0
DeliverBytes [] = Unit {0}
DeliverBytes (r ∷ rs) = Delivers r × DeliverBytes rs

module _ (X : Extern) (checks syn : Bool) (L : Lawful X) where
  reading-Tells :
      (more xs : List Arrival) (heard : Bool) (c : BgpConn X)
      → OnlyBytes more
      → OnlyBytes xs
      → Tells X
          (turn checks syn (reading more heard) c xs)
          (talk_turn X checks syn (reading more heard) c.peer (X.as_slice c.buffer ++ unread xs))
  unfolding turn
  reading-Tells more xs heard c d o =
      on_reading-Tells X syn heard c.peer _ _
        (rw (unread-append xs more, ← append_assoc (X.as_slice c.buffer) (unread xs) (unread more))
          at (bytes-Agrees X checks (xs ++ more) c L (OnlyBytes-append xs more o d)))
        (read_message-Leaves checks (xs ++ more) c (OnlyBytes-append xs more o d))

  turn-Tells :
      (r : Turn) (c : BgpConn X) (xs : List Arrival) (peer : Option OpenMsg) (bs : List ℕ)
      → Delivers r
      → Follows X (going c xs) (talking peer bs)
      → Tells X (turn checks syn r c xs) (talk_turn X checks syn r peer bs)
  unfolding turn on_outgoing write_message encode_message
  turn-Tells (outgoing none) c xs peer bs d h = (refl, tt)
  turn-Tells (outgoing (some m)) c xs peer bs d h = (refl, h)
  turn-Tells (reading more heard) c xs peer bs d (o, p, q) =
      rw (← p, ← q) (reading-Tells more xs heard c d o)

  pub process-Tells :
      (rs : List Turn) (t : Task X) (u : Talk)
      → DeliverBytes rs
      → Follows X t u
      → Tells X (process checks syn rs t) (talk X checks syn rs u)
  unfolding process
  process-Tells [] t u d h = (refl, h)
  process-Tells (r ∷ rs) (going c xs) (talking peer bs) d h =
      let now = turn-Tells r c xs peer bs d.0 h in
      let later =
        process-Tells rs (turn checks syn r c xs).1 (talk_turn X checks syn r peer bs).1 d.1
          now.1 in
      (rw (now.0, later.0) refl, later.1)
  process-Tells (r ∷ rs) ended hung_up d h = (refl, tt)
  process-Tells (r ∷ rs) crashed cut_off d h = (refl, tt)
  process-Tells (r ∷ rs) (going c xs) hung_up d h = absurd h
  process-Tells (r ∷ rs) (going c xs) cut_off d h = absurd h
  process-Tells (r ∷ rs) ended (talking peer bs) d h = absurd h
  process-Tells (r ∷ rs) ended cut_off d h = absurd h
  process-Tells (r ∷ rs) crashed (talking peer bs) d h = absurd h
  process-Tells (r ∷ rs) crashed hung_up d h = absurd h

-- Over a lawful crate and a socket that delivers bytes, the task of a connection tells the session,
-- round by round, what a task over byte lists tells it that decodes one message in each round of
-- reading: an OPEN, an UPDATE, or an error of the header or of an OPEN. Both go on, end or panic
-- together, whatever the session sends and however the bytes are cut, and while they go on the
-- buffer and the arrivals that are not read hold the bytes that are left.
pub process-Talk :
    (X : Extern) (checks syn : Bool) (rs : List Turn) (conn : BgpConn X) (arrivals : List Arrival)
    → Lawful X
    → OnlyBytes arrivals
    → DeliverBytes rs
    → Tells X
        (process checks syn rs (going conn arrivals))
        (talk X checks syn rs (talking conn.peer (X.as_slice conn.buffer ++ unread arrivals)))
process-Talk X checks syn rs conn arrivals L o d =
    process-Tells X checks syn L rs (going conn arrivals)
      (talking conn.peer (X.as_slice conn.buffer ++ unread arrivals)) d (o, refl, refl)
