-- ===== src/Main/Handover.antt =====
-- `process_passive` of src/main.rs, and `process` of src/session.rs on the connection it hands over.
use amnesia_bgp.Base.{Bool, true, false, none, some, List, ℕ, ◌≡◌, refl}
use amnesia_bgp.Extern.{Extern, Lawful, slices, Outcome, ok, err, panicked, exhausted}
use amnesia_bgp.Message.Types.{
  OpenMsg, Message, open_msg, update_msg, notification_msg, keepalive_msg,
}
use amnesia_bgp.Message.Frame.{decode_message}
use amnesia_bgp.Connection.{
  BgpConn, Arrival, Reading, returned, refused, waiting, broken, new_conn, read_message,
}
use amnesia_bgp.Connection.Fragments.{unread, Agrees}
use amnesia_bgp.Connection.Delivered.{OnlyBytes, bytes-Agrees, Leaves, read_message-Leaves}
use amnesia_bgp.Session.Process.{Turn, going, process}
use amnesia_bgp.Session.Process.Told.{talking, talk, Follows, Tells, DeliverBytes, process-Tells}
use amnesia_bgp.Main.{Passive, hands, on_first, process_passive}

module _ {X : Extern} (checks : Bool) where
  -- The bytes begin with this OPEN, and those behind it are the connection's.
  abbrev pub Passes : List ℕ → Passive X → Type 0
  Passes bs (hands c m rest) =
      (left : List ℕ) × (decode_message slices checks none bs ≡ (ok (open_msg m), left))
      × Follows X (going c rest) (talking (some m) left)
  Passes bs _ = Unit {0}

  on_first-Passes :
      (heard : Bool) (bs : List ℕ) (d : Outcome Message × List ℕ) (r : Reading X)
      → decode_message slices checks none bs ≡ d
      → Agrees X none d r
      → Leaves r
      → Passes bs (on_first heard r)
  unfolding on_first
  on_first-Passes true bs (ok d, left) (returned (open_msg m) c rest) e (s, p, q) l =
      (left, rw s e, (l, rw (← s) at p, q))
  on_first-Passes true bs (err d, left) (returned (open_msg m) c rest) e a l = absurd a
  on_first-Passes true bs (panicked, left) (returned (open_msg m) c rest) e a l = absurd a
  on_first-Passes true bs (exhausted, left) (returned (open_msg m) c rest) e a l = absurd a
  on_first-Passes false bs d (returned (open_msg m) c rest) e a l = tt
  on_first-Passes heard bs d (returned (update_msg m) c rest) e a l = tt
  on_first-Passes heard bs d (returned (notification_msg m) c rest) e a l = tt
  on_first-Passes heard bs d (returned keepalive_msg c rest) e a l = tt
  on_first-Passes heard bs d (refused x c rest) e a l = tt
  on_first-Passes heard bs d (waiting c) e a l = tt
  on_first-Passes heard bs d broken e a l = tt

  fresh-Passes :
      (heard : Bool) (socket : X.TcpStream) (arrivals : List Arrival)
      → Lawful X
      → OnlyBytes arrivals
      → Passes (unread arrivals) (process_passive {X = X} checks heard socket arrivals)
  unfolding process_passive new_conn
  fresh-Passes heard socket arrivals L o =
      on_first-Passes heard (unread arrivals) (decode_message slices checks none (unread arrivals))
        (read_message checks arrivals (new_conn socket)) refl
        (rw (L.as_slice-with_capacity 4096) at
          (bytes-Agrees X checks arrivals (new_conn socket) L o))
        (read_message-Leaves checks arrivals (new_conn socket) o)

-- Over a lawful crate, on a socket that delivers bytes: when the task of an accepted connection hands
-- it over, the bytes begin with the OPEN that it hands over, and a task that then owns the connection
-- tells the session what a task over byte lists tells it of the bytes behind that OPEN, however they
-- are cut and whichever of the two tasks had them in its buffer: no byte is lost between the two, and
-- the OPEN is known to the second.
pub process_passive-Talk :
    {X : Extern} (checks heard syn : Bool) (socket : X.TcpStream) (arrivals rest : List Arrival)
    (conn : BgpConn X) (m : OpenMsg) (rs : List Turn)
    → Lawful X
    → OnlyBytes arrivals
    → process_passive checks heard socket arrivals ≡ hands conn m rest
    → DeliverBytes rs
    → (left : List ℕ) × (decode_message slices checks none (unread arrivals)
        ≡ (ok (open_msg m), left))
      × Tells X
          (process checks syn rs (going conn rest))
          (talk X checks syn rs (talking (some m) left))
process_passive-Talk {X} checks heard syn socket arrivals rest conn m rs L o h d =
    go (rw h at (fresh-Passes checks heard socket arrivals L o))
  where
    go :
        Passes {X = X} checks (unread arrivals) (hands conn m rest)
        → (left : List ℕ) × (decode_message slices checks none (unread arrivals)
            ≡ (ok (open_msg m), left))
          × Tells X
              (process checks syn rs (going conn rest))
              (talk X checks syn rs (talking (some m) left))
    go (left, e, f) =
        (left, e, process-Tells X checks syn L rs (going conn rest) (talking (some m) left) d f)
