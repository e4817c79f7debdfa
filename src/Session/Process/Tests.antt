-- ===== src/Session/Process/Tests.antt =====
-- The theorems of `process` at a concrete connection.
use amnesia_bgp.Base.{true, none, some, List, [], ◌∷◌, ◌++◌, map, replicate, ◌≡◌, refl}
use amnesia_bgp.Error.{new_header, connection_not_sync}
use amnesia_bgp.Extern.{slices, slices-Lawful, combinators}
use amnesia_bgp.Message.Types.{keepalive_msg}
use amnesia_bgp.Message.Header.{decode_header}
use amnesia_bgp.Message.Frame.{decode_message}
use amnesia_bgp.Connection.{BgpConn, bytes, read_message}
use amnesia_bgp.Fsm.Types.{Event}
use amnesia_bgp.Session.Process.{Turn, outgoing, reading, going, process}
use amnesia_bgp.Session.Process.Told.{Tells, talk, talking, process-Talk}
use amnesia_bgp.Session.Process.Repeats.{process-Repeats}

-- A connection with the beginning of a header in its buffer.
abbrev begun : BgpConn slices
begun = record { stream = 9; buffer = replicate 3 1; peer = none }

-- The rest of the header comes in two parts, and the session sends a KEEPALIVE in between.
abbrev three_turns : List Turn
three_turns =
    reading (bytes (replicate 13 1) ∷ []) true
    ∷ outgoing (some keepalive_msg)
    ∷ reading (bytes (0 ∷ 19 ∷ 4 ∷ []) ∷ []) true
    ∷ []

process-Talk_example :
    Tells slices
      (process true true three_turns (going begun (bytes (1 ∷ []) ∷ [])))
      (talk slices true true three_turns (talking none (1 ∷ 1 ∷ 1 ∷ 1 ∷ [])))
process-Talk_example =
    process-Talk slices true true three_turns begun (bytes (1 ∷ []) ∷ []) slices-Lawful tt
      (tt, (tt, (tt, tt)))

-- A header with the marker of RFC 4271.
abbrev all_ones : BgpConn slices
all_ones = record { stream = 9; buffer = replicate 16 255 ++ (0 ∷ 19 ∷ 4 ∷ []); peer = none }

process-Repeats_example :
    process true true
      (map (λ m. reading m true) ([] ∷ (bytes (1 ∷ []) ∷ []) ∷ []))
      (going all_ones [])
    ≡ (
      Event.bgp_header_err (new_header connection_not_sync none)
          ∷ Event.bgp_header_err (new_header connection_not_sync none)
          ∷ [],
      going all_ones (bytes (1 ∷ []) ∷ []),
    )
unfolding read_message decode_message decode_header combinators
process-Repeats_example =
    process-Repeats true true [] all_ones all_ones (new_header connection_not_sync none) []
      (Event.bgp_header_err (new_header connection_not_sync none)) ([] ∷ (bytes (1 ∷ []) ∷ []) ∷ [])
      refl refl
