-- ===== src/Connection/Tests.antt =====
-- The reading of a message at a concrete connection.
use amnesia_bgp.Base.{ℕ, true, none, List, [], ◌∷◌, ◌++◌, replicate, arith}
use amnesia_bgp.Extern.{slices, slices-Lawful}
use amnesia_bgp.Connection.{BgpConn, read_message, bytes, end_of_stream}
use amnesia_bgp.Message.Frame.{decode_message}
use amnesia_bgp.Connection.Fragments.{Agrees, read_message-Agrees}
use amnesia_bgp.Connection.Stream.{IsWaiting, read_message_ended}

abbrev half_header : BgpConn slices
half_header = record { stream = 9; buffer = 1 ∷ 1 ∷ 1 ∷ []; peer = none }

read_message_ended_example :
    IsWaiting slices (1 ∷ 1 ∷ 1 ∷ []) (read_message true (replicate 2 end_of_stream) half_header)
read_message_ended_example =
    read_message_ended slices true 2 half_header slices-Lawful (omega arith)

-- A KEEPALIVE whose header is cut in two, with the first bytes of another behind it.
abbrev cut_keepalive : List (List ℕ)
cut_keepalive = replicate 13 255 ∷ (0 ∷ 19 ∷ 4 ∷ replicate 3 255) ∷ []

abbrev ones_header : BgpConn slices
ones_header = record { stream = 9; buffer = replicate 3 1; peer = none }

read_message-Agrees_example :
    Agrees slices none
      (decode_message slices true none
        (replicate 3 1 ++ (replicate 13 255 ++ (0 ∷ 19 ∷ 4 ∷ replicate 3 255))))
      (read_message true
        (bytes (replicate 13 255) ∷ bytes (0 ∷ 19 ∷ 4 ∷ replicate 3 255) ∷ [])
        ones_header)
read_message-Agrees_example =
    read_message-Agrees slices true cut_keepalive ones_header slices-Lawful
