-- ===== src/Message/Tests.antt =====
-- The theorems of the messages at concrete buffers.
use amnesia_bgp.Base.{
  ◌≤◌, ◌*◌, ◌+◌, length, ℕ, true, false, none, some, List, [], ◌∷◌, ◌++◌, replicate, ◌≡◌, refl, inr,
  arith,
}
use amnesia_bgp.Error.{connection_not_sync, new_header, from_buffer_too_short}
use amnesia_bgp.Extern.{slices, slice_of, slices-Lawful, ok, err, panicked, map_outcome, id}
use amnesia_bgp.Message.Types.{
  OpenMsg, PathAttribute, igp, origin, update_type, open_type, open_msg, notification_msg,
}
use amnesia_bgp.Message.Header.{decode_header}
use amnesia_bgp.Message.Open.{decode_open}
use amnesia_bgp.Message.Update.{decode_update}
use amnesia_bgp.Message.Prefix.{decode_cidr}
use amnesia_bgp.Message.Frame.{decode_body, decode_message}
use amnesia_bgp.Message.Ending.{Kept, decode_body-Kept}
use amnesia_bgp.Message.Acceptable.{OfValue, IsAcceptable, decode_open-IsAcceptable}
use amnesia_bgp.Message.Framing.{
  frame, open_fits, keepalive_fits, decode_header-Fits, decode_message_all_ones,
}
use amnesia_bgp.Message.Cutting.{decode_message_short}
use amnesia_bgp.Message.Prefixes.{Decoded, decode_cidr_long, decode_cidr-Decoded}
use amnesia_bgp.Message.Bytes.{on_bytes}
use amnesia_bgp.Message.Layout.OpenTrip.{decode_open-open_bytes}
use amnesia_bgp.Message.Layout.FrameTrip.{decode_message-open_bytes, decode_message_notification}
use amnesia_bgp.Message.Layout.UpdateBytes.{Network, update_of, decode_update-update_bytes}

-- An OPEN of version 4, with AS 65000, 90 seconds and 10.0.0.2, laid out as the decoder reads it.
abbrev open_bytes : List ℕ
open_bytes =
    4 ∷ 0 ∷ 0 ∷ 0 ∷ 253 ∷ 232 ∷ 0 ∷ 0 ∷ 0 ∷ 90 ∷ 0 ∷ 0 ∷ 10 ∷ 0 ∷ 0 ∷ 2 ∷ 0 ∷ 0 ∷ 0 ∷ 0 ∷ []

-- The body of an UPDATE that withdraws 10.0.0.0/8, sends an ORIGIN and names no network.
abbrev update_bytes : List ℕ
update_bytes = 0 ∷ 2 ∷ 8 ∷ 10 ∷ 0 ∷ 4 ∷ 64 ∷ 1 ∷ 1 ∷ 0 ∷ []

-- The layout of `rich_open`.
abbrev rich_bytes : List ℕ
rich_bytes =
    4 ∷ 0 ∷ 0 ∷ 0 ∷ 253 ∷ 232 ∷ 0 ∷ 0 ∷ 0 ∷ 90 ∷ 0 ∷ 0 ∷ 10 ∷ 0 ∷ 0 ∷ 2 ∷ 2 ∷ 0 ∷ 0 ∷ 0 ∷ 1 ∷ 4 ∷ 0
    ∷ 2 ∷ 0 ∷ 1 ∷ 63 ∷ 4 ∷ 0 ∷ 0 ∷ 253 ∷ 232 ∷ []

abbrev test_open : OpenMsg
test_open = record {
  version = 4;
  as_number = 65000;
  hold_time = 90;
  bgp_identifier = 167772162;
  ext_opt_param = false;
  opt_params_len = 0;
  opt_params = record { mp_ext_caps = none; four_octet_as_cap = none };
}

decode_body-Kept_example :
    Kept slices true
      (slice_of update_bytes)
      ((decode_body {X = slices} true (some test_open) update_type).run (slice_of update_bytes))
decode_body-Kept_example =
    decode_body-Kept slices true (some test_open) update_type (slice_of update_bytes) slices-Lawful

decode_open-IsAcceptable_example :
    OfValue IsAcceptable ((decode_open {X = slices}).run (slice_of open_bytes))
decode_open-IsAcceptable_example = decode_open-IsAcceptable slices (slice_of open_bytes)

decode_header-Fits_example :
    map_outcome slices id ((decode_header {X = slices}).run (slice_of (frame 0 29 1 open_bytes)))
    ≡ ok (
      record { len = 29; msg_type = open_type },
      record { whole = frame 0 29 1 open_bytes; pos = 19; rest = open_bytes },
    )
decode_header-Fits_example =
    decode_header-Fits slices (slice_of (frame 0 29 1 open_bytes)) 0 29 1 open_bytes slices-Lawful
      refl (open_fits (omega arith))

decode_message_all_ones_example :
    decode_message slices true none (replicate 16 255 ++ (0 ∷ 19 ∷ 4 ∷ []))
    ≡ (err (new_header connection_not_sync none), replicate 16 255 ++ (0 ∷ 19 ∷ 4 ∷ []))
decode_message_all_ones_example =
    decode_message_all_ones slices true none (replicate 16 255 ++ (0 ∷ 19 ∷ 4 ∷ []))
      (0 ∷ 19 ∷ 4 ∷ []) slices-Lawful refl (omega arith)

decode_message_short_example :
    (decode_message slices true none (frame 0 19 4 [])).0 ≡ err from_buffer_too_short
decode_message_short_example =
    decode_message_short slices true none (frame 0 19 4 []) 0 19 4 [] slices-Lawful refl
      keepalive_fits (omega arith)

decode_cidr_long_example :
    (decode_cidr {X = slices} true).run (slice_of (129 ∷ replicate 17 1)) ≡ panicked
decode_cidr_long_example =
    decode_cidr_long slices true (slice_of (129 ∷ replicate 17 1)) 129 (replicate 17 1)
      slices-Lawful refl (omega arith) (omega arith) (omega arith)

decode_cidr-Decoded_example :
    Decoded 24 (10 ∷ 1 ∷ 2 ∷ []) (
      map_outcome slices id ((decode_cidr {X = slices} true).run (slice_of (24 ∷ 10 ∷ 1 ∷ 2 ∷ []))))
decode_cidr-Decoded_example =
    decode_cidr-Decoded slices true (slice_of (24 ∷ 10 ∷ 1 ∷ 2 ∷ [])) 24 (10 ∷ 1 ∷ 2 ∷ [])
      slices-Lawful refl (omega arith) (omega arith)

-- An OPEN with a capability for another family and the number of an autonomous system.
abbrev rich_open : OpenMsg
rich_open = record test_open {
  opt_params_len = 2;
  opt_params = record {
    mp_ext_caps = some (record { afi = 2; safi = 1 } ∷ []);
    four_octet_as_cap = some (record { as_num = 65000 });
  };
}

abbrev ten : Network
ten = record { len = 8; leading = 10 ∷ [] }

abbrev test_origin : PathAttribute
test_origin = record {
  attr_flags = record {
    optional = false;
    transitive = true;
    partial = false;
    extended_length = false;
  };
  attr_type_code = 1;
  attr_len = 1;
  attr_value = origin igp;
}

decode_open-open_bytes_example :
    (20 ≤ length rich_bytes)
    × (map_outcome slices id ((decode_open {X = slices}).run (slice_of (rich_bytes ++ (7 ∷ []))))
        ≡ ok (rich_open, record { whole = rich_bytes ++ (7 ∷ []); pos = 32; rest = 7 ∷ [] }))
decode_open-open_bytes_example =
    decode_open-open_bytes slices (slice_of (rich_bytes ++ (7 ∷ []))) rich_open (7 ∷ [])
      slices-Lawful refl (refl, inr (omega arith), (λ h. omega arith), (λ h. omega arith))
      ((λ h. cc), refl)

decode_update-update_bytes_example :
    map_outcome slices id (
      (decode_update {X = slices} true test_open).run
        (slice_of (0 ∷ 2 ∷ 8 ∷ 10 ∷ 0 ∷ 4 ∷ 64 ∷ 1 ∷ 1 ∷ 0 ∷ 8 ∷ 8 ∷ 10 ∷ [])))
    ≡ ok (
      update_of test_open (ten ∷ []) (test_origin ∷ []) (ten ∷ []),
      record {
        whole = 0 ∷ 2 ∷ 8 ∷ 10 ∷ 0 ∷ 4 ∷ 64 ∷ 1 ∷ 1 ∷ 0 ∷ 8 ∷ 8 ∷ 10 ∷ [];
        pos = 13;
        rest = [];
      },
    )
decode_update-update_bytes_example =
    decode_update-update_bytes slices true
      (slice_of (0 ∷ 2 ∷ 8 ∷ 10 ∷ 0 ∷ 4 ∷ 64 ∷ 1 ∷ 1 ∷ 0 ∷ 8 ∷ 8 ∷ 10 ∷ [])) test_open (ten ∷ [])
      (test_origin ∷ []) (ten ∷ []) slices-Lawful refl
      (((omega arith, refl), tt), ((refl, refl), tt), ((omega arith, refl), tt))

-- A NOTIFICATION without data, and the beginning of the next header behind it.
abbrev notification_bytes : List ℕ
notification_bytes = frame 0 21 3 (6 ∷ 2 ∷ replicate 19 1)

decode_message-open_bytes_example :
    (39 ≤ 0 * 256 + 51)
    × (on_bytes slices (
          decode_message slices true none
            (frame 0 51 1 (rich_bytes ++ (replicate 19 1 ++ (7 ∷ [])))))
        ≡ (ok (open_msg rich_open), replicate 19 1 ++ (7 ∷ [])))
decode_message-open_bytes_example =
    decode_message-open_bytes slices true none
      (frame 0 51 1 (rich_bytes ++ (replicate 19 1 ++ (7 ∷ [])))) 0 51 (replicate 19 1) (7 ∷ [])
      rich_open slices-Lawful (refl, inr (omega arith), (λ h. omega arith), (λ h. omega arith))
      ((λ h. cc), refl) refl refl refl

decode_message_notification_example :
    on_bytes slices (decode_message slices true none notification_bytes) ≡ (
      ok (
          notification_msg
            (record { error_code = 6; error_subcode = 2; payload = some (replicate 19 1) })),
      [],
    )
decode_message_notification_example =
    decode_message_notification slices true none notification_bytes 0 21 (replicate 19 1) [] 6 2 []
      slices-Lawful refl refl refl

-- Version 4, AS 65000, 90 seconds, 10.0.0.2 and no parameters, one behind the other.
abbrev documented_bytes : List ℕ
documented_bytes = 4 ∷ 253 ∷ 232 ∷ 0 ∷ 90 ∷ 10 ∷ 0 ∷ 0 ∷ 2 ∷ 0 ∷ 0 ∷ 0 ∷ 0 ∷ []
