-- ===== src/Main/Tests.antt =====
-- The theorems of the program's entry at concrete connections.
use amnesia_bgp.Base.{ℕ, true, false, none, some, List, [], ◌∷◌, ◌++◌, replicate, ◌≡◌, refl}
use mathlib.Core.List.{Mem}
use amnesia_bgp.Net.{v4, IpAddr}
use amnesia_bgp.Config.{Neighbor, external}
use amnesia_bgp.Extern.{slices, slices-Lawful, ok, combinators}
use amnesia_bgp.Message.Types.{OpenMsg, open_msg}
use amnesia_bgp.Message.Header.{decode_header, msg_type_of}
use amnesia_bgp.Message.Open.{decode_open, decode_opt_params, decode_opt_params_from}
use amnesia_bgp.Message.Frame.{decode_message, decode_body}
use amnesia_bgp.Message.Framing.{frame}
use amnesia_bgp.Connection.{BgpConn, bytes, peer_sock, read_message, new_conn}
use amnesia_bgp.Fsm.Types.{State, Event, active, new_attributes}
use amnesia_bgp.Session.Run.{run}
use amnesia_bgp.Session.Stranded.{Panics}
use amnesia_bgp.Session.Process.{going, process, reading}
use amnesia_bgp.Session.Process.Told.{Tells, talk, talking}
use amnesia_bgp.Main.{
  Offer, insert, get, send_both, start_sessions, dispatch, dispatch_all, process_passive, on_first,
}
use amnesia_bgp.Main.Hands.{started_for, dispatch-Hands}
use amnesia_bgp.Main.Strangers.{dispatch_all-IsStranger}
use amnesia_bgp.Main.Accepted.{admin_deliveries, dispatch-Panics}
use amnesia_bgp.Main.Handover.{process_passive-Talk}

abbrev neighbour_at : ℕ → ℕ → Neighbor
neighbour_at a n = record {
  neighbor_address = v4 a;
  config = record {
    router_id = 167772161;
    peer_group = "edge";
    neighbor_address = v4 a;
    neighbor_port = 179;
    enabled = true;
    peer_as = n;
    local_as = 65000;
    peer_type = external;
  };
  timers = record {
    config = record {
      connect_retry = 120;
      hold_time = 90;
      keepalive_internal = 30;
      minimum_advertisement_interval = 30;
      restart_time = 60;
    };
  };
}

abbrev peer_open : OpenMsg
peer_open = record {
  version = 4;
  as_number = 65000;
  hold_time = 90;
  bgp_identifier = 167772162;
  ext_opt_param = false;
  opt_params_len = 0;
  opt_params = record { mp_ext_caps = none; four_octet_as_cap = none };
}

-- The stream of the peer names its address.
abbrev offer_from : ℕ → Offer slices
offer_from a = record {
  conn = record { stream = a; buffer = []; peer = some peer_open };
  msg = peer_open;
  first = λ c. true;
  second = λ c. true;
}

abbrev two_neighbours : List (IpAddr × Neighbor)
two_neighbours =
    (v4 167772162, neighbour_at 167772162 65000) ∷ (v4 167772163, neighbour_at 167772163 65001) ∷ []

dispatch-Hands_example :
    Mem
      (started_for slices (v4 167772162) (neighbour_at 167772162 65000) 0)
      (start_sessions {X = slices} two_neighbours 0 []).1
    × (dispatch (start_sessions {X = slices} two_neighbours 0 []).0 (offer_from 167772162) ≡ (
      (0, Event.tcp_connection_confirmed (offer_from 167772162).conn)
          ∷ (0, Event.bgp_open peer_open true)
          ∷ [],
      true,
    ))
unfolding peer_sock
dispatch-Hands_example =
    dispatch-Hands [] ((v4 167772163, neighbour_at 167772163 65001) ∷ [])
      (record { ip = v4 167772162; port = 179 }) (neighbour_at 167772162 65000)
      (offer_from 167772162) (refl, tt) refl refl refl refl

dispatch_all-IsStranger_example :
    dispatch_all
      (start_sessions {X = slices} two_neighbours 0 []).0
      (offer_from 7 ∷ offer_from 167772162 ∷ [])
    ≡ ([], false)
unfolding peer_sock dispatch_all
dispatch_all-IsStranger_example =
    dispatch_all-IsStranger {X = slices} two_neighbours [] (offer_from 167772162 ∷ [])
      (offer_from 7) (record { ip = v4 7; port = 179 }) refl (refl, (refl, tt))

-- An OPEN with nine bytes behind it, as many as its decoding asks for.
abbrev first_bytes : List ℕ
first_bytes = frame 0 29 1 (
    4
    ∷ 0
    ∷ 0
    ∷ 0
    ∷ 253
    ∷ 232
    ∷ 0
    ∷ 0
    ∷ 0
    ∷ 90
    ∷ 0
    ∷ 0
    ∷ 10
    ∷ 0
    ∷ 0
    ∷ 2
    ∷ 0
    ∷ 0
    ∷ 0
    ∷ 0
    ∷ replicate 9 1)

abbrev handed_conn : BgpConn slices
handed_conn = record { stream = 9; buffer = replicate 9 1; peer = some peer_open }

process_passive-Talk_example :
    (left : List ℕ) × (decode_message slices true none (first_bytes ++ [])
      ≡ (ok (open_msg peer_open), left))
    × Tells slices
        (process true true (reading (bytes (replicate 7 1) ∷ []) true ∷ []) (going handed_conn []))
        (talk slices true true
          (reading (bytes (replicate 7 1) ∷ []) true ∷ [])
          (talking (some peer_open) left))
unfolding process_passive new_conn on_first read_message decode_message decode_header msg_type_of
    decode_body decode_open decode_opt_params decode_opt_params_from combinators
process_passive-Talk_example =
    process_passive-Talk true true true 9 (bytes first_bytes ∷ []) [] handed_conn peer_open
      (reading (bytes (replicate 7 1) ∷ []) true ∷ []) slices-Lawful tt refl (tt, tt)

abbrev test_active : State slices
unfolding new_attributes
test_active = active (record {
  state = record { tcp_conn_handle = none; bgp_conn_handle = none; bgp_out_tx = none };
  peer = record { ip = v4 167772162; port = 179 };
  attr = new_attributes;
})

dispatch-Panics_example : Panics (
    run
      (neighbour_at 167772162 65000)
      true
      (admin_deliveries
        (λ c. true)
        (dispatch (start_sessions {X = slices} two_neighbours 0 []).0 (offer_from 167772162)).0)
      test_active
      (record { next_task = 0; next_channel = 0; log = [] }))
unfolding dispatch peer_sock get start_sessions insert send_both new_attributes
dispatch-Panics_example =
    dispatch-Panics (neighbour_at 167772162 65000) true (λ c. true)
      (start_sessions {X = slices} two_neighbours 0 []).0 (offer_from 167772162) test_active
      (record { next_task = 0; next_channel = 0; log = [] }) refl (refl, refl, refl) refl
