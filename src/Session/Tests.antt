-- ===== src/Session/Tests.antt =====
-- The theorems of the session at concrete sessions of a router 10.0.0.1 with its peer 10.0.0.2.
use amnesia_bgp.Base.{◌+◌, true, false, some, none, List, [], ◌∷◌, ◌≡◌, refl, arith, inr}
use amnesia_bgp.Net.{SocketAddr, v4}
use amnesia_bgp.Config.{Neighbor, internal}
use amnesia_bgp.Error.{cease, hold_timer_expired}
use amnesia_bgp.Extern.{slices}
use amnesia_bgp.Message.Types.{OpenMsg, open_msg, from_conf}
use amnesia_bgp.Connection.{BgpConn, returned}
use amnesia_bgp.Fsm.Types.{
  Event, connect, open_sent, open_confirm, Fsm, Connect, OpenSent, OpenConfirm, new_attributes,
  new_state, get_attr, TimerKind,
}
use amnesia_bgp.Fsm.Runtime.{Env, World, out, spawn_process}
use amnesia_bgp.Fsm.TimerTask.{timer_round, route}
use amnesia_bgp.Session.Common.{Source, plain_notification}
use amnesia_bgp.Session.Tasks.{
  ByTask, process_one_events, process_event, try_tcp_conn_event, to_list, comes_by_task,
  task_events-ByTask,
}
use amnesia_bgp.Session.Post.{Post, Ends}
use amnesia_bgp.Session.Run.{Delivery, step, run}
use amnesia_bgp.Session.Edges.{phase, ◌⟶◌, is_idle, is_connect, step-⟶}
use amnesia_bgp.Session.Clock.{Noted, NotedDelay, waits, step-Noted, step-NotedDelay, run-Noted}
use amnesia_bgp.Session.Reach.{IsUnopened, run-IsUnopened}
use amnesia_bgp.Session.ToIdle.{
  RetryStopped, HoldKept, CountedOnce, step-RetryStopped, step-HoldKept, step-CountedOnce,
}
use amnesia_bgp.Session.Equipped.{IsEquipped, step-IsEquipped, run-IsEquipped, step-Ends}
use amnesia_bgp.Session.Notice.{Notified, step-Notified}
use amnesia_bgp.Session.Handshake.{
  Negotiated, KeepaliveThird, IsUp, step-Negotiated, open_sent-Negotiated, handshake-IsUp,
}
use amnesia_bgp.Session.Stranded.{Panics, IsStranded, connect-Panics}
use amnesia_bgp.Session.Collision.{Resolved, step-Resolved}
use amnesia_bgp.Session.Stops.{connect_start_drops, manual_stop-Ends}

abbrev test_peer : SocketAddr
test_peer = record { ip = v4 167772162; port = 179 }

abbrev test_conf : Neighbor
test_conf = record {
  neighbor_address = v4 167772162;
  config = record {
    router_id = 167772161;
    peer_group = "edge";
    neighbor_address = v4 167772162;
    neighbor_port = 179;
    enabled = true;
    peer_as = 65000;
    local_as = 65000;
    peer_type = internal;
  };
  timers = record {
    config = record {
      connect_retry = 120;
      hold_time = 90;
      keepalive_internal = 30;
      minimum_advertisement_interval = 30;
      restart_time = 60;
    };
  };
}

abbrev test_env : Env
test_env = record { conf = test_conf; overflow_checks = true; alive = λ c. true }

abbrev test_world : World slices
test_world = record { next_task = 5; next_channel = 3; log = [] }

abbrev peer_open : OpenMsg
peer_open = record {
  version = 4;
  as_number = 65000;
  hold_time = 30;
  bgp_identifier = 167772162;
  ext_opt_param = false;
  opt_params_len = 0;
  opt_params = record { mp_ext_caps = none; four_octet_as_cap = none };
}

abbrev test_conn : BgpConn slices
test_conn = record { stream = 9; buffer = []; peer = none }

abbrev test_connect : Fsm Connect
unfolding new_attributes
test_connect = record {
  state = record { tcp_conn_handle = none; bgp_conn_handle = some 1; bgp_out_tx = some 2 };
  peer = test_peer;
  attr = new_attributes;
}

abbrev test_open_sent : Fsm (OpenSent slices)
unfolding new_attributes from_conf
test_open_sent = record {
  state = record {
    bgp_conn_handle = some 1;
    bgp_out_tx = some 2;
    local_open = some (from_conf test_conf);
    remote_syn = false;
    collision_conn = some test_conn;
  };
  peer = test_peer;
  attr = new_attributes;
}

abbrev test_open_confirm : Fsm (OpenConfirm slices)
unfolding new_attributes from_conf
test_open_confirm = record {
  state = record {
    bgp_conn_handle = some 1;
    bgp_out_tx = some 2;
    peer_open = some peer_open;
    local_open = some (from_conf test_conf);
    remote_syn = false;
    collision_conn = some test_conn;
  };
  peer = test_peer;
  attr = new_attributes;
}

abbrev test_schedule : List (Delivery slices)
test_schedule =
    record { source = Source.admin; event = some Event.manual_start; alive = λ c. true }
    ∷ record {
      source = Source.timer;
      event = some Event.connect_retry_timer_expires;
      alive = λ c. true;
    }
    ∷ []

step-⟶_example :
    Post
      (λ t _. is_connect ⟶ phase t)
      (step (connect test_connect) Event.delay_open_timer_expires Source.timer test_env test_world)
step-⟶_example =
    step-⟶ (connect test_connect) Event.delay_open_timer_expires Source.timer test_env test_world

step-Noted_example :
    Post Noted (step (connect test_connect) Event.manual_stop Source.admin test_env test_world)
unfolding new_attributes get_attr timer_round route
step-Noted_example =
    step-Noted (connect test_connect) Event.manual_stop Source.admin test_env test_world
      (refl, refl, refl)

step-NotedDelay_example :
    Post NotedDelay (step (connect test_connect) Event.manual_stop Source.admin test_env test_world)
unfolding new_attributes get_attr timer_round route
step-NotedDelay_example =
    step-NotedDelay (connect test_connect) Event.manual_stop Source.admin test_env test_world refl
      refl

run-Noted_example : Post Noted (
    run test_conf true test_schedule
      (new_state test_peer)
      (record { next_task = 0; next_channel = 0; log = [] }))
run-Noted_example = run-Noted test_conf true test_peer test_schedule 0 0

run-IsUnopened_example :
    Post IsUnopened (run test_conf true test_schedule (new_state test_peer) test_world)
run-IsUnopened_example =
    run-IsUnopened test_conf true test_peer test_schedule test_world
      (λ e h. ground arith, (λ e h. ground arith, tt))

step-RetryStopped_example : Post RetryStopped (
    step (open_confirm test_open_confirm) Event.hold_timer_expires Source.timer test_env test_world)
step-RetryStopped_example =
    step-RetryStopped (open_confirm test_open_confirm) Event.hold_timer_expires Source.timer
      test_env test_world refl

step-HoldKept_example : Post (HoldKept test_world) (
    step (open_confirm test_open_confirm) Event.hold_timer_expires Source.timer test_env test_world)
step-HoldKept_example =
    step-HoldKept (open_confirm test_open_confirm) Event.hold_timer_expires Source.timer test_env
      test_world

step-CountedOnce_example : Post (CountedOnce (open_confirm test_open_confirm)) (
    step (open_confirm test_open_confirm) Event.hold_timer_expires Source.timer test_env test_world)
step-CountedOnce_example =
    step-CountedOnce (open_confirm test_open_confirm) Event.hold_timer_expires Source.timer test_env
      test_world

step-IsEquipped_example : Post IsEquipped (
    step (open_sent test_open_sent) (Event.bgp_open peer_open false) Source.bgp test_env test_world)
unfolding new_attributes from_conf get_attr
step-IsEquipped_example =
    step-IsEquipped (open_sent test_open_sent) (Event.bgp_open peer_open false) Source.bgp test_env
      test_world (inr refl)

run-IsEquipped_example :
    Post IsEquipped (run test_conf true test_schedule (new_state test_peer) test_world)
run-IsEquipped_example = run-IsEquipped test_conf true test_peer test_schedule test_world

step-Ends_example : Ends IsEquipped (
    step
      (open_confirm test_open_confirm)
      (Event.bgp_open peer_open true)
      Source.bgp
      test_env
      test_world)
unfolding new_attributes from_conf get_attr
step-Ends_example =
    step-Ends (open_confirm test_open_confirm) (Event.bgp_open peer_open true) Source.bgp test_env
      test_world (λ c. refl) refl (refl, refl, refl) refl (omega arith)

step-Notified_example : Ends (Notified hold_timer_expired 2 (some 1) test_world) (
    step (open_confirm test_open_confirm) Event.hold_timer_expires Source.timer test_env test_world)
unfolding new_attributes from_conf get_attr
step-Notified_example =
    step-Notified (open_confirm test_open_confirm) Event.hold_timer_expires Source.timer test_env
      test_world refl refl refl (omega arith)

step-Negotiated_example :
    Ends
      (λ t v. Negotiated (from_conf test_conf) peer_open t v × KeepaliveThird t v)
      (step
        (connect test_connect)
        (Event.bgp_open_with_delay_open_timer_running peer_open false)
        Source.admin
        test_env
        test_world)
unfolding new_attributes from_conf get_attr
step-Negotiated_example =
    step-Negotiated (connect test_connect) Source.admin test_env test_world peer_open false
      (omega arith) refl refl

open_sent-Negotiated_example :
    Ends
      (λ t v.
        Negotiated (from_conf test_conf) peer_open t v
        × (waits TimerKind.keepalive v.log ≡ test_open_sent.attr.keepalive_time))
      (step
        (open_sent test_open_sent)
        (Event.bgp_open peer_open false)
        Source.bgp
        test_env
        test_world)
unfolding new_attributes from_conf get_attr
open_sent-Negotiated_example =
    open_sent-Negotiated test_open_sent Source.bgp test_env test_world peer_open (omega arith) refl

handshake-IsUp_example :
    Ends
      (λ t v.
        Ends
          (IsUp (from_conf test_conf) peer_open)
          (step t Event.keepalive_msg Source.bgp test_env v))
      (step
        (connect test_connect)
        (Event.bgp_open_with_delay_open_timer_running peer_open false)
        Source.admin
        test_env
        test_world)
unfolding new_attributes from_conf get_attr
handshake-IsUp_example =
    handshake-IsUp (connect test_connect) Source.admin Source.bgp test_env test_env test_world
      peer_open false (omega arith) refl refl

connect-Panics_example :
    Ends
      (λ t v.
        IsStranded t v × Panics (step t (Event.bgp_open peer_open false) Source.bgp test_env v))
      (step (connect test_connect) (Event.tcp_cr_acked 9) Source.tcp test_env test_world)
unfolding new_attributes from_conf get_attr
connect-Panics_example =
    connect-Panics test_connect (Event.tcp_cr_acked 9) (Event.bgp_open peer_open false) Source.tcp
      Source.bgp test_env test_env test_world refl refl refl refl

step-Resolved_example :
    Ends
      (Resolved true
        (out 3 (open_msg (from_conf test_conf))
          ∷ spawn_process 5 test_conn 3 true
          ∷ out 2 (plain_notification cease)
          ∷ [])
        (open_sent test_open_sent)
        test_world)
      (step
        (open_sent test_open_sent)
        (Event.bgp_open peer_open true)
        Source.coll
        test_env
        test_world)
unfolding new_attributes from_conf get_attr
step-Resolved_example =
    step-Resolved (open_sent test_open_sent) Source.coll test_env test_world peer_open true
      (λ c. refl) refl refl refl refl

connect_start_drops_example :
    Ends
      (λ t v.
        (phase t ≡ is_idle)
        × ((get_attr t).connect_retry_counter ≡ test_connect.attr.connect_retry_counter + 1))
      (step (connect test_connect) Event.manual_start Source.admin test_env test_world)
unfolding new_attributes from_conf get_attr
connect_start_drops_example =
    connect_start_drops test_connect Event.manual_start Source.admin test_env test_world refl
      (omega arith)

manual_stop-Ends_example :
    Ends
      (λ t v. (phase t ≡ is_idle) × ((get_attr t).connect_retry_counter ≡ 0))
      (step (open_sent test_open_sent) Event.manual_stop Source.admin test_env test_world)
unfolding new_attributes from_conf get_attr
manual_stop-Ends_example =
    manual_stop-Ends (open_sent test_open_sent) Source.admin test_env test_world (λ c. refl) refl

task_events-ByTask_example :
    ByTask (process_one_events true (returned (open_msg peer_open) test_conn []))
    × ByTask (to_list (process_event true (returned (open_msg peer_open) test_conn [])))
    × (comes_by_task (try_tcp_conn_event {X = slices} (some 9)) ≡ true)
task_events-ByTask_example =
    task_events-ByTask slices true (returned (open_msg peer_open) test_conn []) (some 9)
