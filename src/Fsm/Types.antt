-- ===== src/Fsm/Types.antt =====
-- The events, attributes, states and timers of src/fsm.rs.
use amnesia_bgp.Base.{ℕ, ◌*◌, Bool, false, Option, List, [], ◌∷◌}
use amnesia_bgp.Net.{Duration, from_secs, SocketAddr}
use amnesia_bgp.Error.{Error}
use amnesia_bgp.Extern.{Extern}
use amnesia_bgp.Message.Types.{OpenMsg, UpdateMsg}
use amnesia_bgp.Connection.{BgpConn}

abbrev pub far_future : Duration
far_future = from_secs (86400 * 365 * 30)

abbrev pub dflt_keepalive_factor : ℕ
dflt_keepalive_factor = 3

abbrev pub dflt_bgp_timers_connect : Duration
dflt_bgp_timers_connect = from_secs 10

abbrev pub dflt_bgp_holdtime : Duration
dflt_bgp_holdtime = from_secs 9

abbrev pub dflt_bgp_keepalive : Duration
dflt_bgp_keepalive = from_secs 3

pub data Event (X : Extern) : Type 0 where
  manual_start : Event X
  manual_stop : Event X
  automatic_start : Event X
  manual_start_with_passive_tcp_establishment : Event X
  automatic_start_with_passive_tcp_establishment : Event X
  automatic_start_with_damp_peer_oscillations : Event X
  automatic_start_with_damp_peer_oscillations_and_passive_tcp_establishment : Event X
  automatic_stop : Event X
  connect_retry_timer_expires : Event X
  hold_timer_expires : Event X
  keepalive_timer_expires : Event X
  delay_open_timer_expires : Event X
  idle_hold_timer_expires : Event X
  tcp_connection_valid : Event X
  tcp_cr_invalid : Event X
  tcp_cr_acked : X.TcpStream → Event X
  tcp_connection_confirmed : BgpConn X → Event X
  tcp_connection_fails : Error → Event X
  bgp_open : OpenMsg → Bool → Event X
  bgp_open_with_delay_open_timer_running : OpenMsg → Bool → Event X
  bgp_header_err : Error → Event X
  bgp_open_msg_err : Error → Event X
  open_collision_dump : Event X
  notify_msg_ver_err : Error → Event X
  notify_msg : Error → Event X
  keepalive_msg : Event X
  update_msg : UpdateMsg → Event X
  update_msg_err : Error → Event X
  process_one_done : BgpConn X → Event X

pub record SessionAttributes : Type 0 where
  pub connect_retry_counter : ℕ
  pub connect_retry_time : Duration
  pub hold_time : Duration
  pub keepalive_time : Duration
  pub delay_open_time : Duration
  pub delay_open : Bool
  pub send_notification_without_open : Bool
  pub collision_detect_established_state : Bool
  pub damp_peer_oscillations : Bool
  pub cur_connect_retry_time : Duration
  pub cur_hold_time : Duration
  pub cur_keepalive_time : Duration
  pub cur_delay_open_time : Duration

-- `SessionAttributes::new`
unfoldable pub new_attributes : SessionAttributes
new_attributes = record {
  connect_retry_counter = 0;
  connect_retry_time = dflt_bgp_timers_connect;
  hold_time = dflt_bgp_holdtime;
  keepalive_time = dflt_bgp_keepalive;
  delay_open_time = 0;
  delay_open = false;
  send_notification_without_open = false;
  collision_detect_established_state = false;
  damp_peer_oscillations = false;
  cur_connect_retry_time = far_future;
  cur_hold_time = far_future;
  cur_keepalive_time = far_future;
  cur_delay_open_time = far_future;
}

-- `task::JoinHandle<()>` and `mpsc::Sender<Message>` name a task and a channel of the runtime,
-- which numbers them in the order of their creation.
abbrev pub JoinHandle : Type 0
JoinHandle = ℕ

abbrev pub Sender : Type 0
Sender = ℕ

pub record Fsm (S : Type 0) : Type 0 where
  pub state : S
  pub peer : SocketAddr
  pub attr : SessionAttributes

abbrev pub Idle : Type 0
Idle = Unit

pub record Connect : Type 0 where
  pub tcp_conn_handle : Option JoinHandle
  pub bgp_conn_handle : Option JoinHandle
  pub bgp_out_tx : Option Sender

pub record Active : Type 0 where
  pub tcp_conn_handle : Option JoinHandle
  pub bgp_conn_handle : Option JoinHandle
  pub bgp_out_tx : Option Sender

pub record OpenSent (X : Extern) : Type 0 where
  pub bgp_conn_handle : Option JoinHandle
  pub bgp_out_tx : Option Sender
  pub local_open : Option OpenMsg
  pub remote_syn : Bool
  pub collision_conn : Option (BgpConn X)

pub record OpenConfirm (X : Extern) : Type 0 where
  pub bgp_conn_handle : Option JoinHandle
  pub bgp_out_tx : Option Sender
  pub peer_open : Option OpenMsg
  pub local_open : Option OpenMsg
  pub remote_syn : Bool
  pub collision_conn : Option (BgpConn X)

pub record Established (X : Extern) : Type 0 where
  pub bgp_conn_handle : Option JoinHandle
  pub bgp_out_tx : Option Sender
  pub peer_open : Option OpenMsg
  pub local_open : Option OpenMsg
  pub remote_syn : Bool
  pub collision_conn : Option (BgpConn X)

pub data State (X : Extern) : Type 0 where
  idle : Fsm Idle → State X
  connect : Fsm Connect → State X
  active : Fsm Active → State X
  open_sent : Fsm (OpenSent X) → State X
  open_confirm : Fsm (OpenConfirm X) → State X
  established : Fsm (Established X) → State X

-- `Fsm::<Idle>::new` and `State::new`
unfoldable pub new_fsm : SocketAddr → Fsm Idle
new_fsm peer = record { state = tt; peer = peer; attr = new_attributes }

unfoldable pub new_state : {X : Extern} → SocketAddr → State X
unfolding new_fsm new_attributes
new_state peer = idle (new_fsm peer)

unfoldable pub get_attr : {X : Extern} → State X → SessionAttributes
get_attr (idle s) = s.attr
get_attr (connect s) = s.attr
get_attr (active s) = s.attr
get_attr (open_sent s) = s.attr
get_attr (open_confirm s) = s.attr
get_attr (established s) = s.attr

pub data Operation : Type 0 where
  stop : Operation
  restart : Operation
  update : Duration → Operation

pub data TimerKind : Type 0 where
  connect_retry hold keepalive delay_open idle_hold : TimerKind

pub data Timer : Type 0 where
  connect_retry : Operation → Timer
  hold : Operation → Timer
  keepalive : Operation → Timer
  delay_open : Operation → Timer
  idle_hold : Operation → Timer

-- `TimerKind::new_vec`
unfoldable pub new_vec : List TimerKind
new_vec =
    TimerKind.connect_retry ∷ TimerKind.hold ∷ TimerKind.keepalive ∷ TimerKind.delay_open
    ∷ TimerKind.idle_hold ∷ []

-- `Into<Event> for TimerKind`
unfoldable pub into_event : {X : Extern} → TimerKind → Event X
into_event TimerKind.connect_retry = connect_retry_timer_expires
into_event TimerKind.hold = hold_timer_expires
into_event TimerKind.keepalive = keepalive_timer_expires
into_event TimerKind.delay_open = delay_open_timer_expires
into_event TimerKind.idle_hold = idle_hold_timer_expires
