-- ===== src/Main.antt =====
-- src/main.rs: the sessions that are started, and the connections that peers open.
pub mod Hands
pub mod Strangers
pub mod Handover
pub mod Accepted
mod Tests
use amnesia_bgp.Base.{
  ℕ, suc, Bool, true, false, Option, none, some, List, [], ◌∷◌, ◌++◌, ◌&&◌, ◌==◌, if◌then◌else◌,
}
use amnesia_bgp.Net.{IpAddr, v4, v6, SocketAddr}
use amnesia_bgp.Config.{Neighbor}
use amnesia_bgp.Extern.{Extern}
use amnesia_bgp.Message.Types.{OpenMsg, open_msg}
use amnesia_bgp.Connection.{
  BgpConn, new_conn, Arrival, Reading, returned, refused, waiting, broken, read_message, peer_sock,
}
use amnesia_bgp.Fsm.Types.{State, Event, Sender, new_state}

abbrev pub same_ip : IpAddr → IpAddr → Bool
same_ip (v4 a) (v4 b) = a == b
same_ip (v6 a) (v6 b) = a == b
same_ip _ _ = false

-- `HashMap<(IpAddr, u32), mpsc::Sender<Event>>`
abbrev pub Key : Type 0
Key = IpAddr × ℕ

abbrev pub Sessions : Type 0
Sessions = List (Key × Sender)

abbrev pub same_key : Key → Key → Bool
same_key k k' = same_ip k.0 k'.0 && k.1 == k'.1

-- `HashMap::insert`, which takes the place of a value that is there.
unfoldable pub insert : Key → Sender → Sessions → Sessions
insert k c [] = (k, c) ∷ []
insert k c ((k', c') ∷ m) =
    let rest = insert k c m in if same_key k k' then (k, c) ∷ m else (k', c') ∷ rest

-- `HashMap::get`
unfoldable pub get : Key → Sessions → Option Sender
get k [] = none
get k ((k', c) ∷ m) = let rest = get k m in if same_key k k' then some c else rest

-- The arguments of a `session::run` that is called.
pub record Started (X : Extern) : Type 0 where
  pub session : State X
  pub admin_rx : Sender
  pub conf : Neighbor

-- What sessions are sent, and whether the task that dispatches goes on or has panicked.
abbrev pub Sent : Extern → Type 0
Sent X = List (Sender × Event X) × Bool

-- A connection that comes with its OPEN, and which channels have their receiver when the first event
-- is sent, and when the second is.
pub record Offer (X : Extern) : Type 0 where
  pub conn : BgpConn X
  pub msg : OpenMsg
  pub first : Sender → Bool
  pub second : Sender → Bool

module _ {X : Extern} where
  -- The loop over the neighbours: the channels are numbered in the order of their creation, and the
  -- neighbours come in some order of the map.
  unfoldable pub start_sessions :
      List (IpAddr × Neighbor) → Sender → Sessions → Sessions × List (Started X)
  start_sessions [] next sessions = (sessions, [])
  start_sessions ((addr, neigh) ∷ rest) next sessions =
      let later =
        start_sessions rest (suc next) (insert (addr, neigh.config.peer_as) next sessions) in
      (
        later.0,
        record {
          session = new_state (record { ip = addr; port = neigh.config.neighbor_port });
          admin_rx = next;
          conf = neigh;
        }
            ∷ later.1,
      )

  -- The two sends to a session, each with whether its receiver is there.
  unfoldable pub send_both : Bool → Bool → Sender → BgpConn X → OpenMsg → Sent X
  send_both first second c conn msg =
      if first
      then (if second
          then ((c, Event.tcp_connection_confirmed conn) ∷ (c, Event.bgp_open msg true) ∷ [], true)
          else ((c, Event.tcp_connection_confirmed conn) ∷ [], false))
      else ([], false)

  -- A connection with its OPEN, taken off the channel: the session of the peer's address and of the
  -- number of its autonomous system gets both. Each `unwrap` is a panic.
  unfoldable pub dispatch : Sessions → Offer X → Sent X
  dispatch sessions offer = elim (peer_sock offer.conn) [
    | none ↦ ([], false)
    | some sock ↦ elim (get (sock.ip, offer.msg.as_number) sessions) [
      | none ↦ ([], false)
      | some c ↦ send_both (offer.first c) (offer.second c) c offer.conn offer.msg
    ]
  ]

  -- The task that dispatches, over the connections that come, until it panics.
  unfoldable pub dispatch_all : Sessions → List (Offer X) → Sent X
  dispatch_all sessions [] = ([], true)
  dispatch_all sessions (offer ∷ rest) =
      let now = dispatch sessions offer in
      let later = dispatch_all sessions rest in if now.1 then (now.0 ++ later.0, later.1) else now

-- How a `process_passive` stands: it hands its connection over, with the arrivals that the socket still
-- holds; it has returned; it still reads; or it has panicked.
pub data Passive (X : Extern) : Type 0 where
  hands : BgpConn X → OpenMsg → List Arrival → Passive X
  returns crashes : Passive X
  reads : BgpConn X → Passive X

module _ {X : Extern} where
  -- `match conn.read_message().await`, and the send, which panics when the dispatching task is gone.
  unfoldable pub on_first : Bool → Reading X → Passive X
  on_first heard (returned (open_msg m) conn rest) = if heard then hands conn m rest else crashes
  on_first heard (returned msg conn rest) = returns
  on_first heard (refused e conn rest) = returns
  on_first heard (waiting conn) = reads conn
  on_first heard broken = crashes

  unfoldable pub process_passive : Bool → Bool → X.TcpStream → List Arrival → Passive X
  process_passive overflow_checks heard socket arrivals =
      on_first heard (read_message overflow_checks arrivals (new_conn socket))
