-- ===== src/Config.antt =====
-- src/config.rs: the configuration of a neighbour and of the whole router. `HashMap`s are
-- association lists.
use Prim.Native.String.{String}
use amnesia_bgp.Base.{ℕ, ◌*◌, ◌+◌, Bool, List, []}
use amnesia_bgp.Net.{Ipv4Addr, IpAddr}

pub record BgpGlobalConfig : Type 0 where
  pub as_ : ℕ
  pub router_id : Ipv4Addr

pub record BgpGlobalBase : Type 0 where
  pub global : BgpGlobalConfig

pub data PeerType : Type 0 where
  internal external : PeerType

pub record BgpNeighborBaseConfig : Type 0 where
  pub router_id : Ipv4Addr
  pub peer_group : String
  pub neighbor_address : IpAddr
  pub neighbor_port : ℕ
  pub enabled : Bool
  pub peer_as : ℕ
  pub local_as : ℕ
  pub peer_type : PeerType

pub record BgpCommonNeighborGroupTimersConfig : Type 0 where
  pub connect_retry : ℕ
  pub hold_time : ℕ
  pub keepalive_internal : ℕ
  pub minimum_advertisement_interval : ℕ
  pub restart_time : ℕ

pub record BgpNeighborBaseTimers : Type 0 where
  pub config : BgpCommonNeighborGroupTimersConfig

pub record Neighbor : Type 0 where
  pub neighbor_address : IpAddr
  pub config : BgpNeighborBaseConfig
  pub timers : BgpNeighborBaseTimers

pub record BgpPeerGroupBaseConfig : Type 0 where
  pub peer_group_name : String
  pub peer_as : ℕ
  pub local_as : ℕ
  pub peer_type : PeerType

pub record PeerGroup : Type 0 where
  pub peer_group_name : String
  pub config : BgpPeerGroupBaseConfig

pub record Bgp : Type 0 where
  pub global : BgpGlobalBase
  pub neighbors : List (IpAddr × Neighbor)
  pub peer_groups : List (String × PeerGroup)

-- `Bgp::new`, with the router id 192.0.2.1.
unfoldable pub new_bgp : Bgp
new_bgp = record {
  global = record {
    global = record { as_ = 65000; router_id = ((192 * 256 + 0) * 256 + 2) * 256 + 1 };
  };
  neighbors = [];
  peer_groups = [];
}
