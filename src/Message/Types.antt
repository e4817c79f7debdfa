-- ===== src/Message/Types.antt =====
-- The message types of src/message.rs, and the OPEN and NOTIFICATION messages that the session
-- builds.
use amnesia_bgp.Base.{ℕ, Bool, false, Option, none, List}
use amnesia_bgp.Net.{Ipv4Addr, IpAddr}
use amnesia_bgp.Config.{Neighbor}
use amnesia_bgp.Error.{Error, ErrorCode, ErrorSubCode, code_u8, subcode_u8}

pub data MsgType : Type 0 where
  open_type update_type notification_type keepalive_type : MsgType

pub record MessageHeader : Type 0 where
  pub len : ℕ
  pub msg_type : MsgType

pub record MpExtCap : Type 0 where
  pub afi : ℕ
  pub safi : ℕ

pub record FourOctetAsCap : Type 0 where
  pub as_num : ℕ

pub record OptParams : Type 0 where
  pub mp_ext_caps : Option (List MpExtCap)
  pub four_octet_as_cap : Option FourOctetAsCap

pub record OpenMsg : Type 0 where
  pub version : ℕ
  pub as_number : ℕ
  pub hold_time : ℕ
  pub bgp_identifier : Ipv4Addr
  pub ext_opt_param : Bool
  pub opt_params_len : ℕ
  pub opt_params : OptParams

pub record Cidr : Type 0 where
  pub len : ℕ
  pub prefix : IpAddr

pub record PathAttributeFlags : Type 0 where
  pub optional : Bool
  pub transitive : Bool
  pub partial : Bool
  pub extended_length : Bool

pub data Origin : Type 0 where
  igp egp incomplete : Origin

pub data AsPathSegmentType : Type 0 where
  as_set as_sequence : AsPathSegmentType

pub record AsPathSegment : Type 0 where
  pub segment_type : AsPathSegmentType
  pub segment_length : ℕ
  pub segment_value : List ℕ

pub record Aggregator : Type 0 where
  pub as_num : ℕ
  pub ip_addr : Ipv4Addr

pub data PathAttributeValue : Type 0 where
  origin : Origin → PathAttributeValue
  as_path : AsPathSegment → PathAttributeValue
  next_hop : Ipv4Addr → PathAttributeValue
  multi_exit_disc : ℕ → PathAttributeValue
  local_pref : ℕ → PathAttributeValue
  atomic_aggregate : Bool → PathAttributeValue
  aggregator : Aggregator → PathAttributeValue
  unknown : List ℕ → PathAttributeValue

pub record PathAttribute : Type 0 where
  pub attr_flags : PathAttributeFlags
  pub attr_type_code : ℕ
  pub attr_len : ℕ
  pub attr_value : PathAttributeValue

pub record UpdateMsg : Type 0 where
  pub withdrawn_routes : List Cidr
  pub path_attributes : List PathAttribute
  pub nlri : List (ℕ × IpAddr)

pub record NotificationMsg : Type 0 where
  pub error_code : ℕ
  pub error_subcode : ℕ
  pub payload : Option (List ℕ)

-- `KeepaliveMsg` has no field, so its message carries nothing.
pub data Message : Type 0 where
  open_msg : OpenMsg → Message
  update_msg : UpdateMsg → Message
  keepalive_msg : Message
  notification_msg : NotificationMsg → Message

-- `OpenMsg::from_conf`
unfoldable pub from_conf : Neighbor → OpenMsg
from_conf conf = record {
  version = 4;
  as_number = conf.config.local_as;
  hold_time = conf.timers.config.hold_time;
  bgp_identifier = conf.config.router_id;
  ext_opt_param = false;
  opt_params_len = 0;
  opt_params = record { mp_ext_caps = none; four_octet_as_cap = none };
}

-- `NotificationMsg::from_enum`
unfoldable pub from_enum : ErrorCode → ErrorSubCode → Option (List ℕ) → NotificationMsg
unfolding code_u8 subcode_u8
from_enum c s d = record { error_code = code_u8 c; error_subcode = subcode_u8 s; payload = d }

-- `NotificationMsg::from_error`
unfoldable pub from_error : Error → NotificationMsg
unfolding code_u8 subcode_u8
from_error e = record {
  error_code = code_u8 e.code;
  error_subcode = subcode_u8 e.subcode;
  payload = e.payload;
}
