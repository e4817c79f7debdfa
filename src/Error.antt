-- ===== src/Error.antt =====
-- src/error.rs: the codes of a NOTIFICATION and the error type that every decoder returns.
use amnesia_bgp.Base.{ℕ, List, Option, none}

pub data LocalLogicErrorSubcode : Type 0 where
  buffer_too_short_error io_error : LocalLogicErrorSubcode

pub data MsgHeaderErrorSubcode : Type 0 where
  connection_not_sync bad_message_length bad_message_type : MsgHeaderErrorSubcode

pub data OpenMsgErrorSubcode : Type 0 where
  unsupported_version_number bad_peer_as bad_bgp_identifier unsupported_optional_parameter
        unacceptable_hold_time unsupported_capability :
      OpenMsgErrorSubcode

pub data UpdateMsgErrorSubcode : Type 0 where
  malformed_attribute_list unrecognized_well_known_attribute missing_well_known_attribute
        attribute_flags_error attribute_length_error invalid_origin_attribute
        invalid_next_hop_attribute optional_attribute_error invalid_network_field
        malformed_as_path :
      UpdateMsgErrorSubcode

pub data ErrorSubCode : Type 0 where
  local_logic_error_subcode : LocalLogicErrorSubcode → ErrorSubCode
  msg_header_error_subcode : MsgHeaderErrorSubcode → ErrorSubCode
  open_msg_error_subcode : OpenMsgErrorSubcode → ErrorSubCode
  update_msg_error_subcode : UpdateMsgErrorSubcode → ErrorSubCode
  undefined : ErrorSubCode

pub data ErrorCode : Type 0 where
  local_logic_error message_header_error open_message_error update_message_error hold_timer_expired
        finite_state_machine_error cease :
      ErrorCode

pub record Error : Type 0 where
  pub code : ErrorCode
  pub subcode : ErrorSubCode
  pub payload : Option (List ℕ)

-- `Error::new`
abbrev pub new_error : ErrorCode → ErrorSubCode → Option (List ℕ) → Error
new_error c s d = record { code = c; subcode = s; payload = d }

abbrev pub new_local : LocalLogicErrorSubcode → Option (List ℕ) → Error
new_local s d = new_error local_logic_error (local_logic_error_subcode s) d

abbrev pub new_header : MsgHeaderErrorSubcode → Option (List ℕ) → Error
new_header s d = new_error message_header_error (msg_header_error_subcode s) d

abbrev pub new_open : OpenMsgErrorSubcode → Option (List ℕ) → Error
new_open s d = new_error open_message_error (open_msg_error_subcode s) d

abbrev pub new_update : UpdateMsgErrorSubcode → Option (List ℕ) → Error
new_update s d = new_error update_message_error (update_msg_error_subcode s) d

-- `From<octets::BufferTooShortError>`
abbrev pub from_buffer_too_short : Error
from_buffer_too_short = new_local buffer_too_short_error none

-- `From<std::io::Error>`
abbrev pub from_io : Error
from_io = new_local io_error none

-- `subcode as u8` of each enumeration.
abbrev local_logic_u8 : LocalLogicErrorSubcode → ℕ
local_logic_u8 buffer_too_short_error = 1
local_logic_u8 io_error = 2

abbrev msg_header_u8 : MsgHeaderErrorSubcode → ℕ
msg_header_u8 connection_not_sync = 1
msg_header_u8 bad_message_length = 2
msg_header_u8 bad_message_type = 3

abbrev open_msg_u8 : OpenMsgErrorSubcode → ℕ
open_msg_u8 unsupported_version_number = 1
open_msg_u8 bad_peer_as = 2
open_msg_u8 bad_bgp_identifier = 3
open_msg_u8 unsupported_optional_parameter = 4
open_msg_u8 unacceptable_hold_time = 6
open_msg_u8 unsupported_capability = 7

abbrev update_msg_u8 : UpdateMsgErrorSubcode → ℕ
update_msg_u8 malformed_attribute_list = 1
update_msg_u8 unrecognized_well_known_attribute = 2
update_msg_u8 missing_well_known_attribute = 3
update_msg_u8 attribute_flags_error = 4
update_msg_u8 attribute_length_error = 5
update_msg_u8 invalid_origin_attribute = 6
update_msg_u8 invalid_next_hop_attribute = 8
update_msg_u8 optional_attribute_error = 9
update_msg_u8 invalid_network_field = 10
update_msg_u8 malformed_as_path = 11

-- `From<ErrorSubCode> for u8`
unfoldable pub subcode_u8 : ErrorSubCode → ℕ
subcode_u8 (local_logic_error_subcode s) = local_logic_u8 s
subcode_u8 (msg_header_error_subcode s) = msg_header_u8 s
subcode_u8 (open_msg_error_subcode s) = open_msg_u8 s
subcode_u8 (update_msg_error_subcode s) = update_msg_u8 s
subcode_u8 undefined = 0

-- `code as u8`
unfoldable pub code_u8 : ErrorCode → ℕ
code_u8 local_logic_error = 0
code_u8 message_header_error = 1
code_u8 open_message_error = 2
code_u8 update_message_error = 3
code_u8 hold_timer_expired = 4
code_u8 finite_state_machine_error = 5
code_u8 cease = 6
