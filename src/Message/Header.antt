-- ===== src/Message/Header.antt =====
-- `MessageHeader::decode` of src/message.rs.
use amnesia_bgp.Base.{
  ℕ, Bool, true, false, none, List, [], ◌∷◌, replicate, ltb, not, ◌&&◌, ◌==◌, if◌then◌else◌,
}
use amnesia_bgp.Error.{connection_not_sync, bad_message_length, bad_message_type, new_header}
use amnesia_bgp.Extern.{
  Extern, Parser, pure, fail, require, ◌>>=◌, ◌>>◌, get_u8, get_u16, get_bytes,
}
use amnesia_bgp.Message.Types.{
  MsgType, open_type, update_type, notification_type, keepalive_type, MessageHeader,
}

abbrev pub marker_len : ℕ
marker_len = 16

-- `[1; MARKER_LEN]`
abbrev pub marker : List ℕ
marker = replicate marker_len 1

abbrev pub min_msg_len : ℕ
min_msg_len = 19

abbrev pub min_open_len : ℕ
min_open_len = 29

abbrev pub min_update_len : ℕ
min_update_len = 23

abbrev pub keepalive_len : ℕ
keepalive_len = 19

abbrev pub min_notification_len : ℕ
min_notification_len = 21

-- Equality of byte slices.
abbrev pub bytes_eq : List ℕ → List ℕ → Bool
bytes_eq [] [] = true
bytes_eq (a ∷ as') (b ∷ bs) = a == b && bytes_eq as' bs
bytes_eq _ _ = false

-- Whether a length passes the check of its message type.
abbrev pub length_fits : MsgType → ℕ → Bool
length_fits open_type len = not (ltb len min_open_len)
length_fits update_type len = not (ltb len min_update_len)
length_fits notification_type len = not (ltb len min_notification_len)
length_fits keepalive_type len = len == keepalive_len

module _ {X : Extern} where
  -- The `match` on the type byte.
  unfoldable pub msg_type_of : ℕ → Parser X MsgType
  msg_type_of t =
      if t == 1
      then pure open_type
      else (if t == 2
          then pure update_type
          else (if t == 3
              then pure notification_type
              else (if t == 4
                  then pure keepalive_type
                  else fail (new_header bad_message_type none))))

  unfoldable pub decode_header : Parser X MessageHeader
  decode_header = do
    m ← get_bytes marker_len
    require (bytes_eq (X.buf m) marker) (new_header connection_not_sync none)
    len ← get_u16
    t ← get_u8
    msg_type ← msg_type_of t
    require (length_fits msg_type len) (new_header bad_message_length none)
    pure (record { len = len; msg_type = msg_type })
