-- ===== src/Message/Frame.antt =====
-- `NotificationMsg::decode`, `Message::decode` and `Message::encode` of src/message.rs: a message in
-- the read buffer.
use amnesia_bgp.Base.{◌+◌, ◌-◌, Bool, Option, none, some, length, ltb, if◌then◌else◌}
use amnesia_bgp.Error.{connection_not_sync, new_header, from_buffer_too_short}
use amnesia_bgp.Extern.{
  Extern, Outcome, ok, err, panicked, exhausted, Parser, pure, fail, ◌>>=◌, get_u8, get_bytes, cap,
}
use amnesia_bgp.Message.Types.{
  MsgType, open_type, update_type, notification_type, keepalive_type, MessageHeader, OpenMsg,
  NotificationMsg, Message, open_msg, update_msg, keepalive_msg, notification_msg,
}
use amnesia_bgp.Message.Header.{min_msg_len, decode_header}
use amnesia_bgp.Message.Open.{decode_open}
use amnesia_bgp.Message.Update.{decode_update}

module _ {X : Extern} where
  unfoldable pub decode_notification : Parser X NotificationMsg
  decode_notification = do
    code ← get_u8
    subcode ← get_u8
    n ← cap
    sub ← get_bytes n
    pure (record { error_code = code; error_subcode = subcode; payload = some (X.to_vec sub) })

  -- The `match` on the header's type; a KEEPALIVE reads nothing.
  unfoldable pub decode_body : Bool → Option OpenMsg → MsgType → Parser X Message
  decode_body checks peer open_type = do m ← decode_open; pure (open_msg m)
  decode_body checks none update_type = fail (new_header connection_not_sync none)
  decode_body checks (some p) update_type = do m ← decode_update checks p; pure (update_msg m)
  decode_body checks peer keepalive_type = pure keepalive_msg
  decode_body checks peer notification_type = do m ← decode_notification; pure (notification_msg m)

module _ (X : Extern) where
  -- `buf.advance(oct.off() + MIN_MSG_LEN); res`
  abbrev pub finish : X.BytesMut → Outcome (Message × X.Octets) → Outcome Message × X.BytesMut
  finish buf (ok (m, oct)) = elim (X.advance buf (X.off oct + min_msg_len)) [
    | none ↦ (panicked, buf)
    | some buf' ↦ (ok m, buf')
  ]
  finish buf (err e) = (err e, buf)
  finish buf panicked = (panicked, buf)
  finish buf exhausted = (exhausted, buf)

  -- What follows the header.
  abbrev pub after_header :
      Bool
      → Option OpenMsg
      → X.BytesMut
      → Outcome (MessageHeader × X.Octets)
      → Outcome Message × X.BytesMut
  after_header checks peer buf (ok (h, oct)) =
      if ltb (length (X.as_slice buf)) h.len
      then (err from_buffer_too_short, X.reserve buf (h.len - length (X.as_slice buf)))
      else elim (X.get_bytes oct h.len) [
        | none ↦ (err from_buffer_too_short, buf)
        | some (body, rest) ↦ finish buf ((decode_body {X = X} checks peer h.msg_type).run body)
      ]
  after_header checks peer buf (err e) = (err e, buf)
  after_header checks peer buf panicked = (panicked, buf)
  after_header checks peer buf exhausted = (exhausted, buf)

  unfoldable pub decode_message : Bool → Option OpenMsg → X.BytesMut → Outcome Message × X.BytesMut
  decode_message checks peer buf =
      if ltb (length (X.as_slice buf)) min_msg_len
      then (err from_buffer_too_short, X.reserve buf (min_msg_len - length (X.as_slice buf)))
      else after_header checks peer buf
          ((decode_header {X = X}).run (X.with_slice (X.as_slice buf)))

-- `Message::encode` returns an empty buffer, whatever the message.
unfoldable pub encode_message : (X : Extern) → Message → Outcome X.BytesMut
encode_message X m = ok (X.with_capacity 4096)
