-- ===== src/Message/Update.antt =====
-- `UpdateMsg::decode` of src/message.rs. The fuel of each loop is the number of bytes that its
-- buffer holds when the loop begins, since every round reads one at least.
use amnesia_bgp.Base.{ℕ, Bool, none, List, ◌==◌}
use amnesia_bgp.Net.{IpAddr}
use amnesia_bgp.Error.{malformed_attribute_list, invalid_network_field, new_update}
use amnesia_bgp.Extern.{
  Extern, Parser, pure, require, ◌>>=◌, ◌>>◌, get_u8, get_bytes_with_u16_length, cap, on_buffer,
  while_cap,
}
use amnesia_bgp.Message.Types.{OpenMsg, Cidr, PathAttribute, UpdateMsg}
use amnesia_bgp.Message.Prefix.{decode_cidr}
use amnesia_bgp.Message.Attribute.{decode_attribute}

module _ {X : Extern} (overflow_checks : Bool) where
  -- `while withdrawn_routes_buf.cap() > 0`
  unfoldable pub decode_withdrawn : Parser X (List Cidr)
  decode_withdrawn = while_cap (decode_cidr overflow_checks)

  -- `while path_attributes_buf.cap() > 0`, and the check behind it.
  unfoldable pub decode_attributes : OpenMsg → Parser X (List PathAttribute)
  decode_attributes peer = do
    attrs ← while_cap (decode_attribute peer)
    left ← cap
    require (left == 0) (new_update malformed_attribute_list none)
    pure attrs

  -- One round of the loop over the reachable prefixes.
  unfoldable pub decode_nlri_item : Parser X (ℕ × IpAddr)
  decode_nlri_item = do
    len ← get_u8
    prefix ← decode_cidr overflow_checks
    pure (len, prefix.prefix)

  -- `while buf.cap() > 0`, and the check behind it.
  unfoldable pub decode_nlri : Parser X (List (ℕ × IpAddr))
  decode_nlri = do
    items ← while_cap decode_nlri_item
    left ← cap
    require (left == 0) (new_update invalid_network_field none)
    pure items

  unfoldable pub decode_update : OpenMsg → Parser X UpdateMsg
  decode_update peer = do
    withdrawn_buf ← get_bytes_with_u16_length
    withdrawn ← on_buffer withdrawn_buf decode_withdrawn
    attributes_buf ← get_bytes_with_u16_length
    attributes ← on_buffer attributes_buf (decode_attributes peer)
    nlri ← decode_nlri
    pure (record { withdrawn_routes = withdrawn; path_attributes = attributes; nlri = nlri })
