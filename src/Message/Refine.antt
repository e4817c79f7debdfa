-- ===== src/Message/Refine.antt =====
-- Every decoder over a lawful crate does to a buffer what the same code does over byte lists. So
-- what is proved of the byte-list run holds of the program.
use amnesia_bgp.Base.{
  ℕ, zero, suc, ◌+◌, ◌/◌, ◌%◌, Bool, true, Option, none, some, not, ◌&&◌, ltb, ◌==◌, [], List,
  length,
}
use amnesia_bgp.Error.{
  Error, bad_message_type, new_header, invalid_origin_attribute, malformed_as_path, new_update,
  unsupported_optional_parameter, new_open,
}
use amnesia_bgp.Extern.{
  Extern, Lawful, require, unwrap_array, Sim, id, Sim-pure, Sim-fail, Sim-panic, Sim-if, Sim-bind,
  Sim-u8, Sim-u16, Sim-u32, Sim-skip, Sim-bytes, Sim-bytes_u16, Sim-cap, Sim-on_buffer,
  Sim-while_cap,
}
use amnesia_bgp.Message.Types.{
  OpenMsg, OptParams, PathAttribute, MsgType, open_type, update_type, notification_type,
  keepalive_type, origin, igp, egp, incomplete, as_set, as_sequence, atomic_aggregate,
}
use amnesia_bgp.Message.Header.{msg_type_of, decode_header}
use amnesia_bgp.Message.Open.{
  decode_mp_ext_cap, decode_four_octet_as_cap, decode_opt_param, decode_opt_params_from,
  decode_opt_params, decode_open,
}
use amnesia_bgp.Message.Prefix.{decode_cidr}
use amnesia_bgp.Message.Attribute.{
  decode_flags, decode_origin, decode_segment_type, decode_as_nums, decode_segment,
  decode_aggregator, decode_next_hop, decode_value, decode_attribute,
}
use amnesia_bgp.Message.Update.{
  decode_withdrawn, decode_attributes, decode_nlri_item, decode_nlri, decode_update,
}
use amnesia_bgp.Message.Frame.{decode_notification, decode_body}

module _ {X : Extern} (L : Lawful X) where
  require-Sim : (b : Bool) (e : Error) → Sim id (require {X = X} b e) (require b e)
  require-Sim b e = Sim-if b (Sim-pure tt) (Sim-fail e)

  unwrap_array-Sim : (n : ℕ) (bs : List ℕ) → Sim id (unwrap_array {X = X} n bs) (unwrap_array n bs)
  unwrap_array-Sim n bs = Sim-if (length bs == n) (Sim-pure bs) Sim-panic

  msg_type_of-Sim : (t : ℕ) → Sim id (msg_type_of {X = X} t) (msg_type_of t)
  unfolding msg_type_of
  msg_type_of-Sim t = Sim-if (t == 1) (Sim-pure open_type) (
      Sim-if (t == 2) (Sim-pure update_type) (
        Sim-if (t == 3) (Sim-pure notification_type) (
          Sim-if (t == 4) (Sim-pure keepalive_type) (Sim-fail (new_header bad_message_type none)))))

  pub decode_header-Sim : Sim id (decode_header {X = X}) decode_header
  unfolding decode_header
  decode_header-Sim = Sim-bind _ (Sim-bytes L _) λ m. Sim-bind _ (require-Sim _ _) λ _.
      Sim-bind _ (Sim-u16 L) λ len.
        Sim-bind _ (Sim-u8 L)
          λ t. Sim-bind _ (msg_type_of-Sim t) λ k. Sim-bind _ (require-Sim _ _) λ _. Sim-pure _

  decode_mp_ext_cap-Sim : Sim id (decode_mp_ext_cap {X = X}) decode_mp_ext_cap
  unfolding decode_mp_ext_cap
  decode_mp_ext_cap-Sim =
      Sim-bind _ (Sim-u16 L)
        λ a. Sim-bind _ (Sim-skip L 1) λ _. Sim-bind _ (Sim-u8 L) λ s. Sim-pure _

  decode_four_octet_as_cap-Sim : Sim id (decode_four_octet_as_cap {X = X}) decode_four_octet_as_cap
  unfolding decode_four_octet_as_cap
  decode_four_octet_as_cap-Sim = Sim-bind _ (Sim-u32 L) λ n. Sim-pure _

  decode_opt_param-Sim :
      (ext : Bool) (ps : OptParams)
      → Sim id (decode_opt_param {X = X} ext ps) (decode_opt_param ext ps)
  unfolding decode_opt_param
  decode_opt_param-Sim ext ps = Sim-bind _ (Sim-u8 L) λ t.
      Sim-bind _ (Sim-if ext (Sim-u16 L) (Sim-u8 L)) λ n.
        Sim-if (t == 1)
          (Sim-bind _ (require-Sim _ _) λ _. Sim-bind _ decode_mp_ext_cap-Sim λ c. Sim-pure _)
          (Sim-if (t == 63)
            (Sim-bind _ (require-Sim _ _)
              λ _. Sim-bind _ decode_four_octet_as_cap-Sim λ c. Sim-pure _)
            (Sim-fail (new_open unsupported_optional_parameter none)))

  decode_opt_params_from-Sim :
      (n : ℕ) (ext : Bool) (ps : OptParams)
      → Sim id (decode_opt_params_from {X = X} n ext ps) (decode_opt_params_from n ext ps)
  unfolding decode_opt_params_from
  decode_opt_params_from-Sim zero ext ps = Sim-pure ps
  decode_opt_params_from-Sim (suc n) ext ps =
      Sim-bind _ (decode_opt_param-Sim ext ps) λ qs. decode_opt_params_from-Sim n ext qs

  pub decode_open-Sim : Sim id (decode_open {X = X}) decode_open
  unfolding decode_open decode_opt_params
  decode_open-Sim = Sim-bind _ (Sim-u8 L) λ version. Sim-bind _ (require-Sim _ _) λ _.
      Sim-bind _ (Sim-skip L 3) λ _. Sim-bind _ (Sim-u16 L) λ as_number.
        Sim-bind _ (Sim-skip L 2) λ _. Sim-bind _ (Sim-u16 L) λ hold_time.
          Sim-bind _ (require-Sim _ _) λ _. Sim-bind _ (Sim-skip L 2) λ _.
            Sim-bind _ (Sim-u32 L) λ ident. Sim-bind _ (require-Sim _ _) λ _.
              Sim-bind _ (Sim-u8 L) λ n. Sim-bind _ (Sim-u8 L) λ t.
                Sim-bind _ (Sim-u16 L)
                  λ m. Sim-bind _ (decode_opt_params_from-Sim _ _ _) λ ps. Sim-pure _

  pub decode_cidr-Sim : (checks : Bool) → Sim id (decode_cidr {X = X} checks) (decode_cidr checks)
  unfolding decode_cidr
  decode_cidr-Sim checks = Sim-bind _ (Sim-u8 L) λ len.
      Sim-bind _
        (Sim-if (checks && not (ltb (len + 7) 256)) Sim-panic (Sim-pure ((len + 7) % 256 / 8)))
        λ n. Sim-bind _ (Sim-bytes L n) λ sub.
          Sim-if (ltb 4 n) (Sim-bind _ (unwrap_array-Sim 16 _) λ bs. Sim-pure _)
            (Sim-bind _ (unwrap_array-Sim 4 _) λ bs. Sim-pure _)

  decode_flags-Sim : Sim id (decode_flags {X = X}) decode_flags
  unfolding decode_flags
  decode_flags-Sim = Sim-bind _ (Sim-u8 L) λ f. Sim-pure _

  decode_origin-Sim : (n : ℕ) → Sim id (decode_origin {X = X} n) (decode_origin n)
  unfolding decode_origin
  decode_origin-Sim n = Sim-bind _ (require-Sim _ _) λ _. Sim-bind _ (Sim-u8 L) λ o.
      Sim-if (o == 0) (Sim-pure (origin igp)) (
        Sim-if (o == 1) (Sim-pure (origin egp)) (
          Sim-if (o == 2) (Sim-pure (origin incomplete))
            (Sim-fail (new_update invalid_origin_attribute none))))

  decode_as_nums-Sim : (n : ℕ) → Sim id (decode_as_nums {X = X} n) (decode_as_nums n)
  unfolding decode_as_nums
  decode_as_nums-Sim zero = Sim-pure []
  decode_as_nums-Sim (suc n) =
      Sim-bind _ (Sim-u16 L) λ a. Sim-bind _ (decode_as_nums-Sim n) λ rest. Sim-pure _

  decode_segment-Sim : (n : ℕ) → Sim id (decode_segment {X = X} n) (decode_segment n)
  unfolding decode_segment decode_segment_type
  decode_segment-Sim n =
      Sim-bind _
        (Sim-bind _ (Sim-u8 L) λ t.
          Sim-if (t == 1) (Sim-pure as_set)
            (Sim-if (t == 2) (Sim-pure as_sequence) (Sim-fail (new_update malformed_as_path none))))
        λ t. Sim-bind _ (Sim-u8 L) λ m.
          Sim-bind _ (require-Sim _ _) λ _. Sim-bind _ (decode_as_nums-Sim m) λ nums. Sim-pure _

  decode_aggregator-Sim :
      (four : Bool) → Sim id (decode_aggregator {X = X} four) (decode_aggregator four)
  unfolding decode_aggregator
  decode_aggregator-Sim four =
      Sim-bind _ (Sim-if four (Sim-u32 L) (Sim-u16 L))
        λ n. Sim-bind _ (Sim-bytes L 4) λ sub. Sim-bind _ (unwrap_array-Sim 4 _) λ bs. Sim-pure _

  decode_next_hop-Sim : (n : ℕ) → Sim id (decode_next_hop {X = X} n) (decode_next_hop n)
  unfolding decode_next_hop
  decode_next_hop-Sim n =
      Sim-bind _ (require-Sim _ _)
        λ _. Sim-bind _ (Sim-bytes L 4) λ sub. Sim-bind _ (unwrap_array-Sim 4 _) λ bs. Sim-pure _

  decode_value-Sim :
      (peer : OpenMsg) (attr : PathAttribute)
      → Sim id (decode_value {X = X} peer attr) (decode_value peer attr)
  unfolding decode_value
  decode_value-Sim peer attr = Sim-if (attr.attr_type_code == 1) (decode_origin-Sim attr.attr_len) (
      Sim-if (attr.attr_type_code == 2)
        (Sim-bind _ (decode_segment-Sim attr.attr_len) λ s. Sim-pure _)
        (Sim-if (attr.attr_type_code == 3) (decode_next_hop-Sim attr.attr_len) (
          Sim-if (attr.attr_type_code == 4) (Sim-bind _ (Sim-u32 L) λ n. Sim-pure _) (
            Sim-if (attr.attr_type_code == 5) (Sim-bind _ (Sim-u32 L) λ n. Sim-pure _) (
              Sim-if (attr.attr_type_code == 6) (Sim-pure (atomic_aggregate true)) (
                Sim-if (attr.attr_type_code == 7)
                  (Sim-bind _ (decode_aggregator-Sim _) λ a. Sim-pure _)
                  (Sim-bind _ (Sim-bytes L _) λ sub. Sim-pure _)))))))

  pub decode_attribute-Sim :
      (peer : OpenMsg) → Sim id (decode_attribute {X = X} peer) (decode_attribute peer)
  unfolding decode_attribute
  decode_attribute-Sim peer = Sim-bind _ decode_flags-Sim λ f. Sim-bind _ (Sim-u8 L) λ c.
      Sim-bind _ (Sim-if f.extended_length (Sim-u16 L) (Sim-u8 L))
        λ n. Sim-bind _ (decode_value-Sim peer _) λ v. Sim-pure _

  pub decode_update-Sim :
      (checks : Bool) (peer : OpenMsg)
      → Sim id (decode_update {X = X} checks peer) (decode_update checks peer)
  unfolding decode_update decode_withdrawn decode_attributes decode_nlri decode_nlri_item
  decode_update-Sim checks peer = Sim-bind _ (Sim-bytes_u16 L) λ wb.
      Sim-bind _ (Sim-on_buffer L wb (Sim-while_cap L (decode_cidr-Sim checks))) λ w.
        Sim-bind _ (Sim-bytes_u16 L) λ ab.
          Sim-bind _
            (Sim-on_buffer L ab (
              Sim-bind _ (Sim-while_cap L (decode_attribute-Sim peer))
                λ a. Sim-bind _ (Sim-cap L) λ n. Sim-bind _ (require-Sim _ _) λ _. Sim-pure _))
            λ a.
              Sim-bind _
                (Sim-bind _
                  (Sim-while_cap L (
                    Sim-bind _ (Sim-u8 L)
                      λ len. Sim-bind _ (decode_cidr-Sim checks) λ p. Sim-pure _))
                  λ ns. Sim-bind _ (Sim-cap L) λ n. Sim-bind _ (require-Sim _ _) λ _. Sim-pure _)
                λ ns. Sim-pure _

  decode_notification-Sim : Sim id (decode_notification {X = X}) decode_notification
  unfolding decode_notification
  decode_notification-Sim = Sim-bind _ (Sim-u8 L) λ c.
      Sim-bind _ (Sim-u8 L)
        λ s. Sim-bind _ (Sim-cap L) λ n. Sim-bind _ (Sim-bytes L n) λ sub. Sim-pure _

  -- The body of every message type.
  pub decode_body-Sim :
      (checks : Bool) (peer : Option OpenMsg) (t : MsgType)
      → Sim id (decode_body {X = X} checks peer t) (decode_body checks peer t)
  unfolding decode_body
  decode_body-Sim checks peer open_type = Sim-bind _ decode_open-Sim λ m. Sim-pure _
  decode_body-Sim checks none update_type = Sim-fail _
  decode_body-Sim checks (some p) update_type =
      Sim-bind _ (decode_update-Sim checks p) λ m. Sim-pure _
  decode_body-Sim checks peer keepalive_type = Sim-pure _
  decode_body-Sim checks peer notification_type = Sim-bind _ decode_notification-Sim λ m. Sim-pure _
