-- ===== src/Message/Attribute.antt =====
-- The decoders of a path attribute in src/message.rs.
use amnesia_bgp.Base.{
  is_some, ℕ, zero, suc, ◌+◌, ◌*◌, ◌/◌, ◌%◌, ◌^◌, Bool, true, none, List, [], ◌∷◌, bit_and, not,
  ◌==◌, if◌then◌else◌,
}
use amnesia_bgp.Net.{from_be_bytes}
use amnesia_bgp.Error.{
  attribute_length_error, invalid_origin_attribute, malformed_as_path, new_update,
}
use amnesia_bgp.Extern.{
  Extern, Parser, pure, fail, require, ◌>>=◌, ◌>>◌, get_u8, get_u16, get_u32, get_bytes,
  unwrap_array,
}
use amnesia_bgp.Message.Types.{
  OpenMsg, PathAttributeFlags, igp, egp, incomplete, AsPathSegmentType, as_set, as_sequence,
  AsPathSegment, Aggregator, PathAttributeValue, origin, as_path, next_hop, multi_exit_disc,
  local_pref, atomic_aggregate, aggregator, unknown, PathAttribute,
}

abbrev pub as_trans : ℕ
as_trans = 23456

-- `AsNum::is_mappable` and `AsNum::to_two_octets`
unfoldable pub is_mappable : ℕ → Bool
is_mappable n = n / 2 ^ 16 == 0

unfoldable pub to_two_octets : ℕ → ℕ
unfolding is_mappable
to_two_octets n = if is_mappable n then n % 2 ^ 16 else as_trans

module _ {X : Extern} where
  unfoldable pub decode_flags : Parser X PathAttributeFlags
  decode_flags = do
    flags ← get_u8
    pure (record {
      optional = not (bit_and flags 0x80 == 0);
      transitive = not (bit_and flags 0x40 == 0);
      partial = not (bit_and flags 0x20 == 0);
      extended_length = not (bit_and flags 0x10 == 0);
    })

  unfoldable pub decode_origin : ℕ → Parser X PathAttributeValue
  decode_origin attr_len = do
    require (attr_len == 1) (new_update attribute_length_error none)
    o ← get_u8
    if o == 0
        then pure (origin igp)
        else (if o == 1
            then pure (origin egp)
            else (if o == 2
                then pure (origin incomplete)
                else fail (new_update invalid_origin_attribute none)))

  unfoldable pub decode_segment_type : Parser X AsPathSegmentType
  decode_segment_type = do
    t ← get_u8
    if t == 1
        then pure as_set
        else (if t == 2 then pure as_sequence else fail (new_update malformed_as_path none))

  -- `for _ in 0..segment_length`
  unfoldable pub decode_as_nums : ℕ → Parser X (List ℕ)
  decode_as_nums zero = pure []
  decode_as_nums (suc n) = do a ← get_u16; rest ← decode_as_nums n; pure (a ∷ rest)

  unfoldable pub decode_segment : ℕ → Parser X AsPathSegment
  decode_segment attr_len = do
    t ← decode_segment_type
    n ← get_u8
    require (n * 2 + 2 == attr_len) (new_update malformed_as_path none)
    nums ← decode_as_nums n
    pure (record { segment_type = t; segment_length = n; segment_value = nums })

  unfoldable pub decode_aggregator : Bool → Parser X Aggregator
  decode_aggregator four_octets = do
    n ← if four_octets then get_u32 else get_u16
    sub ← get_bytes 4
    bs ← unwrap_array 4 (X.to_vec sub)
    pure (record { as_num = n; ip_addr = from_be_bytes 0 bs })

  -- The arm for a NEXT_HOP.
  unfoldable pub decode_next_hop : ℕ → Parser X PathAttributeValue
  decode_next_hop attr_len = do
    require (attr_len == 4) (new_update attribute_length_error none)
    sub ← get_bytes 4
    bs ← unwrap_array 4 (X.to_vec sub)
    pure (next_hop (from_be_bytes 0 bs))

  -- The `match` on the type code of `attr`.
  unfoldable pub decode_value : OpenMsg → PathAttribute → Parser X PathAttributeValue
  decode_value peer attr =
      let code = attr.attr_type_code in
      if code == 1
      then decode_origin attr.attr_len
      else (if code == 2
          then (do s ← decode_segment attr.attr_len; pure (as_path s))
          else (if code == 3
              then decode_next_hop attr.attr_len
              else (if code == 4
                  then (do n ← get_u32; pure (multi_exit_disc n))
                  else (if code == 5
                      then (do n ← get_u32; pure (local_pref n))
                      else (if code == 6
                          then pure (atomic_aggregate true)
                          else (if code == 7
                              then (do
                                a ← decode_aggregator (is_some peer.opt_params.four_octet_as_cap)
                                pure (aggregator a))
                              else (do
                                sub ← get_bytes attr.attr_len
                                pure (unknown (X.to_vec sub)))))))))

  unfoldable pub decode_attribute : OpenMsg → Parser X PathAttribute
  decode_attribute peer = do
    flags ← decode_flags
    code ← get_u8
    len ← if flags.extended_length then get_u16 else get_u8
    let attr : PathAttribute = record {
      attr_flags = flags;
      attr_type_code = code;
      attr_len = len;
      attr_value = unknown [];
    }
    v ← decode_value peer attr
    pure (record { attr_flags = flags; attr_type_code = code; attr_len = len; attr_value = v })
