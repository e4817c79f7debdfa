-- ===== src/Message/Reading.antt =====
-- How the decoders read over byte lists: they keep every byte, end within their fuel, and only the
-- prefixes of an UPDATE may panic.
use amnesia_bgp.Base.{
  ℕ, zero, suc, ◌+◌, ◌/◌, ◌%◌, Bool, true, false, Option, none, some, List, ltb, not, ◌&&◌, ◌==◌,
  arith, length,
}
use amnesia_bgp.Error.{Error, invalid_origin_attribute, malformed_as_path, new_update}
use amnesia_bgp.Extern.{
  require, unwrap_array, split-SplitAt, pure, get_bytes, ◌>>=◌, combinators, Reads, Reads-u8,
  Reads-u16, Reads-u32, Reads-bytes, Reads-skip, Reads-bytes_u16, Reads-cap, Reads-pure, Reads-fail,
  Reads-panic, Reads-if, Reads-then, Reads-add, Reads-weaken, Reads-on_buffer, Reads-while_cap,
}
use amnesia_bgp.Message.Types.{
  OpenMsg, OptParams, PathAttribute, MsgType, open_type, update_type, notification_type,
  keepalive_type, origin, igp, egp, incomplete, as_set, as_sequence, atomic_aggregate,
}
use amnesia_bgp.Message.Open.{
  decode_mp_ext_cap, decode_four_octet_as_cap, decode_opt_param, decode_opt_params_from,
  decode_opt_params, decode_open,
}
use amnesia_bgp.Message.Prefix.{decode_cidr}
use amnesia_bgp.Message.Attribute.{
  decode_flags, decode_origin, decode_segment_type, decode_as_nums, decode_segment,
  decode_aggregator, decode_next_hop, decode_value, decode_attribute,
}
use amnesia_bgp.Message.Update.{
  decode_withdrawn, decode_attributes, decode_nlri_item, decode_nlri, decode_update,
}
use amnesia_bgp.Message.Frame.{decode_notification, decode_body}

-- Four bytes taken off the buffer make an array of four.
four_bytes-Reads :
    {A : Type 0} {b : Bool} (f : List ℕ → A)
    → Reads b 4 (do sub ← get_bytes 4; bs ← unwrap_array 4 sub.rest; pure (f bs))
unfolding combinators
four_bytes-Reads f = record { after = λ s. ground (arith, split-SplitAt 4 s.rest) }

module _ {b : Bool} where
  require-Reads : (c : Bool) (e : Error) → Reads b 0 (require c e)
  require-Reads c e = Reads-if c (Reads-pure tt) (Reads-fail 0 e)

  decode_mp_ext_cap-Reads : Reads b 0 decode_mp_ext_cap
  unfolding decode_mp_ext_cap
  decode_mp_ext_cap-Reads = Reads-then Reads-u16 (omega arith) λ a.
      Reads-then (Reads-skip 1) (omega arith)
        λ _. Reads-then Reads-u8 (omega arith) λ s. Reads-pure _

  decode_four_octet_as_cap-Reads : Reads b 0 decode_four_octet_as_cap
  unfolding decode_four_octet_as_cap
  decode_four_octet_as_cap-Reads = Reads-then Reads-u32 (omega arith) λ n. Reads-pure _

  decode_opt_param-Reads : (ext : Bool) (ps : OptParams) → Reads b 0 (decode_opt_param ext ps)
  unfolding decode_opt_param
  decode_opt_param-Reads ext ps = Reads-then Reads-u8 (omega arith) λ t.
      Reads-then {k = 1} (Reads-if ext (Reads-weaken Reads-u16 (omega arith)) Reads-u8)
        (omega arith)
        λ n.
          Reads-if (t == 1)
            (Reads-then (require-Reads _ _) (omega arith)
              λ _. Reads-then decode_mp_ext_cap-Reads (omega arith) λ c. Reads-pure _)
            (Reads-if (t == 63)
              (Reads-then (require-Reads _ _) (omega arith)
                λ _. Reads-then decode_four_octet_as_cap-Reads (omega arith) λ c. Reads-pure _)
              (Reads-fail 0 _))

  decode_opt_params_from-Reads :
      (n : ℕ) (ext : Bool) (ps : OptParams) → Reads b 0 (decode_opt_params_from n ext ps)
  unfolding decode_opt_params_from
  decode_opt_params_from-Reads zero ext ps = Reads-pure ps
  decode_opt_params_from-Reads (suc n) ext ps =
      Reads-then (decode_opt_param-Reads ext ps) (omega arith)
        λ qs. decode_opt_params_from-Reads n ext qs

  -- One byte of version, three, two and two of padding, and the numbers are twenty bytes.
  pub decode_open-Reads : Reads b 20 decode_open
  unfolding decode_open decode_opt_params
  decode_open-Reads = Reads-add Reads-u8 λ version. Reads-add (require-Reads _ _) λ _.
      Reads-add (Reads-skip 3) λ _. Reads-add Reads-u16 λ as_number. Reads-add (Reads-skip 2) λ _.
        Reads-add Reads-u16 λ hold_time. Reads-add (require-Reads _ _) λ _.
          Reads-add (Reads-skip 2) λ _. Reads-add Reads-u32 λ ident.
            Reads-add (require-Reads _ _) λ _. Reads-add Reads-u8 λ n. Reads-add Reads-u8 λ t.
              Reads-add Reads-u16 λ m.
                Reads-then {n = 0} (decode_opt_params_from-Reads _ _ _) (omega arith)
                  λ ps. Reads-pure _

  decode_origin-Reads : (n : ℕ) → Reads b 0 (decode_origin n)
  unfolding decode_origin
  decode_origin-Reads n = Reads-then (require-Reads _ _) (omega arith) λ _.
      Reads-then Reads-u8 (omega arith) λ o. Reads-if (o == 0) (Reads-pure (origin igp)) (
        Reads-if (o == 1) (Reads-pure (origin egp)) (
          Reads-if (o == 2) (Reads-pure (origin incomplete))
            (Reads-fail 0 (new_update invalid_origin_attribute none))))

  decode_as_nums-Reads : (n : ℕ) → Reads b 0 (decode_as_nums n)
  unfolding decode_as_nums
  decode_as_nums-Reads zero = Reads-pure _
  decode_as_nums-Reads (suc n) =
      Reads-then Reads-u16 (omega arith)
        λ a. Reads-then (decode_as_nums-Reads n) (omega arith) λ rest. Reads-pure _

  decode_segment-Reads : (n : ℕ) → Reads b 0 (decode_segment n)
  unfolding decode_segment decode_segment_type
  decode_segment-Reads n =
      Reads-then {k = 0}
        (Reads-then Reads-u8 (omega arith) λ t. Reads-if (t == 1) (Reads-pure as_set) (
          Reads-if (t == 2) (Reads-pure as_sequence)
            (Reads-fail 0 (new_update malformed_as_path none))))
        (omega arith)
        λ t. Reads-then Reads-u8 (omega arith) λ m.
          Reads-then (require-Reads _ _) (omega arith)
            λ _. Reads-then (decode_as_nums-Reads m) (omega arith) λ nums. Reads-pure _

  decode_aggregator-Reads : (four : Bool) → Reads b 0 (decode_aggregator four)
  unfolding decode_aggregator
  decode_aggregator-Reads four =
      Reads-then {k = 2} (Reads-if four (Reads-weaken Reads-u32 (omega arith)) Reads-u16)
        (omega arith) λ n. Reads-weaken (four_bytes-Reads _) (omega arith)

  decode_next_hop-Reads : (n : ℕ) → Reads b 0 (decode_next_hop n)
  unfolding decode_next_hop
  decode_next_hop-Reads n =
      Reads-then (require-Reads _ _) (omega arith)
        λ _. Reads-weaken (four_bytes-Reads _) (omega arith)

  decode_value-Reads : (peer : OpenMsg) (attr : PathAttribute) → Reads b 0 (decode_value peer attr)
  unfolding decode_value
  decode_value-Reads peer attr =
      Reads-if (attr.attr_type_code == 1) (decode_origin-Reads attr.attr_len) (
        Reads-if (attr.attr_type_code == 2)
          (Reads-then (decode_segment-Reads attr.attr_len) (omega arith) λ s. Reads-pure _)
          (Reads-if (attr.attr_type_code == 3) (decode_next_hop-Reads attr.attr_len) (
            Reads-if (attr.attr_type_code == 4)
              (Reads-then Reads-u32 (omega arith) λ n. Reads-pure _)
              (Reads-if (attr.attr_type_code == 5)
                (Reads-then Reads-u32 (omega arith) λ n. Reads-pure _)
                (Reads-if (attr.attr_type_code == 6) (Reads-pure (atomic_aggregate true)) (
                  Reads-if (attr.attr_type_code == 7)
                    (Reads-then (decode_aggregator-Reads _) (omega arith) λ a. Reads-pure _)
                    (Reads-then (Reads-bytes attr.attr_len) (omega arith) λ sub. Reads-pure _)))))))

  -- An attribute takes a byte at least, and never panics.
  pub decode_attribute-Reads : (peer : OpenMsg) → Reads b 1 (decode_attribute peer)
  unfolding decode_attribute decode_flags
  decode_attribute-Reads peer =
      Reads-then {k = 1} (Reads-then Reads-u8 (omega arith) λ f. Reads-pure _) (omega arith) λ f.
        Reads-then Reads-u8 (omega arith) λ c.
          Reads-then {k = 1}
            (Reads-if f.extended_length (Reads-weaken Reads-u16 (omega arith)) Reads-u8)
            (omega arith)
            λ n. Reads-then (decode_value-Reads peer _) (omega arith) λ v. Reads-pure _

  decode_notification-Reads : Reads b 0 decode_notification
  unfolding decode_notification
  decode_notification-Reads = Reads-then Reads-u8 (omega arith) λ c.
      Reads-then Reads-u8 (omega arith) λ s.
        Reads-then Reads-cap (omega arith)
          λ n. Reads-then (Reads-bytes n) (omega arith) λ sub. Reads-pure _

unwrap_array-Reads : (n : ℕ) (bs : List ℕ) → Reads true 0 (unwrap_array n bs)
unwrap_array-Reads n bs = Reads-if (length bs == n) (Reads-pure bs) (Reads-panic 0)

decode_cidr-Reads : (checks : Bool) → Reads true 1 (decode_cidr checks)
unfolding decode_cidr
decode_cidr-Reads checks = Reads-then Reads-u8 (omega arith) λ len.
    Reads-then {k = 0}
      (Reads-if (checks && not (ltb (len + 7) 256)) (Reads-panic 0)
        (Reads-pure ((len + 7) % 256 / 8)))
      (omega arith)
      λ n. Reads-then (Reads-bytes n) (omega arith) λ sub.
        Reads-if (ltb 4 n) (Reads-then (unwrap_array-Reads 16 _) (omega arith) λ bs. Reads-pure _)
          (Reads-then (unwrap_array-Reads 4 _) (omega arith) λ bs. Reads-pure _)

pub decode_update-Reads :
    (checks : Bool) (peer : OpenMsg) → Reads true 2 (decode_update checks peer)
unfolding decode_update decode_withdrawn decode_attributes decode_nlri decode_nlri_item
decode_update-Reads checks peer = Reads-then Reads-bytes_u16 (omega arith) λ wb.
    Reads-then (Reads-on_buffer wb (Reads-while_cap (decode_cidr-Reads checks))) (omega arith) λ w.
      Reads-then Reads-bytes_u16 (omega arith) λ ab.
        Reads-then
          (Reads-on_buffer ab (
            Reads-then {n = 0} (Reads-while_cap (decode_attribute-Reads peer)) (omega arith) λ a.
              Reads-then Reads-cap (omega arith)
                λ n. Reads-then (require-Reads _ _) (omega arith) λ _. Reads-pure _))
          (omega arith)
          λ a.
            Reads-then {k = 0}
              (Reads-then
                (Reads-while_cap (
                  Reads-then Reads-u8 (omega arith)
                    λ len. Reads-then (decode_cidr-Reads checks) (omega arith) λ p. Reads-pure _))
                (omega arith)
                λ ns.
                  Reads-then Reads-cap (omega arith)
                    λ n. Reads-then (require-Reads _ _) (omega arith) λ _. Reads-pure _)
              (omega arith) λ ns. Reads-pure _

-- Whether the body of a message of this type may panic.
abbrev pub has_prefixes : MsgType → Bool
has_prefixes update_type = true
has_prefixes _ = false

pub decode_body-Reads :
    (checks : Bool) (peer : Option OpenMsg) (t : MsgType)
    → Reads (has_prefixes t) 0 (decode_body checks peer t)
unfolding decode_body
decode_body-Reads checks peer open_type =
    Reads-then decode_open-Reads (omega arith) λ m. Reads-pure _
decode_body-Reads checks none update_type = Reads-fail 0 _
decode_body-Reads checks (some p) update_type =
    Reads-then (decode_update-Reads checks p) (omega arith) λ m. Reads-pure _
decode_body-Reads checks peer keepalive_type = Reads-pure _
decode_body-Reads checks peer notification_type =
    Reads-then decode_notification-Reads (omega arith) λ m. Reads-pure _
