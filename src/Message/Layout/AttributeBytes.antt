-- ===== src/Message/Layout/AttributeBytes.antt =====
-- What the decoders make of a path attribute that is laid out.
use amnesia_bgp.Base.{
  ℕ, suc, ◌+◌, ◌*◌, ◌<◌, Bool, true, false, is_some, List, [], ◌∷◌, length, ◌==◌, ◌≡◌, refl, ◌⊎◌,
  arith, if◌then◌else◌, none,
}
use mathlib.Core.Path.{subst}
use amnesia_bgp.Net.{from_be_bytes}
use amnesia_bgp.Error.{new_update, attribute_length_error}
use amnesia_bgp.Extern.{
  Takes, Takes-u8, Takes-u16, Takes-u32, Takes-bytes, Takes-pure, Takes-require, Takes-unwrap_array,
  Takes-if, Takes-then, Takes-last, get_u8, get_u16, get_bytes, unwrap_array, pure, ◌>>=◌,
  u16_bytes, u32_bytes, layout_all,
}
use amnesia_bgp.Message.Types.{
  OpenMsg, PathAttributeFlags, Origin, igp, egp, incomplete, AsPathSegmentType, as_set, as_sequence,
  Aggregator, PathAttributeValue, origin, as_path, next_hop, multi_exit_disc, local_pref,
  atomic_aggregate, aggregator, unknown, PathAttribute,
}
use amnesia_bgp.Message.Attribute.{
  decode_origin, decode_segment_type, decode_as_nums, decode_segment, decode_aggregator,
  decode_next_hop, decode_value, decode_attribute,
}
use amnesia_bgp.Message.Layout.AttributeLayout.{
  flags_byte, origin_byte, segment_type_byte, value_bytes, Fits, IsLaidOut, attribute_bytes,
  flags-Takes,
}

origin-Takes :
    (o : Origin) (rest : List ℕ) → Takes (decode_origin 1) (origin_byte o ∷ []) rest (origin o)
unfolding decode_origin
origin-Takes igp rest =
    Takes-then _ _ [] (Takes-require (new_update attribute_length_error none) refl)
      (Takes-then _ _ (0 ∷ []) (Takes-u8 0) (Takes-pure (origin igp)))
origin-Takes egp rest =
    Takes-then _ _ [] (Takes-require (new_update attribute_length_error none) refl)
      (Takes-then _ _ (1 ∷ []) (Takes-u8 1) (Takes-pure (origin egp)))
origin-Takes incomplete rest =
    Takes-then _ _ [] (Takes-require (new_update attribute_length_error none) refl)
      (Takes-then _ _ (2 ∷ []) (Takes-u8 2) (Takes-pure (origin incomplete)))

segment_type-Takes :
    (t : AsPathSegmentType) (rest : List ℕ)
    → Takes decode_segment_type (segment_type_byte t ∷ []) rest t
unfolding decode_segment_type
segment_type-Takes as_set rest = Takes-then _ _ (1 ∷ []) (Takes-u8 1) (Takes-pure as_set)
segment_type-Takes as_sequence rest = Takes-then _ _ (2 ∷ []) (Takes-u8 2) (Takes-pure as_sequence)

as_nums-Takes :
    (xs : List ℕ) (rest : List ℕ)
    → Takes (decode_as_nums (length xs)) (layout_all u16_bytes xs) rest xs
unfolding decode_as_nums
as_nums-Takes [] rest = Takes-pure []
as_nums-Takes (x ∷ xs) rest =
    Takes-then _ _ (u16_bytes x) (Takes-u16 x)
      (Takes-last _ _ (layout_all u16_bytes xs) (as_nums-Takes xs rest) (Takes-pure _))

length-as_nums : (xs : List ℕ) → length (layout_all u16_bytes xs) ≡ length xs * 2
length-as_nums [] = refl
length-as_nums (x ∷ xs) = omega (arith, length-as_nums xs)

segment_test :
    (xs : List ℕ) → (length xs * 2 + 2 == suc (suc (length (layout_all u16_bytes xs)))) ≡ true
segment_test xs = ground (arith, length-as_nums xs)

segment-Takes :
    (t : AsPathSegmentType) (xs : List ℕ) (rest : List ℕ)
    → Takes
        (decode_segment (suc (suc (length (layout_all u16_bytes xs)))))
        (segment_type_byte t ∷ length xs ∷ layout_all u16_bytes xs)
        rest
        (record { segment_type = t; segment_length = length xs; segment_value = xs })
unfolding decode_segment
segment-Takes t xs rest = Takes-then _ _ (segment_type_byte t ∷ []) (segment_type-Takes t _) (
    Takes-then _ _ (length xs ∷ []) (Takes-u8 (length xs)) (
      Takes-then _ _ [] (Takes-require _ (segment_test xs))
        (Takes-last _ _ (layout_all u16_bytes xs) (as_nums-Takes xs rest) (Takes-pure _))))

u32_value : (n : ℕ) → from_be_bytes 0 (u32_bytes n) ≡ n
u32_value n = omega arith

-- Four bytes that are taken as an address.
address-Takes :
    {A : Type 0} (f : ℕ → A) (n : ℕ) (rest : List ℕ)
    → Takes
        (do sub ← get_bytes 4; bs ← unwrap_array 4 sub.rest; pure (f (from_be_bytes 0 bs)))
        (u32_bytes n)
        rest
        (f n)
address-Takes f n rest = Takes-then _ _ (u32_bytes n) (Takes-bytes (u32_bytes n) refl) (
    Takes-then _ _ [] (Takes-unwrap_array 4 (u32_bytes n) refl) (
      subst (λ z. Takes (pure (f (from_be_bytes 0 (u32_bytes n)))) [] rest (f z)) (u32_value n)
        (Takes-pure (f (from_be_bytes 0 (u32_bytes n))))))

next_hop-Takes : (n : ℕ) (rest : List ℕ) → Takes (decode_next_hop 4) (u32_bytes n) rest (next_hop n)
unfolding decode_next_hop
next_hop-Takes n rest =
    Takes-then _ _ [] (Takes-require (new_update attribute_length_error none) refl)
      (address-Takes next_hop n rest)

aggregator-Takes :
    (four : Bool) (a : Aggregator) (rest : List ℕ)
    → Takes (decode_aggregator four) (value_bytes four (aggregator a)) rest a
unfolding decode_aggregator
aggregator-Takes true a rest =
    Takes-then _ _ (u32_bytes a.as_num) (Takes-u32 a.as_num)
      (address-Takes (λ ip. record { as_num = a.as_num; ip_addr = ip }) a.ip_addr rest)
aggregator-Takes false a rest =
    Takes-then _ _ (u16_bytes a.as_num) (Takes-u16 a.as_num)
      (address-Takes (λ ip. record { as_num = a.as_num; ip_addr = ip }) a.ip_addr rest)

-- The attribute that `decode_value` is given: its value is not read yet.
abbrev unread : PathAttributeFlags → ℕ → ℕ → PathAttribute
unread f c n = record { attr_flags = f; attr_type_code = c; attr_len = n; attr_value = unknown [] }

unknown-Takes :
    (peer : OpenMsg) (f : PathAttributeFlags) (c : ℕ) (bs rest : List ℕ)
    → (c ≡ 0) ⊎ (7 < c)
    → Takes (decode_value peer (unread f c (length bs))) bs rest (unknown bs)
unfolding decode_value
unknown-Takes peer f c bs rest h =
    Takes-if (c == 1) (λ e. absurd (ground arith))
      λ _.
        Takes-if (c == 2) (λ e. absurd (ground arith))
          λ _.
            Takes-if (c == 3) (λ e. absurd (ground arith))
              λ _.
                Takes-if (c == 4) (λ e. absurd (ground arith))
                  λ _.
                    Takes-if (c == 5) (λ e. absurd (ground arith))
                      λ _.
                        Takes-if (c == 6) (λ e. absurd (ground arith))
                          λ _.
                            Takes-if (c == 7) (λ e. absurd (ground arith))
                              λ _. Takes-last _ _ bs (Takes-bytes bs refl) (Takes-pure _)

value-Takes :
    (peer : OpenMsg) (f : PathAttributeFlags) (c n : ℕ) (v : PathAttributeValue) (rest : List ℕ)
    → Fits c v
    → n ≡ length (value_bytes (is_some peer.opt_params.four_octet_as_cap) v)
    → Takes
        (decode_value peer (unread f c n))
        (value_bytes (is_some peer.opt_params.four_octet_as_cap) v)
        rest
        v
unfolding decode_value
value-Takes peer f c n (origin o) rest h e = rw (h, e) (origin-Takes o rest)
value-Takes peer f c n (as_path s) rest h e =
    rw (h.0, e, h.1)
      (Takes-last _ _ _ (segment-Takes s.segment_type s.segment_value rest) (Takes-pure _))
value-Takes peer f c n (next_hop a) rest h e = rw (h, e) (next_hop-Takes a rest)
value-Takes peer f c n (multi_exit_disc m) rest h e =
    rw h (Takes-then _ _ (u32_bytes m) (Takes-u32 m) (Takes-pure _))
value-Takes peer f c n (local_pref m) rest h e =
    rw h (Takes-then _ _ (u32_bytes m) (Takes-u32 m) (Takes-pure _))
value-Takes peer f c n (atomic_aggregate b) rest h e =
    rw (h.0, h.1) (Takes-pure (atomic_aggregate true))
value-Takes peer f c n (aggregator a) rest h e = rw h (
    Takes-last _ _ _ (aggregator-Takes (is_some peer.opt_params.four_octet_as_cap) a rest)
      (Takes-pure _))
value-Takes peer f c n (unknown bs) rest h e = rw e (unknown-Takes peer f c bs rest h)

len-Takes :
    (ext : Bool) (n : ℕ) (rest : List ℕ)
    → Takes (if ext then get_u16 else get_u8) (if ext then u16_bytes n else n ∷ []) rest n
len-Takes true n rest = Takes-u16 n
len-Takes false n rest = Takes-u8 n

-- An attribute whose type code and length are those of its value is decoded from its layout.
pub attribute_bytes-Takes :
    (peer : OpenMsg) (a : PathAttribute) (rest : List ℕ)
    → IsLaidOut (is_some peer.opt_params.four_octet_as_cap) a
    → Takes
        (decode_attribute peer)
        (attribute_bytes (is_some peer.opt_params.four_octet_as_cap) a)
        rest
        a
unfolding decode_attribute
attribute_bytes-Takes peer a rest (h, e) =
    Takes-then _ _ (flags_byte a.attr_flags ∷ []) (flags-Takes a.attr_flags _) (
      Takes-then _ _ (a.attr_type_code ∷ []) (Takes-u8 a.attr_type_code) (
        Takes-then _ _ _ (len-Takes a.attr_flags.extended_length a.attr_len _) (
          Takes-last _ _ _
            (value-Takes peer a.attr_flags a.attr_type_code a.attr_len a.attr_value rest h e)
            (Takes-pure _))))
