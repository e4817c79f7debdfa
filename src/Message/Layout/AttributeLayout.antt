-- ===== src/Message/Layout/AttributeLayout.antt =====
-- The layout of a path attribute, and its flags.
use amnesia_bgp.Base.{
  ℕ, ◌+◌, ◌<◌, Bool, true, false, List, [], ◌∷◌, ◌++◌, length, ◌==◌, ◌≡◌, refl, ◌⊎◌, if◌then◌else◌,
  not, bit_and,
}
use mathlib.Core.Path.{subst}
use amnesia_bgp.Extern.{
  Takes, Takes-u8, Takes-pure, Takes-then, pure, u16_bytes, u32_bytes, layout_all,
}
use amnesia_bgp.Message.Types.{
  PathAttributeFlags, Origin, igp, egp, incomplete, AsPathSegmentType, as_set, as_sequence,
  PathAttributeValue, origin, as_path, next_hop, multi_exit_disc, local_pref, atomic_aggregate,
  aggregator, unknown, PathAttribute,
}
use amnesia_bgp.Message.Attribute.{decode_flags}

abbrev pub flags_byte : PathAttributeFlags → ℕ
flags_byte f =
    (if f.optional then 128 else 0)
    + (if f.transitive then 64 else 0)
    + (if f.partial then 32 else 0)
    + (if f.extended_length then 16 else 0)

abbrev pub origin_byte : Origin → ℕ
origin_byte igp = 0
origin_byte egp = 1
origin_byte incomplete = 2

abbrev pub segment_type_byte : AsPathSegmentType → ℕ
segment_type_byte as_set = 1
segment_type_byte as_sequence = 2

-- The value of an attribute. An autonomous system has four octets in an AGGREGATOR only where the
-- peer has the capability.
abbrev pub value_bytes : Bool → PathAttributeValue → List ℕ
value_bytes four (origin o) = origin_byte o ∷ []
value_bytes four (as_path s) =
    segment_type_byte s.segment_type ∷ s.segment_length ∷ layout_all u16_bytes s.segment_value
value_bytes four (next_hop a) = u32_bytes a
value_bytes four (multi_exit_disc n) = u32_bytes n
value_bytes four (local_pref n) = u32_bytes n
value_bytes four (atomic_aggregate b) = []
value_bytes four (aggregator a) =
    (if four then u32_bytes a.as_num else u16_bytes a.as_num) ++ u32_bytes a.ip_addr
value_bytes four (unknown bs) = bs

-- The type code is that of the value, and the value is one that a decoder can give.
abbrev pub Fits : ℕ → PathAttributeValue → Type 0
Fits c (origin o) = c ≡ 1
Fits c (as_path s) = (c ≡ 2) × (s.segment_length ≡ length s.segment_value)
Fits c (next_hop a) = c ≡ 3
Fits c (multi_exit_disc n) = c ≡ 4
Fits c (local_pref n) = c ≡ 5
Fits c (atomic_aggregate b) = (c ≡ 6) × (b ≡ true)
Fits c (aggregator a) = c ≡ 7
Fits c (unknown bs) = (c ≡ 0) ⊎ (7 < c)

abbrev pub IsLaidOut : Bool → PathAttribute → Type 0
IsLaidOut four a =
    Fits a.attr_type_code a.attr_value × (a.attr_len ≡ length (value_bytes four a.attr_value))

abbrev pub attribute_bytes : Bool → PathAttribute → List ℕ
attribute_bytes four a =
    flags_byte a.attr_flags
    ∷ a.attr_type_code
    ∷ ((if a.attr_flags.extended_length then u16_bytes a.attr_len else a.attr_len ∷ [])
        ++ value_bytes four a.attr_value)

-- What `decode_flags` makes of a byte.
abbrev flags_of : ℕ → PathAttributeFlags
flags_of n = record {
  optional = not (bit_and n 0x80 == 0);
  transitive = not (bit_and n 0x40 == 0);
  partial = not (bit_and n 0x20 == 0);
  extended_length = not (bit_and n 0x10 == 0);
}

abbrev flags_with : Bool → Bool → Bool → Bool → PathAttributeFlags
flags_with o t p e = record { optional = o; transitive = t; partial = p; extended_length = e }

flags_of-flags_byte :
    (o t p e : Bool) → flags_of (flags_byte (flags_with o t p e)) ≡ flags_with o t p e
flags_of-flags_byte true true true true = refl
flags_of-flags_byte true true true false = refl
flags_of-flags_byte true true false true = refl
flags_of-flags_byte true true false false = refl
flags_of-flags_byte true false true true = refl
flags_of-flags_byte true false true false = refl
flags_of-flags_byte true false false true = refl
flags_of-flags_byte true false false false = refl
flags_of-flags_byte false true true true = refl
flags_of-flags_byte false true true false = refl
flags_of-flags_byte false true false true = refl
flags_of-flags_byte false true false false = refl
flags_of-flags_byte false false true true = refl
flags_of-flags_byte false false true false = refl
flags_of-flags_byte false false false true = refl
flags_of-flags_byte false false false false = refl

pub flags-Takes :
    (f : PathAttributeFlags) (rest : List ℕ) → Takes decode_flags (flags_byte f ∷ []) rest f
unfolding decode_flags
flags-Takes f rest = Takes-then _ _ (flags_byte f ∷ []) (Takes-u8 (flags_byte f)) (
    subst (λ z. Takes (pure (flags_of (flags_byte f))) [] rest z)
      (flags_of-flags_byte f.optional f.transitive f.partial f.extended_length)
      (Takes-pure (flags_of (flags_byte f))))
