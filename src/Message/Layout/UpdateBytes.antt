-- ===== src/Message/Layout/UpdateBytes.antt =====
-- The layout of an UPDATE, and what `UpdateMsg::decode` of src/message.rs makes of it.
use amnesia_bgp.Base.{
  ℕ, ◌+◌, ◌-◌, ◌/◌, ◌%◌, ◌≤◌, Bool, true, is_some, List, [], ◌∷◌, ◌++◌, map, length, replicate, ltb,
  not, ◌&&◌, ◌==◌, ◌≡◌, refl, ◌∙◌, arith, none, if◌then◌else◌, length-append, length-replicate,
}
use mathlib.Core.List.{append-nil, map-id}
use amnesia_bgp.Net.{IpAddr, v4, from_be_bytes}
use amnesia_bgp.Error.{new_update, malformed_attribute_list, invalid_network_field}
use amnesia_bgp.Extern.{
  Extern, slice_of, Lawful, view, map_outcome, id, ok, Takes, Takes-u8, Takes-bytes, Takes-cap,
  Takes-pure, Takes-require, Takes-unwrap_array, Takes-if, Takes-then, Takes-last, Takes-while_cap,
  Takes-on_buffer, Takes-bytes_u16, panic, pure, All, layout_all, counted,
}
use amnesia_bgp.Message.Types.{OpenMsg, Cidr, PathAttribute, UpdateMsg}
use amnesia_bgp.Message.Prefix.{decode_cidr}
use amnesia_bgp.Message.Update.{
  decode_withdrawn, decode_attributes, decode_nlri_item, decode_nlri, decode_update,
}
use amnesia_bgp.Message.Refine.{decode_update-Sim}
use amnesia_bgp.Message.Layout.AttributeLayout.{IsLaidOut, attribute_bytes}
use amnesia_bgp.Message.Layout.AttributeBytes.{attribute_bytes-Takes}

-- An IPv4 network: its length and the bytes of its address that the length asks for.
pub record Network : Type 0 where
  pub len : ℕ
  pub leading : List ℕ

abbrev pub IsNetwork : Network → Type 0
IsNetwork n = (n.len ≤ 32) × (length n.leading ≡ (n.len + 7) / 8)

abbrev pub network_bytes : Network → List ℕ
network_bytes n = n.len ∷ n.leading

-- The address is the leading bytes and zeros.
abbrev pub cidr_of : Network → Cidr
cidr_of n = record {
  len = n.len;
  prefix = v4 (from_be_bytes 0 (n.leading ++ replicate (4 - length n.leading) 0));
}

padded_length :
    (bs : List ℕ) → length bs ≤ 4 → (length (bs ++ replicate (4 - length bs) 0) == 4) ≡ true
padded_length bs h =
    rw (length-append bs (replicate (4 - length bs) 0), length-replicate {A = ℕ} (4 - length bs) 0)
      (ground arith)

network-Takes :
    (checks : Bool) (n : Network) (rest : List ℕ)
    → IsNetwork n
    → Takes (decode_cidr checks) (network_bytes n) rest (cidr_of n)
unfolding decode_cidr
network-Takes checks n rest (l, e) = Takes-then _ _ (n.len ∷ []) (Takes-u8 n.len) (
    Takes-then _ _ [] round (
      Takes-last _ _ n.leading (Takes-bytes n.leading refl) (
        Takes-if (ltb 4 (length n.leading)) (λ q. absurd (ground arith))
          λ q.
            Takes-then _ _ [] (Takes-unwrap_array 4 _ (padded_length n.leading (omega arith)))
              (Takes-pure _))))
  where
    round :
        Takes
          (if checks && not (ltb (n.len + 7) 256) then panic else pure ((n.len + 7) % 256 / 8))
          []
          (n.leading ++ rest)
          (length n.leading)
    round =
        Takes-if (checks && not (ltb (n.len + 7) 256)) (λ q. absurd (ground arith))
          (λ q.
            let e' : (n.len + 7) % 256 / 8 ≡ length n.leading = omega arith in
            rw e' (Takes-pure (length n.leading)))

-- The NLRI of an UPDATE, with the length of each network written twice, as the loop reads it.
abbrev pub nlri_bytes : Network → List ℕ
nlri_bytes n = n.len ∷ network_bytes n

abbrev pub nlri_of : Network → ℕ × IpAddr
nlri_of n = (n.len, (cidr_of n).prefix)

nlri_item-Takes :
    (checks : Bool) (n : Network) (rest : List ℕ)
    → IsNetwork n
    → Takes (decode_nlri_item checks) (nlri_bytes n) rest (nlri_of n)
unfolding decode_nlri_item
nlri_item-Takes checks n rest h =
    Takes-then _ _ (n.len ∷ []) (Takes-u8 n.len)
      (Takes-last _ _ (network_bytes n) (network-Takes checks n rest h) (Takes-pure _))

withdrawn-Takes :
    (checks : Bool) (ws : List Network)
    → All IsNetwork ws
    → Takes (decode_withdrawn checks) (layout_all network_bytes ws) [] (map cidr_of ws)
unfolding decode_withdrawn
withdrawn-Takes checks ws h =
    Takes-while_cap {layout = network_bytes} {g = cidr_of} (network-Takes checks) (λ n. omega arith)
      ws h

attributes-Takes :
    (checks : Bool) (peer : OpenMsg) (xs : List PathAttribute)
    → All (IsLaidOut (is_some peer.opt_params.four_octet_as_cap)) xs
    → Takes
        (decode_attributes checks peer)
        (layout_all (attribute_bytes (is_some peer.opt_params.four_octet_as_cap)) xs)
        []
        xs
unfolding decode_attributes
attributes-Takes checks peer xs h =
    Takes-last _ _ (layout_all (attribute_bytes (is_some peer.opt_params.four_octet_as_cap)) xs)
      (Takes-while_cap {layout = attribute_bytes (is_some peer.opt_params.four_octet_as_cap)}
        {g = λ a. a} (attribute_bytes-Takes peer) (λ n. omega arith) xs h)
      (Takes-then _ _ [] Takes-cap (
        Takes-then _ _ [] (Takes-require (new_update malformed_attribute_list none) refl)
          (rw (map-id xs) (Takes-pure xs))))

nlri-Takes :
    (checks : Bool) (ns : List Network)
    → All IsNetwork ns
    → Takes (decode_nlri checks) (layout_all nlri_bytes ns) [] (map nlri_of ns)
unfolding decode_nlri
nlri-Takes checks ns h =
    Takes-last _ _ (layout_all nlri_bytes ns)
      (Takes-while_cap {layout = nlri_bytes} {g = nlri_of} (nlri_item-Takes checks)
        (λ n. omega arith) ns h)
      (Takes-then _ _ [] Takes-cap (
        Takes-then _ _ [] (Takes-require (new_update invalid_network_field none) refl)
          (Takes-pure _)))

module _ (peer : OpenMsg) (ws : List Network) (xs : List PathAttribute) (ns : List Network) where
  -- An UPDATE to this peer.
  abbrev pub update_bytes : List ℕ
  update_bytes =
      counted (layout_all network_bytes ws)
      ++ (counted (layout_all (attribute_bytes (is_some peer.opt_params.four_octet_as_cap)) xs)
          ++ layout_all nlri_bytes ns)

  abbrev pub update_of : UpdateMsg
  update_of = record {
    withdrawn_routes = map cidr_of ws;
    path_attributes = xs;
    nlri = map nlri_of ns;
  }

  abbrev pub IsUpdate : Type 0
  IsUpdate =
      All IsNetwork ws
      × All (IsLaidOut (is_some peer.opt_params.four_octet_as_cap)) xs
      × All IsNetwork ns

  update_bytes-Takes :
      (checks : Bool) → IsUpdate → Takes (decode_update checks peer) update_bytes [] update_of
  unfolding decode_update
  update_bytes-Takes checks (hw, hx, hn) =
      Takes-then _ _ (counted (layout_all network_bytes ws))
        (Takes-bytes_u16 (layout_all network_bytes ws) _)
        (Takes-then _ _ []
          (Takes-on_buffer _ (layout_all network_bytes ws) (withdrawn-Takes checks ws hw))
          (Takes-then _ _
            (counted (layout_all (attribute_bytes (is_some peer.opt_params.four_octet_as_cap)) xs))
            (Takes-bytes_u16 _ _)
            (Takes-then _ _ [] (Takes-on_buffer _ _ (attributes-Takes checks peer xs hx)) (
              Takes-last _ _ (layout_all nlri_bytes ns) (nlri-Takes checks ns hn) (Takes-pure _)))))

-- Over a lawful crate an UPDATE is decoded from its layout: the withdrawn networks, the attributes
-- with the value, the length and the type code that fit, and the networks of its NLRI, each of up to
-- 32 bits. The length of a network in the NLRI has to be written twice.
pub decode_update-update_bytes :
    (X : Extern) (checks : Bool) (o : X.Octets) (peer : OpenMsg) (ws : List Network)
    (xs : List PathAttribute) (ns : List Network)
    → Lawful X
    → view X o ≡ slice_of (update_bytes peer ws xs ns)
    → IsUpdate peer ws xs ns
    → map_outcome X id ((decode_update {X = X} checks peer).run o)
      ≡ ok (
        update_of peer ws xs ns,
        record {
          whole = update_bytes peer ws xs ns;
          pos = 0 + length (update_bytes peer ws xs ns);
          rest = [];
        },
      )
decode_update-update_bytes X checks o peer ws xs ns L v h =
    (decode_update-Sim L checks peer).same o
    ∙ rw v (
        rw (append-nil (update_bytes peer ws xs ns)) at
          ((update_bytes-Takes peer ws xs ns checks h).taken (update_bytes peer ws xs ns) 0))
