-- ===== src/Message/Prefixes.antt =====
-- Which prefix lengths decode.
use amnesia_bgp.Base.{
  ℕ, ◌+◌, ◌*◌, ◌/◌, ◌%◌, length-append, length-replicate, ◌≤◌, ◌<◌, Bool, List, ◌∷◌, length, ◌≡◌,
  refl, ◌∙◌, arith,
}
use amnesia_bgp.Extern.{
  Extern, Lawful, slices, Slice, slice_of, view, Outcome, ok, err, panicked, exhausted, map_outcome,
  id, combinators, split-SplitAt,
}
use amnesia_bgp.Message.Types.{Cidr}
use amnesia_bgp.Message.Prefix.{decode_cidr}
use amnesia_bgp.Message.Refine.{decode_cidr-Sim}

map_outcome-panicked :
    (X : Extern) {A : Type 0} (r : Outcome (A × X.Octets))
    → map_outcome X id r ≡ panicked
    → r ≡ panicked
map_outcome-panicked X (ok (a, o)) h = cc
map_outcome-panicked X (err d) h = cc
map_outcome-panicked X panicked h = refl
map_outcome-panicked X exhausted h = cc

cidr-long :
    (checks : Bool) (len : ℕ) (rest : List ℕ)
    → 128 < len
    → len < 249
    → len ≤ 8 * length rest
    → (decode_cidr {X = slices} checks).run (slice_of (len ∷ rest)) ≡ panicked
unfolding decode_cidr combinators
cidr-long checks len rest l m n =
    grind (arith, split-SplitAt ((len + 7) % 256 / 8) rest, length-append)

-- Over a lawful crate a prefix of 129 to 248 bits, with its bytes there, panics: the conversion to
-- sixteen bytes is unwrapped, and the bytes are seventeen or more.
pub decode_cidr_long :
    (X : Extern) (checks : Bool) (o : X.Octets) (len : ℕ) (rest : List ℕ)
    → Lawful X
    → view X o ≡ slice_of (len ∷ rest)
    → 128 < len
    → len < 249
    → len ≤ 8 * length rest
    → (decode_cidr {X = X} checks).run o ≡ panicked
decode_cidr_long X checks o len rest L v l m n =
    map_outcome-panicked X _
      ((decode_cidr-Sim L checks).same o ∙ (rw v (cidr-long checks len rest l m n)))

-- A prefix that is decoded reads its length and as many bytes as the length's bits need.
abbrev pub Decoded : ℕ → List ℕ → Outcome (Cidr × Slice) → Type 0
Decoded len rest (ok (c, t)) =
    (c.len ≡ len) × (t.pos ≡ 1 + (len + 7) / 8) × (t.pos + length t.rest ≡ 1 + length rest)
Decoded len rest _ = ⊥

cidr-Decoded :
    (checks : Bool) (len : ℕ) (rest : List ℕ)
    → len ≤ 128
    → len ≤ 8 * length rest
    → Decoded len rest ((decode_cidr {X = slices} checks).run (slice_of (len ∷ rest)))
unfolding decode_cidr combinators
cidr-Decoded checks len rest l n =
    grind (arith, split-SplitAt ((len + 7) % 256 / 8) rest, length-append, length-replicate)

-- Over a lawful crate a prefix of up to 128 bits, with its bytes there, is decoded with no panic:
-- the result has its length, and what is read is the length byte and a byte for each eight bits.
pub decode_cidr-Decoded :
    (X : Extern) (checks : Bool) (o : X.Octets) (len : ℕ) (rest : List ℕ)
    → Lawful X
    → view X o ≡ slice_of (len ∷ rest)
    → len ≤ 128
    → len ≤ 8 * length rest
    → Decoded len rest (map_outcome X id ((decode_cidr {X = X} checks).run o))
decode_cidr-Decoded X checks o len rest L v l n =
    rw ((decode_cidr-Sim L checks).same o) (rw v (cidr-Decoded checks len rest l n))
