-- ===== src/Extern/Slices.antt =====
-- The documented behaviour of `octets::Octets` and `bytes::BytesMut` over byte lists.
use amnesia_bgp.Base.{ℕ, zero, suc, ◌+◌, Option, none, some, List, [], ◌∷◌, ◌++◌, length}
use amnesia_bgp.Net.{from_be_bytes, v4}
use amnesia_bgp.Extern.Defs.{Extern}

-- A read buffer: all its bytes, how many are read, and those left.
pub record Slice : Type 0 where
  pub whole : List ℕ
  pub pos : ℕ
  pub rest : List ℕ

abbrev pub slice_of : List ℕ → Slice
slice_of bs = record { whole = bs; pos = 0; rest = bs }

-- The first `n` elements and those behind them, if there are as many.
abbrev pub split : ℕ → List ℕ → Option (List ℕ × List ℕ)
split zero bs = some ([], bs)
split (suc n) [] = none
split (suc n) (b ∷ bs) = elim (split n bs) [ none ↦ none | some (xs, ys) ↦ some (b ∷ xs, ys) ]

module _ (n : ℕ) (s : Slice) where
  -- The next `n` bytes as a big-endian number.
  abbrev pub slice_uint : Option (ℕ × Slice)
  slice_uint = elim (split n s.rest) [
    | none ↦ none
    | some (xs, ys) ↦ some (from_be_bytes 0 xs, record s { pos = s.pos + n; rest = ys })
  ]

  abbrev pub slice_bytes : Option (Slice × Slice)
  slice_bytes = elim (split n s.rest) [
    | none ↦ none
    | some (xs, ys) ↦ some (slice_of xs, record s { pos = s.pos + n; rest = ys })
  ]

  abbrev pub slice_skip : Option Slice
  slice_skip = elim (split n s.rest) [
    | none ↦ none
    | some (xs, ys) ↦ some (record s { pos = s.pos + n; rest = ys })
  ]

abbrev pub slice_bytes_u16 : Slice → Option (Slice × Slice)
slice_bytes_u16 s = elim (slice_uint 2 s) [ none ↦ none | some (n, t) ↦ slice_bytes n t ]

-- The bytes behind the first `n`, if there are as many.
abbrev pub drop? : ℕ → List ℕ → Option (List ℕ)
drop? n bs = elim (split n bs) [ none ↦ none | some (xs, ys) ↦ some ys ]

-- An instance: byte lists themselves, with numbered sockets.
abbrev pub slices : Extern
slices = record {
  Octets = Slice;
  with_slice = slice_of;
  cap = λ s. length s.rest;
  off = λ s. s.pos;
  buf = λ s. s.whole;
  to_vec = λ s. s.rest;
  get_u8 = slice_uint 1;
  get_u16 = slice_uint 2;
  get_u32 = slice_uint 4;
  skip = λ s n. slice_skip n s;
  get_bytes = λ s n. slice_bytes n s;
  get_bytes_with_u16_length = slice_bytes_u16;
  BytesMut = List ℕ;
  with_capacity = λ n. [];
  as_slice = λ bs. bs;
  reserve = λ bs n. bs;
  advance = λ bs n. drop? n bs;
  TcpStream = ℕ;
  append_read = λ bs new. bs ++ new;
  peer_addr = λ n. some (record { ip = v4 n; port = 179 });
}
