-- ===== src/Extern/Laws.antt =====
-- What the decoders rely on: each operation does on a buffer what its documentation says of the
-- bytes that the buffer shows.
use amnesia_bgp.Base.{ℕ, Option, none, some, List, [], ◌++◌, ◌≡◌, length}
use amnesia_bgp.Extern.Defs.{Extern}
use amnesia_bgp.Extern.Slices.{
  Slice, slice_of, slice_uint, slice_bytes, slice_skip, slice_bytes_u16, drop?,
}

-- What a buffer shows by `buf`, `off` and `to_vec`.
abbrev pub view : (X : Extern) → X.Octets → Slice
view X o = record { whole = X.buf o; pos = X.off o; rest = X.to_vec o }

abbrev pub map_pair : {A B C : Type 0} → (A → B) → Option (C × A) → Option (C × B)
map_pair f none = none
map_pair f (some (c, a)) = some (c, f a)

abbrev pub map_both : {A B : Type 0} → (A → B) → Option (A × A) → Option (B × B)
map_both f none = none
map_both f (some (a, a')) = some (f a, f a')

abbrev pub map_option : {A B : Type 0} → (A → B) → Option A → Option B
map_option f none = none
map_option f (some a) = some (f a)

pub record Lawful (X : Extern) : Type 0 where
  pub view-with_slice : (bs : List ℕ) → view X (X.with_slice bs) ≡ slice_of bs
  pub cap-view : (o : X.Octets) → X.cap o ≡ length (X.to_vec o)
  pub view-get_u8 : (o : X.Octets) → map_pair (view X) (X.get_u8 o) ≡ slice_uint 1 (view X o)
  pub view-get_u16 : (o : X.Octets) → map_pair (view X) (X.get_u16 o) ≡ slice_uint 2 (view X o)
  pub view-get_u32 : (o : X.Octets) → map_pair (view X) (X.get_u32 o) ≡ slice_uint 4 (view X o)
  pub view-skip :
      (o : X.Octets) (n : ℕ) → map_option (view X) (X.skip o n) ≡ slice_skip n (view X o)
  pub view-get_bytes :
      (o : X.Octets) (n : ℕ) → map_both (view X) (X.get_bytes o n) ≡ slice_bytes n (view X o)
  pub view-get_bytes_with_u16_length :
      (o : X.Octets)
      → map_both (view X) (X.get_bytes_with_u16_length o) ≡ slice_bytes_u16 (view X o)
  pub as_slice-with_capacity : (n : ℕ) → X.as_slice (X.with_capacity n) ≡ []
  pub as_slice-reserve : (b : X.BytesMut) (n : ℕ) → X.as_slice (X.reserve b n) ≡ X.as_slice b
  pub as_slice-advance :
      (b : X.BytesMut) (n : ℕ) → map_option X.as_slice (X.advance b n) ≡ drop? n (X.as_slice b)
  pub as_slice-append_read :
      (b : X.BytesMut) (bs : List ℕ) → X.as_slice (X.append_read b bs) ≡ X.as_slice b ++ bs
