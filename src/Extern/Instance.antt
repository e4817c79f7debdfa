-- ===== src/Extern/Instance.antt =====
-- Byte lists are lawful buffers: the laws can hold.
use amnesia_bgp.Base.{ℕ, Option, none, some, ◌≡◌, refl}
use amnesia_bgp.Extern.Slices.{
  Slice, slices, slice_uint, slice_bytes, slice_skip, slice_bytes_u16, drop?,
}
use amnesia_bgp.Extern.Laws.{Lawful, view, map_pair, map_both, map_option}

map_pair-view : (r : Option (ℕ × Slice)) → map_pair (view slices) r ≡ r
map_pair-view none = refl
map_pair-view (some (n, s)) = refl

map_both-view : (r : Option (Slice × Slice)) → map_both (view slices) r ≡ r
map_both-view none = refl
map_both-view (some (s, t)) = refl

map_option-id : {A : Type 0} (f : A → A) → ((a : A) → f a ≡ a) → (r : Option A) → map_option f r ≡ r
map_option-id f h none = refl
map_option-id f h (some a) = rw (h a) refl

-- `slices` is lawful.
pub slices-Lawful : Lawful slices
slices-Lawful = record {
  view-with_slice = λ bs. refl;
  cap-view = λ o. refl;
  view-get_u8 = λ o. map_pair-view (slice_uint 1 o);
  view-get_u16 = λ o. map_pair-view (slice_uint 2 o);
  view-get_u32 = λ o. map_pair-view (slice_uint 4 o);
  view-skip = λ o n. map_option-id (view slices) (λ a. refl) (slice_skip n o);
  view-get_bytes = λ o n. map_both-view (slice_bytes n o);
  view-get_bytes_with_u16_length = λ o. map_both-view (slice_bytes_u16 o);
  as_slice-with_capacity = λ n. refl;
  as_slice-reserve = λ b n. refl;
  as_slice-advance = λ b n. map_option-id slices.as_slice (λ a. refl) (drop? n b);
  as_slice-append_read = λ b bs. refl;
}
