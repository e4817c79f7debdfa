-- ===== src/Extern/TakingLoops.antt =====
-- What the loops of the decoders make of items that are laid out one behind the other.
use mathlib.Core.List.{append-nil}
use amnesia_bgp.Base.{
  ℕ, zero, suc, ◌+◌, ◌≤◌, ◌<◌, List, [], ◌∷◌, ◌++◌, map, ◌≡◌, arith, length, length-append, ◌==◌,
  false,
}
use amnesia_bgp.Extern.Slices.{slices, slice_of}
use amnesia_bgp.Extern.Cursor.{
  ok, Parser, many, while_cap, on_buffer, get_bytes_with_u16_length, combinators,
}
use amnesia_bgp.Extern.Taking.{Takes, u16_bytes, split-append}

abbrev pub All : {A : Type 0} → (A → Type 0) → List A → Type 0
All P [] = Unit {0}
All P (a ∷ xs) = P a × All P xs

abbrev pub layout_all : {A : Type 0} → (A → List ℕ) → List A → List ℕ
layout_all layout [] = []
layout_all layout (a ∷ xs) = layout a ++ layout_all layout xs

not_zero : (n : ℕ) → 0 < n → (n == 0) ≡ false
not_zero n h = ground arith

module _ {A B : Type 0} {item : Parser slices B} {layout : A → List ℕ} {g : A → B}
    {Good : A → Type 0} (one : (a : A) (rest : List ℕ) → Good a → Takes item (layout a) rest (g a))
    (some_bytes : (a : A) → 0 < length (layout a)) where
  -- With as much fuel as there are bytes the loop takes every item.
  many-run :
      (n : ℕ) (xs : List A) (w : List ℕ) (i : ℕ)
      → length (layout_all layout xs) ≤ n
      → All Good xs
      → (many n item).run (record { whole = w; pos = i; rest = layout_all layout xs })
        ≡ ok (map g xs, record { whole = w; pos = i + length (layout_all layout xs); rest = [] })
  unfolding combinators
  many-run zero [] w i l h = ground arith
  many-run zero (a ∷ xs) w i l h =
      absurd (omega (arith, some_bytes a, length-append (layout a) (layout_all layout xs)))
  many-run (suc n) [] w i l h = ground arith
  many-run (suc n) (a ∷ xs) w i l (ha, hs) =
      rw
        (not_zero (length (layout a ++ layout_all layout xs))
          (omega (arith, some_bytes a, length-append (layout a) (layout_all layout xs))))
        (rw ((one a (layout_all layout xs) ha).taken w i) (
          rw
            (many-run n xs w (i + length (layout a))
              (omega (arith, some_bytes a, length-append (layout a) (layout_all layout xs))) hs)
            (rw (length-append (layout a) (layout_all layout xs)) (ground arith))))

  -- `while buf.cap() > 0` takes every item and leaves nothing.
  pub Takes-while_cap :
      (xs : List A) → All Good xs → Takes (while_cap item) (layout_all layout xs) [] (map g xs)
  unfolding while_cap combinators
  Takes-while_cap xs h = record {
    taken = λ w i.
        rw (append-nil (layout_all layout xs))
          (many-run (length (layout_all layout xs)) xs w i (omega arith) h);
  }

module _ {A : Type 0} {rest : List ℕ} where
  -- A sub-buffer is taken whole, and leaves the buffer as it is.
  pub Takes-on_buffer :
      (p : Parser slices A) (bs : List ℕ) {a : A}
      → Takes p bs [] a
      → Takes (on_buffer (slice_of bs) p) [] rest a
  unfolding on_buffer
  Takes-on_buffer p bs h = record {
    taken = λ w i. rw (← (append-nil bs)) (rw (h.taken (bs ++ []) 0) (ground arith));
  }

-- Bytes behind their length in two bytes.
abbrev pub counted : List ℕ → List ℕ
counted bs = u16_bytes (length bs) ++ bs

pub Takes-bytes_u16 :
    (bs rest : List ℕ) → Takes get_bytes_with_u16_length (counted bs) rest (slice_of bs)
unfolding get_bytes_with_u16_length
Takes-bytes_u16 bs rest = record { taken = λ w i. ground (arith, split-append bs rest) }
