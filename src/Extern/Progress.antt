-- ===== src/Extern/Progress.antt =====
-- How far a decoder reads: over byte lists it never loses a byte, moves on by at least a given
-- number, and does not run out of fuel.
use amnesia_bgp.Base.{
  ℕ, zero, suc, ◌+◌, ◌≤◌, ◌<◌, Bool, true, false, Option, none, some, List, [], ◌∷◌, ◌++◌, ◌≡◌,
  refl, arith, length, ◌==◌, if◌then◌else◌, Bool-cases, inl, inr,
}
use amnesia_bgp.Error.{Error}
use amnesia_bgp.Extern.Slices.{Slice, slices, split, slice_uint, slice_bytes}
use amnesia_bgp.Extern.Cursor.{
  Outcome, ok, err, panicked, exhausted, bind_outcome, Parser, pure, fail, panic, ◌>>=◌, get_u8,
  get_u16, get_u32, get_bytes, get_bytes_with_u16_length, skip, cap, many, while_cap, on_buffer,
  or_short, combinators,
}

-- The bytes read and those left are as many as before, and `k` at least are read now. Only where
-- `may_panic` is set may the call panic.
abbrev pub After : {A : Type 0} → Bool → ℕ → Slice → Outcome (A × Slice) → Type 0
After may_panic k s (ok (a, t)) =
    (s.pos + k ≤ t.pos) × (t.pos + length t.rest ≡ s.pos + length s.rest)
After may_panic k s (err e) = Unit {0}
After may_panic k s panicked = may_panic ≡ true
After may_panic k s exhausted = ⊥

pub record Reads {A : Type 0} (may_panic : Bool) (k : ℕ) (p : Parser slices A) : Type 0 where
  pub after : (s : Slice) → After may_panic k s (p.run s)

-- What a split of `bs` at `n` gives.
abbrev pub SplitAt : ℕ → List ℕ → Option (List ℕ × List ℕ) → Type 0
SplitAt n bs none = length bs < n
SplitAt n bs (some (xs, ys)) = (length xs ≡ n) × (n + length ys ≡ length bs) × (xs ++ ys ≡ bs)

pub split-SplitAt : (n : ℕ) (bs : List ℕ) → SplitAt n bs (split n bs)
split-SplitAt zero bs = ground arith
split-SplitAt (suc n) [] = omega arith
split-SplitAt (suc n) (b ∷ bs) = ground (arith, split-SplitAt n bs)

bytes_u16-After :
    (b : Bool) (s : Slice) (r : Option (ℕ × Slice))
    → After b 2 s (or_short r)
    → After b 2 s (or_short (elim r [ none ↦ none | some (n, t) ↦ slice_bytes n t ]))
bytes_u16-After b s none h = tt
bytes_u16-After b s (some (n, t)) h = ground (arith, split-SplitAt n t.rest)

module _ {b : Bool} where
  pub Reads-u8 : Reads b 1 get_u8
  unfolding get_u8
  Reads-u8 = record { after = λ s. ground (arith, split-SplitAt 1 s.rest) }

  pub Reads-u16 : Reads b 2 get_u16
  unfolding get_u16
  Reads-u16 = record { after = λ s. ground (arith, split-SplitAt 2 s.rest) }

  pub Reads-u32 : Reads b 4 get_u32
  unfolding get_u32
  Reads-u32 = record { after = λ s. ground (arith, split-SplitAt 4 s.rest) }

  pub Reads-bytes : (n : ℕ) → Reads b n (get_bytes n)
  unfolding get_bytes
  Reads-bytes n = record { after = λ s. ground (arith, split-SplitAt n s.rest) }

  pub Reads-skip : (n : ℕ) → Reads b n (skip n)
  unfolding skip
  Reads-skip n = record { after = λ s. ground (arith, split-SplitAt n s.rest) }

  pub Reads-bytes_u16 : Reads b 2 get_bytes_with_u16_length
  unfolding get_bytes_with_u16_length
  Reads-bytes_u16 = record {
    after = λ s. bytes_u16-After b s (slice_uint 2 s) (ground (arith, split-SplitAt 2 s.rest));
  }

  pub Reads-cap : Reads b 0 cap
  unfolding cap
  Reads-cap = record { after = λ s. ground arith }

module _ {A : Type 0} {b : Bool} where
  pub Reads-pure : (a : A) → Reads b 0 (pure a)
  unfolding pure
  Reads-pure a = record { after = λ s. ground arith }

  pub Reads-fail : (k : ℕ) (e : Error) → Reads {A = A} b k (fail e)
  unfolding fail
  Reads-fail k e = record { after = λ s. tt }

  pub Reads-if :
      {k : ℕ} (c : Bool) {p q : Parser slices A}
      → Reads b k p
      → Reads b k q
      → Reads b k (if c then p else q)
  Reads-if true h h' = h
  Reads-if false h h' = h'

pub Reads-panic : {A : Type 0} (k : ℕ) → Reads {A = A} true k panic
unfolding panic
Reads-panic k = record { after = λ s. refl }

After-trans :
    {B : Type 0} (b : Bool) (k n : ℕ) (s t : Slice)
    → n ≤ k
    → (s.pos + k ≤ t.pos) × (t.pos + length t.rest ≡ s.pos + length s.rest)
    → (r : Outcome (B × Slice)) → After b 0 t r
    → After b n s r
After-trans b k n s t l h (ok (c, u)) g = omega arith
After-trans b k n s t l h (err e) g = tt
After-trans b k n s t l h panicked g = g
After-trans b k n s t l h exhausted g = absurd g

module _ {A B : Type 0} {b : Bool} where
  After-then :
      (k n : ℕ) (f : A → Parser slices B) (s : Slice) (r : Outcome (A × Slice))
      → n ≤ k
      → ((a : A) → Reads b 0 (f a))
      → After b k s r
      → After b n s (bind_outcome r (λ t. (f t.0).run t.1))
  After-then k n f s (ok (a, t)) l hf h = After-trans b k n s t l h ((f a).run t) ((hf a).after t)
  After-then k n f s (err e) l hf h = tt
  After-then k n f s panicked l hf h = h
  After-then k n f s exhausted l hf h = absurd h

  -- What is read first counts; what follows may read more.
  pub Reads-then :
      {k n : ℕ} {p : Parser slices A} {f : A → Parser slices B}
      → Reads b k p
      → n ≤ k
      → ((a : A) → Reads b 0 (f a))
      → Reads b n (p >>= f)
  unfolding ◌>>=◌
  Reads-then {k} {n} {p} {f} h l hf = record {
    after = λ s. After-then k n f s (p.run s) l hf (h.after s);
  }

After-add :
    {B : Type 0} (b : Bool) (k n : ℕ) (s t : Slice)
    → (s.pos + k ≤ t.pos) × (t.pos + length t.rest ≡ s.pos + length s.rest)
    → (r : Outcome (B × Slice)) → After b n t r
    → After b (k + n) s r
After-add b k n s t h (ok (c, u)) g = omega arith
After-add b k n s t h (err e) g = tt
After-add b k n s t h panicked g = g
After-add b k n s t h exhausted g = absurd g

module _ {A B : Type 0} {b : Bool} where
  After-both :
      (k n : ℕ) (f : A → Parser slices B) (s : Slice) (r : Outcome (A × Slice))
      → ((a : A) → Reads b n (f a))
      → After b k s r
      → After b (k + n) s (bind_outcome r (λ t. (f t.0).run t.1))
  After-both k n f s (ok (a, t)) hf h = After-add b k n s t h ((f a).run t) ((hf a).after t)
  After-both k n f s (err e) hf h = tt
  After-both k n f s panicked hf h = h
  After-both k n f s exhausted hf h = absurd h

  -- What is read first and what is read behind it both count.
  pub Reads-add :
      {k n : ℕ} {p : Parser slices A} {f : A → Parser slices B}
      → Reads b k p
      → ((a : A) → Reads b n (f a))
      → Reads b (k + n) (p >>= f)
  unfolding ◌>>=◌
  Reads-add {k} {n} {p} {f} h hf = record {
    after = λ s. After-both k n f s (p.run s) hf (h.after s);
  }

After-weaken :
    {A : Type 0} (b : Bool) (k n : ℕ) (s : Slice) (r : Outcome (A × Slice))
    → n ≤ k
    → After b k s r
    → After b n s r
After-weaken b k n s (ok (a, t)) l h = omega arith
After-weaken b k n s (err e) l h = tt
After-weaken b k n s panicked l h = h
After-weaken b k n s exhausted l h = absurd h

After-buffer :
    {A : Type 0} (b : Bool) (k : ℕ) (s t : Slice) (r : Outcome (A × Slice))
    → After b k t r
    → After b 0 s (bind_outcome r (λ u. ok (u.0, s)))
After-buffer b k s t (ok (a, u)) h = omega arith
After-buffer b k s t (err e) h = tt
After-buffer b k s t panicked h = h
After-buffer b k s t exhausted h = absurd h

module _ {A : Type 0} {b : Bool} {k : ℕ} where
  pub Reads-weaken : {n : ℕ} {p : Parser slices A} → Reads b k p → n ≤ k → Reads b n p
  Reads-weaken {n} {p} h l = record { after = λ s. After-weaken b k n s (p.run s) l (h.after s) }

  pub Reads-on_buffer :
      {p : Parser slices A} (sub : Slice) → Reads b k p → Reads b 0 (on_buffer sub p)
  unfolding on_buffer
  Reads-on_buffer {p} sub h = record {
    after = λ s. After-buffer b k s sub (p.run sub) (h.after sub);
  }

module _ {A : Type 0} {b : Bool} {item : Parser slices A} (h : Reads b 1 item) where
  -- A loop whose rounds read a byte at least ends within as much fuel as there are bytes.
  many-After : (n : ℕ) (s : Slice) → length s.rest ≤ n → After b 0 s ((many n item).run s)
  unfolding combinators
  many-After zero s l = ground arith
  many-After (suc n) s l = elim (Bool-cases (length s.rest == 0)) [
    | inl e ↦ rw e (omega arith)
    | inr e ↦ rw e (go (item.run s) (h.after s) (λ t q. many-After n t q))
  ]
    where
      cons-after :
          (a : A) (t : Slice)
          → (s.pos + 1 ≤ t.pos) × (t.pos + length t.rest ≡ s.pos + length s.rest)
          → (r : Outcome (List A × Slice)) → After b 0 t r
          → After b 0 s (bind_outcome r (λ u. ok (a ∷ u.0, u.1)))
      cons-after a t q (ok (c, u)) g = omega arith
      cons-after a t q (err x) g = tt
      cons-after a t q panicked g = g
      cons-after a t q exhausted g = absurd g

      go :
          (r : Outcome (A × Slice))
          → After b 1 s r
          → ((t : Slice) → length t.rest ≤ n → After b 0 t ((many n item).run t))
          → After b 0 s (
              bind_outcome r (λ t. bind_outcome ((many n item).run t.1) (λ u. ok (t.0 ∷ u.0, u.1))))
      go (ok (a, t)) q ih = cons-after a t q ((many n item).run t) (ih t (omega arith))
      go (err x) q ih = tt
      go panicked q ih = q
      go exhausted q ih = absurd q

  pub Reads-while_cap : Reads b 0 (while_cap item)
  unfolding while_cap ◌>>=◌ cap
  Reads-while_cap = record { after = λ s. many-After (length s.rest) s (omega arith) }
