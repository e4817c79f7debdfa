-- ===== src/Extern/Growth.antt =====
-- Decoders on a buffer, and on the same buffer with more bytes behind it.
use amnesia_bgp.Base.{
  ℕ, zero, suc, Bool, true, false, Option, none, some, List, [], ◌∷◌, ◌++◌, ◌≡◌, refl, arith, ◌⊎◌,
  inl, inr, if◌then◌else◌,
}
use amnesia_bgp.Error.{Error, from_buffer_too_short}
use amnesia_bgp.Extern.Slices.{Slice, slices, split}
use amnesia_bgp.Extern.Cursor.{
  Outcome, ok, err, panicked, exhausted, bind_outcome, Parser, pure, fail, ◌>>=◌, get_u8, get_u16,
  get_bytes,
}

-- The slice with more bytes behind what is left, in another buffer.
abbrev pub longer : List ℕ → List ℕ → Slice → Slice
longer w more t = record { whole = w; pos = t.pos; rest = t.rest ++ more }

-- What the longer buffer gives, where the shorter one gives this.
abbrev pub Grows :
    {A : Type 0} → List ℕ → List ℕ → Outcome (A × Slice) → Outcome (A × Slice) → Type 0
Grows w more (ok (a, t)) r = r ≡ ok (a, longer w more t)
Grows w more (err e) r = (e ≡ from_buffer_too_short) ⊎ (r ≡ err e)
Grows w more panicked r = r ≡ panicked
Grows w more exhausted r = r ≡ exhausted

pub record Steady {A : Type 0} (p : Parser slices A) : Type 0 where
  pub steady : (w more : List ℕ) (s : Slice) → Grows w more (p.run s) (p.run (longer w more s))

-- What a split of a longer list gives.
abbrev pub SplitGrows : List ℕ → Option (List ℕ × List ℕ) → Option (List ℕ × List ℕ) → Type 0
SplitGrows more none r = Unit {0}
SplitGrows more (some (xs, ys)) r = r ≡ some (xs, ys ++ more)

pub split-SplitGrows :
    (n : ℕ) (bs more : List ℕ) → SplitGrows more (split n bs) (split n (bs ++ more))
split-SplitGrows zero bs more = refl
split-SplitGrows (suc n) [] more = tt
split-SplitGrows (suc n) (b ∷ bs) more = ground (arith, split-SplitGrows n bs more)

pub Steady-u8 : Steady get_u8
unfolding get_u8
Steady-u8 = record { steady = λ w more s. ground (arith, split-SplitGrows 1 s.rest more) }

pub Steady-u16 : Steady get_u16
unfolding get_u16
Steady-u16 = record { steady = λ w more s. ground (arith, split-SplitGrows 2 s.rest more) }

pub Steady-bytes : (n : ℕ) → Steady (get_bytes n)
unfolding get_bytes
Steady-bytes n = record { steady = λ w more s. ground (arith, split-SplitGrows n s.rest more) }

module _ {A : Type 0} where
  pub Steady-pure : (a : A) → Steady (pure a)
  unfolding pure
  Steady-pure a = record { steady = λ w more s. refl }

  pub Steady-fail : (e : Error) → Steady {A = A} (fail e)
  unfolding fail
  Steady-fail e = record { steady = λ w more s. inr refl }

  pub Steady-if :
      (b : Bool) {p q : Parser slices A} → Steady p → Steady q → Steady (if b then p else q)
  Steady-if true h k = h
  Steady-if false h k = k

module _ {A B : Type 0} {f : A → Parser slices B} where
  bind-Grows :
      (w more : List ℕ) (r r' : Outcome (A × Slice))
      → ((a : A) → Steady (f a))
      → Grows w more r r'
      → Grows w more
          (bind_outcome r (λ t. (f t.0).run t.1))
          (bind_outcome r' (λ t. (f t.0).run t.1))
  bind-Grows w more (ok (a, t)) r' h g = rw g ((h a).steady w more t)
  bind-Grows w more (err e) r' h (inl g) = inl g
  bind-Grows w more (err e) r' h (inr g) = inr (rw g refl)
  bind-Grows w more panicked r' h g = rw g refl
  bind-Grows w more exhausted r' h g = rw g refl

  pub Steady-then : {p : Parser slices A} → Steady p → ((a : A) → Steady (f a)) → Steady (p >>= f)
  unfolding ◌>>=◌
  Steady-then {p} h k = record {
    steady =
        λ w more s. bind-Grows w more (p.run s) (p.run (longer w more s)) k (h.steady w more s);
  }
