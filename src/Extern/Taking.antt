-- ===== src/Extern/Taking.antt =====
-- What a decoder makes of bytes that are laid out for it, over byte lists.
use mathlib.Core.List.{append-nil, append_assoc}
use amnesia_bgp.Base.{
  ℕ, ◌+◌, ◌/◌, ◌%◌, ◌^◌, Bool, true, false, some, List, [], ◌∷◌, ◌++◌, ◌≡◌, refl, arith, length,
  length-append, ◌==◌, if◌then◌else◌,
}
use amnesia_bgp.Error.{Error}
use amnesia_bgp.Extern.Slices.{slice_of, slices, split}
use amnesia_bgp.Extern.Cursor.{
  ok, Parser, pure, ◌>>=◌, require, unwrap_array, get_u8, get_u16, get_u32, get_bytes, skip, cap,
}

-- Numbers in network order.
abbrev pub u16_bytes : ℕ → List ℕ
u16_bytes n = (n / 2 ^ 8) ∷ (n % 2 ^ 8) ∷ []

abbrev pub u32_bytes : ℕ → List ℕ
u32_bytes n = (n / 2 ^ 24) ∷ (n / 2 ^ 16 % 2 ^ 8) ∷ (n / 2 ^ 8 % 2 ^ 8) ∷ (n % 2 ^ 8) ∷ []

-- From a buffer that goes on with `bs` and `rest`, the decoder returns `a`, reads `bs` and leaves
-- `rest`.
pub record Takes {A : Type 0} (p : Parser slices A) (bs rest : List ℕ) (a : A) : Type 0 where
  pub taken :
      (whole : List ℕ) (pos : ℕ)
      → p.run (record { whole = whole; pos = pos; rest = bs ++ rest })
        ≡ ok (a, record { whole = whole; pos = pos + length bs; rest = rest })

pub split-append : (xs ys : List ℕ) → split (length xs) (xs ++ ys) ≡ some (xs, ys)
split-append [] ys = refl
split-append (x ∷ xs) ys = rw (split-append xs ys) refl

module _ {rest : List ℕ} where
  pub Takes-u8 : (n : ℕ) → Takes get_u8 (n ∷ []) rest n
  unfolding get_u8
  Takes-u8 n = record { taken = λ w i. ground arith }

  pub Takes-u16 : (n : ℕ) → Takes get_u16 (u16_bytes n) rest n
  unfolding get_u16
  Takes-u16 n = record { taken = λ w i. ground arith }

  pub Takes-u32 : (n : ℕ) → Takes get_u32 (u32_bytes n) rest n
  unfolding get_u32
  Takes-u32 n = record { taken = λ w i. ground arith }

  pub Takes-bytes :
      (bs : List ℕ) {n : ℕ} → length bs ≡ n → Takes (get_bytes n) bs rest (slice_of bs)
  unfolding get_bytes
  Takes-bytes bs e = record { taken = λ w i. rw (← e) (ground (arith, split-append bs rest)) }

  pub Takes-skip : (bs : List ℕ) {n : ℕ} → length bs ≡ n → Takes (skip n) bs rest tt
  unfolding skip
  Takes-skip bs e = record { taken = λ w i. rw (← e) (ground (arith, split-append bs rest)) }

  pub Takes-cap : Takes cap [] rest (length rest)
  unfolding cap
  Takes-cap = record { taken = λ w i. ground arith }

  pub Takes-pure : {A : Type 0} (a : A) → Takes (pure a) [] rest a
  unfolding pure
  Takes-pure a = record { taken = λ w i. ground arith }

  pub Takes-require : {b : Bool} (e : Error) → b ≡ true → Takes (require b e) [] rest tt
  unfolding pure
  Takes-require e h = record { taken = λ w i. rw h (ground arith) }

  pub Takes-unwrap_array :
      (n : ℕ) (bs : List ℕ) → (length bs == n) ≡ true → Takes (unwrap_array n bs) [] rest bs
  unfolding pure
  Takes-unwrap_array n bs h = record { taken = λ w i. rw h (ground arith) }

  pub Takes-if :
      {A : Type 0} (b : Bool) {p q : Parser slices A} {bs : List ℕ} {a : A}
      → (b ≡ true → Takes p bs rest a)
      → (b ≡ false → Takes q bs rest a)
      → Takes (if b then p else q) bs rest a
  Takes-if true h k = h refl
  Takes-if false h k = k refl

module _ {A B : Type 0} where
  pub Takes-then :
      (p : Parser slices A) (f : A → Parser slices B) (bs : List ℕ) {cs rest : List ℕ} {a : A}
      {b : B}
      → Takes p bs (cs ++ rest) a
      → Takes (f a) cs rest b
      → Takes (p >>= f) (bs ++ cs) rest b
  unfolding ◌>>=◌
  Takes-then p f bs {cs} {rest} h k = record {
    taken = λ w i. rw (append_assoc bs cs rest) (
        rw (h.taken w i)
          (rw (k.taken w (i + length bs)) (rw (length-append bs cs) (ground arith))));
  }

  -- Where nothing is read any more.
  pub Takes-last :
      (p : Parser slices A) (f : A → Parser slices B) (bs : List ℕ) {rest : List ℕ} {a : A} {b : B}
      → Takes p bs rest a
      → Takes (f a) [] rest b
      → Takes (p >>= f) bs rest b
  Takes-last p f bs h k = rw (append-nil bs) at (Takes-then p f bs h k)
