-- ===== src/Extern/Cursor.antt =====
-- The monad of the decoders: a cursor over a buffer, an error that `?` passes on, and a panic.
use amnesia_bgp.Base.{
  ℕ, zero, suc, Bool, Option, none, some, List, [], ◌∷◌, length, ◌==◌, if◌then◌else◌,
}
use amnesia_bgp.Error.{Error, from_buffer_too_short}
use amnesia_bgp.Extern.Defs.{Extern}

-- How a call ends. `exhausted` stands for a loop that has not ended within its fuel.
pub data Outcome (A : Type 0) : Type 0 where
  ok : A → Outcome A
  err : Error → Outcome A
  panicked : Outcome A
  exhausted : Outcome A

pub record Parser (X : Extern) (A : Type 0) : Type 0 where
  pub run : X.Octets → Outcome (A × X.Octets)

abbrev pub bind_outcome : {A B : Type 0} → Outcome A → (A → Outcome B) → Outcome B
bind_outcome (ok a) f = f a
bind_outcome (err e) f = err e
bind_outcome panicked f = panicked
bind_outcome exhausted f = exhausted

module _ {X : Extern} {A : Type 0} where
  unfoldable pub pure : A → Parser X A
  pure a = record { run = λ o. ok (a, o) }

  unfoldable pub fail : Error → Parser X A
  fail e = record { run = λ o. err e }

  unfoldable pub panic : Parser X A
  panic = record { run = λ o. panicked }

  unfoldable pub exhaust : Parser X A
  exhaust = record { run = λ o. exhausted }

-- `BufferTooShortError` becomes an error of the program.
abbrev pub or_short : {A : Type 0} → Option A → Outcome A
or_short none = err from_buffer_too_short
or_short (some r) = ok r

infixl 5 ◌>>=◌ ◌>>◌
unfoldable pub ◌>>=◌ : {X : Extern} {A B : Type 0} → Parser X A → (A → Parser X B) → Parser X B
p >>= f = record { run = λ o. bind_outcome (p.run o) (λ r. (f r.0).run r.1) }

abbrev pub ◌>>◌ : {X : Extern} {B : Type 0} → Parser X (Unit {0}) → Parser X B → Parser X B
p >> q = p >>= λ _. q

module _ {X : Extern} where
  unfoldable pub get_u8 : Parser X ℕ
  get_u8 = record { run = λ o. or_short (X.get_u8 o) }

  unfoldable pub get_u16 : Parser X ℕ
  get_u16 = record { run = λ o. or_short (X.get_u16 o) }

  unfoldable pub get_u32 : Parser X ℕ
  get_u32 = record { run = λ o. or_short (X.get_u32 o) }

  unfoldable pub get_bytes : ℕ → Parser X X.Octets
  get_bytes n = record { run = λ o. or_short (X.get_bytes o n) }

  unfoldable pub get_bytes_with_u16_length : Parser X X.Octets
  get_bytes_with_u16_length = record { run = λ o. or_short (X.get_bytes_with_u16_length o) }

  unfoldable pub skip : ℕ → Parser X (Unit {0})
  skip n = record { run = λ o. bind_outcome (or_short (X.skip o n)) (λ o'. ok (tt, o')) }

  unfoldable pub cap : Parser X ℕ
  cap = record { run = λ o. ok (X.cap o, o) }

  -- `if !b { return Err(e); }`
  abbrev pub require : Bool → Error → Parser X (Unit {0})
  require b e = if b then pure tt else fail e

  -- `<[u8; n]>::try_from(bs).unwrap()`
  abbrev pub unwrap_array : ℕ → List ℕ → Parser X (List ℕ)
  unwrap_array n bs = if length bs == n then pure bs else panic

  -- The parser at another buffer, which is dropped.
  unfoldable pub on_buffer : {A : Type 0} → X.Octets → Parser X A → Parser X A
  on_buffer sub p = record { run = λ o. bind_outcome (p.run sub) (λ r. ok (r.0, o)) }

  -- `while buf.cap() > 0 { v.push(item(buf)?); }` with fuel.
  unfoldable pub many : {A : Type 0} → ℕ → Parser X A → Parser X (List A)
  many zero item = do n ← cap; if n == 0 then pure [] else exhaust
  many (suc f) item = do
    n ← cap
    if n == 0 then pure [] else (do x ← item; xs ← many f item; pure (x ∷ xs))

  -- The loop, with a round for each byte that the buffer holds when it begins.
  unfoldable pub while_cap : {A : Type 0} → Parser X A → Parser X (List A)
  while_cap item = do n ← cap; many n item

-- A name that opens the combinators in a proof that computes with a decoder.
unfoldable pub combinators : Unit {0}
unfolding pure fail panic exhaust ◌>>=◌ get_u8 get_u16 get_u32 get_bytes get_bytes_with_u16_length
    skip cap on_buffer many while_cap
combinators = tt
