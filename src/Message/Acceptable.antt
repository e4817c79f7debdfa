-- ===== src/Message/Acceptable.antt =====
-- What an OPEN that is decoded with no error satisfies.
use amnesia_bgp.Base.{
  ℕ, ◌-◌, ◌^◌, ◌≤◌, Bool, true, false, not, ◌&&◌, ◌||◌, ◌==◌, ltb, ◌≡◌, ◌≢◌, refl, arith, ◌⊎◌,
}
use amnesia_bgp.Error.{Error}
use amnesia_bgp.Extern.{
  Extern, Outcome, ok, err, panicked, exhausted, Parser, pure, fail, require, ◌>>=◌, ◌>>◌,
  bind_outcome,
}
use amnesia_bgp.Message.Types.{OpenMsg}
use amnesia_bgp.Message.Open.{decode_open}

-- `P` holds of the value of a result with no error.
abbrev pub OfValue : {A B : Type 0} → (A → Type 0) → Outcome (A × B) → Type 0
OfValue P (ok (a, b)) = P a
OfValue P (err e) = Unit {0}
OfValue P panicked = Unit {0}
OfValue P exhausted = Unit {0}

module _ {X : Extern} {A : Type 0} (P : A → Type 0) where
  record Yields (p : Parser X A) : Type 0 where
    of_value : (o : X.Octets) → OfValue P (p.run o)

  Yields-pure : (a : A) → P a → Yields (pure a)
  unfolding pure
  Yields-pure a h = record { of_value = λ o. h }

  bind-OfValue :
      {B : Type 0} (f : B → Parser X A) (r : Outcome (B × X.Octets))
      → ((b : B) → Yields (f b))
      → OfValue P (bind_outcome r (λ t. (f t.0).run t.1))
  bind-OfValue f (ok (b, o)) h = (h b).of_value o
  bind-OfValue f (err e) h = tt
  bind-OfValue f panicked h = tt
  bind-OfValue f exhausted h = tt

  Yields-then :
      {B : Type 0} (p : Parser X B) {f : B → Parser X A}
      → ((b : B) → Yields (f b))
      → Yields (p >>= f)
  unfolding ◌>>=◌
  Yields-then {B} p {f} h = record { of_value = λ o. bind-OfValue f (p.run o) h }

  Yields-require :
      (c : Bool) (e : Error) {k : Parser X A} → (c ≡ true → Yields k) → Yields (require c e >> k)
  unfolding ◌>>=◌ pure fail
  Yields-require true e h = record { of_value = λ o. (h refl).of_value o }
  Yields-require false e h = record { of_value = λ o. tt }

-- RFC 4271, 6.2: the version is 4, the hold time zero or three seconds at least, the identifier a
-- unicast address as far as the code asks.
abbrev pub IsAcceptable : OpenMsg → Type 0
IsAcceptable m =
    (m.version ≡ 4)
    × ((m.hold_time ≡ 0) ⊎ (3 ≤ m.hold_time))
    × (m.bgp_identifier ≢ 0)
    × (m.bgp_identifier ≢ 2 ^ 32 - 1)

hold-cases : (h : ℕ) → not (not (h == 0) && ltb h 3) ≡ true → (h ≡ 0) ⊎ (3 ≤ h)
hold-cases h q = ground arith

ident-cases : (i : ℕ) → not (i == 0 || i == 2 ^ 32 - 1) ≡ true → (i ≢ 0) × (i ≢ 2 ^ 32 - 1)
ident-cases i q = ground arith

version-cases : (v : ℕ) → (v == 4) ≡ true → v ≡ 4
version-cases v q = ground arith

-- Whatever the crate does, an OPEN that `decode_open` returns has version 4, a hold time of zero or
-- of three seconds at least, and an identifier other than 0.0.0.0 and 255.255.255.255.
pub decode_open-IsAcceptable :
    (X : Extern) (o : X.Octets) → OfValue IsAcceptable ((decode_open {X = X}).run o)
unfolding decode_open
decode_open-IsAcceptable X o = opened.of_value o
  where
    opened : Yields IsAcceptable (decode_open {X = X})
    opened = Yields-then IsAcceptable _ λ v. Yields-require IsAcceptable (v == 4) _ λ hv.
        Yields-then IsAcceptable _ λ _. Yields-then IsAcceptable _ λ a.
          Yields-then IsAcceptable _ λ _. Yields-then IsAcceptable _ λ h.
            Yields-require IsAcceptable _ _ λ hh. Yields-then IsAcceptable _ λ _.
              Yields-then IsAcceptable _ λ i. Yields-require IsAcceptable _ _ λ hi.
                Yields-then IsAcceptable _ λ n. Yields-then IsAcceptable _ λ t.
                  Yields-then IsAcceptable _ λ m. Yields-then IsAcceptable _ λ ps.
                    Yields-pure IsAcceptable _ (
                      version-cases v hv,
                      hold-cases h hh,
                      (ident-cases i hi).0,
                      (ident-cases i hi).1,
                    )
