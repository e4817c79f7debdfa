-- ===== src/Extern/Simulate.antt =====
-- A decoder over a lawful crate does what it does over byte lists.
use amnesia_bgp.Base.{
  ℕ, zero, suc, Bool, true, false, Option, none, some, [], ◌∷◌, ◌≡◌, refl, ◌==◌, if◌then◌else◌,
}
use amnesia_bgp.Error.{Error}
use amnesia_bgp.Extern.Defs.{Extern}
use amnesia_bgp.Extern.Slices.{Slice, slices}
use amnesia_bgp.Extern.Laws.{Lawful, view, map_pair, map_both, map_option}
use amnesia_bgp.Extern.Cursor.{
  Outcome, ok, err, panicked, exhausted, bind_outcome, Parser, pure, fail, panic, ◌>>=◌, get_u8,
  get_u16, get_u32, get_bytes, get_bytes_with_u16_length, skip, cap, many, while_cap, on_buffer,
  exhaust, or_short,
}

abbrev pub map_outcome :
    (X : Extern) {A B : Type 0} → (A → B) → Outcome (A × X.Octets) → Outcome (B × Slice)
map_outcome X f (ok (a, o)) = ok (f a, view X o)
map_outcome X f (err e) = err e
map_outcome X f panicked = panicked
map_outcome X f exhausted = exhausted

-- What `p` does to a buffer, `q` does to its view, up to `f` on the values.
pub record Sim {X : Extern} {A B : Type 0} (f : A → B) (p : Parser X A) (q : Parser slices B)
    : Type 0 where
  pub same : (o : X.Octets) → map_outcome X f (p.run o) ≡ q.run (view X o)

abbrev pub id : {A : Type 0} → A → A
id a = a

module _ {X : Extern} {A B : Type 0} {f : A → B} where
  pub Sim-pure : (a : A) → Sim f (pure {X = X} a) (pure (f a))
  unfolding pure
  Sim-pure a = record { same = λ o. refl }

  pub Sim-fail : (e : Error) → Sim f (fail {X = X} e) (fail e)
  unfolding fail
  Sim-fail e = record { same = λ o. refl }

  pub Sim-panic : Sim f (panic {X = X}) panic
  unfolding panic
  Sim-panic = record { same = λ o. refl }

  pub Sim-exhaust : Sim f (exhaust {X = X}) exhaust
  unfolding exhaust
  Sim-exhaust = record { same = λ o. refl }

  pub Sim-if :
      (b : Bool) {p p' : Parser X A} {q q' : Parser slices B}
      → Sim f p q
      → Sim f p' q'
      → Sim f (if b then p else p') (if b then q else q')
  Sim-if true h h' = h
  Sim-if false h h' = h'

module _ {X : Extern} {A A' B B' : Type 0} {f : A → A'} {g : B → B'} where
  bind-same :
      (k : A → Parser X B) (k' : A' → Parser slices B')
      → ((a : A) → Sim g (k a) (k' (f a)))
      → (r : Outcome (A × X.Octets)) (r' : Outcome (A' × Slice)) → map_outcome X f r ≡ r'
      → map_outcome X g (bind_outcome r (λ t. (k t.0).run t.1))
        ≡ bind_outcome r' (λ t. (k' t.0).run t.1)
  bind-same k k' hk (ok (a, o)) r' e = rw (← e) ((hk a).same o)
  bind-same k k' hk (err x) r' e = rw (← e)
  bind-same k k' hk panicked r' e = rw (← e)
  bind-same k k' hk exhausted r' e = rw (← e)

  pub Sim-bind :
      {p : Parser X A} {q : Parser slices A'} {k : A → Parser X B} (k' : A' → Parser slices B')
      → Sim f p q
      → ((a : A) → Sim g (k a) (k' (f a)))
      → Sim g (p >>= k) (q >>= k')
  unfolding ◌>>=◌
  Sim-bind {p} {q} {k} k' h hk = record {
    same = λ o. bind-same k k' hk (p.run o) (q.run (view X o)) (h.same o);
  }

or_short-pair :
    (X : Extern) {A : Type 0} (r : Option (A × X.Octets)) (r' : Option (A × Slice))
    → map_pair (view X) r ≡ r'
    → map_outcome X id (or_short r) ≡ or_short r'
or_short-pair X none r' e = rw (← e)
or_short-pair X (some (a, o)) r' e = rw (← e)

or_short-both :
    (X : Extern) (r : Option (X.Octets × X.Octets)) (r' : Option (Slice × Slice))
    → map_both (view X) r ≡ r'
    → map_outcome X (view X) (or_short r) ≡ or_short r'
or_short-both X none r' e = rw (← e)
or_short-both X (some (a, o)) r' e = rw (← e)

or_short-skip :
    (X : Extern) (r : Option X.Octets) (r' : Option Slice)
    → map_option (view X) r ≡ r'
    → map_outcome X id (bind_outcome (or_short r) (λ o. ok (tt, o)))
      ≡ bind_outcome (or_short r') (λ o. ok (tt, o))
or_short-skip X none r' e = rw (← e)
or_short-skip X (some o) r' e = rw (← e)

module _ {X : Extern} (L : Lawful X) where
  pub Sim-u8 : Sim id (get_u8 {X = X}) get_u8
  unfolding get_u8
  Sim-u8 = record { same = λ o. or_short-pair X (X.get_u8 o) _ (L.view-get_u8 o) }

  pub Sim-u16 : Sim id (get_u16 {X = X}) get_u16
  unfolding get_u16
  Sim-u16 = record { same = λ o. or_short-pair X (X.get_u16 o) _ (L.view-get_u16 o) }

  pub Sim-u32 : Sim id (get_u32 {X = X}) get_u32
  unfolding get_u32
  Sim-u32 = record { same = λ o. or_short-pair X (X.get_u32 o) _ (L.view-get_u32 o) }

  pub Sim-skip : (n : ℕ) → Sim id (skip {X = X} n) (skip n)
  unfolding skip
  Sim-skip n = record { same = λ o. or_short-skip X (X.skip o n) _ (L.view-skip o n) }

  pub Sim-bytes : (n : ℕ) → Sim (view X) (get_bytes {X = X} n) (get_bytes n)
  unfolding get_bytes
  Sim-bytes n = record { same = λ o. or_short-both X (X.get_bytes o n) _ (L.view-get_bytes o n) }

  pub Sim-bytes_u16 : Sim (view X) (get_bytes_with_u16_length {X = X}) get_bytes_with_u16_length
  unfolding get_bytes_with_u16_length
  Sim-bytes_u16 = record {
    same =
        λ o. or_short-both X (X.get_bytes_with_u16_length o) _ (L.view-get_bytes_with_u16_length o);
  }

  pub Sim-cap : Sim id (cap {X = X}) cap
  unfolding cap
  Sim-cap = record { same = λ o. rw L.cap-view }

  buffer-same :
      {A B : Type 0} (f : A → B) (o : X.Octets) (r : Outcome (A × X.Octets))
      (r' : Outcome (B × Slice))
      → map_outcome X f r ≡ r'
      → map_outcome X f (bind_outcome r (λ t. ok (t.0, o)))
        ≡ bind_outcome r' (λ t. ok (t.0, view X o))
  buffer-same f o (ok (a, o')) r' e = rw (← e)
  buffer-same f o (err x) r' e = rw (← e)
  buffer-same f o panicked r' e = rw (← e)
  buffer-same f o exhausted r' e = rw (← e)

  pub Sim-on_buffer :
      {A B : Type 0} {f : A → B} {p : Parser X A} {q : Parser slices B} (sub : X.Octets)
      → Sim f p q
      → Sim f (on_buffer sub p) (on_buffer (view X sub) q)
  unfolding on_buffer
  Sim-on_buffer {f} {p} {q} sub h = record {
    same = λ o. buffer-same f o (p.run sub) (q.run (view X sub)) (h.same sub);
  }

  pub Sim-many :
      {A : Type 0} {p : Parser X A} {q : Parser slices A} (fuel : ℕ)
      → Sim id p q
      → Sim id (many fuel p) (many fuel q)
  unfolding many
  Sim-many zero h = Sim-bind _ Sim-cap (λ n. Sim-if (n == 0) (Sim-pure []) Sim-exhaust)
  Sim-many (suc fuel) h = Sim-bind _ Sim-cap λ n.
      Sim-if (n == 0) (Sim-pure [])
        (Sim-bind _ h λ x. Sim-bind _ (Sim-many fuel h) λ xs. Sim-pure (x ∷ xs))

  pub Sim-while_cap :
      {A : Type 0} {p : Parser X A} {q : Parser slices A}
      → Sim id p q
      → Sim id (while_cap p) (while_cap q)
  unfolding while_cap
  Sim-while_cap h = Sim-bind _ Sim-cap λ n. Sim-many n h
