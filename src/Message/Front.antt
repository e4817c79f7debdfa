-- ===== src/Message/Front.antt =====
-- `Message::decode` of src/message.rs, and what stands behind a message in the read buffer.
use amnesia_bgp.Base.{
  ℕ, ◌+◌, ◌≤◌, Bool, false, Option, none, some, List, ◌++◌, length, length-append, ltb, ◌==◌,
  Bool-cases, Option-cases, ◌≡◌, refl, ◌⊎◌, inl, inr, arith,
}
use amnesia_bgp.Error.{from_buffer_too_short, bad_message_type, new_header}
use amnesia_bgp.Extern.{
  slices, Slice, slice_of, split, drop?, slice_bytes, Outcome, ok, err, panicked, exhausted, longer,
  Grows, Steady, Steady-u8, Steady-u16, Steady-bytes, Steady-pure, Steady-fail, Steady-if,
  Steady-then, split-SplitGrows, split-SplitAt, After, Reads, Reads-u8, Reads-u16, Reads-bytes,
  Reads-pure, Reads-fail, Reads-if, Reads-then, Reads-add,
}
use amnesia_bgp.Message.Types.{
  OpenMsg, Message, MessageHeader, open_type, update_type, notification_type, keepalive_type,
}
use amnesia_bgp.Message.Header.{min_msg_len, msg_type_of, decode_header}
use amnesia_bgp.Message.Frame.{decode_body, finish, after_header, decode_message}
use amnesia_bgp.Message.Reading.{has_prefixes, decode_body-Reads}

msg_type_of-Steady : (t : ℕ) → Steady (msg_type_of t)
unfolding msg_type_of
msg_type_of-Steady t = Steady-if (t == 1) (Steady-pure open_type) (
    Steady-if (t == 2) (Steady-pure update_type) (
      Steady-if (t == 3) (Steady-pure notification_type) (
        Steady-if (t == 4) (Steady-pure keepalive_type)
          (Steady-fail (new_header bad_message_type none)))))

decode_header-Steady : Steady decode_header
unfolding decode_header
decode_header-Steady = Steady-then (Steady-bytes 16) λ m.
    Steady-then (Steady-if _ (Steady-pure tt) (Steady-fail _)) λ _. Steady-then Steady-u16 λ len.
      Steady-then Steady-u8 λ t.
        Steady-then (msg_type_of-Steady t)
          λ k. Steady-then (Steady-if _ (Steady-pure tt) (Steady-fail _)) λ _. Steady-pure _

msg_type_of-Reads : (t : ℕ) → Reads false 0 (msg_type_of t)
unfolding msg_type_of
msg_type_of-Reads t = Reads-if (t == 1) (Reads-pure open_type) (
    Reads-if (t == 2) (Reads-pure update_type) (
      Reads-if (t == 3) (Reads-pure notification_type) (
        Reads-if (t == 4) (Reads-pure keepalive_type)
          (Reads-fail 0 (new_header bad_message_type none)))))

-- A header takes 19 bytes.
decode_header-Reads : Reads false 19 decode_header
unfolding decode_header
decode_header-Reads = Reads-add {k = 16} {n = 3} (Reads-bytes 16) λ m.
    Reads-add {k = 0} {n = 3} (Reads-if _ (Reads-pure tt) (Reads-fail 0 _)) λ _.
      Reads-add {k = 2} {n = 1} Reads-u16 λ len. Reads-add {k = 1} {n = 0} Reads-u8 λ t.
        Reads-then (msg_type_of-Reads t) (omega arith) λ k.
          Reads-then (Reads-if _ (Reads-pure tt) (Reads-fail 0 _)) (omega arith) λ _. Reads-pure _

-- What a longer buffer gives, where the shorter one gives this and is left so.
abbrev pub Extends : List ℕ → Outcome Message × List ℕ → Outcome Message × List ℕ → Type 0
Extends more (o, left) (o', left') =
    (o ≡ err from_buffer_too_short) ⊎ ((o' ≡ o) × (left' ≡ left ++ more))

drop?-append :
    (n : ℕ) (bs more : List ℕ)
    → n ≤ length bs
    → (ys : List ℕ) × (drop? n bs ≡ some ys) × (drop? n (bs ++ more) ≡ some (ys ++ more))
drop?-append n bs more l = elim (Option-cases (split n bs)) [
  | inl e ↦ absurd (omega (arith, rw e at (split-SplitAt n bs)))
  | inr ((xs, ys), e) ↦
      (ys, rw (e, drop?) refl, rw (rw e at (split-SplitGrows n bs more), drop?) refl)
]

finish-Extends :
    (b : Bool) (bs more xs : List ℕ) (r : Outcome (Message × Slice))
    → After b 0 (slice_of xs) r
    → length xs + 19 ≤ length bs
    → Extends more (finish slices bs r) (finish slices (bs ++ more) r)
finish-Extends b bs more xs (ok (m, o)) h l =
    let d = drop?-append (o.pos + min_msg_len) bs more (omega arith) in ground (arith, d.1, d.2)
finish-Extends b bs more xs (err e) h l = inr (refl, refl)
finish-Extends b bs more xs panicked h l = inr (refl, refl)
finish-Extends b bs more xs exhausted h l = inr (refl, refl)

slice_bytes-cases :
    (n : ℕ) (t : Slice) (w more : List ℕ)
    → (slice_bytes n t ≡ none)
      ⊎ ((xs : List ℕ) × (c c' : Slice) × (slice_bytes n t ≡ some (slice_of xs, c))
          × (slice_bytes n (longer w more t) ≡ some (slice_of xs, c'))
          × (length xs ≡ n)
          × (n ≤ length t.rest))
slice_bytes-cases n t w more = elim (Option-cases (split n t.rest)) [
  | inl e ↦ inl (rw (e, slice_bytes) refl)
  | inr ((xs, ys), e) ↦ inr (
    xs,
    record t { pos = t.pos + n; rest = ys },
    record (longer w more t) { pos = t.pos + n; rest = ys ++ more },
    rw (e, slice_bytes) refl,
    rw (rw e at (split-SplitGrows n t.rest more), slice_bytes) refl,
    (rw e at (split-SplitAt n t.rest)).0,
    omega (arith, rw e at (split-SplitAt n t.rest)),
  )
]

module _ (checks : Bool) (peer : Option OpenMsg) (bs more : List ℕ) where
  after_header-Extends :
      (r r' : Outcome (MessageHeader × Slice))
      → Grows (bs ++ more) more r r'
      → After false 19 (slice_of bs) r
      → Extends more
          (after_header slices checks peer bs r)
          (after_header slices checks peer (bs ++ more) r')
  after_header-Extends (ok (h, t)) r' g a = rw g (elim (Bool-cases (ltb (length bs) h.len)) [
    | inl e ↦ rw e (inl refl)
    | inr e ↦
        rw (e, far e)
          (elim (slice_bytes-cases h.len t (bs ++ more) more) [
            | inl q ↦ rw (q, slice_bytes) (inl refl)
            | inr (xs, c, c', q, q', n, l) ↦
                rw (q, q')
                  (finish-Extends (has_prefixes h.msg_type) bs more xs
                    ((decode_body checks peer h.msg_type).run (slice_of xs))
                    ((decode_body-Reads checks peer h.msg_type).after (slice_of xs)) (omega arith))
          ])
  ])
    where
      far : ltb (length bs) h.len ≡ false → ltb (length (bs ++ more)) h.len ≡ false
      far e = ground (arith, length-append bs more)
  after_header-Extends (err e) r' (inl g) a = inl (rw g refl)
  after_header-Extends (err e) r' (inr g) a = rw g (inr (refl, refl))
  after_header-Extends panicked r' g a = rw g (inr (refl, refl))
  after_header-Extends exhausted r' g a = absurd a

  -- Over byte lists: a buffer that is not too short for its first message gives the same result with
  -- more bytes behind it, which are left in the buffer.
  pub decode_message-Extends :
      Extends more
        (decode_message slices checks peer bs)
        (decode_message slices checks peer (bs ++ more))
  unfolding decode_message
  decode_message-Extends = elim (Bool-cases (ltb (length bs) min_msg_len)) [
    | inl e ↦ rw e (inl refl)
    | inr e ↦
        rw (e, far e)
          (after_header-Extends (decode_header.run (slice_of bs))
            (decode_header.run (slice_of (bs ++ more)))
            (decode_header-Steady.steady (bs ++ more) more (slice_of bs))
            (decode_header-Reads.after (slice_of bs)))
  ]
    where
      far : ltb (length bs) min_msg_len ≡ false → ltb (length (bs ++ more)) min_msg_len ≡ false
      far e = ground (arith, length-append bs more)
