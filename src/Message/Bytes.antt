-- ===== src/Message/Bytes.antt =====
-- `Message::decode` of src/message.rs over any lawful crate and over byte lists.
use amnesia_bgp.Base.{
  ℕ, ◌+◌, ◌-◌, Bool, Option, none, some, List, length, ltb, Bool-cases, ◌≡◌, refl, ◌∙◌, inl, inr,
}
use amnesia_bgp.Error.{from_buffer_too_short}
use amnesia_bgp.Extern.{
  Extern, Lawful, slices, Slice, view, Outcome, ok, err, panicked, exhausted, map_outcome, map_both,
  map_option, id,
}
use amnesia_bgp.Message.Types.{OpenMsg, Message, MessageHeader}
use amnesia_bgp.Message.Header.{min_msg_len, decode_header}
use amnesia_bgp.Message.Frame.{decode_body, finish, after_header, decode_message}
use amnesia_bgp.Message.Refine.{decode_header-Sim, decode_body-Sim}

module _ (X : Extern) where
  -- A result, with the buffer by its bytes.
  abbrev pub on_bytes : {A : Type 0} → A × X.BytesMut → A × List ℕ
  on_bytes (a, buf) = (a, X.as_slice buf)

  module _ (L : Lawful X) (buf : X.BytesMut) where
    advance-bytes :
        (m : Message) (r : Option X.BytesMut) (s : Option (List ℕ))
        → map_option X.as_slice r ≡ s
        → on_bytes (elim r [ none ↦ (panicked, buf) | some b ↦ (ok m, b) ])
          ≡ elim s [ none ↦ (panicked, X.as_slice buf) | some b ↦ (ok m, b) ]
    advance-bytes m none s e = rw (← e) refl
    advance-bytes m (some b) s e = rw (← e) refl

    finish-bytes :
        (r : Outcome (Message × X.Octets))
        → on_bytes (finish X buf r) ≡ finish slices (X.as_slice buf) (map_outcome X id r)
    finish-bytes (ok (m, o)) = advance-bytes m _ _ (L.as_slice-advance buf (X.off o + min_msg_len))
    finish-bytes (err e) = refl
    finish-bytes panicked = refl
    finish-bytes exhausted = refl

    module _ (checks : Bool) (peer : Option OpenMsg) where
      body-bytes :
          (h : MessageHeader) (r : Option (X.Octets × X.Octets)) (s : Option (Slice × Slice))
          → map_both (view X) r ≡ s
          → on_bytes (elim r [
            | none ↦ (err from_buffer_too_short, buf)
            | some (body, rest) ↦
                finish X buf ((decode_body {X = X} checks peer h.msg_type).run body)
          ])
            ≡ elim s [
              | none ↦ (err from_buffer_too_short, X.as_slice buf)
              | some (body, rest) ↦
                  finish slices
                    (X.as_slice buf)
                    ((decode_body {X = slices} checks peer h.msg_type).run body)
            ]
      body-bytes h none s e = rw (← e) refl
      body-bytes h (some (b, c)) s e = rw (← e) (
          finish-bytes ((decode_body {X = X} checks peer h.msg_type).run b)
          ∙ rw ((decode_body-Sim L checks peer h.msg_type).same b) refl)

      after_header-bytes :
          (r : Outcome (MessageHeader × X.Octets))
          → on_bytes (after_header X checks peer buf r)
            ≡ after_header slices checks peer (X.as_slice buf) (map_outcome X id r)
      after_header-bytes (ok (h, o)) = elim (Bool-cases (ltb (length (X.as_slice buf)) h.len)) [
        | inl e ↦ rw e (rw (L.as_slice-reserve buf (h.len - length (X.as_slice buf))) refl)
        | inr e ↦ rw e (body-bytes h (X.get_bytes o h.len) _ (L.view-get_bytes o h.len))
      ]
      after_header-bytes (err e) = refl
      after_header-bytes panicked = refl
      after_header-bytes exhausted = refl

-- Over a lawful crate `decode_message` returns what it returns over byte lists, and leaves a buffer
-- that shows the bytes which it leaves there.
pub decode_message-bytes :
    (X : Extern) (checks : Bool) (peer : Option OpenMsg) (buf : X.BytesMut)
    → Lawful X
    → on_bytes X (decode_message X checks peer buf)
      ≡ decode_message slices checks peer (X.as_slice buf)
unfolding decode_message
decode_message-bytes X checks peer buf L =
    elim (Bool-cases (ltb (length (X.as_slice buf)) min_msg_len)) [
      | inl e ↦ rw e (rw (L.as_slice-reserve buf (min_msg_len - length (X.as_slice buf))) refl)
      | inr e ↦ rw e (
          after_header-bytes X L buf checks peer
            ((decode_header {X = X}).run (X.with_slice (X.as_slice buf)))
          ∙ rw ((decode_header-Sim L).same (X.with_slice (X.as_slice buf)))
              (rw (L.view-with_slice (X.as_slice buf)) refl))
    ]
