-- ===== src/Message/Cutting.antt =====
-- How many bytes a message needs in the read buffer.
use amnesia_bgp.Base.{
  ℕ, ◌+◌, ◌*◌, ◌<◌, Bool, Option, none, some, List, length, ltb, Bool-cases, ◌≡◌, refl, ◌∙◌, inl,
  inr, arith,
}
use amnesia_bgp.Error.{from_buffer_too_short}
use amnesia_bgp.Extern.{
  Extern, Lawful, Slice, slice_of, view, Outcome, ok, err, panicked, exhausted, map_outcome, id,
  split-SplitAt, map_both, slice_bytes,
}
use amnesia_bgp.Message.Types.{OpenMsg, MsgType, MessageHeader}
use amnesia_bgp.Message.Frame.{decode_message, after_header}
use amnesia_bgp.Message.Framing.{Fits, frame, decode_header-Fits}

short-slice_bytes : (n : ℕ) (s : Slice) → length s.rest < n → slice_bytes n s ≡ none
short-slice_bytes n s l = ground (arith, split-SplitAt n s.rest)

map_both-none : {A B : Type 0} (f : A → B) (r : Option (A × A)) → map_both f r ≡ none → r ≡ none
map_both-none f none h = refl
map_both-none f (some (a, b)) h = cc

after_header_short :
    (X : Extern) (checks : Bool) (peer : Option OpenMsg) (buf : X.BytesMut)
    (r : Outcome (MessageHeader × X.Octets)) (h : MessageHeader) (s : Slice)
    → Lawful X
    → map_outcome X id r ≡ ok (h, s)
    → length s.rest < h.len
    → (after_header X checks peer buf r).0 ≡ err from_buffer_too_short
after_header_short X checks peer buf (ok (g, o)) h s L q l = cut
  where
    heads : g ≡ h
    heads = cc

    shows : view X o ≡ s
    shows = cc

    none_left : X.get_bytes o g.len ≡ none
    none_left =
        map_both-none (view X) (X.get_bytes o g.len)
          (L.view-get_bytes o g.len ∙ rw heads (rw shows (short-slice_bytes h.len s l)))

    cut : (after_header X checks peer buf (ok (g, o))).0 ≡ err from_buffer_too_short
    cut = elim (Bool-cases (ltb (length (X.as_slice buf)) g.len)) [
      | inl e ↦ rw e refl
      | inr e ↦ rw e (rw none_left refl)
    ]
after_header_short X checks peer buf (err e) h s L q l = cc
after_header_short X checks peer buf panicked h s L q l = cc
after_header_short X checks peer buf exhausted h s L q l = cc

-- The length of a header counts its own 19 bytes, but `decode_message` asks for as many behind it.
-- Over a lawful crate a buffer that begins with a good header and holds fewer bytes behind it than
-- its length, a complete message alone among them, is reported as too short.
pub decode_message_short :
    (X : Extern) (checks : Bool) (peer : Option OpenMsg) (buf : X.BytesMut) (hi lo t : ℕ)
    (rest : List ℕ) {k : MsgType}
    → Lawful X
    → X.as_slice buf ≡ frame hi lo t rest
    → Fits (hi * 256 + lo) t k
    → length rest < hi * 256 + lo
    → (decode_message X checks peer buf).0 ≡ err from_buffer_too_short
unfolding decode_message
decode_message_short X checks peer buf hi lo t rest {k} L h f l =
    elim (Bool-cases (ltb (length (X.as_slice buf)) 19)) [
      | inl e ↦ rw e refl
      | inr e ↦ rw e (
          after_header_short X checks peer buf _ _ _ L
            (decode_header-Fits X _ hi lo t rest L shown f) l)
    ]
  where
    shown : view X (X.with_slice (X.as_slice buf)) ≡ slice_of (frame hi lo t rest)
    shown = L.view-with_slice (X.as_slice buf) ∙ rw h refl
