-- ===== src/Message/Ending.antt =====
-- How the decoding of a message ends over any lawful crate: every loop ends, and only the prefixes
-- of an UPDATE may panic.
use amnesia_bgp.Base.{◌+◌, Bool, true, Option, length, ◌≡◌}
use amnesia_bgp.Extern.{
  Extern, Lawful, Outcome, ok, err, panicked, exhausted, After, map_outcome, id, view,
}
use amnesia_bgp.Message.Types.{OpenMsg, MsgType}
use amnesia_bgp.Message.Frame.{decode_body}
use amnesia_bgp.Message.Refine.{decode_body-Sim}
use amnesia_bgp.Message.Reading.{has_prefixes, decode_body-Reads}

module _ (X : Extern) where
  -- The bytes read and those left are as many as before; a panic is allowed by `may_panic` only.
  abbrev pub Kept : {A : Type 0} → Bool → X.Octets → Outcome (A × X.Octets) → Type 0
  Kept may_panic o (ok (a, t)) = X.off t + length (X.to_vec t) ≡ X.off o + length (X.to_vec o)
  Kept may_panic o (err e) = Unit {0}
  Kept may_panic o panicked = may_panic ≡ true
  Kept may_panic o exhausted = ⊥

  After-Kept :
      {A : Type 0} (b : Bool) (o : X.Octets) (r : Outcome (A × X.Octets))
      → After b 0 (view X o) (map_outcome X id r)
      → Kept b o r
  After-Kept b o (ok (a, t)) h = h.1
  After-Kept b o (err e) h = tt
  After-Kept b o panicked h = h
  After-Kept b o exhausted h = h

-- Over a lawful crate the body of a message is decoded with every byte accounted for: no loop runs
-- out of fuel, and only the body of an UPDATE may panic.
pub decode_body-Kept :
    (X : Extern) (checks : Bool) (peer : Option OpenMsg) (t : MsgType) (o : X.Octets)
    → Lawful X
    → Kept X (has_prefixes t) o ((decode_body {X = X} checks peer t).run o)
decode_body-Kept X checks peer t o L =
    After-Kept X (has_prefixes t) o ((decode_body {X = X} checks peer t).run o) (
      rw ((decode_body-Sim L checks peer t).same o)
        ((decode_body-Reads checks peer t).after (view X o)))
