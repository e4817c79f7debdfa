-- ===== src/Message/Layout/OpenShort.antt =====
-- `OpenMsg::decode` of src/message.rs on fewer bytes than its padding and its numbers take.
use amnesia_bgp.Extern.{Extern, Outcome, err}

-- An error, and no panic.
abbrev pub IsError : {A : Type 0} → Outcome A → Type 0
IsError (err e) = Unit {0}
IsError _ = ⊥
