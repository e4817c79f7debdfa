-- ===== src/Session/Post.antt =====
-- Postconditions of a transition: what holds of the value and the world that it ends with.
use amnesia_bgp.Extern.{Extern}
use amnesia_bgp.Fsm.Runtime.{Exec, done, panicked, World}

-- Nothing is asked of a panic.
abbrev pub Post : {X : Extern} {A : Type 0} → (A → World X → Type 0) → Exec X A → Type 0
Post P (done a w) = P a w
Post P (panicked w) = Unit {0}

-- The transition ends, and `P` holds then.
abbrev pub Ends : {X : Extern} {A : Type 0} → (A → World X → Type 0) → Exec X A → Type 0
Ends P (done a w) = P a w
Ends P (panicked w) = ⊥

pub Ends-map :
    {X : Extern} {A : Type 0} {P Q : A → World X → Type 0}
    → ((a : A) (w : World X) → P a w → Q a w)
    → (r : Exec X A) → Ends P r
    → Ends Q r
Ends-map f (done a w) h = f a w h
Ends-map f (panicked w) h = absurd h
