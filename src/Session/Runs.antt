-- ===== src/Session/Runs.antt =====
-- An invariant of the transitions is one of the whole loop.
use amnesia_bgp.Base.{Bool, Option, none, some, List, [], ◌∷◌, ◌≡◌, refl}
use amnesia_bgp.Config.{Neighbor}
use amnesia_bgp.Extern.{Extern}
use amnesia_bgp.Fsm.Types.{State, Event}
use amnesia_bgp.Fsm.Runtime.{Env, Exec, done, panicked, World}
use amnesia_bgp.Session.Common.{Source}
use amnesia_bgp.Session.Post.{Post}
use amnesia_bgp.Session.Run.{Delivery, receive, step, round, run}

-- Every event that the schedule delivers is allowed.
abbrev pub Allows : {X : Extern} → (Event X → Type 0) → List (Delivery X) → Type 0
Allows A [] = Unit {0}
Allows A (d ∷ ds) = ((e : Event _) → d.event ≡ some e → A e) × Allows A ds

-- Where nothing is forbidden, every schedule is allowed.
pub Allows-all : {X : Extern} (ds : List (Delivery X)) → Allows (λ e. Unit {0}) ds
Allows-all [] = tt
Allows-all (d ∷ ds) = (λ e h. tt, Allows-all ds)

module _ {X : Extern} (conf : Neighbor) (checks : Bool) (I : State X → World X → Type 0)
    (A : Event X → Type 0)
    (keep : (s : State X) (e : Event X) (src : Source) (env : Env) (w : World X)
      → A e
      → I s w
      → Post I (step s (receive s src e) src env w)) where
  pub round-keeps :
      (d : Delivery X) (s : State X) (w : World X)
      → ((e : Event X) → d.event ≡ some e → A e)
      → I s w
      → Post I (round conf checks s d w)
  unfolding round
  round-keeps d s w a h = go d.event a
    where
      go :
          (o : Option (Event X))
          → ((e : Event X) → o ≡ some e → A e)
          → Post I (elim o [
            | none ↦ panicked w
            | some e ↦
                step s
                  (receive s d.source e)
                  d.source
                  (record { conf = conf; overflow_checks = checks; alive = d.alive })
                  w
          ])
      go none _ = tt
      go (some e) b = keep s e d.source _ w (b e refl) h

  pub run-keeps :
      (ds : List (Delivery X)) (s : State X) (w : World X)
      → Allows A ds
      → I s w
      → Post I (run conf checks ds s w)
  unfolding run
  run-keeps [] s w a h = h
  run-keeps (d ∷ ds) s w a h =
      next (round conf checks s d w) (round-keeps d s w a.0 h) (λ t v p. run-keeps ds t v a.1 p)
    where
      next :
          (r : Exec X (State X))
          → Post I r
          → ((t : State X) (v : World X) → I t v → Post I (run conf checks ds t v))
          → Post I (elim r [ done s' w' ↦ run conf checks ds s' w' | panicked w' ↦ panicked w' ])
      next (panicked w') p ih = tt
      next (done s' w') p ih = ih s' w' p
