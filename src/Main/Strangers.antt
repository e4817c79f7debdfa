-- ===== src/Main/Strangers.antt =====
-- The task of src/main.rs that dispatches, and connections that no neighbour opens.
use amnesia_bgp.Base.{suc, false, some, List, [], ◌∷◌, ◌++◌, Bool-cases, ◌≡◌, refl, ◌∙◌, inl, inr}
use amnesia_bgp.Net.{IpAddr, SocketAddr}
use amnesia_bgp.Config.{Neighbor}
use amnesia_bgp.Extern.{Extern, All}
use amnesia_bgp.Connection.{peer_sock}
use amnesia_bgp.Fsm.Types.{Sender}
use amnesia_bgp.Main.{
  Key, Sessions, same_key, insert, get, start_sessions, Offer, dispatch, dispatch_all,
}
use amnesia_bgp.Main.Hands.{get-insert}

-- No neighbour has the address and the number of an autonomous system.
abbrev pub IsStranger : Key → List (IpAddr × Neighbor) → Type 0
IsStranger k ns = All (λ p. same_key k (p.0, p.1.config.peer_as) ≡ false) ns

get_stranger :
    (X : Extern) (k : Key) (ns : List (IpAddr × Neighbor)) (next : Sender) (sessions : Sessions)
    → IsStranger k ns
    → get k (start_sessions {X = X} ns next sessions).0 ≡ get k sessions
unfolding start_sessions
get_stranger X k [] next sessions h = refl
get_stranger X k ((a, neigh) ∷ ns) next sessions h =
    get_stranger X k ns (suc next) (insert (a, neigh.config.peer_as) next sessions) h.1
    ∙ get-insert k (a, neigh.config.peer_as) next sessions
    ∙ rw h.0 refl

module _ {X : Extern} (sessions : Sessions) where
  -- Behind a connection that panics nothing is sent.
  pub dispatch_all-append :
      (before after : List (Offer X)) (offer : Offer X)
      → dispatch sessions offer ≡ ([], false)
      → dispatch_all sessions (before ++ (offer ∷ after))
        ≡ ((dispatch_all sessions before).0, false)
  unfolding dispatch_all
  dispatch_all-append [] after offer h = rw h refl
  dispatch_all-append (o ∷ before) after offer h = elim (Bool-cases (dispatch sessions o).1) [
    | inl e ↦ rw (e, dispatch_all-append before after offer h) refl
    | inr e ↦ rw e refl
  ]

-- A connection whose address and number of an autonomous system are no neighbour's panics the task
-- that dispatches: nothing is sent for it, nor for any connection that comes behind it, a neighbour's
-- or not.
pub dispatch_all-IsStranger :
    {X : Extern} (ns : List (IpAddr × Neighbor)) (before after : List (Offer X)) (offer : Offer X)
    (sock : SocketAddr)
    → peer_sock offer.conn ≡ some sock
    → IsStranger (sock.ip, offer.msg.as_number) ns
    → dispatch_all (start_sessions {X = X} ns 0 []).0 (before ++ (offer ∷ after))
      ≡ ((dispatch_all (start_sessions {X = X} ns 0 []).0 before).0, false)
unfolding dispatch get
dispatch_all-IsStranger {X} ns before after offer sock p h =
    dispatch_all-append (start_sessions {X = X} ns 0 []).0 before after offer
      (rw (p, dispatch, get_stranger X (sock.ip, offer.msg.as_number) ns 0 [] h) refl)
