-- ===== src/Main/Hands.antt =====
-- The start of the sessions and the lookup of a session in src/main.rs.
use mathlib.Core.Path.{subst}
use mathlib.Core.List.{Mem, mem-cons_self, mem-cons_of_mem}
use amnesia_bgp.Base.{
  ℕ, suc, ◌+◌, Bool, true, false, some, List, [], ◌∷◌, ◌++◌, length, Bool-cases, ◌≡◌, refl, sym,
  ◌∙◌, inl, inr, arith, if◌then◌else◌,
}
use amnesia_bgp.Net.{IpAddr, SocketAddr}
use amnesia_bgp.Config.{Neighbor}
use amnesia_bgp.Extern.{Extern, All}
use amnesia_bgp.Connection.{peer_sock}
use amnesia_bgp.Fsm.Types.{Event, Sender, new_state}
use amnesia_bgp.Main.{
  same_ip, Key, Sessions, same_key, insert, get, Started, start_sessions, Offer, send_both,
  dispatch,
}

same_ip-≡ : (a b : IpAddr) → same_ip a b ≡ true → a ≡ b
same_ip-≡ a b h = ground arith

same_ip_refl : (a : IpAddr) → same_ip a a ≡ true
same_ip_refl a = ground arith

same_key-≡ : (k k' : Key) → same_key k k' ≡ true → k ≡ k'
same_key-≡ (a, n) (b, m) h = ground (arith, same_ip-≡ a b)

same_key_refl : (k : Key) → same_key k k ≡ true
same_key_refl (a, n) = ground (arith, same_ip_refl a)

asked_twice :
    {A : Type 0} (b : Bool) (x y z : A)
    → (if b then x else y) ≡ (if b then x else (if b then z else y))
asked_twice true x y z = refl
asked_twice false x y z = refl

clash : {b : Bool} → b ≡ false → b ≡ true → ⊥
clash h p = ground arith

swapped :
    {A : Type 0} (b b' : Bool) (x y z : A)
    → (b ≡ true → b' ≡ true → ⊥)
    → (if b then x else (if b' then y else z)) ≡ (if b' then y else (if b then x else z))
swapped true true x y z h = absurd (h refl refl)
swapped true false x y z h = refl
swapped false b' x y z h = refl

-- An insertion is seen under its key only.
pub get-insert :
    (k k' : Key) (c : Sender) (m : Sessions)
    → get k (insert k' c m) ≡ (if same_key k k' then some c else get k m)
unfolding get insert
get-insert k k' c [] = refl
get-insert k k' c ((k'', c'') ∷ m) = elim (Bool-cases (same_key k' k'')) [
  | inl h ↦ rw (h, same_key-≡ k' k'' h) (asked_twice (same_key k k'') (some c) (get k m) (some c''))
  | inr h ↦
      rw (h, get-insert k k' c m)
        (swapped (same_key k k'') (same_key k k') (some c'') (some c) (get k m)
          (λ p q. clash h (rw (same_key-≡ k k' q) at p)))
]

-- The neighbours have other addresses.
abbrev pub Apart : IpAddr → List (IpAddr × Neighbor) → Type 0
Apart a ns = All (λ p. same_ip a p.0 ≡ false) ns

other_key : (a b : IpAddr) (n m : ℕ) → same_ip a b ≡ false → same_key (a, n) (b, m) ≡ false
other_key a b n m h = rw h refl

module _ (X : Extern) where
  get-later :
      (ns : List (IpAddr × Neighbor)) (next : Sender) (sessions : Sessions) (a : IpAddr) (n : ℕ)
      → Apart a ns
      → get (a, n) (start_sessions {X = X} ns next sessions).0 ≡ get (a, n) sessions
  unfolding start_sessions
  get-later [] next sessions a n h = refl
  get-later ((b, neigh) ∷ ns) next sessions a n h =
      get-later ns (suc next) (insert (b, neigh.config.peer_as) next sessions) a n h.1
      ∙ get-insert (a, n) (b, neigh.config.peer_as) next sessions
      ∙ rw (other_key a b n neigh.config.peer_as h.0) refl

  get-started :
      (xs ys : List (IpAddr × Neighbor)) (a : IpAddr) (neigh : Neighbor) (next c : Sender)
      (sessions : Sessions)
      → Apart a ys
      → c ≡ next + length xs
      → get
          (a, neigh.config.peer_as)
          (start_sessions {X = X} (xs ++ ((a, neigh) ∷ ys)) next sessions).0
        ≡ some c
  unfolding start_sessions
  get-started [] ys a neigh next c sessions h e =
      get-later ys (suc next) (insert (a, neigh.config.peer_as) next sessions) a
        neigh.config.peer_as h
      ∙ get-insert (a, neigh.config.peer_as) (a, neigh.config.peer_as) next sessions
      ∙ rw (same_key_refl (a, neigh.config.peer_as), here) refl
    where
      here : c ≡ next
      here = omega arith
  get-started ((b, m) ∷ xs) ys a neigh next c sessions h e =
      get-started xs ys a neigh (suc next) c (insert (b, m.config.peer_as) next sessions) h
        (omega arith)

  -- The call of `session::run` for a neighbour.
  abbrev pub started_for : IpAddr → Neighbor → Sender → Started X
  started_for a neigh c = record {
    session = new_state (record { ip = a; port = neigh.config.neighbor_port });
    admin_rx = c;
    conf = neigh;
  }

  started_Mem :
      (xs ys : List (IpAddr × Neighbor)) (a : IpAddr) (neigh : Neighbor) (next c : Sender)
      (sessions : Sessions)
      → c ≡ next + length xs
      → Mem
          (started_for a neigh c)
          (start_sessions {X = X} (xs ++ ((a, neigh) ∷ ys)) next sessions).1
  unfolding start_sessions
  started_Mem [] ys a neigh next c sessions e = rw here mem-cons_self
    where
      here : c ≡ next
      here = omega arith
  started_Mem ((b, m) ∷ xs) ys a neigh next c sessions e = mem-cons_of_mem _ (
      started_Mem xs ys a neigh (suc next) c (insert (b, m.config.peer_as) next sessions)
        (omega arith))

-- Sessions are started for some neighbours, and behind a neighbour for none with its address. A
-- connection from that address, with an OPEN that has the neighbour's number of an autonomous system,
-- is handed to the session that was started for it, provided that its channel has a receiver at both
-- sends: the connection first, then the OPEN as one of the remote side. The task then goes on.
pub dispatch-Hands :
    {X : Extern} (xs ys : List (IpAddr × Neighbor)) (sock : SocketAddr) (neigh : Neighbor)
    (offer : Offer X)
    → Apart sock.ip ys
    → peer_sock offer.conn ≡ some sock
    → offer.msg.as_number ≡ neigh.config.peer_as
    → offer.first (length xs) ≡ true
    → offer.second (length xs) ≡ true
    → Mem
        (started_for X sock.ip neigh (length xs))
        (start_sessions {X = X} (xs ++ ((sock.ip, neigh) ∷ ys)) 0 []).1
      × (dispatch (start_sessions {X = X} (xs ++ ((sock.ip, neigh) ∷ ys)) 0 []).0 offer ≡ (
        (length xs, Event.tcp_connection_confirmed offer.conn)
            ∷ (length xs, Event.bgp_open offer.msg true)
            ∷ [],
        true,
      ))
unfolding dispatch send_both
dispatch-Hands {X} xs ys sock neigh offer h p n f s = (
  started_Mem X xs ys sock.ip neigh 0 (length xs) [] (omega arith),
  rw (p, dispatch, found, f, s) refl,
)
  where
    sessions : Sessions
    sessions = (start_sessions {X = X} (xs ++ ((sock.ip, neigh) ∷ ys)) 0 []).0

    found : get (sock.ip, offer.msg.as_number) sessions ≡ some (length xs)
    found =
        subst (λ k. get (sock.ip, k) sessions ≡ some (length xs)) (sym n)
          (get-started X xs ys sock.ip neigh 0 (length xs) [] h (omega arith))
