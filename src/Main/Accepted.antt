-- ===== src/Main/Accepted.antt =====
-- A session of src/session.rs that gets what the task of src/main.rs sends it.
use amnesia_bgp.Base.{
  Bool, true, false, none, some, List, [], ◌∷◌, map, ◌≡◌, refl, inl, inr, Option-cases, arith,
}
use amnesia_bgp.Config.{Neighbor}
use amnesia_bgp.Extern.{Extern}
use amnesia_bgp.Message.Types.{OpenMsg}
use amnesia_bgp.Connection.{BgpConn, peer_sock}
use amnesia_bgp.Fsm.Types.{State, Event, Sender, connect, active, open_sent, far_future, get_attr}
use amnesia_bgp.Fsm.Runtime.{Env, World, Exec, done, panicked}
use amnesia_bgp.Session.Common.{Source}
use amnesia_bgp.Session.Post.{Ends}
use amnesia_bgp.Session.ConnectState
use amnesia_bgp.Session.ActiveState
use amnesia_bgp.Session.OpenSentState
use amnesia_bgp.Session.Run.{Delivery, receive, step, round, run}
use amnesia_bgp.Session.Reach.{IsUnopened}
use amnesia_bgp.Session.Stranded.{Panics}
use amnesia_bgp.Main.{Sessions, Offer, Sent, get, send_both, dispatch}

-- A session that waits for a connection.
abbrev pub IsListening : {X : Extern} → State X → World X → Type 0
IsListening (connect s) w = IsUnopened (connect s) w
IsListening (active s) w = IsUnopened (active s) w
IsListening _ w = ⊥

-- What a session gets of what it is sent.
abbrev pub admin_deliveries :
    {X : Extern} → (Sender → Bool) → List (Sender × Event X) → List (Delivery X)
admin_deliveries alive es =
    map (λ p. record { source = Source.admin; event = some p.1; alive = alive }) es

-- A state of OpenSent with no OPEN of its own.
abbrev IsMute : {X : Extern} → State X → World X → Type 0
IsMute (open_sent s) v = (s.state.local_open ≡ none) × (s.attr.cur_delay_open_time ≡ far_future)
IsMute _ v = ⊥

module _ {X : Extern} (env : Env) (w : World X) where
  confirmed-IsMute :
      (t : State X) (conn : BgpConn X)
      → IsListening t w
      → env.alive w.next_channel ≡ true
      → Ends IsMute (step t (Event.tcp_connection_confirmed conn) Source.admin env w)
  unfolding step ConnectState.on_event ActiveState.on_event
  confirmed-IsMute t conn h a = ground arith

  opened-Panics :
      (t : State X) (m : OpenMsg)
      → IsMute t w
      → Panics (step t (receive t Source.admin (Event.bgp_open m true)) Source.admin env w)
  unfolding step receive OpenSentState.on_event get_attr
  opened-Panics t m h = ground arith

-- Whoever gets something without a panic gets the connection and its OPEN.
abbrev IsHanding : {X : Extern} → Offer X → Sent X → Type 0
IsHanding offer p =
    p.1 ≡ true
    → (c : Sender) × (p.0
        ≡ (c, Event.tcp_connection_confirmed offer.conn) ∷ (c, Event.bgp_open offer.msg true) ∷ [])

module _ {X : Extern} (offer : Offer X) where
  send_both-IsHanding :
      (first second : Bool) (c : Sender)
      → IsHanding offer (send_both first second c offer.conn offer.msg)
  unfolding send_both
  send_both-IsHanding true true c h = (c, refl)
  send_both-IsHanding true false c h = cc
  send_both-IsHanding false second c h = cc

  dispatch-IsHanding : (sessions : Sessions) → IsHanding offer (dispatch sessions offer)
  unfolding dispatch
  dispatch-IsHanding sessions = elim (Option-cases (peer_sock offer.conn)) [
    | inl e ↦ rw (e, dispatch) (λ h. cc)
    | inr (sock, e) ↦
        rw (e, dispatch)
          (elim (Option-cases (get (sock.ip, offer.msg.as_number) sessions)) [
            | inl e' ↦ rw e' (λ h. cc)
            | inr (c, e') ↦ rw e' (send_both-IsHanding (offer.first c) (offer.second c) c)
          ])
  ]

abbrev env_of : Neighbor → Bool → (Sender → Bool) → Env
env_of conf checks alive = record { conf = conf; overflow_checks = checks; alive = alive }

module _ {X : Extern} (conf : Neighbor) (checks : Bool) (alive : Sender → Bool) where
  still-Panics :
      (r : Exec X (State X)) (f : State X → World X → Exec X (State X))
      → Panics r
      → Panics (elim r [ done t v ↦ f t v | panicked v ↦ panicked v ])
  still-Panics (done t v) f h = absurd h
  still-Panics (panicked v) f h = tt

  open-Panics :
      (c : Sender) (m : OpenMsg) (r : Exec X (State X))
      → Ends IsMute r
      → Panics (elim r [
        | done t v ↦ run conf checks (admin_deliveries alive ((c, Event.bgp_open m true) ∷ [])) t v
        | panicked v ↦ panicked v
      ])
  unfolding run round
  open-Panics c m (done t v) h =
      still-Panics _ (λ t v. done t v) (opened-Panics (env_of conf checks alive) v t m h)
  open-Panics c m (panicked v) h = absurd h

  both-Panics :
      (t : State X) (w : World X) (c : Sender) (conn : BgpConn X) (m : OpenMsg)
      → IsListening t w
      → alive w.next_channel ≡ true
      → Panics (
          run conf checks
            (admin_deliveries alive
              ((c, Event.tcp_connection_confirmed conn) ∷ (c, Event.bgp_open m true) ∷ []))
            t
            w)
  unfolding run round receive
  both-Panics t w c conn m h a =
      open-Panics c m
        (step t (Event.tcp_connection_confirmed conn) Source.admin (env_of conf checks alive) w)
        (confirmed-IsMute (env_of conf checks alive) w t conn h a)

-- A session in Connect or Active, with no delay and the DelayOpenTimer stopped (and with no channel
-- in Active), panics when its next two deliveries are what the task that dispatches sends it without
-- a panic, the connection of its peer and then the OPEN, with nothing delivered in between, provided
-- that the channel that it creates for the connection has its receiver.
pub dispatch-Panics :
    {X : Extern} (conf : Neighbor) (checks : Bool) (alive : Sender → Bool) (sessions : Sessions)
    (offer : Offer X) (t : State X) (w : World X)
    → (dispatch sessions offer).1 ≡ true
    → IsListening t w
    → alive w.next_channel ≡ true
    → Panics (run conf checks (admin_deliveries alive (dispatch sessions offer).0) t w)
dispatch-Panics conf checks alive sessions offer t w h l a =
    rw (given.1) (both-Panics conf checks alive t w given.0 offer.conn offer.msg l a)
  where
    given :
        (c : Sender) × ((dispatch sessions offer).0
          ≡ (c, Event.tcp_connection_confirmed offer.conn)
            ∷ (c, Event.bgp_open offer.msg true)
            ∷ [])
    given = dispatch-IsHanding offer sessions h
