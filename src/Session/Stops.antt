-- ===== src/Session/Stops.antt =====
-- The administrator's events: a start in Connect, and ManualStop.
use amnesia_bgp.Base.{is_some, ◌+◌, ◌<◌, ◌^◌, Bool, true, false, not, ◌||◌, ◌≡◌, arith}
use amnesia_bgp.Extern.{Extern}
use amnesia_bgp.Fsm.Types.{
  State, Event, idle, connect, active, open_sent, open_confirm, established, Fsm, Connect, Sender,
  get_attr,
}
use amnesia_bgp.Fsm.Runtime.{Env, World}
use amnesia_bgp.Session.Common.{Source}
use amnesia_bgp.Session.Post.{Ends}
use amnesia_bgp.Session.ConnectState
use amnesia_bgp.Session.ActiveState
use amnesia_bgp.Session.OpenSentState
use amnesia_bgp.Session.OpenConfirmState
use amnesia_bgp.Session.EstablishedState
use amnesia_bgp.Session.Run.{step}
use amnesia_bgp.Session.Edges.{phase, is_idle}

-- Events 1 and 3 to 7.
abbrev pub is_start : {X : Extern} → Event X → Bool
is_start Event.manual_start = true
is_start Event.automatic_start = true
is_start Event.manual_start_with_passive_tcp_establishment = true
is_start Event.automatic_start_with_passive_tcp_establishment = true
is_start Event.automatic_start_with_damp_peer_oscillations = true
is_start Event.automatic_start_with_damp_peer_oscillations_and_passive_tcp_establishment = true
is_start _ = false

-- In Connect, with the retry counter below its limit, a start event is not ignored: it ends the
-- attempt, in Idle, and counts a retry.
pub connect_start_drops :
    {X : Extern} (s : Fsm Connect) (e : Event X) (src : Source) (env : Env) (w : World X)
    → is_start e ≡ true
    → s.attr.connect_retry_counter + 1 < 2 ^ 64
    → Ends
        (λ t v.
          (phase t ≡ is_idle)
          × ((get_attr t).connect_retry_counter ≡ s.attr.connect_retry_counter + 1))
        (step (connect s) e src env w)
unfolding step ConnectState.on_event get_attr
connect_start_drops s Event.manual_start src env w h b = ground arith
connect_start_drops s e src env w h b = ground arith

-- The channel that the arm for ManualStop reads is there.
abbrev pub can_stop : {X : Extern} → State X → Bool
can_stop (idle s) = false
can_stop (connect s) = true
can_stop (active s) = not s.attr.send_notification_without_open || is_some s.state.bgp_out_tx
can_stop (open_sent s) = is_some s.state.bgp_out_tx
can_stop (open_confirm s) = is_some s.state.bgp_out_tx
can_stop (established s) = is_some s.state.bgp_out_tx

-- In every state but Idle, with its channels live and the one that it needs there, ManualStop leads
-- to Idle with the retry counter at zero, and does not panic.
pub manual_stop-Ends :
    {X : Extern} (s : State X) (src : Source) (env : Env) (w : World X)
    → ((c : Sender) → env.alive c ≡ true)
    → can_stop s ≡ true
    → Ends
        (λ t v. (phase t ≡ is_idle) × ((get_attr t).connect_retry_counter ≡ 0))
        (step s Event.manual_stop src env w)
unfolding step get_attr ConnectState.on_event ActiveState.on_event OpenSentState.on_event
    OpenConfirmState.on_event EstablishedState.on_event
manual_stop-Ends (idle s) src env w alive h = cc
manual_stop-Ends (connect s) src env w alive h = grind (arith, alive)
manual_stop-Ends s src env w alive h = grind (arith, alive)
