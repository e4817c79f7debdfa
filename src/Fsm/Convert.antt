-- ===== src/Fsm/Convert.antt =====
-- The `From` conversions between the states of src/fsm.rs. What a conversion drops is gone: a
-- dropped handle leaves its task running, a dropped sender closes its channel.
use amnesia_bgp.Base.{true, false, none}
use amnesia_bgp.Extern.{Extern}
use amnesia_bgp.Fsm.Types.{Fsm, Idle, Connect, Active, OpenSent, OpenConfirm, Established}
use amnesia_bgp.Fsm.Runtime.{M, pure, ◌>>◌, abort_if_some}

-- The new state with the peer and the attributes of the old one.
abbrev pub with_state : {S T : Type 0} → Fsm S → T → Fsm T
with_state s t = record { state = t; peer = s.peer; attr = s.attr }

unfoldable pub idle_to_connect : Fsm Idle → Fsm Connect
idle_to_connect s =
    with_state s (record { tcp_conn_handle = none; bgp_conn_handle = none; bgp_out_tx = none })

unfoldable pub idle_to_active : Fsm Idle → Fsm Active
idle_to_active s =
    with_state s (record { tcp_conn_handle = none; bgp_conn_handle = none; bgp_out_tx = none })

unfoldable pub connect_to_idle : {X : Extern} → Fsm Connect → M X (Fsm Idle)
connect_to_idle s = do
  abort_if_some s.state.tcp_conn_handle
  abort_if_some s.state.bgp_conn_handle
  pure (with_state s tt)

unfoldable pub connect_to_active : {X : Extern} → Fsm Connect → M X (Fsm Active)
connect_to_active s = do
  abort_if_some s.state.tcp_conn_handle
  pure (
      with_state s (record {
        tcp_conn_handle = none;
        bgp_conn_handle = s.state.bgp_conn_handle;
        bgp_out_tx = s.state.bgp_out_tx;
      }))

unfoldable pub connect_to_open_sent : {X : Extern} → Fsm Connect → Fsm (OpenSent X)
connect_to_open_sent s = with_state s (record {
  bgp_conn_handle = none;
  bgp_out_tx = none;
  local_open = none;
  remote_syn = false;
  collision_conn = none;
})

unfoldable pub connect_to_open_confirm : {X : Extern} → Fsm Connect → Fsm (OpenConfirm X)
connect_to_open_confirm s = with_state s (record {
  bgp_conn_handle = s.state.bgp_conn_handle;
  bgp_out_tx = s.state.bgp_out_tx;
  peer_open = none;
  local_open = none;
  remote_syn = false;
  collision_conn = none;
})

unfoldable pub active_to_idle : {X : Extern} → Fsm Active → M X (Fsm Idle)
active_to_idle s = do abort_if_some s.state.bgp_conn_handle; pure (with_state s tt)

unfoldable pub active_to_connect : Fsm Active → Fsm Connect
active_to_connect s = with_state s (record {
  tcp_conn_handle = s.state.tcp_conn_handle;
  bgp_conn_handle = s.state.bgp_conn_handle;
  bgp_out_tx = s.state.bgp_out_tx;
})

unfoldable pub active_to_open_sent : {X : Extern} → Fsm Active → Fsm (OpenSent X)
active_to_open_sent s = with_state s (record {
  bgp_conn_handle = s.state.bgp_conn_handle;
  bgp_out_tx = s.state.bgp_out_tx;
  local_open = none;
  remote_syn = true;
  collision_conn = none;
})

unfoldable pub active_to_open_confirm : {X : Extern} → Fsm Active → Fsm (OpenConfirm X)
active_to_open_confirm s = with_state s (record {
  bgp_conn_handle = s.state.bgp_conn_handle;
  bgp_out_tx = s.state.bgp_out_tx;
  peer_open = none;
  local_open = none;
  remote_syn = true;
  collision_conn = none;
})

unfoldable pub open_sent_to_idle : {X : Extern} → Fsm (OpenSent X) → M X (Fsm Idle)
open_sent_to_idle s = do abort_if_some s.state.bgp_conn_handle; pure (with_state s tt)

unfoldable pub open_sent_to_active : {X : Extern} → Fsm (OpenSent X) → M X (Fsm Active)
open_sent_to_active s = do
  abort_if_some s.state.bgp_conn_handle
  pure (with_state s (record { tcp_conn_handle = none; bgp_conn_handle = none; bgp_out_tx = none }))

unfoldable pub open_sent_to_open_confirm : {X : Extern} → Fsm (OpenSent X) → Fsm (OpenConfirm X)
open_sent_to_open_confirm s = with_state s (record {
  bgp_conn_handle = s.state.bgp_conn_handle;
  bgp_out_tx = s.state.bgp_out_tx;
  peer_open = none;
  local_open = s.state.local_open;
  remote_syn = s.state.remote_syn;
  collision_conn = s.state.collision_conn;
})

unfoldable pub open_confirm_to_idle : {X : Extern} → Fsm (OpenConfirm X) → M X (Fsm Idle)
open_confirm_to_idle s = do abort_if_some s.state.bgp_conn_handle; pure (with_state s tt)

unfoldable pub open_confirm_to_established :
    {X : Extern} → Fsm (OpenConfirm X) → Fsm (Established X)
open_confirm_to_established s = with_state s (record {
  bgp_conn_handle = s.state.bgp_conn_handle;
  bgp_out_tx = s.state.bgp_out_tx;
  peer_open = s.state.peer_open;
  local_open = s.state.local_open;
  remote_syn = s.state.remote_syn;
  collision_conn = s.state.collision_conn;
})

unfoldable pub established_to_idle : {X : Extern} → Fsm (Established X) → M X (Fsm Idle)
established_to_idle s = do abort_if_some s.state.bgp_conn_handle; pure (with_state s tt)
