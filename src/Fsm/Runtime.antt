-- ===== src/Fsm/Runtime.antt =====
-- What a transition of the session does to the runtime, and the monad that it runs in: a call ends
-- or panics, and leaves a log of its effects, the newest first.
use amnesia_bgp.Base.{ℕ, suc, ◌+◌, ◌^◌, Bool, Option, none, some, List, ◌∷◌, ltb, if◌then◌else◌}
use amnesia_bgp.Net.{SocketAddr}
use amnesia_bgp.Extern.{Extern}
use amnesia_bgp.Config.{Neighbor}
use amnesia_bgp.Message.Types.{Message}
use amnesia_bgp.Connection.{BgpConn}
use amnesia_bgp.Fsm.Types.{JoinHandle, Sender, Timer}

pub data Effect (X : Extern) : Type 0 where
  -- A command on the timer control channel.
  timer_ctr : Timer → Effect X
  -- A message on the channel to a connection task.
  out : Sender → Message → Effect X
  -- `JoinHandle::abort`
  abort : JoinHandle → Effect X
  -- `tokio::spawn` of `try_tcp_conn`, of `process` and of `process_one`.
  spawn_try_tcp_conn : JoinHandle → SocketAddr → Effect X
  spawn_process : JoinHandle → BgpConn X → Sender → Bool → Effect X
  spawn_process_one : JoinHandle → BgpConn X → Bool → Effect X
  log_error : Effect X

-- The runtime's tasks and channels are numbered; the log holds the newest effect first.
pub record World (X : Extern) : Type 0 where
  pub next_task : JoinHandle
  pub next_channel : Sender
  pub log : List (Effect X)

-- What a transition reads: the configuration, whether arithmetic is checked for overflow (the
-- build profile), and which channels still have their receiver.
pub record Env : Type 0 where
  pub conf : Neighbor
  pub overflow_checks : Bool
  pub alive : Sender → Bool

pub data Exec (X : Extern) (A : Type 0) : Type 0 where
  done : A → World X → Exec X A
  panicked : World X → Exec X A

abbrev pub M : Extern → Type 0 → Type 0
M X A = Env → World X → Exec X A

abbrev pub pure : {X : Extern} {A : Type 0} → A → M X A
pure a env w = done a w

abbrev pub and_then : {X : Extern} {A B : Type 0} → Env → Exec X A → (A → M X B) → Exec X B
and_then env (done a w) f = f a env w
and_then env (panicked w) f = panicked w

infixl 5 ◌>>=◌ ◌>>◌
abbrev pub ◌>>=◌ : {X : Extern} {A B : Type 0} → M X A → (A → M X B) → M X B
◌>>=◌ m f env w = and_then env (m env w) f

abbrev pub ◌>>◌ : {X : Extern} {B : Type 0} → M X (Unit {0}) → M X B → M X B
m >> k = m >>= λ _. k

abbrev pub panic : {X : Extern} {A : Type 0} → M X A
panic env w = panicked w

-- `Option::unwrap`
abbrev pub unwrap : {X : Extern} {A : Type 0} → Option A → M X A
unwrap none = panic
unwrap (some a) = pure a

abbrev pub ask_conf : {X : Extern} → M X Neighbor
ask_conf env w = done env.conf w

abbrev pub emit : {X : Extern} → Effect X → M X (Unit {0})
emit e env w = done tt (record w { log = e ∷ w.log })

-- `timer_ctr_tx.send(t).await.unwrap()`. Its receiver lives as long as the session.
abbrev pub send_timer : {X : Extern} → Timer → M X (Unit {0})
send_timer t = emit (timer_ctr t)

-- `bgp_out_tx.send(m).await.unwrap()`, which fails when the receiver is gone.
abbrev pub send_out : {X : Extern} → Sender → Message → M X (Unit {0})
send_out c m env w =
    if env.alive c then done tt (record w { log = out c m ∷ w.log }) else panicked w

-- `if let Some(handle) = h { handle.abort(); }`
abbrev pub abort_if_some : {X : Extern} → Option JoinHandle → M X (Unit {0})
abort_if_some none = pure tt
abort_if_some (some h) = emit (abort h)

-- `mpsc::channel::<Message>(32)`
abbrev pub new_channel : {X : Extern} → M X Sender
new_channel env w = done w.next_channel (record w { next_channel = suc w.next_channel })

-- `tokio::spawn`: the runtime hands out the next handle, and `e` names the task's future.
abbrev pub spawn : {X : Extern} → (JoinHandle → Effect X) → M X JoinHandle
spawn e env w =
    done w.next_task (record w { next_task = suc w.next_task; log = e w.next_task ∷ w.log })

-- `n += 1` on a `u64`, which panics or wraps at the top.
abbrev pub add_one_u64 : {X : Extern} → ℕ → M X ℕ
add_one_u64 n env w =
    if ltb (n + 1) (2 ^ 64)
    then done (n + 1) w
    else (if env.overflow_checks then panicked w else done 0 w)
