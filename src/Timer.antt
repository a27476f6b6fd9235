-- ===== src/Timer.antt =====
-- homa_timer.c: what happens to an RPC at a tick of the timer.
pub mod Ticks
pub mod Acks
mod Tests
use homa_module.Prelude.{
  ℕ, zero, suc, ◌+◌, ◌-◌, ◌*◌, ◌%◌, Bool, true, false, not, ◌&&◌, ◌||◌, Option, none, some, List,
  [], ◌∷◌, ltb, leb, ◌==◌, if◌then◌else◌,
}
use homa_module.Pool.{u32_mod}
use homa_module.Outgoing.{MessageOut, tx_end}

-- enum of the states of an RPC.
pub data RpcState : Type 0 where
  outgoing : RpcState
  incoming : RpcState
  in_service : RpcState
  dead : RpcState

-- The fields of an RPC and its messages that the timer uses; those from `len` on are in `msgin`.
pub record TimedRpc : Type 0 where
  pub is_client : Bool
  pub state : RpcState
  pub silent_ticks : ℕ
  pub done_timer_ticks : ℕ
  pub msgout : MessageOut
  pub len : ℕ
  pub bytes_remaining : ℕ
  pub granted : ℕ
  pub num_bpages : ℕ

-- The fields of struct homa.
pub record TimerParams : Type 0 where
  pub request_ack_ticks : ℕ
  pub resend_ticks : ℕ
  pub resend_interval : ℕ
  pub timeout_ticks : ℕ

-- homa_rpc_abort with -ETIMEDOUT, and homa_request_retrans. `divide_error` is a division by zero.
pub data Action : Type 0 where
  no_action : Action
  resend : Action
  abort_rpc : Action
  divide_error : Action

-- The test of bit 31 in the comparison of ticks.
unfoldable pub ack_due : TimerParams → ℕ → ℕ → Bool
ack_due t timer_ticks done_ticks =
    leb 2147483648 ((done_ticks + t.request_ack_ticks + 2 * u32_mod - 1 - timer_ticks) % u32_mod)

abbrev pub is_outgoing : RpcState → Bool
is_outgoing outgoing = true
is_outgoing _ = false

-- The first part: whether a NEED_ACK packet is sent.
unfoldable pub check_ack : TimerParams → ℕ → ℕ → TimedRpc → TimedRpc × Bool
check_ack t timer_ticks tx rpc =
    if not rpc.is_client && is_outgoing rpc.state && (tx == rpc.msgout.len)
    then (if rpc.done_timer_ticks == 0
        then (record rpc { done_timer_ticks = timer_ticks }, false)
        else (rpc, ack_due t timer_ticks rpc.done_timer_ticks))
    else (rpc, false)

-- The cases in which the peer has nothing to send now.
unfoldable pub not_expecting : TimedRpc → ℕ → RpcState → Bool
not_expecting rpc tx incoming =
    leb rpc.granted (rpc.len - rpc.bytes_remaining) || (rpc.num_bpages == 0)
not_expecting rpc tx outgoing = if not rpc.is_client then true else ltb tx rpc.msgout.granted
not_expecting rpc tx in_service = not rpc.is_client
not_expecting rpc tx dead = not rpc.is_client

-- The last part.
unfoldable pub silent_action : TimerParams → ℕ → Action
silent_action t silent =
    if ltb silent t.resend_ticks
    then no_action
    else if leb t.timeout_ticks silent
    then abort_rpc
    else if t.resend_interval == 0
    then divide_error
    else if (silent - t.resend_ticks) % t.resend_interval == 0
    then resend
    else no_action

-- homa_timer_check_rpc, which also returns whether it sends a NEED_ACK; `users` is as for homa_rpc_tx_end.
unfoldable pub timer_check_rpc : TimerParams → ℕ → (ℕ → ℕ) → TimedRpc → TimedRpc × Bool × Action
timer_check_rpc t timer_ticks users rpc =
    let (out, tx) = tx_end users rpc.msgout in
    let (rpc', need_ack) = check_ack t timer_ticks tx (record rpc { msgout = out }) in
    if not_expecting rpc' tx rpc'.state
    then (record rpc' { silent_ticks = 0 }, need_ack, no_action)
    else (rpc', need_ack, silent_action t rpc'.silent_ticks)

abbrev pub is_in_service : RpcState → Bool
is_in_service in_service = true
is_in_service _ = false

-- The part of homa_timer for one RPC.
unfoldable pub timer_rpc : TimerParams → ℕ → (ℕ → ℕ) → TimedRpc → TimedRpc × Bool × Action
timer_rpc t timer_ticks users rpc =
    if is_in_service rpc.state
    then (record rpc { silent_ticks = 0 }, false, no_action)
    else timer_check_rpc t timer_ticks users (record rpc { silent_ticks = rpc.silent_ticks + 1 })
