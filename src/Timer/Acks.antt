-- ===== src/Timer/Acks.antt =====
-- The comparison of ticks in homa_timer_check_rpc (homa_timer.c), which wraps around.
use homa_module.Prelude.{
  ℕ, ◌+◌, ◌%◌, ◌<◌, ◌≡◌, ◌≢◌, refl, inl, inr, true, false, not, ◌&&◌, arith, leb, ◌==◌, Bool-cases,
}
use homa_module.Pool.{u32_mod}
use homa_module.Timer.{TimerParams, TimedRpc, is_outgoing, ack_due, check_ack}

-- The comparison of ticks, which wraps around.
ack_due_lem :
    (t : TimerParams) (start elapsed : ℕ)
    → 0 < t.request_ack_ticks
    → t.request_ack_ticks < 2147483648
    → elapsed < 2147483648
    → ack_due t ((start + elapsed) % u32_mod) (start % u32_mod) ≡ leb t.request_ack_ticks elapsed
unfolding ack_due
ack_due_lem t start elapsed pos few soon = elim (Bool-cases (leb t.request_ack_ticks elapsed)) [
  | inl e ↦ rw e (ground arith)
  | inr e ↦ rw e (ground arith)
]

-- When a tick finds that a server has just sent all of its response, in tick `start`, it sends no NEED_ACK
-- packet, but the ticks after that send one just when `request_ack_ticks` ticks have passed since then, though
-- `timer_ticks` and `done_timer_ticks` count modulo 2 ^ 32. This is so for the next 2 ^ 31 ticks, with
-- `request_ack_ticks` a positive int, if `start` is not 0 modulo 2 ^ 32: a `done_timer_ticks` of 0 stands for one
-- that is not set, and then the next tick sets it.
pub need_ack_lem :
    (t : TimerParams) (start elapsed tx : ℕ) (rpc : TimedRpc)
    → rpc.is_client ≡ false
    → is_outgoing rpc.state ≡ true
    → tx ≡ rpc.msgout.len
    → rpc.done_timer_ticks ≡ 0
    → start % u32_mod ≢ 0
    → 0 < t.request_ack_ticks
    → t.request_ack_ticks < 2147483648
    → elapsed < 2147483648
    → let first = check_ack t (start % u32_mod) tx rpc in
      (first.1 ≡ false)
      × (check_ack t ((start + elapsed) % u32_mod) tx first.0
          ≡ (first.0, leb t.request_ack_ticks elapsed))
unfolding check_ack
need_ack_lem t start elapsed tx rpc server out all unset set pos few soon =
    let all_sent : (not rpc.is_client && is_outgoing rpc.state && (tx == rpc.msgout.len)) ≡ true =
      rw (server, out) (ground (arith, all)) in
    let was_unset : (rpc.done_timer_ticks == 0) ≡ true = ground (arith, unset) in
    let is_set : (start % u32_mod == 0) ≡ false = ground (arith, set) in
    rw (all_sent, was_unset, all_sent, is_set, ack_due_lem t start elapsed pos few soon)
      (refl, refl)
