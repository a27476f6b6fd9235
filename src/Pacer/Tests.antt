-- ===== src/Pacer/Tests.antt =====
-- Runs of the pacer.
use homa_module.Prelude.{
  ℕ, ◌+◌, ◌≡◌, ◌<◌, ◌≤◌, ◌*◌, refl, true, false, some, List, [], ◌∷◌, arith, ◌==◌, length,
  replicate, if◌then◌else◌,
}
use homa_module.Prelude.Int.{pos, ◌+ℤ◌, ◌-ℤ◌}
use homa_module.Pacer.{
  Pacer, check_nic_q, cycles_for_packet, fifo_turn, oldest_of, pick_rpc, pacer_manage_rpc,
  insert_throttled, pacer_unmanage_rpc, remove_throttled, pacer_check, pacer_update_sysctl_deps,
}
use homa_module.Pacer.NicQueue.{Offer, check_all}
use homa_module.Pacer.Choice.{PickSpec, take_turns, take_turns_lem, pick_rpc_lem}
use homa_module.Pacer.Throttled.{IsQueue, WithRpc, WithoutRpc, throttled_lem}

-- 1000 cycles for a million bytes, and a limit of 30 cycles.
abbrev pacer : Pacer
pacer = record {
  fifo_count = pos 1000;
  throttled_rpcs = 4 ∷ 6 ∷ 8 ∷ [];
  cycles_per_mbyte = 1000;
  link_idle_time = 500;
  max_nic_queue_cycles = 30;
  fifo_fraction = 300;
  dont_throttle = false;
}

sysctl_run : (pacer_update_sysctl_deps 2400000 25000 pacer).cycles_per_mbyte ≡ 775680
unfolding pacer_update_sysctl_deps
sysctl_run = refl

-- Two packets at once, one that must wait, one that is forced and one when the queue is shorter.
abbrev offers : List Offer
offers =
    record { clock = 490; bytes = 20000; force = false }
    ∷ record { clock = 490; bytes = 20000; force = false }
    ∷ record { clock = 495; bytes = 1000; force = false }
    ∷ record { clock = 500; bytes = 4000; force = true }
    ∷ record { clock = 520; bytes = 1000; force = false }
    ∷ []

nic_run : (check_all pacer offers).1 ≡ true ∷ true ∷ false ∷ true ∷ true ∷ []
unfolding check_nic_q cycles_for_packet
nic_run = refl

abbrev init_time : ℕ → ℕ
init_time rpc = if rpc == 6 then 70 else 90 + rpc

abbrev four_turns : List (List ℕ)
four_turns = replicate 4 (4 ∷ 6 ∷ 8 ∷ [])

turns_run :
    ((take_turns init_time pacer 0 four_turns).1 ≡ 1)
    × ((take_turns init_time pacer 0 four_turns).0.fifo_count ≡ pos 800)
    × ((pick_rpc init_time pacer).1 ≡ some 4)
    × ((pick_rpc init_time (record pacer { fifo_count = pos 200 })).1 ≡ some 6)
unfolding pick_rpc fifo_turn oldest_of ◌-ℤ◌ ◌+ℤ◌
turns_run = (refl, refl, refl, refl)

take_turns_lem_example :
    let r = take_turns init_time pacer 0 four_turns in
    (1000 * r.1 < 300 * length four_turns + 1000)
    × (300 * length four_turns < 1000 * r.1 + 1000)
    × ((n : ℕ) × (r.0.fifo_count ≡ pos n) × (1 ≤ n) × (n ≤ 1000))
take_turns_lem_example =
    take_turns_lem init_time pacer 1000 four_turns (omega arith) refl (omega arith) (omega arith)

pick_rpc_lem_example :
    PickSpec init_time
      (4 ∷ 6 ∷ 8 ∷ [])
      (fifo_turn (record pacer { fifo_count = pos 200 }))
      (pick_rpc init_time (record pacer { fifo_count = pos 200 })).1
pick_rpc_lem_example = pick_rpc_lem init_time (record pacer { fifo_count = pos 200 })

abbrev bytes_left : ℕ → ℕ
bytes_left rpc = 1000 * rpc

pacer-IsQueue : IsQueue bytes_left pacer.throttled_rpcs
pacer-IsQueue = (
  ((omega arith, λ e. omega (arith, e)), ((omega arith, λ e. omega (arith, e)), tt)),
  (((omega arith, λ e. omega (arith, e)), tt), (tt, tt)),
)

queue_run :
    ((pacer_manage_rpc bytes_left pacer 7 7000).throttled_rpcs ≡ 4 ∷ 6 ∷ 7 ∷ 8 ∷ [])
    × ((pacer_unmanage_rpc pacer 6).throttled_rpcs ≡ 4 ∷ 8 ∷ [])
    × (pacer_check pacer 470 ≡ false)
    × (pacer_check pacer 490 ≡ true)
unfolding pacer_manage_rpc insert_throttled pacer_unmanage_rpc remove_throttled pacer_check
queue_run = (refl, refl, refl, refl)

throttled_lem_example :
    let more = (pacer_manage_rpc bytes_left pacer 7 7000).throttled_rpcs in
    let fewer = (pacer_unmanage_rpc pacer 6).throttled_rpcs in
    (IsQueue bytes_left more × WithRpc 7 (4 ∷ 6 ∷ 8 ∷ []) more)
    × (IsQueue bytes_left fewer × WithoutRpc 6 (4 ∷ 6 ∷ 8 ∷ []) fewer)
throttled_lem_example = throttled_lem bytes_left pacer 7 7000 6 refl pacer-IsQueue
