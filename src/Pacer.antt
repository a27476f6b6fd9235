-- ===== src/Pacer.antt =====
-- homa_pacer.c and homa_pacer.h: how much is queued at the NIC, and which RPC may send next when that is
-- too much. RPCs are named by numbers; what is read in their messages is given as functions of these.
pub mod NicQueue
pub mod Choice
pub mod Throttled
mod Tests
use homa_module.Prelude.{
  ℕ, ◌+◌, ◌-◌, ◌*◌, ◌/◌, ◌%◌, Bool, true, false, not, ◌&&◌, ◌||◌, Option, none, some, List, [], ◌∷◌,
  ltb, leb, ◌==◌, if◌then◌else◌,
}
use homa_module.Prelude.Int.{ℤ, pos, ◌+ℤ◌, ◌-ℤ◌, ltb_ℤ}
use homa_module.Pool.{u32_mod, u64_mod}

-- struct homa_pacer, with the fields of struct homa and struct homa_qdisc_shared that it uses.
-- `dont_throttle` is HOMA_FLAG_DONT_THROTTLE.
pub record Pacer : Type 0 where
  pub fifo_count : ℤ
  pub throttled_rpcs : List ℕ
  pub cycles_per_mbyte : ℕ
  pub link_idle_time : ℕ
  pub max_nic_queue_cycles : ℕ
  pub fifo_fraction : ℕ
  pub dont_throttle : Bool

-- homa_pacer_alloc
unfoldable pub pacer_alloc : ℕ → Pacer → Pacer
pacer_alloc clock p = record p {
  fifo_count = pos 1000;
  throttled_rpcs = [];
  link_idle_time = clock;
}

-- homa_pacer_update_sysctl_deps
unfoldable pub pacer_update_sysctl_deps : ℕ → ℕ → Pacer → Pacer
pacer_update_sysctl_deps clock_khz link_mbps p = record p {
  cycles_per_mbyte = 101 * 8000 * clock_khz % u64_mod / (link_mbps * 100) % u32_mod;
}

-- homa_pacer_check_nic_q. A pass of its loop that loses the race for `link_idle_time` changes nothing, so
-- this is the last one, which reads and writes it at once.
unfoldable pub cycles_for_packet : Pacer → ℕ → ℕ
cycles_for_packet p bytes = p.cycles_per_mbyte * bytes % u64_mod / 1000000

unfoldable pub check_nic_q : Pacer → ℕ → ℕ → Bool → Pacer × Bool
check_nic_q p clock bytes force =
    let idle = p.link_idle_time in
    let cycles = cycles_for_packet p bytes in
    if ltb ((clock + p.max_nic_queue_cycles) % u64_mod) idle && not force && not p.dont_throttle
    then (p, false)
    else (
      record p {
        link_idle_time =
            if ltb idle clock then (clock + cycles) % u64_mod else (idle + cycles) % u64_mod;
      },
      true,
    )

-- The choice that homa_pacer_xmit makes under the throttle lock.
unfoldable pub fifo_turn : Pacer → Bool
fifo_turn p = not (ltb_ℤ (pos 0) (p.fifo_count -ℤ pos p.fifo_fraction))

unfoldable pub oldest_of : (ℕ → ℕ) → Option ℕ × ℕ → List ℕ → Option ℕ
oldest_of init_time (rpc, oldest) [] = rpc
oldest_of init_time (rpc, oldest) (cur ∷ rpcs) =
    oldest_of init_time
      (if ltb (init_time cur) oldest then (some cur, init_time cur) else (rpc, oldest)) rpcs

abbrev pub first_of : List ℕ → Option ℕ
first_of [] = none
first_of (rpc ∷ rpcs) = some rpc

unfoldable pub pick_rpc : (ℕ → ℕ) → Pacer → Pacer × Option ℕ
pick_rpc init_time p =
    let count = p.fifo_count -ℤ pos p.fifo_fraction in
    if fifo_turn p
    then (
      record p { fifo_count = count +ℤ pos 1000 },
      oldest_of init_time (none, u64_mod - 1) p.throttled_rpcs,
    )
    else (record p { fifo_count = count }, first_of p.throttled_rpcs)

abbrev pub is_throttled : ℕ → List ℕ → Bool
is_throttled rpc [] = false
is_throttled rpc (cur ∷ rpcs) = if cur == rpc then true else is_throttled rpc rpcs

-- homa_pacer_manage_rpc: `bytes` are those that the RPC has left, and `bytes_left` those of the others.
unfoldable pub insert_throttled : (ℕ → ℕ) → ℕ → ℕ → List ℕ → List ℕ
insert_throttled bytes_left rpc bytes [] = rpc ∷ []
insert_throttled bytes_left rpc bytes (candidate ∷ rpcs) =
    if ltb bytes (bytes_left candidate)
    then rpc ∷ candidate ∷ rpcs
    else candidate ∷ insert_throttled bytes_left rpc bytes rpcs

unfoldable pub pacer_manage_rpc : (ℕ → ℕ) → Pacer → ℕ → ℕ → Pacer
pacer_manage_rpc bytes_left p rpc bytes =
    if is_throttled rpc p.throttled_rpcs
    then p
    else record p { throttled_rpcs = insert_throttled bytes_left rpc bytes p.throttled_rpcs }

-- homa_pacer_unmanage_rpc
unfoldable pub remove_throttled : ℕ → List ℕ → List ℕ
remove_throttled rpc [] = []
remove_throttled rpc (cur ∷ rpcs) = if cur == rpc then rpcs else cur ∷ remove_throttled rpc rpcs

unfoldable pub pacer_unmanage_rpc : Pacer → ℕ → Pacer
pacer_unmanage_rpc p rpc =
    if is_throttled rpc p.throttled_rpcs
    then record p { throttled_rpcs = remove_throttled rpc p.throttled_rpcs }
    else p

-- The tests of homa_pacer_check before it calls homa_pacer_xmit.
unfoldable pub pacer_check : Pacer → ℕ → Bool
pacer_check p clock = elim p.throttled_rpcs [
  | [] ↦ false
  | rpc ∷ rpcs ↦ not (ltb ((clock + p.max_nic_queue_cycles / 2) % u64_mod) p.link_idle_time)
]
