-- ===== src/Pacer/NicQueue.antt =====
-- homa_pacer_check_nic_q (homa_pacer.c): the time at which the link becomes idle stands for a queue that
-- the link empties.
use homa_module.Prelude.{
  ℕ, ◌+◌, ◌-◌, ◌≤◌, ◌<◌, ◌≡◌, Bool, true, false, ◌||◌, List, [], ◌∷◌, leb, if◌then◌else◌,
}
use homa_module.Pool.{u64_mod}
use homa_module.Pacer.{Pacer, cycles_for_packet, check_nic_q}

-- A packet that is offered to the NIC: when, its bytes, and `force`.
pub record Offer : Type 0 where
  pub clock : ℕ
  pub bytes : ℕ
  pub force : Bool

-- What becomes of several, one after the other.
abbrev pub check_all : Pacer → List Offer → Pacer × List Bool
check_all p [] = (p, [])
check_all p (o ∷ offers) =
    let (p', taken) = check_nic_q p o.clock o.bytes o.force in
    let (p'', others) = check_all p' offers in (p'', taken ∷ others)

-- A queue that the link empties by one cycle's work in a cycle, at a time: a packet goes in if there is
-- no more than the limit in it, or if it is forced.
pub record Queue : Type 0 where
  pub time : ℕ
  pub backlog : ℕ

abbrev pub wait_until : ℕ → Queue → Queue
wait_until clock q = record { time = clock; backlog = q.backlog - (clock - q.time) }

abbrev pub offer : ℕ → Bool → ℕ → Queue → Queue × Bool
offer limit force cycles q =
    if force || leb q.backlog limit
    then (record q { backlog = q.backlog + cycles }, true)
    else (q, false)

abbrev pub offer_all : Pacer → Queue → List Offer → Queue × List Bool
offer_all p q [] = (q, [])
offer_all p q (o ∷ offers) =
    let (q', taken) =
      offer p.max_nic_queue_cycles (o.force || p.dont_throttle) (cycles_for_packet p o.bytes)
        (wait_until o.clock q) in
    let (q'', others) = offer_all p q' offers in (q'', taken ∷ others)

-- The clock does not run backwards, and each sum that homa_pacer_check_nic_q makes for a packet stays below
-- 2 ^ 64: the clock and the limit, the clock and the packet's cycles, and the time at which the link becomes
-- idle and these cycles.
abbrev pub AreOffers : Pacer → ℕ → List Offer → Type 0
AreOffers p now [] = Unit {0}
AreOffers p now (o ∷ offers) =
    (now ≤ o.clock)
    × (o.clock + p.max_nic_queue_cycles < u64_mod)
    × (o.clock + cycles_for_packet p o.bytes < u64_mod)
    × (p.link_idle_time + cycles_for_packet p o.bytes < u64_mod)
    × AreOffers (check_nic_q p o.clock o.bytes o.force).0 o.clock offers

-- The queue that the pacer's estimate stands for.
abbrev pub queue_at : Pacer → ℕ → Queue
queue_at p now = record { time = now; backlog = p.link_idle_time - now }

pub record SameLink (p p' : Pacer) : Type 0 where
  pub rate : p'.cycles_per_mbyte ≡ p.cycles_per_mbyte
  pub limit : p'.max_nic_queue_cycles ≡ p.max_nic_queue_cycles
  pub free : p'.dont_throttle ≡ p.dont_throttle

-- One packet.
abbrev CheckSpec : Pacer → ℕ → Pacer × Bool → Queue × Bool → Type 0
CheckSpec p clock r q = (queue_at r.0 clock ≡ q.0) × (r.1 ≡ q.1) × SameLink p r.0

abbrev Agrees : Pacer × List Bool → Queue × List Bool → Type 0
Agrees r q = (queue_at r.0 (q.0.time) ≡ q.0) × (r.1 ≡ q.1)
