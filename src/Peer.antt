-- ===== src/Peer.antt =====
-- homa_peer.c: the acks that wait to be sent to a peer, and the priorities for unscheduled packets, with
-- homa_prios_changed (homa_utils.c) and homa_cutoffs_pkt (homa_incoming.c). The byte order of the network is
-- left out. A read in front of an array is the result `none`.
pub mod Acks
pub mod Evict
pub mod Levels
mod Tests
use homa_module.Prelude.{
  ℕ, zero, suc, ◌+◌, ◌-◌, Bool, true, false, Option, none, some, List, [], ◌∷◌, ◌++◌, ltb, leb,
  ◌==◌, if◌then◌else◌, length, take, drop, set, get_or,
}
use homa_module.Pool.{int_max}

-- struct homa_ack
pub record Ack : Type 0 where
  pub client_id : ℕ
  pub server_port : ℕ

-- The fields of struct homa_peer that are used here: `acks` has the first `num_acks` entries of the array.
pub record Peer : Type 0 where
  pub acks : List Ack
  pub unsched_cutoffs : List ℕ
  pub cutoff_version : ℕ

abbrev pub max_acks_per_pkt : ℕ
max_acks_per_pkt = 5

-- An ACK packet: the RPC in its header, and the acks.
pub record AckPacket : Type 0 where
  pub header : Ack
  pub acks : List Ack

-- homa_peer_add_ack
unfoldable pub peer_add_ack : Peer → Ack → Peer × Option AckPacket
peer_add_ack peer ack =
    if ltb (length peer.acks) max_acks_per_pkt
    then (record peer { acks = peer.acks ++ (ack ∷ []) }, none)
    else (record peer { acks = [] }, some (record { header = ack; acks = peer.acks }))

-- homa_peer_get_acks
unfoldable pub peer_get_acks : Peer → ℕ → Peer × List Ack
peer_get_acks peer count =
    if length peer.acks == 0
    then (peer, [])
    else (let n = if ltb (length peer.acks) count then length peer.acks else count in
        let from = length peer.acks - n in
        (record peer { acks = take from peer.acks }, drop from peer.acks))

abbrev pub max_priorities : ℕ
max_priorities = 8

-- The fields of struct homa that say which priorities there are.
pub record Priorities : Type 0 where
  pub num_priorities : ℕ
  pub unsched_cutoffs : List ℕ
  pub max_sched_prio : ℕ
  pub cutoff_version : ℕ

abbrev pub max_message_length : ℕ
max_message_length = 1400000

-- The loop of homa_prios_changed from `i` down.
unfoldable pub prios_loop : ℕ → ℕ → List ℕ → Option (List ℕ × ℕ)
prios_loop num zero cutoffs = if leb num 0 then none else some (set cutoffs 0 int_max, 0)
prios_loop num (suc i) cutoffs =
    if leb num (suc i)
    then prios_loop num i (set cutoffs (suc i) 0)
    else if leb max_message_length (get_or cutoffs (suc i) 0)
    then some (cutoffs, i)
    else prios_loop num i cutoffs

-- homa_prios_changed
abbrev pub with_levels : Priorities → Option (List ℕ × ℕ) → Option Priorities
with_levels h none = none
with_levels h (some (cutoffs, prio)) = some (record h {
  unsched_cutoffs = cutoffs;
  max_sched_prio = prio;
  cutoff_version = h.cutoff_version + 1;
})

unfoldable pub prios_changed : Priorities → Option Priorities
prios_changed h =
    let num = if ltb max_priorities h.num_priorities then max_priorities else h.num_priorities in
    with_levels (record h { num_priorities = num })
      (prios_loop num (max_priorities - 1) (set h.unsched_cutoffs 0 int_max))

-- homa_cutoffs_pkt, for the cutoffs and the version of the packet: homa_data_pkt sends those of struct homa.
unfoldable pub cutoffs_pkt : Peer → List ℕ → ℕ → Peer
cutoffs_pkt peer cutoffs version = record peer {
  unsched_cutoffs = int_max ∷ drop 1 cutoffs;
  cutoff_version = version;
}

-- homa_peer_alloc
unfoldable pub peer_alloc : Peer
peer_alloc = record {
  acks = [];
  unsched_cutoffs = 0 ∷ 0 ∷ 0 ∷ 0 ∷ 0 ∷ 0 ∷ int_max ∷ 0 ∷ [];
  cutoff_version = 0;
}

-- homa_unsched_priority: the loop from `i` down.
unfoldable pub level_from : List ℕ → ℕ → ℕ → Option ℕ
level_from cutoffs len zero = if leb len (get_or cutoffs 0 0) then some 0 else none
level_from cutoffs len (suc i) =
    let lower = level_from cutoffs len i in
    if leb len (get_or cutoffs (suc i) 0) then some (suc i) else lower

unfoldable pub unsched_priority : ℕ → Peer → ℕ → Option ℕ
unsched_priority num peer len = elim num [
  | zero ↦ none
  | suc i ↦ level_from peer.unsched_cutoffs len i
]
