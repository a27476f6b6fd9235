-- ===== src/Peer/Tests.antt =====
-- Runs of the operations on a peer's acks and priorities.
use mathlib.Core.List.{Perm}
use homa_module.Prelude.{
  ℕ, ◌≡◌, ◌≤◌, refl, Option, some, none, List, [], ◌∷◌, ◌++◌, arith, length, ◌⊎◌, count, true, take,
  if◌then◌else◌, ◌==◌,
}
use homa_module.Peer.{
  Ack, Priorities, peer_alloc, peer_add_ack, peer_get_acks, prios_changed, prios_loop, cutoffs_pkt,
  unsched_priority, level_from,
}
use homa_module.Peer.Acks.{AckOp, add, get, apply_all, all_added, acks_lem}
use homa_module.Peer.Evict.{
  Candidate, Peertab, prefer_evict, may_evict, sort_victim, consider_peer, scan_peers, pick_victims,
}
use homa_module.Peer.Evict.Sorting.{IsSorted, Behind}
use homa_module.Peer.Evict.Victims.{pick_victims_lem}
use homa_module.Peer.Levels.{PriosSpec, prios_changed_lem}

abbrev ack : ℕ → Ack
ack id = record { client_id = id; server_port = 99 }

-- Six RPCs complete, of which the sixth overflows the array, and then packets take acks along.
abbrev ops : List AckOp
ops =
    add (ack 1)
    ∷ add (ack 2)
    ∷ add (ack 3)
    ∷ get 1
    ∷ add (ack 4)
    ∷ add (ack 5)
    ∷ add (ack 6)
    ∷ add (ack 7)
    ∷ add (ack 8)
    ∷ get 5
    ∷ []

acks_run :
    ((apply_all peer_alloc ops).1
      ≡ ack 3 ∷ ack 7 ∷ ack 1 ∷ ack 2 ∷ ack 4 ∷ ack 5 ∷ ack 6 ∷ ack 8 ∷ [])
    × ((apply_all peer_alloc ops).0.acks ≡ [])
unfolding peer_add_ack peer_get_acks peer_alloc
acks_run = (refl, refl)

acks_lem_example :
    Perm
      (peer_alloc.acks ++ all_added ops)
      ((apply_all peer_alloc ops).1 ++ (apply_all peer_alloc ops).0.acks)
    × (length (apply_all peer_alloc ops).0.acks ≤ 5)
unfolding peer_alloc
acks_lem_example = acks_lem peer_alloc ops (omega arith)

-- The defaults of homa_init, and fewer priorities.
abbrev defaults : Priorities
defaults = record {
  num_priorities = 8;
  unsched_cutoffs = 0 ∷ 0 ∷ 0 ∷ 0 ∷ 1400000 ∷ 15000 ∷ 2800 ∷ 200 ∷ [];
  max_sched_prio = 3;
  cutoff_version = 1;
}

abbrev five : Priorities
five = record defaults { num_priorities = 5 }

abbrev top : Option Priorities → Option ℕ
top none = none
top (some h) = some h.max_sched_prio

levels_run :
    (top (prios_changed defaults) ≡ some 3)
    × (top (prios_changed five) ≡ some 3)
    × (top (prios_changed (record defaults { num_priorities = 0 })) ≡ none)
    × (unsched_priority 8 (cutoffs_pkt peer_alloc defaults.unsched_cutoffs 1) 3000 ≡ some 5)
unfolding prios_changed prios_loop cutoffs_pkt unsched_priority level_from
levels_run = (refl, refl, refl, refl)

-- Before a CUTOFFS packet comes, fewer than 7 priorities are too few.
no_level_run :
    (unsched_priority 8 peer_alloc 3000 ≡ some 6) × (unsched_priority 6 peer_alloc 3000 ≡ none)
unfolding unsched_priority level_from peer_alloc
no_level_run = (refl, refl)

prios_changed_lem_example : PriosSpec peer_alloc 3000 (prios_changed five)
prios_changed_lem_example = prios_changed_lem five peer_alloc 3000 (omega arith) refl (omega arith)

-- Peers 1 and 2 have been idle, peer 2 for longer, and peer 3 is in use.
abbrev table_now : Peertab
table_now = record { net_max = 10; idle_jiffies_min = 5; idle_jiffies_max = 50; jiffies = 1000 }

abbrev last_use : ℕ → ℕ
last_use x = if x == 1 then 800 else if x == 2 then 700 else 999

abbrev peers_now : ℕ → Candidate
peers_now x = record { net_peers = 4; access_jiffies = last_use x }

victims_now : pick_victims table_now peers_now 2 (1 ∷ 3 ∷ 2 ∷ 1 ∷ []) ≡ 2 ∷ 1 ∷ []
unfolding pick_victims scan_peers consider_peer sort_victim may_evict prefer_evict
victims_now = refl

pick_victims_lem_example :
    let vs = pick_victims table_now peers_now 2 (1 ∷ 3 ∷ 2 ∷ 1 ∷ []) in
    let seen : List ℕ = take 4 (1 ∷ 3 ∷ 2 ∷ 1 ∷ []) in
    (length vs ≤ 2)
    × ((x : ℕ) → count x vs ≤ 1)
    × IsSorted table_now peers_now vs
    × ((x : ℕ) → 1 ≤ count x vs → (may_evict table_now (peers_now x) ≡ true) × (1 ≤ count x seen))
    × ((x : ℕ)
        → 1 ≤ count x seen
        → may_evict table_now (peers_now x) ≡ true
        → (1 ≤ count x vs)
          ⊎ ((length vs ≡ 2) × ((w : ℕ) → 1 ≤ count w vs → Behind table_now peers_now x w)))
pick_victims_lem_example = pick_victims_lem table_now peers_now 2 (1 ∷ 3 ∷ 2 ∷ 1 ∷ [])
