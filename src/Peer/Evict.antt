-- ===== src/Peer/Evict.antt =====
-- The choice of peers to evict: homa_peer_prefer_evict and homa_peer_pick_victims (homa_peer.c). A peer is a
-- number, its address; `memory` has the fields. What the hash table's walk hands out is a parameter.
pub mod Sorting
pub mod Victims
use homa_module.Prelude.{
  ℕ, ◌+◌, ◌-◌, ◌*◌, ◌%◌, ◌^◌, Bool, true, false, not, ◌&&◌, ◌||◌, Option, none, some, List, [], ◌∷◌,
  ◌++◌, leb, ltb, ◌==◌, if◌then◌else◌, length, take,
}

-- The fields of struct homa_peer, with `num_peers` of its homa_net.
pub record Candidate : Type 0 where
  pub net_peers : ℕ
  pub access_jiffies : ℕ

-- The fields of struct homa_peertab, and the time.
pub record Peertab : Type 0 where
  pub net_max : ℕ
  pub idle_jiffies_min : ℕ
  pub idle_jiffies_max : ℕ
  pub jiffies : ℕ

abbrev pub over_limit : Peertab → Candidate → Bool
over_limit t p = ltb t.net_max p.net_peers

-- homa_peer_prefer_evict
unfoldable pub prefer_evict : Peertab → Candidate → Candidate → Bool
prefer_evict t p q =
    if over_limit t p
    then (if not (over_limit t q) then true else ltb p.access_jiffies q.access_jiffies)
    else (if over_limit t q then false else ltb p.access_jiffies q.access_jiffies)

-- `idle` is an int, the low 32 bits of the difference. The comparisons turn it into an unsigned long: from
-- 2 ^ 31 on it is negative, and its sign fills the upper bits.
abbrev pub as_unsigned_long : ℕ → ℕ
as_unsigned_long idle = if ltb idle (2 ^ 31) then idle else idle + (2 ^ 64 - 2 ^ 32)

unfoldable pub may_evict : Peertab → Candidate → Bool
may_evict t p =
    let idle = as_unsigned_long ((t.jiffies + 2 ^ 64 - p.access_jiffies) % 2 ^ 32) in
    leb t.idle_jiffies_min idle && (leb t.idle_jiffies_max idle || over_limit t p)

abbrev pub with_victim : ℕ → List ℕ × Option ℕ → List ℕ × Option ℕ
with_victim v r = (v ∷ r.0, r.1)

-- The loop that sorts a peer into the victims; `none` stands for a NULL peer.
unfoldable pub sort_victim : Peertab → (ℕ → Candidate) → ℕ → List ℕ → List ℕ × Option ℕ
sort_victim t memory peer [] = ([], some peer)
sort_victim t memory peer (v ∷ vs) =
    let swapped = with_victim peer (sort_victim t memory v vs) in
    let kept = with_victim v (sort_victim t memory peer vs) in
    if peer == v
    then (v ∷ vs, none)
    else if prefer_evict t (memory peer) (memory v)
    then swapped
    else kept

abbrev pub append_victim : ℕ → List ℕ → Option ℕ → List ℕ
append_victim max_victims vs none = vs
append_victim max_victims vs (some peer) =
    if ltb (length vs) max_victims then vs ++ (peer ∷ []) else vs

-- One turn of the loop on the table.
unfoldable pub consider_peer : Peertab → (ℕ → Candidate) → ℕ → ℕ → List ℕ → List ℕ
consider_peer t memory max_victims peer vs =
    if may_evict t (memory peer)
    then (let (sorted, left) = sort_victim t memory peer vs in
        append_victim max_victims sorted left)
    else vs

unfoldable pub scan_peers : Peertab → (ℕ → Candidate) → ℕ → List ℕ → List ℕ → List ℕ
scan_peers t memory max_victims [] vs = vs
scan_peers t memory max_victims (peer ∷ peers) vs =
    scan_peers t memory max_victims peers (consider_peer t memory max_victims peer vs)

-- homa_peer_pick_victims; `walk` has the peers in the order of the walk, up to where it gives no more.
unfoldable pub pick_victims : Peertab → (ℕ → Candidate) → ℕ → List ℕ → List ℕ
pick_victims t memory max_victims walk =
    scan_peers t memory max_victims (take (2 * max_victims) walk) []
