-- ===== src/Grant.antt =====
-- homa_grant.c and homa_grant.h: which incoming messages may be sent more of, and how much. An RPC carries
-- its rank in `active_rpcs`, and `active_rpcs` is the list of the first num_active_rpcs entries of the
-- array. Offsets and counts are ints that are not negative, but for `total_incoming`.
pub mod Headroom
pub mod Active
pub mod Grantable
pub mod Recalc
pub mod Oldest
pub mod Candidates
pub mod Insert
mod Tests
use homa_module.Prelude.{
  ℕ, zero, suc, ◌+◌, ◌-◌, ◌/◌, Bool, true, false, not, ◌&&◌, ◌||◌, Option, none, some, List, [],
  ◌∷◌, ◌++◌, ltb, leb, ◌==◌, if◌then◌else◌, length,
}
use homa_module.Pool.{int_max}
use homa_module.Prelude.Int.{ℤ, pos, pos_part, ◌+ℤ◌, ◌-ℤ◌, ltb_ℤ}

-- The fields of an RPC and its `msgin` that grants use; `rank` is `none` for -1, and `peer` names the
-- struct homa_peer.
pub record GrantRpc : Type 0 where
  pub id : ℕ
  pub peer : ℕ
  pub birth : ℕ
  pub len : ℕ
  pub bytes_remaining : ℕ
  pub granted : ℕ
  pub rec_incoming : ℕ
  pub rank : Option ℕ
  pub silent_ticks : ℕ

-- A peer in `grantable_peers`: it is there exactly while its `grantable_rpcs` has entries, so these are
-- a first one and the rest.
pub record PeerQueue : Type 0 where
  pub peer : ℕ
  pub first : GrantRpc
  pub rest : List GrantRpc

-- struct homa_grant, with `max_sched_prio` of struct homa and the `active_rpcs` counts of the peers.
pub record Grant : Type 0 where
  pub total_incoming : ℤ
  pub stalled_rank : ℕ
  pub max_incoming : ℕ
  pub active_rpcs : List GrantRpc
  pub window : ℕ
  pub window_param : ℕ
  pub max_rpcs_per_peer : ℕ
  pub max_overcommit : ℕ
  pub max_sched_prio : ℕ
  pub peer_active : ℕ → ℕ
  pub grantable_peers : List PeerQueue
  pub num_grantable_rpcs : ℕ
  pub max_grantable_rpcs : ℕ
  pub fifo_grant_increment : ℕ

-- homa_grant_window
unfoldable pub grant_window : Grant → ℕ
grant_window g =
    if g.window_param == 0 then g.max_incoming / (length g.active_rpcs + 1) else g.window_param

-- The sign of `grant_diff`, with the two subtractions on the other sides.
unfoldable pub outranks : GrantRpc → GrantRpc → Bool
outranks a b =
    ltb (a.len + b.granted) (b.len + a.granted)
    || ((a.len + b.granted == b.len + a.granted) && ltb a.birth b.birth)

-- homa_grant_priority; subtraction that stops at 0 is the last line's clamp.
unfoldable pub grant_priority : Grant → ℕ → ℕ
grant_priority g rank =
    let num_active = length g.active_rpcs in
    let priority = g.max_sched_prio - rank in
    if leb num_active (g.max_sched_prio + 1)
    then priority - (g.max_sched_prio + 1 - num_active)
    else priority

-- homa_grant_update_incoming
unfoldable pub update_incoming : Grant → GrantRpc → Grant × GrantRpc
update_incoming g rpc =
    let incoming = rpc.granted - (rpc.len - rpc.bytes_remaining) in
    let delta = pos incoming -ℤ pos rpc.rec_incoming in
    (
      record g { total_incoming = g.total_incoming +ℤ delta },
      record rpc { rec_incoming = incoming },
    )

-- The offset that an RPC may be granted, and whether it stalls: it would have more but for
-- `max_incoming`.
unfoldable pub new_grant_offset : Grant → GrantRpc → ℤ × Bool
new_grant_offset g rpc =
    let received = rpc.len - rpc.bytes_remaining in
    let offset = if ltb rpc.len (received + g.window) then rpc.len else received + g.window in
    let incoming_delta = pos offset -ℤ pos received -ℤ pos rpc.rec_incoming in
    let avl_incoming = pos g.max_incoming -ℤ g.total_incoming in
    if ltb_ℤ avl_incoming incoming_delta
    then (pos offset -ℤ (incoming_delta -ℤ avl_incoming), true)
    else (pos offset, false)

-- What homa_grant_update_granted returns, with what it leaves: `none` is -1.
abbrev pub Granting : Type 0
Granting = Grant × GrantRpc × Option ℕ

-- The loop on `stalled_rank`, which lowers it.
unfoldable pub note_stall : Grant → ℕ → Bool → Grant
note_stall g rank stalls =
    if stalls && ltb rank g.stalled_rank then record g { stalled_rank = rank } else g

-- The RPC at `rank` in turn for a grant up to `offset`.
unfoldable pub grant_up_to : Grant → GrantRpc → ℕ → ℤ × Bool → Granting
unfolding grant_priority note_stall
grant_up_to g rpc rank (offset, stalls) =
    let g' = note_stall g rank stalls in
    if ltb_ℤ (pos rpc.granted) offset
    then (g', record rpc { granted = pos_part offset }, some (grant_priority g rank))
    else (g', rpc, none)

unfoldable pub grant_ranked : Grant → GrantRpc → Option ℕ → Granting
unfolding grant_up_to new_grant_offset
grant_ranked g rpc none = (g, rpc, none)
grant_ranked g rpc (some rank) =
    if leb rpc.len rpc.granted
    then (g, rpc, none)
    else grant_up_to g rpc rank (new_grant_offset g rpc)

-- homa_grant_update_granted
unfoldable pub update_granted : Grant → GrantRpc → Granting
unfolding grant_ranked
update_granted g rpc =
    if ltb 1 rpc.silent_ticks then (g, rpc, none) else grant_ranked g rpc rpc.rank

-- The fast path of homa_grant_check_rpc, up to the test of `priority`.
unfoldable pub grant_fast : Grant → GrantRpc → Granting
unfolding update_granted update_incoming
grant_fast g rpc =
    let (g', rpc', priority) = update_granted g rpc in
    let (g'', rpc'') = update_incoming g' rpc' in (g'', rpc'', priority)

-- The backward scan of homa_grant_insert_active: the entries up to the last one that `rpc` does not
-- outrank, and those behind it. `insert_after` is the length of the first part, less 1.
abbrev pub pass :
    GrantRpc → GrantRpc → List GrantRpc × List GrantRpc → List GrantRpc × List GrantRpc
pass rpc other ([], passed) =
    if outranks rpc other then ([], other ∷ passed) else (other ∷ [], passed)
pass rpc other (a ∷ above, passed) = (other ∷ a ∷ above, passed)

unfoldable pub scan_active : GrantRpc → List GrantRpc → List GrantRpc × List GrantRpc
unfolding outranks
scan_active rpc [] = ([], [])
scan_active rpc (other ∷ others) = pass rpc other (scan_active rpc others)

-- An entry of the passed ones that is to go, with those before and behind it.
pub data Ejected : Type 0 where
  nobody : Ejected
  eject : List GrantRpc → GrantRpc → List GrantRpc → Ejected

abbrev pub eject_behind : GrantRpc → Bool → List GrantRpc → Ejected → Ejected
eject_behind other suits others nobody = if suits then eject [] other others else nobody
eject_behind other suits others (eject before bumped after) = eject (other ∷ before) bumped after

-- The last passed entry with this peer: the one at `peer_index`.
unfoldable pub last_of_peer : ℕ → List GrantRpc → Ejected
last_of_peer peer [] = nobody
last_of_peer peer (other ∷ others) =
    eject_behind other (other.peer == peer) others (last_of_peer peer others)

-- The last of `active_rpcs`, looked for among the passed entries: it is one if any has been passed.
unfoldable pub last_active : List GrantRpc → Ejected
last_active [] = nobody
last_active (other ∷ others) = eject_behind other true others (last_active others)

-- The loop that moves entries down: their new ranks.
unfoldable pub move_down : ℕ → List GrantRpc → List GrantRpc
move_down rank [] = []
move_down rank (other ∷ others) = record other { rank = some rank } ∷ move_down (rank + 1) others

abbrev pub add_active : (ℕ → ℕ) → ℕ → ℕ → ℕ
add_active counts peer q = if q == peer then counts q + 1 else counts q

abbrev pub sub_active : (ℕ → ℕ) → ℕ → ℕ → ℕ
sub_active counts peer q = if q == peer then counts q - 1 else counts q

-- The end of homa_grant_insert_active: `above` stays, `before` moves down, and `after` stays, behind
-- the entry that has gone.
unfoldable pub put_active :
    Grant → GrantRpc → List GrantRpc → List GrantRpc → List GrantRpc → (ℕ → ℕ) → Grant
unfolding move_down
put_active g rpc above before after counts =
    let slot = length above in
    record g {
      active_rpcs =
          above ++ (record rpc { rank = some slot } ∷ move_down (slot + 1) before ++ after);
      peer_active = add_active counts rpc.peer;
    }

-- What it returns: `some` for an RPC that must go to the grantable lists.
unfoldable pub eject_for : Grant → GrantRpc → List GrantRpc → Ejected → Grant × Option GrantRpc
unfolding put_active
eject_for g rpc above nobody = (g, some rpc)
eject_for g rpc above (eject before bumped after) = (
  put_active g rpc above before after (sub_active g.peer_active bumped.peer),
  some (record bumped { rank = none }),
)

-- homa_grant_insert_active
unfoldable pub insert_split :
    Grant → GrantRpc → List GrantRpc × List GrantRpc → Grant × Option GrantRpc
unfolding eject_for put_active last_of_peer last_active
insert_split g rpc (above, passed) =
    if leb g.max_rpcs_per_peer (g.peer_active rpc.peer)
    then eject_for g rpc above (last_of_peer rpc.peer passed)
    else if leb g.max_overcommit (length above)
    then (g, some rpc)
    else if leb g.max_overcommit (length g.active_rpcs)
    then eject_for g rpc above (last_active passed)
    else (put_active g rpc above passed [] g.peer_active, none)

unfoldable pub insert_active : Grant → GrantRpc → Grant × Option GrantRpc
unfolding insert_split scan_active
insert_active g rpc = insert_split g rpc (scan_active rpc g.active_rpcs)

-- homa_grant_fix_order: an entry that outranks those in front of it moves past them. `parts` is what the
-- inner loop finds in front of it: it stops at the first entry that it does not outrank.
unfoldable pub move_up : GrantRpc → List GrantRpc × List GrantRpc → List GrantRpc
unfolding move_down
move_up rpc (above, []) = above ++ (rpc ∷ [])
move_up rpc (above, other ∷ others) =
    above
    ++ (record rpc { rank = some (length above) } ∷ move_down (length above + 1) (other ∷ others))

-- The new `result`.
unfoldable pub improved : ℕ → List GrantRpc × List GrantRpc → ℕ
improved result (above, []) = result
improved result (above, other ∷ others) = if ltb (length above) result then length above else result

unfoldable pub fix_loop : ℕ → List GrantRpc → List GrantRpc → List GrantRpc × ℕ
unfolding move_up improved scan_active
fix_loop result fixed [] = (fixed, result)
fix_loop result fixed (rpc ∷ rpcs) =
    let parts = scan_active rpc fixed in fix_loop (improved result parts) (move_up rpc parts) rpcs

unfoldable pub fix_order : Grant → Grant × ℕ
unfolding fix_loop
fix_order g =
    let (active, result) = fix_loop int_max [] g.active_rpcs in
    (record g { active_rpcs = active }, result)
