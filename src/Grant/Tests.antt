-- ===== src/Grant/Tests.antt =====
-- Runs of homa_grant.c's operations.
use homa_module.Prelude.{ℕ, ◌+◌, ◌≡◌, refl, Option, none, some, List, [], ◌∷◌, map, arith}
use homa_module.Prelude.Int.{pos, ◌+ℤ◌, ◌-ℤ◌}
use homa_module.Grant.{
  GrantRpc, Grant, Granting, fix_order, grant_fast, insert_active, grant_window, update_granted,
  update_incoming,
}
use homa_module.Grant.Headroom.{GrantSpec, grant_fast_lem}
use homa_module.Grant.Active.{count_peer}
use homa_module.Grant.Active.{InOrder}
use homa_module.Grant.Grantable.{manage_rpc, remove_active}
use homa_module.Grant.Grantable.Manage.{Managed, manage_rpc-Managed}
use homa_module.Grant.Grantable.Remove.{Removed, remove_active-Removed}
use homa_module.Grant.Recalc.{fix_order_lem}
use homa_module.Grant.Candidates.{
  Candidates, IsRing, cand_init, cand_add, cand_take, cand_empty, queue_of, offer, TakeSpec, is_nil,
  candidates_lem,
}
use homa_module.Grant.Oldest.{find_oldest, OldestSpec, find_oldest_lem}
use mathlib.Core.List.{Perm}
use homa_module.Grant.Insert.{Inserted, insert_active-Inserted}
use homa_module.Grant.Insert.Array.{IsActive, unranked}

abbrev message : ℕ → ℕ → ℕ → Option ℕ → GrantRpc
message id peer len rank = record {
  id = id;
  peer = peer;
  birth = 100 + id;
  len = len;
  bytes_remaining = len;
  granted = 10000;
  rec_incoming = 10000;
  rank = rank;
  silent_ticks = 0;
}

abbrev short : GrantRpc
short = message 1 7 20000 (some 0)

abbrev long : GrantRpc
long = message 2 8 90000 (some 1)

abbrev two_active : Grant
two_active = record {
  total_incoming = pos 20000;
  stalled_rank = 2147483647;
  max_incoming = 24000;
  active_rpcs = short ∷ long ∷ [];
  window = 15000;
  window_param = 0;
  max_rpcs_per_peer = 1;
  max_overcommit = 2;
  max_sched_prio = 5;
  peer_active = λ q. count_peer q (short ∷ long ∷ []);
  grantable_peers = [];
  num_grantable_rpcs = 2;
  max_grantable_rpcs = 2;
  fifo_grant_increment = 10000;
}

two_active-IsActive : IsActive two_active
two_active-IsActive = record {
  ranks = (refl, (refl, tt));
  counts = λ q. refl;
  per_peer = λ q. ground arith;
  few = omega arith;
}

-- The window would allow 5000 more bytes for the second message, and `max_incoming` 4000.
grant_fast_lem_example : GrantSpec two_active long (grant_fast two_active long)
grant_fast_lem_example = grant_fast_lem two_active long refl

abbrev granted_to : Granting → ℕ × Option ℕ
granted_to (g, rpc, priority) = (rpc.granted, priority)

grant_fast_run : granted_to (grant_fast two_active long) ≡ (14000, some 0)
unfolding grant_fast update_granted update_incoming ◌+ℤ◌ ◌-ℤ◌
grant_fast_run = refl

-- A third message takes the place of a longer one; one of a peer that has its limit is turned away.
insert_active-Inserted_example :
    Inserted two_active (message 3 9 40000 none) (insert_active two_active (message 3 9 40000 none))
insert_active-Inserted_example =
    insert_active-Inserted two_active (message 3 9 40000 none) two_active-IsActive

abbrev ids : Grant × Option GrantRpc → List (ℕ × Option ℕ) × Option ℕ
ids (g, none) = (map (λ a. (a.id, a.rank)) g.active_rpcs, none)
ids (g, some b) = (map (λ a. (a.id, a.rank)) g.active_rpcs, some b.id)

insert_active_run :
    ids (insert_active two_active (message 3 9 40000 none))
    ≡ ((1, some 0) ∷ (3, some 1) ∷ [], some 2)
unfolding insert_active
insert_active_run = refl

same_peer_run :
    ids (insert_active two_active (message 3 7 40000 none))
    ≡ ((1, some 0) ∷ (2, some 1) ∷ [], some 3)
unfolding insert_active
same_peer_run = refl

window_run : grant_window two_active ≡ 8000
unfolding grant_window
window_run = refl

manage_rpc-Managed_example :
    Managed two_active (message 3 9 40000 none) (manage_rpc two_active (message 3 9 40000 none))
manage_rpc-Managed_example =
    manage_rpc-Managed two_active (message 3 9 40000 none) two_active-IsActive

-- Two peers wait: one has its limit of active RPCs.
abbrev one_waits : Grant
one_waits = record two_active {
  grantable_peers =
      record { peer = 8; first = message 4 8 95000 none; rest = [] }
      ∷ record { peer = 9; first = message 5 9 99000 none; rest = message 6 9 99500 none ∷ [] }
      ∷ [];
}

one_waits-IsActive : IsActive one_waits
one_waits-IsActive = record {
  ranks = (refl, (refl, tt));
  counts = λ q. refl;
  per_peer = λ q. ground arith;
  few = omega arith;
}

remove_active-Removed_example : Removed one_waits short (remove_active one_waits short 0)
remove_active-Removed_example =
    remove_active-Removed one_waits short 0 one_waits-IsActive (refl, (refl, tt)) refl

remove_active_run : ids (remove_active one_waits short 0) ≡ ((2, some 0) ∷ (5, some 1) ∷ [], some 5)
unfolding remove_active
remove_active_run = refl

-- The second message has got ahead of the first.
abbrev drifted : Grant
drifted = record two_active {
  active_rpcs = record long { rank = some 0 } ∷ record short { rank = some 1 } ∷ [];
  peer_active = λ q. count_peer q (long ∷ short ∷ []);
}

drifted-IsActive : IsActive drifted
drifted-IsActive = record {
  ranks = (refl, (refl, tt));
  counts = λ q. refl;
  per_peer = λ q. ground arith;
  few = omega arith;
}

fix_order_lem_example :
    InOrder (fix_order drifted).0.active_rpcs
    × IsActive (fix_order drifted).0
    × Perm (map unranked (fix_order drifted).0.active_rpcs) (map unranked drifted.active_rpcs)
fix_order_lem_example = fix_order_lem drifted drifted-IsActive

abbrev ids_fixed : Grant × ℕ → List (ℕ × Option ℕ) × ℕ
ids_fixed (g, result) = (map (λ a. (a.id, a.rank)) g.active_rpcs, result)

fix_order_run : ids_fixed (fix_order drifted) ≡ ((1, some 0) ∷ (2, some 1) ∷ [], 0)
unfolding fix_order
fix_order_run = refl

find_oldest_lem_example : OldestSpec one_waits (find_oldest one_waits)
find_oldest_lem_example = find_oldest_lem one_waits

abbrev id_of : Option GrantRpc → ℕ
id_of none = 0
id_of (some r) = r.id

find_oldest_run : id_of (find_oldest one_waits) ≡ 2
unfolding find_oldest
find_oldest_run = refl

-- A ring that has wrapped around, with one free slot.
abbrev wrapped : Candidates
wrapped = record { inserts = 10; removes = 3; rpcs = 18 ∷ 19 ∷ 0 ∷ 13 ∷ 14 ∷ 15 ∷ 16 ∷ 17 ∷ [] }

wrapped-IsRing : IsRing wrapped
wrapped-IsRing = record { started = omega arith; fits = omega arith; slots = refl }

candidates_lem_example :
    (queue_of (cand_add wrapped 20) ≡ offer (queue_of wrapped) 20)
    × IsRing (cand_add wrapped 20)
    × TakeSpec (queue_of wrapped) (cand_take wrapped)
    × (cand_empty wrapped ≡ is_nil (queue_of wrapped))
candidates_lem_example = candidates_lem wrapped 20 wrapped-IsRing (omega arith)

candidates_run :
    queue_of (cand_add (cand_add wrapped 20) 21) ≡ 13 ∷ 14 ∷ 15 ∷ 16 ∷ 17 ∷ 18 ∷ 19 ∷ 20 ∷ []
unfolding cand_add
candidates_run = refl

cand_init_run : queue_of (cand_add (cand_init wrapped) 21) ≡ 21 ∷ []
unfolding cand_add cand_init
cand_init_run = refl
