-- ===== src/Reap/Tests.antt =====
-- A run of homa_rpc_reap: RPC 1 is still in use, and a packet of RPC 2.
use homa_module.Prelude.{ℕ, ◌≡◌, refl, Bool, false, some, List, [], ◌∷◌, ◌==◌, if◌then◌else◌}
use homa_module.Reap.{DeadRpc, take_skbs, collect, reap_loop, rpc_reap, Reaped}
use homa_module.Reap.All.{ReapSpec, rpc_reap_lem}

abbrev dead_rpcs : List DeadRpc
dead_rpcs =
    record { id = 1; skbs = 10 ∷ [] }
    ∷ record { id = 2; skbs = 20 ∷ 21 ∷ [] }
    ∷ record { id = 3; skbs = 30 ∷ [] }
    ∷ []

abbrev refs_now : ℕ → ℕ → ℕ
refs_now turn id = if id == 1 then 2 else 1

abbrev users_now : ℕ → ℕ → ℕ
users_now turn skb = if skb == 21 then 2 else 1

abbrev never : ℕ → Bool
never turn = false

reap_run :
    rpc_reap refs_now users_now never false 20 dead_rpcs
    ≡ some (record {
      skbs = 20 ∷ 30 ∷ [];
      rpcs = 3 ∷ [];
      dead = record { id = 1; skbs = 10 ∷ [] } ∷ record { id = 2; skbs = 21 ∷ [] } ∷ [];
      more = false;
    })
unfolding rpc_reap reap_loop collect take_skbs
reap_run = refl

rpc_reap_lem_example :
    (r : Reaped) × (rpc_reap refs_now users_now never false 20 dead_rpcs ≡ some r)
    × ReapSpec refs_now users_now never false dead_rpcs r
rpc_reap_lem_example = rpc_reap_lem refs_now users_now never false 20 dead_rpcs
