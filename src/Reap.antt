-- ===== src/Reap.antt =====
-- homa_rpc_reap (homa_rpc.c): the release of dead RPCs and of the packets they have sent. RPCs and packets are
-- numbers. What other cores do meanwhile is a parameter: the references to RPCs and to packets and the
-- protection of the socket may differ from turn to turn. Received packets, buffers and counters are left out.
pub mod All
mod Passes
mod Tests
use homa_module.Prelude.{
  ℕ, zero, suc, ◌+◌, ◌-◌, Bool, true, false, not, ◌&&◌, Option, none, some, List, [], ◌∷◌, ◌++◌,
  leb, ltb, ◌==◌, if◌then◌else◌, length,
}

-- An RPC in `dead_rpcs`, with the packets in `to_free` and `packets`: none if msgout.length is negative.
pub record DeadRpc : Type 0 where
  pub id : ℕ
  pub skbs : List ℕ

-- Why the loop on the packets of an RPC ends: there are no more, one is in use, or the batch is full.
pub data TakeEnd : Type 0 where
  emptied : TakeEnd
  active : TakeEnd
  full : TakeEnd

pub record Taken : Type 0 where
  pub skbs : List ℕ
  pub left : List ℕ
  pub ending : TakeEnd

abbrev pub with_skb : ℕ → Taken → Taken
with_skb skb t = record t { skbs = skb ∷ t.skbs }

-- The loop on the packets of an RPC; `room` is what is left of the batch.
unfoldable pub take_skbs : (ℕ → ℕ) → ℕ → List ℕ → Taken
take_skbs users room [] = record { skbs = []; left = []; ending = emptied }
take_skbs users room (skb ∷ skbs) =
    let rest = take_skbs users (room - 1) skbs in
    if ltb 1 (users skb)
    then record { skbs = []; left = skb ∷ skbs; ending = active }
    else if leb room 1
    then record { skbs = skb ∷ []; left = skbs; ending = full }
    else with_skb skb rest

-- A pass over the dead RPCs: the packets and RPCs to free, the RPCs that stay, and `checked_all_rpcs`.
pub record Pass : Type 0 where
  pub skbs : List ℕ
  pub rpcs : List ℕ
  pub dead : List DeadRpc
  pub checked_all : Bool

abbrev pub keep_rpc : DeadRpc → Pass → Pass
keep_rpc rpc p = record p { dead = rpc ∷ p.dead }

abbrev pub with_freed : List ℕ → List ℕ → Pass → Pass
with_freed skbs rpcs p = record p { skbs = skbs ++ p.skbs; rpcs = rpcs ++ p.rpcs }

-- What follows on the loop on an RPC's packets; `kept` and `freed` are the rest of the pass.
abbrev pub after_take : DeadRpc → List DeadRpc → ℕ → List ℕ → List ℕ → TakeEnd → Pass → Pass → Pass
after_take rpc rpcs rpc_room skbs left full kept freed = record {
  skbs = skbs;
  rpcs = [];
  dead = record rpc { skbs = left } ∷ rpcs;
  checked_all = false;
}
after_take rpc rpcs rpc_room skbs left active kept freed =
    with_freed skbs [] (keep_rpc (record rpc { skbs = left }) kept)
after_take rpc rpcs rpc_room skbs left emptied kept freed =
    if leb rpc_room 1
    then record { skbs = skbs; rpcs = rpc.id ∷ []; dead = rpcs; checked_all = false }
    else with_freed skbs (rpc.id ∷ []) freed

-- The loop on the dead RPCs, under the socket lock. `refs` is 2 for an RPC whose lock is held.
unfoldable pub collect : (ℕ → ℕ) → (ℕ → ℕ) → ℕ → ℕ → List DeadRpc → Pass
collect refs users room rpc_room [] = record { skbs = []; rpcs = []; dead = []; checked_all = true }
collect refs users room rpc_room (rpc ∷ rpcs) =
    let t = take_skbs users room rpc.skbs in
    let deferred = collect refs users room rpc_room rpcs in
    let kept = collect refs users (room - length t.skbs) rpc_room rpcs in
    let freed = collect refs users (room - length t.skbs) (rpc_room - 1) rpcs in
    if ltb 1 (refs rpc.id)
    then keep_rpc rpc deferred
    else after_take rpc rpcs rpc_room t.skbs t.left t.ending kept freed

abbrev pub batch_max : ℕ
batch_max = 10

-- What homa_rpc_reap has freed, the RPCs that stay, and its result.
pub record Reaped : Type 0 where
  pub skbs : List ℕ
  pub rpcs : List ℕ
  pub dead : List DeadRpc
  pub more : Bool

abbrev pub freed_before : Pass → Option Reaped → Option Reaped
freed_before p none = none
freed_before p (some r) = some (record r { skbs = p.skbs ++ r.skbs; rpcs = p.rpcs ++ r.rpcs })

-- The batch of a turn.
abbrev pub batch_size : Bool → ℕ → ℕ
batch_size reap_all skbs_to_reap =
    if not reap_all && ltb skbs_to_reap batch_max then skbs_to_reap else batch_max

-- The loop of homa_rpc_reap; `none` when the fuel has run out.
unfoldable pub reap_loop :
    (ℕ → ℕ → ℕ) → (ℕ → ℕ → ℕ) → (ℕ → Bool) → Bool → ℕ → ℕ → List DeadRpc → Option Reaped
reap_loop refs users protect reap_all zero skbs_to_reap dead = none
reap_loop refs users protect reap_all (suc fuel) skbs_to_reap dead =
    let batch = batch_size reap_all skbs_to_reap in
    let p = collect (refs fuel) (users fuel) batch batch dead in
    let rest = reap_loop refs users protect reap_all fuel (skbs_to_reap - batch) p.dead in
    if not reap_all && (skbs_to_reap == 0)
    then some (record { skbs = []; rpcs = []; dead = dead; more = true })
    else if protect fuel
    then some (record { skbs = []; rpcs = []; dead = dead; more = false })
    else if p.checked_all
    then some (record { skbs = p.skbs; rpcs = p.rpcs; dead = p.dead; more = false })
    else freed_before p rest

abbrev pub weight : List DeadRpc → ℕ
weight [] = 0
weight (rpc ∷ rpcs) = suc (length rpc.skbs) + weight rpcs

-- homa_rpc_reap. Each turn but the last frees a packet or an RPC, so `weight` turns and one more are enough.
unfoldable pub rpc_reap :
    (ℕ → ℕ → ℕ) → (ℕ → ℕ → ℕ) → (ℕ → Bool) → Bool → ℕ → List DeadRpc → Option Reaped
rpc_reap refs users protect reap_all reap_limit dead = elim dead [
  | [] ↦ some (record { skbs = []; rpcs = []; dead = []; more = false })
  | rpc ∷ rpcs ↦
      reap_loop refs users protect reap_all (suc (weight (rpc ∷ rpcs))) reap_limit (rpc ∷ rpcs)
]
