-- ===== src/Pool/Tests.antt =====
-- Runs of homa_pool.c on a pool of three bpages and two cores.
use homa_module.Prelude.{
  ℕ, ◌+◌, ◌≤◌, ◌<◌, ◌≡◌, ◌≢◌, ◌⊎◌, refl, Bool, true, false, Option, none, some, List, [], ◌∷◌, ◌++◌,
  map, arith,
}
use homa_module.Pool.{Bpage, Pool, Request, got, no_space, get_pages, int_max}
use homa_module.Pool.Conserve.{IsConsistent, Granted, get_pages-Granted, get_pages-ends}
use homa_module.Pool.Buffers.{
  Env, set_region, has_region, fresh_pool, fresh_bpage, fresh_core, allocated, alloc_msg,
  get_buffer, out_of_space,
}
use homa_module.Pool.Buffers.Release.{set_region_lem, fresh-IsConsistent}
use homa_module.Pool.Buffers.Allocate.Ends.{is_stuck}
use homa_module.Pool.Buffers.Allocate.{AllocKeeps, alloc_msg-Keeps, recount}
use homa_module.Pool.Buffers.Address.{get_buffer_lem}
use homa_module.Pool.Waiting.{Rpc, Sock, queue_rpc, check_waiting}
use homa_module.Pool.Waiting.Enough.{alloc_msg-Succeeds}
use homa_module.Pool.Waiting.Order.{IsQueued, queue_rpc_lem, AllShorter, AllLonger}
use homa_module.Pool.Waiting.Wake.{Drained, check_waiting-Drained}

abbrev pool : Pool
pool = fresh_pool 4096 3 2 true

pool-IsConsistent : IsConsistent pool []
pool-IsConsistent = fresh-IsConsistent 4096 3 2 true (omega arith)

abbrev want_two : Request
want_two = record { num_pages = 2; set_owner = false; core_num = 1; now = 10; lease_cycles = 5 }

abbrev calm : ℕ → Bool
calm i = false

abbrev used_bpage : Bpage
used_bpage = record { refs = 1; owner = none; expiration = 0 }

abbrev two_taken : Pool
two_taken = record pool {
  descriptors = used_bpage ∷ used_bpage ∷ fresh_bpage ∷ [];
  free_bpages = 1;
  cores = fresh_core ∷ record { page_hint = 0; allocated = 0; next_candidate = 2 } ∷ [];
}

get_pages_run : get_pages pool want_two calm ≡ got two_taken (0 ∷ 1 ∷ [])
unfolding get_pages
get_pages_run = refl

get_pages-Granted_example : Granted pool want_two [] two_taken (0 ∷ 1 ∷ [])
get_pages-Granted_example = get_pages-Granted pool want_two [] pool-IsConsistent calm get_pages_run

get_pages-ends_example :
    ((3 < 2) × (get_pages pool want_two calm ≡ no_space))
    ⊎ ((2 ≤ 3) × (q : Pool) × (pages : List ℕ) × (get_pages pool want_two calm ≡ got q pages))
get_pages-ends_example = get_pages-ends pool want_two [] pool-IsConsistent calm (λ i. refl)

abbrev env : Env
env = record { core_id = 1; lease_cycles = 5; clock = λ k. 10 + k; contended = λ k i. false }

-- One full bpage and 5 bytes.
alloc_msg-Keeps_example :
    AllocKeeps pool [] 2 (alloc_msg pool env 65541)
    × (((k i : ℕ) → env.contended k i ≡ false) → is_stuck (alloc_msg pool env 65541) ≡ false)
alloc_msg-Keeps_example =
    alloc_msg-Keeps pool env [] 65541 pool-IsConsistent (omega arith) (omega arith)

alloc_msg_run :
    alloc_msg pool env 65541
    ≡ allocated
        (record pool {
          descriptors =
              used_bpage ∷ record { refs = 2; owner = some 1; expiration = 17 } ∷ fresh_bpage ∷ [];
          free_bpages = 1;
          cores = fresh_core ∷ record { page_hint = 1; allocated = 5; next_candidate = 2 } ∷ [];
        })
        (0 ∷ 65536 ∷ [])
unfolding alloc_msg
alloc_msg_run = refl

-- Five bpages are more than there are: nothing is taken.
alloc_msg_refused : alloc_msg pool env 300000 ≡ out_of_space pool
unfolding alloc_msg
alloc_msg_refused = refl

alloc_msg-Succeeds_example :
    (q : Pool) × (offsets : List ℕ) × (alloc_msg pool env 65541 ≡ allocated q offsets)
alloc_msg-Succeeds_example =
    alloc_msg-Succeeds pool env [] 65541 (λ k i. refl) pool-IsConsistent refl (omega arith)
      (omega arith)

abbrev bare : Pool
bare = record {
  region = none;
  in_kernel = false;
  num_bpages = 0;
  descriptors = [];
  free_bpages = 0;
  bpages_needed = 0;
  cores = [];
}

set_region_lem_example :
    let (q, e) = set_region bare 4096 200000 true 2 true true in
    ((e ≡ none)
      × (has_region bare ≡ false)
      × IsConsistent q []
      × (q.free_bpages ≡ q.num_bpages)
      × (q.num_bpages ≤ int_max))
    ⊎ ((e ≢ none) × (q ≡ bare))
set_region_lem_example = set_region_lem bare 4096 200000 true 2 true true

-- The last byte of a message of one bpage and 5 bytes.
get_buffer_lem_example :
    let (dst, available) = get_buffer 4096 65541 (131072 ∷ 40 ∷ []) 65540 in
    ((65541 ≤ 65540) × (dst ≡ none) × (available ≡ 0))
    ⊎ ((65540 < 65541)
        × (dst ≡ some (4096 + 40 + 4))
        × (0 < available)
        × (4 + available ≤ 65536)
        × (65540 + available ≤ 65541)
        × ((65540 + available ≡ 65541) ⊎ (4 + available ≡ 65536)))
get_buffer_lem_example = get_buffer_lem 4096 65541 (131072 ∷ 40 ∷ []) 65540 refl

abbrev waiting : ℕ → ℕ → Rpc
waiting id len = record { id = id; len = len; bpage_offsets = [] }

-- RPCs of one, two and three bpages in a pool of three: the first two get their buffers.
abbrev blocked : Sock
blocked = record {
  pool = record pool { bpages_needed = 1 };
  waiting_for_bufs = waiting 2 1000 ∷ waiting 4 80000 ∷ waiting 6 150000 ∷ [];
}

check_waiting-Drained_example :
    (sk : Sock) × (rpcs : List Rpc) × (check_waiting 4 (λ i. env) (λ i. false) blocked
      ≡ some (sk, rpcs))
    × Drained [] blocked.waiting_for_bufs sk rpcs
check_waiting-Drained_example =
    check_waiting-Drained (λ i. env) (λ i. false) 4 blocked [] (λ i k j. refl) (λ i. refl)
      (recount pool blocked.pool [] [] pool-IsConsistent (λ i. refl) (refl, refl, refl))
      (omega arith) refl refl (omega arith) (omega arith) (omega arith)

abbrev woken_ids : Option (Sock × List Rpc) → List ℕ
woken_ids none = []
woken_ids (some (sk, rpcs)) = map (λ r. r.id) rpcs

check_waiting_run : woken_ids (check_waiting 4 (λ i. env) (λ i. false) blocked) ≡ 2 ∷ 4 ∷ []
unfolding check_waiting
check_waiting_run = refl

queue_rpc_lem_example :
    IsQueued (queue_rpc blocked pool (waiting 8 80000))
    × (before : List Rpc) × (after : List Rpc) × (blocked.waiting_for_bufs ≡ before ++ after)
    × ((queue_rpc blocked pool (waiting 8 80000)).waiting_for_bufs
        ≡ before ++ (waiting 8 80000 ∷ after))
    × AllShorter 80000 before
    × AllLonger 80000 after
queue_rpc_lem_example = queue_rpc_lem blocked pool (waiting 8 80000) (omega arith)
