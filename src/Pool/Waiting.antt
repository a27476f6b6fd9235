-- ===== src/Pool/Waiting.antt =====
-- homa_pool.c: the RPCs of a socket that wait for buffer space.
pub mod Enough
pub mod Order
pub mod Wake
use homa_module.Prelude.{
  ℕ, zero, suc, ◌+◌, ◌-◌, ◌/◌, ◌%◌, Bool, true, false, Option, none, some, List, [], ◌∷◌, ◌++◌, ltb,
  leb, if◌then◌else◌,
}
use homa_module.Pool.{Pool, bpage_size, int_max}
use homa_module.Pool.Buffers.{
  Env, Alloc, allocated, out_of_space, no_region, stuck, Errno, enomem, has_region, alloc_msg,
}

-- The fields of a struct homa_rpc that the pool uses: its id, and the length and buffers of `msgin`.
pub record Rpc : Type 0 where
  pub id : ℕ
  pub len : ℕ
  pub bpage_offsets : List ℕ

-- A socket's pool and its `waiting_for_bufs`.
pub record Sock : Type 0 where
  pub pool : Pool
  pub waiting_for_bufs : List Rpc

-- ceil(len / HOMA_BPAGE_SIZE), as set_bpages_needed has it.
abbrev pub pages_needed : ℕ → ℕ
pages_needed len = (len + bpage_size - 1) / bpage_size

-- set_bpages_needed, and what homa_pool_check_waiting does for an empty list.
unfoldable pub set_bpages_needed : Pool → List Rpc → Pool
set_bpages_needed p [] = record p { bpages_needed = int_max }
set_bpages_needed p (rpc ∷ rest) = record p { bpages_needed = pages_needed rpc.len }

-- In front of the first longer message, else at the end.
unfoldable pub insert_waiting : Rpc → List Rpc → List Rpc
insert_waiting rpc [] = rpc ∷ []
insert_waiting rpc (other ∷ rest) =
    if ltb rpc.len other.len then rpc ∷ other ∷ rest else other ∷ insert_waiting rpc rest

-- `out_of_space:`
unfoldable pub queue_rpc : Sock → Pool → Rpc → Sock
unfolding insert_waiting set_bpages_needed
queue_rpc sk p rpc =
    let waiting = insert_waiting (record rpc { bpage_offsets = [] }) sk.waiting_for_bufs in
    record { pool = set_bpages_needed p waiting; waiting_for_bufs = waiting }

-- A call of homa_pool_alloc_msg for an RPC: the return value 0 with the buffers or with the RPC
-- queued, -ENOMEM, or a search that has not ended.
pub data Reply : Type 0 where
  ready : Sock → Rpc → Reply
  queued : Sock → Reply
  failed : Errno → Reply
  unfinished : Reply

unfoldable pub reply : Sock → Rpc → Alloc → Reply
unfolding queue_rpc
reply sk rpc (allocated p offsets) =
    ready (record sk { pool = p }) (record rpc { bpage_offsets = offsets })
reply sk rpc (out_of_space p) = queued (queue_rpc sk p rpc)
reply sk rpc no_region = failed enomem
reply sk rpc stuck = unfinished

unfoldable pub alloc_rpc : Sock → Env → Rpc → Reply
unfolding reply alloc_msg
alloc_rpc sk env rpc = reply sk rpc (alloc_msg sk.pool env rpc.len)

-- What homa_pool_check_waiting has done: the socket, and the RPCs that got their buffers, in order:
-- for these it sends a RESEND and has grants issued. `none` is a loop that has not ended.
abbrev pub Woken : Type 0
Woken = Option (Sock × List Rpc)

abbrev pub woke : Rpc → Woken → Woken
woke rpc none = none
woke rpc (some (sk, rpcs)) = some (sk, rpc ∷ rpcs)

-- The rest of the loop after a retry.
abbrev pub after_retry : (Sock → Woken) → Reply → Woken
after_retry again (ready sk rpc) = elim rpc.bpage_offsets [
  | [] ↦ again sk
  | o ∷ os ↦ woke rpc (again sk)
]
after_retry again (queued sk) = again sk
after_retry again (failed e) = none
after_retry again unfinished = none

-- One turn with the first waiting RPC. `locked`: its lock is held elsewhere, so try again.
unfoldable pub retry_first : Env → Bool → Pool → List Rpc → (Sock → Woken) → Woken
unfolding set_bpages_needed alloc_rpc
retry_first env locked p [] again =
    some (record { pool = set_bpages_needed p []; waiting_for_bufs = [] }, [])
retry_first env locked p (rpc ∷ rest) again =
    if locked
    then again (record { pool = p; waiting_for_bufs = rpc ∷ rest })
    else after_retry again
        (alloc_rpc (record { pool = set_bpages_needed p rest; waiting_for_bufs = rest }) env rpc)

-- The loop: `envs` and `locked` say what each turn meets.
unfoldable pub check_loop : ℕ → (ℕ → Env) → (ℕ → Bool) → Sock → Woken
unfolding retry_first
check_loop zero envs locked sk = none
check_loop (suc fuel) envs locked sk = elim (leb sk.pool.bpages_needed sk.pool.free_bpages) [
  | true ↦
      retry_first (envs fuel) (locked fuel) sk.pool sk.waiting_for_bufs
        (check_loop fuel envs locked)
  | false ↦ some (sk, [])
]

-- homa_pool_check_waiting
unfoldable pub check_waiting : ℕ → (ℕ → Env) → (ℕ → Bool) → Sock → Woken
unfolding check_loop
check_waiting fuel envs locked sk =
    if has_region sk.pool then check_loop fuel envs locked sk else some (sk, [])
