-- ===== src/Pool/Waiting/Wake.antt =====
-- homa_pool_check_waiting (homa_pool.c): it ends, and wakes whom it can, shortest message first.
use homa_module.Prelude.{
  ℕ, zero, suc, ◌+◌, ◌≤◌, ◌<◌, ◌≡◌, ◌⊎◌, inl, inr, refl, ap, ◌∙◌, Bool, true, false, some, List, [],
  ◌∷◌, ◌++◌, map, arith, leb, Bool-cases, length, length-append, length-map,
}
use homa_module.Pool.{Pool, int_max}
use homa_module.Pool.Counting.{count, count-append}
use homa_module.Pool.Conserve.{IsConsistent, SameRegion}
use homa_module.Pool.Buffers.{Env, allocated, has_region}
use homa_module.Pool.Buffers.Allocate.{
  page_of, recount, AllocKeeps, alloc_msg-Keeps, has_region-same,
}
use homa_module.Pool.Waiting.{
  Rpc, Sock, Woken, pages_needed, set_bpages_needed, ready, alloc_rpc, after_retry, retry_first,
  check_loop, check_waiting,
}
use homa_module.Pool.Waiting.Enough.{Uncontended, alloc_msg-Succeeds}
use homa_module.Pool.Waiting.Order.{needed_for, set_bpages_needed_lem}

-- An RPC without its buffers.
abbrev pub ident : Rpc → ℕ × ℕ
ident r = (r.id, r.len)

-- The bpages that RPCs use.
abbrev pub uses_of : List Rpc → List ℕ
uses_of [] = []
uses_of (r ∷ rs) = map page_of r.bpage_offsets ++ uses_of rs

abbrev pub total_needed : List Rpc → ℕ
total_needed [] = 0
total_needed (r ∷ rs) = pages_needed r.len + total_needed rs

abbrev pub AllNonempty : List Rpc → Type 0
AllNonempty [] = Unit {0}
AllNonempty (r ∷ rs) = (0 < r.len) × AllNonempty rs

abbrev pub AllServed : List Rpc → Type 0
AllServed [] = Unit {0}
AllServed (r ∷ rs) = (length r.bpage_offsets ≡ pages_needed r.len) × AllServed rs

-- What the loop has done when it ends.
pub record Drained (uses : List ℕ) (before : List Rpc) (sk : Sock) (rpcs : List Rpc) : Type 0 where
  pub order : map ident rpcs ++ map ident sk.waiting_for_bufs ≡ map ident before
  pub served : AllServed rpcs
  pub consistent : IsConsistent sk.pool (uses_of rpcs ++ uses)
  pub maximal : (sk.waiting_for_bufs ≡ []) ⊎ (sk.pool.free_bpages < needed_for sk.waiting_for_bufs)
  pub needed : sk.pool.bpages_needed ≡ needed_for sk.waiting_for_bufs

-- A pool in which messages can be given buffers.
record IsServing (p : Pool) (uses : List ℕ) : Type 0 where
  consistent : IsConsistent p uses
  small : p.num_bpages ≤ 65536
  region : has_region p ≡ true

needed-IsServing :
    (p : Pool) (uses : List ℕ) (rs : List Rpc)
    → IsServing p uses
    → IsServing (set_bpages_needed p rs) uses
unfolding set_bpages_needed
needed-IsServing p uses [] v = record {
  consistent = recount p _ uses uses v.consistent (λ i. refl) (refl, refl, refl);
  small = v.small;
  region = v.region;
}
needed-IsServing p uses (r ∷ rs) v = record {
  consistent = recount p _ uses uses v.consistent (λ i. refl) (refl, refl, refl);
  small = v.small;
  region = v.region;
}

set_bpages_needed-free :
    (p : Pool) (rs : List Rpc) → (set_bpages_needed p rs).free_bpages ≡ p.free_bpages
unfolding set_bpages_needed
set_bpages_needed-free p [] = refl
set_bpages_needed-free p (r ∷ rs) = refl

-- One RPC gets its buffers.
record Served (p : Pool) (uses : List ℕ) (r : Rpc) (q : Pool) (offsets : List ℕ) : Type 0 where
  serving : IsServing q (map page_of offsets ++ uses)
  number : length offsets ≡ pages_needed r.len
  same : SameRegion q p

serve :
    (p : Pool) (uses : List ℕ) (env : Env) (r : Rpc) (rest : List Rpc)
    → Uncontended env
    → IsServing p uses
    → pages_needed r.len + length uses < int_max
    → pages_needed r.len ≤ p.free_bpages
    → (q : Pool) × (offsets : List ℕ) × (alloc_rpc
          (record { pool = p; waiting_for_bufs = rest })
          env
          r
        ≡ ready
            (record { pool = q; waiting_for_bufs = rest })
            (record r { bpage_offsets = offsets }))
      × Served p uses r q offsets
unfolding alloc_rpc
serve p uses env r rest calm v few enough =
    let (q, offsets, e) =
      alloc_msg-Succeeds p env uses r.len calm v.consistent v.region (omega arith) enough in
    let keeps : AllocKeeps p uses (pages_needed r.len) (allocated q offsets) =
      rw e at (alloc_msg-Keeps p env uses r.len v.consistent v.small few).0 in
    (
      q,
      offsets,
      rw e,
      record {
        serving = record {
          consistent = keeps.0;
          small = omega (arith, keeps.2, v.small);
          region = has_region-same p q keeps.2.0 v.region;
        };
        number = keeps.1;
        same = keeps.2;
      },
    )

count-served : (i : ℕ) (xs ys zs : List ℕ) → count i ((xs ++ ys) ++ zs) ≡ count i (ys ++ (xs ++ zs))
count-served i xs ys zs = omega (
  arith,
  count-append i (xs ++ ys) zs,
  count-append i xs ys,
  count-append i ys (xs ++ zs),
  count-append i xs zs,
)

-- What the rest of the loop does, with one more RPC woken before it.
Drained-cons :
    (uses offsets : List ℕ) (r : Rpc) (rest : List Rpc) (sk : Sock) (rpcs : List Rpc)
    → length offsets ≡ pages_needed r.len
    → Drained (map page_of offsets ++ uses) rest sk rpcs
    → Drained uses (r ∷ rest) sk (record r { bpage_offsets = offsets } ∷ rpcs)
Drained-cons uses offsets r rest sk rpcs number d = record {
  order = ap (λ l. (r.id, r.len) ∷ l) d.order;
  served = (number, d.served);
  consistent =
      recount sk.pool sk.pool _ _ d.consistent
        (λ i. count-served i (map page_of offsets) (uses_of rpcs) uses) (refl, refl, refl);
  maximal = d.maximal;
  needed = d.needed;
}

after_retry-ready :
    (again : Sock → Woken) (sk sk' : Sock) (r : Rpc) (rpcs : List Rpc)
    → 0 < length r.bpage_offsets
    → again sk ≡ some (sk', rpcs)
    → after_retry again (ready sk r) ≡ some (sk', r ∷ rpcs)
after_retry-ready again sk sk' r rpcs h e = grind arith

retry_ready :
    (env : Env) (locked : Bool) (p : Pool) (r : Rpc) (rest : List Rpc) (sk : Sock) (r' : Rpc)
    (again : Sock → Woken)
    → locked ≡ false
    → alloc_rpc (record { pool = set_bpages_needed p rest; waiting_for_bufs = rest }) env r
      ≡ ready sk r'
    → retry_first env locked p (r ∷ rest) again ≡ after_retry again (ready sk r')
unfolding retry_first
retry_ready env locked p r rest sk r' again e h = rw (e, h)

check_loop_stop :
    (fuel : ℕ) (envs : ℕ → Env) (locked : ℕ → Bool) (sk : Sock)
    → leb sk.pool.bpages_needed sk.pool.free_bpages ≡ false
    → check_loop (suc fuel) envs locked sk ≡ some (sk, [])
unfolding check_loop
check_loop_stop fuel envs locked sk e = rw (e, check_loop)

check_loop_go :
    (fuel : ℕ) (envs : ℕ → Env) (locked : ℕ → Bool) (sk : Sock)
    → leb sk.pool.bpages_needed sk.pool.free_bpages ≡ true
    → check_loop (suc fuel) envs locked sk
      ≡ retry_first
          (envs fuel)
          (locked fuel)
          sk.pool
          sk.waiting_for_bufs
          (check_loop fuel envs locked)
unfolding check_loop
check_loop_go fuel envs locked sk e = rw (e, check_loop)

module _ (envs : ℕ → Env) (locked : ℕ → Bool) (calm : (i : ℕ) → Uncontended (envs i))
    (unlocked : (i : ℕ) → locked i ≡ false) where
  check_loop-Drained :
      (fuel : ℕ) (ws : List Rpc) (p : Pool) (uses : List ℕ)
      → IsServing p uses
      → p.bpages_needed ≡ needed_for ws
      → AllNonempty ws
      → total_needed ws + length uses < int_max
      → length ws < fuel
      → (sk : Sock) × (rpcs : List Rpc) × (check_loop fuel envs locked
            (record { pool = p; waiting_for_bufs = ws })
          ≡ some (sk, rpcs))
        × Drained uses ws sk rpcs
  check_loop-Drained zero ws p uses v ne pos few more = absurd (omega arith)
  check_loop-Drained (suc fuel) [] p uses v ne pos few more =
      elim (Bool-cases (leb p.bpages_needed p.free_bpages)) [
        | inr stop ↦ (
          record { pool = p; waiting_for_bufs = [] },
          [],
          check_loop_stop fuel envs locked (record { pool = p; waiting_for_bufs = [] }) stop,
          record {
            order = refl;
            served = tt;
            consistent = v.consistent;
            maximal = inl refl;
            needed = ne;
          },
        )
        | inl go ↦ (
          record { pool = set_bpages_needed p []; waiting_for_bufs = [] },
          [],
          check_loop_go fuel envs locked (record { pool = p; waiting_for_bufs = [] }) go
              ∙ unfold retry_first in refl,
          record {
            order = refl;
            served = tt;
            consistent = (needed-IsServing p uses [] v).consistent;
            maximal = inl refl;
            needed = set_bpages_needed_lem p [];
          },
        )
      ]
  check_loop-Drained (suc fuel) (r ∷ rest) p uses v ne pos few more =
      elim (Bool-cases (leb p.bpages_needed p.free_bpages)) [
        | inr stop ↦ (
          record { pool = p; waiting_for_bufs = r ∷ rest },
          [],
          check_loop_stop fuel envs locked (record { pool = p; waiting_for_bufs = r ∷ rest }) stop,
          record {
            order = refl;
            served = tt;
            consistent = v.consistent;
            maximal = inr (ground arith);
            needed = ne;
          },
        )
        | inl go ↦
            let p' = set_bpages_needed p rest in
            let (q, offsets, done, s) =
              serve p' uses (envs fuel) r rest (calm fuel) (needed-IsServing p uses rest v)
                (omega arith) (ground (arith, set_bpages_needed-free p rest)) in
            let (sk, rpcs, ends, d) =
              check_loop-Drained fuel rest q (map page_of offsets ++ uses) s.serving
                (s.same.2 ∙ set_bpages_needed_lem p rest) pos.1
                (omega (
                  arith,
                  length-append (map page_of offsets) uses,
                  length-map offsets page_of,
                  s.number,
                ))
                (omega arith) in
            (
              sk,
              record r { bpage_offsets = offsets } ∷ rpcs,
              check_loop_go fuel envs locked (record { pool = p; waiting_for_bufs = r ∷ rest }) go
                  ∙ retry_ready (envs fuel) (locked fuel) p r rest _ _ _ (unlocked fuel) done
                  ∙ after_retry-ready (check_loop fuel envs locked) _ sk
                      (record r { bpage_offsets = offsets }) rpcs (omega (arith, s.number)) ends,
              Drained-cons uses offsets r rest sk rpcs s.number d,
            )
      ]

-- homa_pool_check_waiting ends, where no other core holds the locks that it tries: it wakes the RPCs at
-- the head of the waiting list, in order, each with exactly the buffers that its message needs, and
-- leaves the others in order; the pool's account counts the new buffers; and no RPC is left waiting
-- unless the free bpages are too few for the first of those left, which `bpages_needed` records. It
-- makes at most one turn for each waiting RPC and one more. This supposes a pool with a region of at most
-- 65536 bpages, whose account and `bpages_needed` are right, messages of some bytes that wait, and fewer than
-- 2 ^ 31 - 1 buffers needed and uses of bpages.
pub check_waiting-Drained :
    (envs : ℕ → Env) (locked : ℕ → Bool) (fuel : ℕ) (sk : Sock) (uses : List ℕ)
    → ((i : ℕ) → Uncontended (envs i))
    → ((i : ℕ) → locked i ≡ false)
    → IsConsistent sk.pool uses
    → sk.pool.num_bpages ≤ 65536
    → has_region sk.pool ≡ true
    → sk.pool.bpages_needed ≡ needed_for sk.waiting_for_bufs
    → AllNonempty sk.waiting_for_bufs
    → total_needed sk.waiting_for_bufs + length uses < int_max
    → length sk.waiting_for_bufs < fuel
    → (sk' : Sock) × (rpcs : List Rpc) × (check_waiting fuel envs locked sk ≡ some (sk', rpcs))
      × Drained uses sk.waiting_for_bufs sk' rpcs
unfolding check_waiting
check_waiting-Drained envs locked fuel sk uses calm unlocked v small region needed pos few more =
    rw region (
      check_loop-Drained envs locked calm unlocked fuel sk.waiting_for_bufs sk.pool uses
        (record { consistent = v; small = small; region = region }) needed pos few more)
