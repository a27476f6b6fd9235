-- ===== src/Pool/Waiting/Enough.antt =====
-- A message for which there are enough free bpages gets its buffers (homa_pool.c), so the loop of
-- homa_pool_check_waiting can rely on `bpages_needed`.
use homa_module.Prelude.{
  ℕ, ◌+◌, ◌-◌, ◌*◌, ◌/◌, ◌%◌, ◌≤◌, ◌<◌, ◌≡◌, inl, inr, refl, true, false, List, [], ◌∷◌, ◌++◌, map,
  arith, ltb, ◌==◌, Bool-cases, length, length-append, set,
}
use homa_module.Pool.{
  Pool, PoolCore, got, bpage_at, core_at, bpage_size, get_pages, int_max, u32_mod,
}
use homa_module.Pool.Conserve.{IsConsistent, get_pages-Granted, get_pages-ends}
use homa_module.Pool.Buffers.{
  Env, Alloc, allocated, has_region, request, place_new, new_page, use_current, disown, owned_by,
  alloc_partial, alloc_full, alloc_rest, alloc_msg, page_offset,
}
use homa_module.Pool.Buffers.Allocate.{full-Granted, disown-IsConsistent, owned-inside}

-- No other core holds a bpage lock.
abbrev pub Uncontended : Env → Type 0
Uncontended env = (k i : ℕ) → env.contended k i ≡ false

abbrev Succeeds : Alloc → Type 0
Succeeds a = (q : Pool) × (offsets : List ℕ) × (a ≡ allocated q offsets)

module _ (env : Env) (calm : Uncontended env) where
  new_page-Succeeds :
      (p : Pool) (offsets uses : List ℕ) (partial : ℕ)
      → IsConsistent p uses
      → 0 < p.free_bpages
      → Succeeds (new_page p env offsets partial)
  unfolding new_page
  new_page-Succeeds p offsets uses partial v free =
      elim (get_pages-ends p (request env 2 1 true) uses v (env.contended 2) (calm 2)) [
        | inl (few, _) ↦ absurd (omega arith)
        | inr (_, q, is, e) ↦
            placed q is
              (get_pages-Granted p (request env 2 1 true) uses v (env.contended 2) e).number e
      ]
    where
      placed :
          (q : Pool) (is : List ℕ)
          → length is ≡ 1
          → get_pages p (request env 2 1 true) (env.contended 2) ≡ got q is
          → Succeeds (
              place_new p offsets env.core_id
                (get_pages p (request env 2 1 true) (env.contended 2))
                partial)
      placed q [] one e = absurd (omega arith)
      placed q (i ∷ is) one e = rw e (
        record q {
          cores =
              set q.cores env.core_id
                (record (core_at q env.core_id) { page_hint = i; allocated = 0 + partial });
        },
        offsets ++ ((0 + i * bpage_size) % u32_mod ∷ []),
        refl,
      )

  use_current-Succeeds :
      (p : Pool) (core : PoolCore) (offsets : List ℕ) (partial : ℕ)
      → Succeeds (use_current p env core offsets partial)
  unfolding use_current
  use_current-Succeeds p core offsets partial = (_, _, refl)

  disown-free : (p : Pool) (i : ℕ) → 0 < p.free_bpages → 0 < (disown p i).free_bpages
  unfolding disown
  disown-free p i h = h

  alloc_partial-Succeeds :
      (p : Pool) (offsets uses : List ℕ) (partial : ℕ)
      → length uses < int_max
      → IsConsistent p uses
      → (0 < partial → 0 < p.free_bpages)
      → Succeeds (alloc_partial p env offsets partial)
  unfolding alloc_partial
  alloc_partial-Succeeds p offsets uses partial few v free = elim (Bool-cases (partial == 0)) [
    | inl z ↦ rw z (p, offsets, refl)
    | inr nz ↦
        elim (Bool-cases (owned_by env.core_id (bpage_at p.descriptors core.page_hint).owner)) [
          | inr other ↦
              rw (nz, other) (new_page-Succeeds p offsets uses partial v (free (ground arith)))
          | inl mine ↦ elim (Bool-cases (ltb bpage_size (core.allocated + partial))) [
            | inr room ↦ rw (nz, mine, room) (use_current-Succeeds p core offsets partial)
            | inl over ↦ elim (Bool-cases ((bpage_at p.descriptors core.page_hint).refs == 1)) [
              | inl alone ↦
                  rw (nz, mine, over, alone)
                    (use_current-Succeeds p (record core { allocated = 0 }) offsets partial)
              | inr shared ↦
                  let (inside, owned) = owned-inside p env.core_id core.page_hint uses v mine in
                  rw (nz, mine, over, shared)
                    (new_page-Succeeds (disown p core.page_hint) offsets uses partial
                      (disown-IsConsistent p core.page_hint uses few v inside owned (ground arith))
                      (disown-free p core.page_hint (free (ground arith))))
            ]
          ]
        ]
  ]
    where
      core : PoolCore
      core = core_at p env.core_id

alloc_full-got :
    (p : Pool) (env : Env) (uses : List ℕ) (full : ℕ)
    → Uncontended env
    → IsConsistent p uses
    → full ≤ p.free_bpages
    → (q : Pool) × (is : List ℕ) × (alloc_full p env full ≡ got q is)
unfolding alloc_full
alloc_full-got p env uses full calm v enough = elim (Bool-cases (full == 0)) [
  | inl z ↦ rw z (p, [], refl)
  | inr nz ↦
      rw nz (elim (get_pages-ends p (request env 0 full false) uses v (env.contended 0) (calm 0)) [
        | inl (few, _) ↦ absurd (omega arith)
        | inr (_, q, is, e) ↦ (q, is, e)
      ])
]

alloc_rest-Succeeds :
    (p : Pool) (env : Env) (uses : List ℕ) (full partial : ℕ)
    → Uncontended env
    → IsConsistent p uses
    → full + length uses < int_max
    → full ≤ p.free_bpages
    → (0 < partial → full < p.free_bpages)
    → Succeeds (alloc_rest p env partial (alloc_full p env full))
unfolding alloc_rest
alloc_rest-Succeeds p env uses full partial calm v few enough more =
    let (q, is, e) = alloc_full-got p env uses full calm v enough in
    let w = full-Granted p env uses v full e in
    rw e (
      alloc_partial-Succeeds env calm q (map page_offset is) (is ++ uses) partial
        (omega (arith, length-append is uses, w.number)) w.consistent
        (λ pos. omega (arith, w.fewer_free, more pos)))

-- Where no other core holds a bpage lock, homa_pool_alloc_msg finds buffers for a message whenever the
-- free bpages are at least the message's length in bpages, rounded up.
pub alloc_msg-Succeeds :
    (p : Pool) (env : Env) (uses : List ℕ) (len : ℕ)
    → Uncontended env
    → IsConsistent p uses
    → has_region p ≡ true
    → len / bpage_size + length uses < int_max
    → (len + bpage_size - 1) / bpage_size ≤ p.free_bpages
    → Succeeds (alloc_msg p env len)
unfolding alloc_msg
alloc_msg-Succeeds p env uses len calm v region few enough = rw region (
    alloc_rest-Succeeds p env uses (len / bpage_size) (len % bpage_size) calm v few (omega arith)
      (λ pos. omega arith))
