-- ===== src/Pool/Buffers/Allocate/Ends.antt =====
-- homa_pool_alloc_msg ends where no other core holds a bpage lock.
use homa_module.Prelude.{
  ℕ, ◌+◌, ◌/◌, ◌%◌, ◌<◌, ◌≡◌, inl, inr, refl, Bool, true, false, List, [], ◌∷◌, ◌++◌, map, arith,
  ltb, ◌==◌, Bool-cases, length, length-append,
}
use homa_module.Pool.{Pool, got, bpage_at, core_at, bpage_size, int_max}
use homa_module.Pool.Conserve.{IsConsistent, get_pages-Granted, get_pages-ends}
use homa_module.Pool.Buffers.{
  Env, Alloc, stuck, has_region, request, place_new, new_page, disown, owned_by, alloc_partial,
  alloc_full, alloc_rest, alloc_msg, page_offset,
}
use homa_module.Pool.Buffers.Allocate.Steps.{owned-inside, disown-IsConsistent}

abbrev pub is_stuck : Alloc → Bool
is_stuck stuck = true
is_stuck _ = false

-- Where no other core holds a bpage lock, each search ends.
module _ (env : Env) (calm : (k i : ℕ) → env.contended k i ≡ false) where
  new_page-ends :
      (p : Pool) (offsets uses : List ℕ) (partial : ℕ)
      → IsConsistent p uses
      → is_stuck (new_page p env offsets partial) ≡ false
  unfolding new_page
  new_page-ends p offsets uses partial v =
      elim (get_pages-ends p (request env 2 1 true) uses v (env.contended 2) (calm 2)) [
        | inl (few, e) ↦ rw e refl
        | inr (_, q, is, e) ↦ rw e (
            placed q is
              (get_pages-Granted p (request env 2 1 true) uses v (env.contended 2) e).number)
      ]
    where
      placed :
          (q : Pool) (is : List ℕ)
          → length is ≡ 1
          → is_stuck (place_new p offsets env.core_id (got q is) partial) ≡ false
      placed q [] one = absurd (omega (arith, one))
      placed q (i ∷ is) one = refl

  alloc_partial-ends :
      (p : Pool) (offsets uses : List ℕ) (partial : ℕ)
      → IsConsistent p uses
      → length uses < int_max
      → is_stuck (alloc_partial p env offsets partial) ≡ false
  unfolding alloc_partial
  alloc_partial-ends p offsets uses partial v few = elim (Bool-cases (partial == 0)) [
    | inl z ↦ rw z refl
    | inr nz ↦ elim (Bool-cases (owned_by env.core_id (bpage_at p.descriptors hint).owner)) [
      | inr other ↦ rw (nz, other) (new_page-ends p offsets uses partial v)
      | inl mine ↦
          elim (Bool-cases (ltb bpage_size ((core_at p env.core_id).allocated + partial))) [
            | inr room ↦ rw (nz, mine, room) refl
            | inl over ↦ elim (Bool-cases ((bpage_at p.descriptors hint).refs == 1)) [
              | inl alone ↦ rw (nz, mine, over, alone) refl
              | inr shared ↦
                  let (inside, owned) = owned-inside p env.core_id hint uses v mine in
                  rw (nz, mine, over, shared)
                    (new_page-ends (disown p hint) offsets uses partial
                      (disown-IsConsistent p hint uses few v inside owned (ground (arith, shared))))
            ]
          ]
    ]
  ]
    where
      hint : ℕ
      hint = (core_at p env.core_id).page_hint

  alloc_rest-ends :
      (p : Pool) (uses : List ℕ) (full partial : ℕ)
      → IsConsistent p uses
      → full + length uses < int_max
      → is_stuck (alloc_rest p env partial (alloc_full p env full)) ≡ false
  unfolding alloc_rest alloc_full
  alloc_rest-ends p uses full partial v few = elim (Bool-cases (full == 0)) [
    | inl z ↦ rw z (alloc_partial-ends p [] uses partial v (omega (arith, few)))
    | inr nz ↦
        elim (get_pages-ends p (request env 0 full false) uses v (env.contended 0) (calm 0)) [
          | inl (short, e) ↦ rw (nz, e) refl
          | inr (_, q, is, e) ↦
              let g = get_pages-Granted p (request env 0 full false) uses v (env.contended 0) e in
              rw (nz, e)
                (alloc_partial-ends q (map page_offset is) (is ++ uses) partial g.consistent
                  (omega (arith, few, length-append is uses, g.number)))
        ]
  ]

  pub alloc_msg-ends :
      (p : Pool) (uses : List ℕ) (len : ℕ)
      → IsConsistent p uses
      → len / bpage_size + length uses < int_max
      → is_stuck (alloc_msg p env len) ≡ false
  unfolding alloc_msg
  alloc_msg-ends p uses len v few = elim (Bool-cases (has_region p)) [
    | inl region ↦ rw region (alloc_rest-ends p uses (len / bpage_size) (len % bpage_size) v few)
    | inr bare ↦ rw bare refl
  ]
