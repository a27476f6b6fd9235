-- ===== src/Pool/Buffers/Release.antt =====
-- homa_pool_set_region and homa_pool_release_buffers keep the account of the bpages.
use homa_module.Prelude.{
  ℕ, zero, suc, ◌+◌, ◌-◌, ◌/◌, ◌%◌, ◌≤◌, ◌<◌, ◌≡◌, ◌≢◌, ◌⊎◌, inl, inr, refl, ◌∙◌, Bool, true, false,
  Option, none, some, List, [], ◌∷◌, ◌++◌, arith, ltb, if◌then◌else◌, Bool-cases, length,
  length-set, length-replicate, replicate,
}
use homa_module.Pool.{Pool, bpage_at, bpage_size, int_max, u32_mod}
use homa_module.Pool.Counting.{count, zeros, zeros-set, count-le-length}
use homa_module.Pool.Conserve.{IsConsistent, SameRegion, SameRegion-trans, owns, set-refs}
use homa_module.Pool.Buffers.{
  drop_ref, release_loop, release_buffers, Errno, einval, has_region, set_region, fresh_pool,
  fresh_bpage,
}

bpage_at-replicate : (n i : ℕ) → i < n → bpage_at (replicate n fresh_bpage) i ≡ fresh_bpage
bpage_at-replicate zero i h = absurd (omega arith)
bpage_at-replicate (suc n) zero h = refl
bpage_at-replicate (suc n) (suc i) h = bpage_at-replicate n i (omega arith)

zeros-replicate : (n : ℕ) → zeros (replicate n fresh_bpage) ≡ n
zeros-replicate zero = refl
zeros-replicate (suc n) = omega (arith, zeros-replicate n)

pub fresh-IsConsistent :
    (region n cores : ℕ) (kernel : Bool)
    → 0 < n
    → IsConsistent (fresh_pool region n cores kernel) []
fresh-IsConsistent region n cores kernel h = record {
  size = length-replicate n fresh_bpage;
  nonempty = h;
  refs = λ i hi. rw (bpage_at-replicate n i hi);
  free = zeros-replicate n;
  within = λ i hi. absurd (omega arith);
}

-- A region that homa_pool_set_region accepts gives a consistent pool, all of it free, and it is at
-- most 2 ^ 31 - 1 bpages; the old pool has no region. What it refuses leaves the pool as it was.
pub set_region_lem :
    (p : Pool) (region size : ℕ) (kernel : Bool) (cores : ℕ) (a b : Bool)
    → let (q, e) = set_region p region size kernel cores a b in
      ((e ≡ none)
        × (has_region p ≡ false)
        × IsConsistent q []
        × (q.free_bpages ≡ q.num_bpages)
        × (q.num_bpages ≤ int_max))
      ⊎ ((e ≢ none) × (q ≡ p))
unfolding set_region
set_region_lem p region size kernel cores a b =
    ground (arith, fresh-IsConsistent region (size / bpage_size % u32_mod) cores kernel)

-- One buffer of bpage `i` goes back.
module _ (p : Pool) (i : ℕ) (uses : List ℕ) (few : length uses < int_max)
    (v : IsConsistent p (i ∷ uses)) where
  inside : i < p.num_bpages
  inside = v.within i (ground arith)

  -- The count does not wrap.
  dropped_refs :
      ((bpage_at p.descriptors i).refs + u32_mod - 1) % u32_mod
      ≡ count i uses + owns (bpage_at p.descriptors i)
  dropped_refs = ground (arith, v.refs i inside, count-le-length i uses)

  drop_ref-free : zeros (drop_ref p i).descriptors ≡ (drop_ref p i).free_bpages
  unfolding drop_ref
  drop_ref-free = ground (
    arith,
    zeros-set p.descriptors i (record (bpage_at p.descriptors i) {
      refs = ((bpage_at p.descriptors i).refs + u32_mod - 1) % u32_mod;
    }),
    inside,
    v.size,
    v.free,
    v.refs i inside,
  )

  drop_ref-IsConsistent : IsConsistent (drop_ref p i) uses
  unfolding drop_ref
  drop_ref-IsConsistent = record {
    size = length-set p.descriptors i _ ∙ v.size;
    nonempty = v.nonempty;
    refs =
        set-refs p.descriptors p.num_bpages i _ (i ∷ uses) uses (omega (arith, inside, v.size))
          v.refs (λ j h. ground arith) dropped_refs;
    free = drop_ref-free;
    within = λ j h. v.within j (omega arith);
  }

-- The bpages of those offsets that lie in the pool.
abbrev pub valid_pages : ℕ → List ℕ → List ℕ
valid_pages n [] = []
valid_pages n (offset ∷ offsets) =
    if ltb (offset / bpage_size) n
    then (offset / bpage_size) ∷ valid_pages n offsets
    else valid_pages n offsets

length-valid_pages-le : (n : ℕ) (offsets : List ℕ) → length (valid_pages n offsets) ≤ length offsets
length-valid_pages-le n [] = omega arith
length-valid_pages-le n (o ∷ os) = ground (arith, length-valid_pages-le n os)

-- What a release leaves: the first error stays.
record Released (n : ℕ) (p : Pool) (before : Option Errno) (offsets rest : List ℕ)
    (out : Pool × Option Errno) : Type 0 where
  consistent : IsConsistent out.0 rest
  result :
      out.1
      ≡ (if ltb (length (valid_pages n offsets)) (length offsets) then some einval else before)
  grows : p.free_bpages ≤ out.0.free_bpages
  same : SameRegion out.0 p

drop_ref-same :
    (p : Pool) (i : ℕ) → SameRegion (drop_ref p i) p × (p.free_bpages ≤ (drop_ref p i).free_bpages)
unfolding drop_ref
drop_ref-same p i = ground arith

release_valid :
    (p : Pool) (before : Option Errno) (o : ℕ) (os : List ℕ)
    → ltb (o / bpage_size) p.num_bpages ≡ true
    → release_loop p before (o ∷ os) ≡ release_loop (drop_ref p (o / bpage_size)) before os
unfolding release_loop
release_valid p before o os e = rw e

release_invalid :
    (p : Pool) (before : Option Errno) (o : ℕ) (os : List ℕ)
    → ltb (o / bpage_size) p.num_bpages ≡ false
    → release_loop p before (o ∷ os) ≡ release_loop p (some einval) os
unfolding release_loop
release_invalid p before o os e = rw e

release_loop-Released :
    (n : ℕ) (p : Pool) (before : Option Errno) (offsets rest : List ℕ)
    → p.num_bpages ≡ n
    → length (valid_pages n offsets ++ rest) < int_max
    → IsConsistent p (valid_pages n offsets ++ rest)
    → Released n p before offsets rest (release_loop p before offsets)
unfolding release_loop
release_loop-Released n p before [] rest en few v = record {
  consistent = v;
  result = refl;
  grows = omega arith;
  same = (refl, refl, refl);
}
release_loop-Released n p before (o ∷ os) rest en few v =
    elim (Bool-cases (ltb (o / bpage_size) n)) [
      | inl e ↦
          let i = o / bpage_size in
          let few' : length (valid_pages n os ++ rest) + 1 < int_max = ground arith in
          let v' : IsConsistent p (i ∷ (valid_pages n os ++ rest)) = rw e at v in
          let ih =
            release_loop-Released n (drop_ref p i) before os rest ((drop_ref-same p i).0.1 ∙ en)
              (omega arith)
              (drop_ref-IsConsistent p i (valid_pages n os ++ rest) (omega arith) v') in
          rw (release_valid p before o os (rw en e)) (record {
            consistent = ih.consistent;
            result = ih.result ∙ ground arith;
            grows = omega (arith, (drop_ref-same p i).1, ih.grows);
            same =
                SameRegion-trans (release_loop (drop_ref p i) before os).0 (drop_ref p i) p ih.same
                  (drop_ref-same p i).0;
          })
      | inr e ↦
          let ih = release_loop-Released n p (some einval) os rest en (ground arith) (rw e at v) in
          rw (release_invalid p before o os (rw en e)) (record {
            consistent = ih.consistent;
            result = ih.result ∙ ground (arith, length-valid_pages-le n os);
            grows = ih.grows;
            same = ih.same;
          })
    ]

pub release_buffers_lem :
    (p : Pool) (offsets rest : List ℕ)
    → has_region p ≡ true
    → length (valid_pages p.num_bpages offsets ++ rest) < int_max
    → IsConsistent p (valid_pages p.num_bpages offsets ++ rest)
    → let (q, e) = release_buffers p offsets in
      IsConsistent q rest
      × (e ≡ (
          if ltb (length (valid_pages p.num_bpages offsets)) (length offsets)
          then some einval
          else none))
      × (p.free_bpages ≤ q.free_bpages)
      × SameRegion q p
unfolding release_buffers
release_buffers_lem p offsets rest h few v =
    let w = release_loop-Released p.num_bpages p none offsets rest refl few v in
    rw h (w.consistent, w.result, w.grows, w.same)
