-- ===== src/Pool/Search.antt =====
-- homa_pool_get_pages in homa_pool.c: what its search takes, and that it ends.
pub mod Ends
use homa_module.Prelude.{
  ℕ, zero, suc, ◌+◌, ◌-◌, ◌*◌, ◌≤◌, ◌<◌, ◌≡◌, ◌≢◌, ◌⊎◌, inl, inr, refl, Bool, true, false, List, [],
  ◌∷◌, ◌++◌, arith, ◌==◌, if◌then◌else◌, Bool-cases, leb, ltb, length, length-append, length-set,
  Option, none, some, set, ap, ◌∙◌, ℕ_discrete,
}
use homa_module.Pool.{
  Bpage, Request, Scan, bpage_at, no_bpage, is_some, bpage_available, claimed, claim, scan_limit,
  current_limit, scan_step, scan,
}
use homa_module.Pool.Counting.{
  count, count-append, zeros, zeros-set, zeros_below, zeros_below-suc, zeros_below_zero,
  zeros_below_le, is_free, zeros-le-zeros_below, zeros-le-length, get_or-set_self, get_or-set_ne,
}

-- An owner holds a reference.
abbrev pub OwnersCounted : ℕ → List Bpage → Type 0
OwnersCounted n ds =
    (p : ℕ) → p < n → is_some (bpage_at ds p).owner ≡ true → (bpage_at ds p).refs ≢ 0

-- What the search has done to the bpages `ds` since it started.
pub record Searched (n : ℕ) (r : Request) (ds : List Bpage) (s : Scan) : Type 0 where
  pub size : length s.descriptors ≡ n
  pub within : length s.pages ≤ r.num_pages
  pub free : zeros s.descriptors + length s.pages ≡ s.free_bpages + r.num_pages
  pub spent : zeros ds ≤ zeros s.descriptors + length s.pages
  pub limit_in : s.limit ≤ n
  pub limit_covers : (s.limit ≡ 0) ⊎ (n ≤ s.limit + s.free_bpages)
  pub kept : (p : ℕ) → count p s.pages ≡ 0 → bpage_at s.descriptors p ≡ bpage_at ds p
  pub taken : (p : ℕ) → 0 < count p s.pages → bpage_at s.descriptors p ≡ claimed r (bpage_at ds p)
  pub available :
      (p : ℕ) → 0 < count p s.pages → (p < n) × (bpage_available (bpage_at ds p) r.now ≡ true)
  pub once : (p : ℕ) → count p s.pages ≤ 1

-- A claimed bpage is not available again.
claimed-unavailable : (r : Request) (b : Bpage) → bpage_available (claimed r b) r.now ≡ false
unfolding bpage_available claimed
claimed-unavailable r b = ground arith

scan_limit_bounds :
    (n f : ℕ) → 0 < n → (0 < scan_limit n f) × (scan_limit n f ≤ n) × (n ≤ scan_limit n f + f)
unfolding scan_limit
scan_limit_bounds n f h = ground arith

module _ (n : ℕ) (r : Request) (ds : List Bpage) (owners : OwnersCounted n ds)
    (nonempty : 0 < n) where
  current_limit_bounds :
      (s : Scan)
      → Searched n r ds s
      → (0 < current_limit n s) × (current_limit n s ≤ n) × (n ≤ current_limit n s + s.free_bpages)
  unfolding current_limit
  current_limit_bounds s v = ground (arith, scan_limit_bounds n s.free_bpages)

  -- An available candidate has not been taken in this search.
  untaken :
      (s : Scan) (i : ℕ)
      → Searched n r ds s
      → bpage_available (bpage_at s.descriptors i) r.now ≡ true
      → count i s.pages ≡ 0
  untaken s i v h = ground (arith, v.taken i, v.once i, claimed-unavailable r (bpage_at ds i))

  -- Taking one keeps the account of free bpages.
  claim-free :
      (s : Scan) (i : ℕ)
      → Searched n r ds s
      → i < n
      → bpage_available (bpage_at s.descriptors i) r.now ≡ true
      → zeros (claim r s i).descriptors + length (claim r s i).pages
        ≡ (claim r s i).free_bpages + r.num_pages
  unfolding claim bpage_available
  claim-free s i v hi h = ground (
    arith,
    zeros-set s.descriptors i (claimed r (bpage_at s.descriptors i)),
    length-append s.pages (i ∷ []),
    owners i hi,
    v.kept i,
    untaken s i v h,
  )

  claim-spent :
      (s : Scan) (i : ℕ)
      → Searched n r ds s
      → i < n
      → zeros ds ≤ zeros (claim r s i).descriptors + length (claim r s i).pages
  unfolding claim
  claim-spent s i v hi = ground (
    arith,
    zeros-set s.descriptors i (claimed r (bpage_at s.descriptors i)),
    length-append s.pages (i ∷ []),
  )

  claim-frame :
      (s : Scan) (i p : ℕ)
      → p ≢ i
      → (bpage_at (claim r s i).descriptors p ≡ bpage_at s.descriptors p)
        × (count p (claim r s i).pages ≡ count p s.pages)
  unfolding claim
  claim-frame s i p h = ground (
    arith,
    get_or-set_ne s.descriptors i p (claimed r (bpage_at s.descriptors i)) no_bpage,
    count-append p s.pages (i ∷ []),
  )

  claim_self :
      (s : Scan) (i : ℕ)
      → i < length s.descriptors
      → (bpage_at (claim r s i).descriptors i ≡ claimed r (bpage_at s.descriptors i))
        × (count i (claim r s i).pages ≡ count i s.pages + 1)
  unfolding claim
  claim_self s i h = ground (
    arith,
    get_or-set_self s.descriptors i (claimed r (bpage_at s.descriptors i)) no_bpage,
    count-append i s.pages (i ∷ []),
  )

  claim-shape :
      (s : Scan) (i : ℕ)
      → (length (claim r s i).descriptors ≡ length s.descriptors)
        × (length (claim r s i).pages ≡ length s.pages + 1)
        × ((claim r s i).limit ≡ s.limit)
        × (s.free_bpages ≤ (claim r s i).free_bpages)
  unfolding claim
  claim-shape s i = ground (
    arith,
    length-set s.descriptors i (claimed r (bpage_at s.descriptors i)),
    length-append s.pages (i ∷ []),
  )

  claim-Searched :
      (s : Scan) (i : ℕ)
      → Searched n r ds s
      → i < n
      → bpage_available (bpage_at s.descriptors i) r.now ≡ true
      → length s.pages < r.num_pages
      → Searched n r ds (claim r s i)
  claim-Searched s i v hi h room = record {
    size = (claim-shape s i).0 ∙ v.size;
    within = omega (arith, (claim-shape s i).1);
    free = claim-free s i v hi h;
    spent = claim-spent s i v hi;
    limit_in = rw (claim-shape s i).2 v.limit_in;
    limit_covers = ground (arith, (claim-shape s i), v.limit_covers);
    kept = λ p e. elim (ℕ_discrete p i) [
      | yes same ↦ absurd (
          omega (
            arith,
            untaken s i v h,
            e,
            (claim_self s i (omega (arith, v.size))).1,
            ap (λ (q : ℕ). count q (claim r s i).pages) same,
          ))
      | no other ↦
          (claim-frame s i p other).0 ∙ v.kept p (omega (arith, (claim-frame s i p other).1))
    ];
    taken = λ p e. elim (ℕ_discrete p i) [
      | yes same ↦
          rw same (
            (claim_self s i (omega (arith, v.size))).0
            ∙ ap (claimed r) (v.kept i (untaken s i v h)))
      | no other ↦
          (claim-frame s i p other).0 ∙ v.taken p (omega (arith, (claim-frame s i p other).1))
    ];
    available = λ p e. elim (ℕ_discrete p i) [
      | yes same ↦ rw same (hi, rw (← v.kept i (untaken s i v h)) h)
      | no other ↦ v.available p (omega (arith, (claim-frame s i p other).1))
    ];
    once = λ p. elim (ℕ_discrete p i) [
      | yes same ↦
          rw same (omega (arith, untaken s i v h, (claim_self s i (omega (arith, v.size))).1))
      | no other ↦ omega (arith, v.once p, (claim-frame s i p other).1)
    ];
  }

  -- The three ways an iteration can go.
  data StepCase (locked : Bool) (s t : Scan) : Type 0 where
    restart :
        current_limit n s ≤ s.next_candidate
        → t ≡ record s { next_candidate = 0; limit = 0 }
        → StepCase locked s t
    pass :
        s.next_candidate < current_limit n s
        → (bpage_available (bpage_at s.descriptors s.next_candidate) r.now ≡ false)
          ⊎ (locked ≡ true)
        → t ≡ record s { next_candidate = s.next_candidate + 1; limit = current_limit n s }
        → StepCase locked s t
    take :
        s.next_candidate < current_limit n s
        → bpage_available (bpage_at s.descriptors s.next_candidate) r.now ≡ true
        → t
          ≡ claim r
              (record s { next_candidate = s.next_candidate + 1; limit = current_limit n s })
              s.next_candidate
        → StepCase locked s t

  step_case : (locked : Bool) (s : Scan) → StepCase locked s (scan_step n r locked s)
  unfolding scan_step
  step_case locked s = elim (Bool-cases (leb (current_limit n s) s.next_candidate)) [
    | inl e ↦ restart (ground arith) (rw e)
    | inr e ↦ elim (Bool-cases (bpage_available (bpage_at s.descriptors s.next_candidate) r.now)) [
      | inr f ↦ pass (ground arith) (inl f) (rw (e, f))
      | inl f ↦ elim (Bool-cases locked) [
        | inl g ↦ pass (ground arith) (inr g) (rw (e, f, g))
        | inr g ↦ take (ground arith) f (rw (e, f, g))
      ]
    ]
  ]

  move-Searched :
      (s : Scan) (c l : ℕ)
      → Searched n r ds s
      → l ≤ n
      → (l ≡ 0) ⊎ (n ≤ l + s.free_bpages)
      → Searched n r ds (record s { next_candidate = c; limit = l })
  move-Searched s c l v h k = record {
    size = v.size;
    within = v.within;
    free = v.free;
    spent = v.spent;
    limit_in = h;
    limit_covers = k;
    kept = v.kept;
    taken = v.taken;
    available = v.available;
    once = v.once;
  }

  advance-Searched :
      (s : Scan)
      → Searched n r ds s
      → Searched n r ds
          (record s { next_candidate = s.next_candidate + 1; limit = current_limit n s })
  advance-Searched s v =
      move-Searched s _ _ v (current_limit_bounds s v).1 (inr (current_limit_bounds s v).2)

  step-Searched :
      (locked : Bool) (s : Scan)
      → Searched n r ds s
      → length s.pages < r.num_pages
      → Searched n r ds (scan_step n r locked s)
  step-Searched locked s v room = elim (step_case locked s) [
    | restart _ e ↦ rw e (move-Searched s 0 0 v (omega arith) (inl refl))
    | pass _ _ e ↦ rw e (advance-Searched s v)
    | take h f e ↦ rw e (
        claim-Searched _ s.next_candidate (advance-Searched s v)
          (omega (arith, current_limit_bounds s v)) f room)
  ]

  -- Whatever locks are held, a search that ends has taken as many bpages as it was asked for.
  pub scan-Searched :
      (fuel : ℕ) (contended : ℕ → Bool) (s t : Scan)
      → Searched n r ds s
      → scan fuel n r contended s ≡ some t
      → Searched n r ds t × (length t.pages ≡ r.num_pages)
  unfolding scan
  scan-Searched zero contended s t v e = cc
  scan-Searched (suc fuel) contended s t v e = elim (Bool-cases (length s.pages == r.num_pages)) [
    | inl f ↦ ground arith
    | inr f ↦
        scan-Searched fuel contended (scan_step n r (contended fuel) s) t
          (step-Searched (contended fuel) s v (ground (arith, v.within))) (rw f at e)
  ]
