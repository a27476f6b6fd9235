-- ===== src/Pool/Search/Ends.antt =====
-- The search of homa_pool_get_pages comes to an end when no other core holds a bpage lock.
use homa_module.Prelude.{
  ℕ, zero, suc, ◌+◌, ◌-◌, ◌*◌, ◌≤◌, ◌<◌, ◌≡◌, inl, inr, Bool, false, List, arith, ◌==◌,
  if◌then◌else◌, Bool-cases, ltb, length, some,
}
use native.Mathlib.Numerals.{add-one}
use homa_module.Pool.{
  Bpage, Request, Scan, bpage_at, bpage_available, current_limit, scan_step, scan, scan_fuel,
}
use homa_module.Pool.Counting.{
  zeros_below, zeros_below-suc, zeros_below_zero, zeros_below_le, zeros-le-zeros_below,
}
use homa_module.Pool.Search.{
  OwnersCounted, Searched, restart, pass, take, step_case, step-Searched, claim-shape,
  current_limit_bounds,
}

-- Iterations until the next bpage is taken: if none is free between the candidate and the limit,
-- the search first goes back to the start.
phase : ℕ → Scan → ℕ
phase n s =
    let l = current_limit n s in
    (if ltb (zeros_below s.descriptors s.next_candidate) (zeros_below s.descriptors l)
      then 0
      else n + 2)
    + (l - s.next_candidate)

-- Iterations until all are taken.
pub cost : ℕ → ℕ → Scan → ℕ
unfolding phase
cost n num s = (num - length s.pages) * (2 * n + 3) + phase n s

limit_set : (n : ℕ) (t : Scan) → 0 < t.limit → current_limit n t ≡ t.limit
unfolding current_limit
limit_set n t h = ground arith

-- A round of `w` pays for any phase.
round_pays : (a b w x y : ℕ) → b < a → x < w → (a - (b + 1)) * w + x < (a - b) * w + y
round_pays a b w x y h k = let e : a - b ≡ suc (a - (b + 1)) = omega arith in rw e (grind arith)

fuel_pays : (a b w x : ℕ) → x < w → (a - b) * w + x < (a + 1) * w + 1
fuel_pays a b w x h = grind arith

module _ (n : ℕ) (r : Request) (ds : List Bpage) (owners : OwnersCounted n ds)
    (nonempty : 0 < n) where
  phase_bound : (s : Scan) → Searched n r ds s → phase n s < 2 * n + 3
  unfolding phase
  phase_bound s v = ground (arith, current_limit_bounds n r ds owners nonempty s v)

  -- There is a free bpage below the limit as long as one is missing.
  free_below_limit :
      (s : Scan)
      → Searched n r ds s
      → length s.pages < r.num_pages
      → 0 < zeros_below s.descriptors (current_limit n s)
  free_below_limit s v room = omega (
    arith,
    current_limit_bounds n r ds owners nonempty s v,
    zeros-le-zeros_below s.descriptors (current_limit n s),
    v.size,
    v.free,
  )

  restart_cost :
      (s : Scan)
      → Searched n r ds s
      → Searched n r ds (record s { next_candidate = 0; limit = 0 })
      → length s.pages < r.num_pages
      → current_limit n s ≤ s.next_candidate
      → phase n (record s { next_candidate = 0; limit = 0 }) < phase n s
  unfolding phase
  restart_cost s v w room h = ground (
    arith,
    free_below_limit (record s { next_candidate = 0; limit = 0 }) w room,
    current_limit_bounds n r ds owners nonempty (record s { next_candidate = 0; limit = 0 }) w,
    zeros_below_zero s.descriptors,
    zeros_below_le s.descriptors (current_limit n s) s.next_candidate h,
  )

  limit_kept :
      (s : Scan) (c : ℕ)
      → Searched n r ds s
      → current_limit n (record s { next_candidate = c; limit = current_limit n s })
        ≡ current_limit n s
  limit_kept s c v = limit_set n _ (current_limit_bounds n r ds owners nonempty s v).0

  pass_cost :
      (s : Scan)
      → Searched n r ds s
      → s.next_candidate < current_limit n s
      → bpage_available (bpage_at s.descriptors s.next_candidate) r.now ≡ false
      → phase n (record s { next_candidate = s.next_candidate + 1; limit = current_limit n s })
        < phase n s
  unfolding phase bpage_available
  pass_cost s v h f = ground (
    arith,
    limit_kept s (s.next_candidate + 1) v,
    zeros_below-suc s.descriptors s.next_candidate,
    add-one s.next_candidate,
  )

  -- Every iteration brings the end nearer.
  step_cost :
      (s : Scan)
      → Searched n r ds s
      → length s.pages < r.num_pages
      → cost n r.num_pages (scan_step n r false s) < cost n r.num_pages s
  unfolding cost
  step_cost s v room = elim (step_case n r ds owners nonempty false s) [
    | restart h e ↦ rw e (
        omega (
          arith,
          restart_cost s v (rw e at (step-Searched n r ds owners nonempty false s v room)) room h,
        ))
    | pass h (inl f) e ↦ rw e (omega (arith, pass_cost s v h f))
    | pass h (inr f) e ↦ cc
    | take h f e ↦
        let more : length (scan_step n r false s).pages ≡ length s.pages + 1 =
          rw e (claim-shape n r ds owners nonempty _ s.next_candidate).1 in
        rw more (
          round_pays r.num_pages (length s.pages) (2 * n + 3) _ (phase n s) room
            (phase_bound _ (step-Searched n r ds owners nonempty false s v room)))
  ]

  -- With more fuel than the cost the loop ends.
  pub scan_ends :
      (fuel : ℕ) (contended : ℕ → Bool) (s : Scan)
      → ((i : ℕ) → contended i ≡ false)
      → Searched n r ds s
      → cost n r.num_pages s < fuel
      → (t : Scan) × (scan fuel n r contended s ≡ some t)
  unfolding scan
  scan_ends zero contended s free v h = absurd (omega arith)
  scan_ends (suc fuel) contended s free v h = elim (Bool-cases (length s.pages == r.num_pages)) [
    | inl e ↦ (s, rw e)
    | inr e ↦
        rw (e, free fuel)
          (scan_ends fuel contended (scan_step n r false s) free
            (step-Searched n r ds owners nonempty false s v (ground (arith, v.within)))
            (omega (arith, step_cost s v (ground (arith, v.within)))))
  ]

  -- The fuel that homa_pool_get_pages is given is more than that.
  pub cost-lt-scan_fuel :
      (s : Scan) → Searched n r ds s → cost n r.num_pages s < scan_fuel n r.num_pages
  unfolding cost scan_fuel
  cost-lt-scan_fuel s v =
      fuel_pays r.num_pages (length s.pages) (2 * n + 3) (phase n s) (phase_bound s v)
