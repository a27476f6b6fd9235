-- ===== src/Peer/Evict/Victims.antt =====
-- homa_peer_pick_victims finds the peers that are best to evict.
use homa_module.Prelude.{
  ℕ, ◌+◌, ◌*◌, ◌≤◌, ◌<◌, ◌≡◌, sym, ap, ◌∙◌, ◌⊎◌, inl, inr, true, false, Option, List, [], ◌∷◌, ◌++◌,
  arith, ltb, ◌==◌, Bool-cases, length, length-append, take, one_if, count, count-append,
  count-head, ==-same, ==-refl, among,
}
use homa_module.Peer.Evict.{
  Candidate, Peertab, may_evict, sort_victim, consider_peer, scan_peers, pick_victims,
}
use homa_module.Peer.Evict.Sorting.{
  Behind, IsSorted, Sorting, trans, sort_victim-Sorting, sort_victim-known, IsSorted-append,
}

module _ (t : Peertab) (memory : ℕ → Candidate) (max_victims : ℕ) where
  -- What the victims are to the peers that have been seen.
  record IsChoice (seen vs : List ℕ) : Type 0 where
    few : length vs ≤ max_victims
    once : (x : ℕ) → count x vs ≤ 1
    sorted : IsSorted t memory vs
    from : (x : ℕ) → 1 ≤ count x vs → (may_evict t (memory x) ≡ true) × (1 ≤ count x seen)
    best :
        (x : ℕ)
        → 1 ≤ count x seen
        → may_evict t (memory x) ≡ true
        → (1 ≤ count x vs)
          ⊎ ((length vs ≡ max_victims) × ((w : ℕ) → 1 ≤ count w vs → Behind t memory x w))

  no_victim : (p x : ℕ) → p ≡ x → may_evict t (memory p) ≡ false → may_evict t (memory x) ≡ true → ⊥
  no_victim p x e idle may =
      absurd (omega (arith, ap one_if (sym idle ∙ ap (λ y. may_evict t (memory y)) e ∙ may)))

  candidates_once :
      (p : ℕ) (vs : List ℕ)
      → count p vs ≡ 0
      → ((x : ℕ) → count x vs ≤ 1)
      → (x : ℕ) → count x (p ∷ vs) ≤ 1
  candidates_once p vs new once x = elim (Bool-cases (p == x)) [
    | inl e ↦ omega (arith, new, ap one_if e, ap (λ y. count y vs) (==-same p x e))
    | inr e ↦ omega (arith, once x, ap one_if e)
  ]

  candidates_from :
      (p : ℕ) (seen vs : List ℕ)
      → may_evict t (memory p) ≡ true
      → IsChoice seen vs
      → (x : ℕ) → 1 ≤ count x (p ∷ vs)
      → (may_evict t (memory x) ≡ true) × (1 ≤ count x (p ∷ seen))
  candidates_from p seen vs may c x h = elim (among x p vs h) [
    | inl e ↦ (rw (sym e) may, rw (sym e) (omega (arith, count-head p seen)))
    | inr more ↦ let (may', before) = c.from x more in (may', omega (arith, before))
  ]

  -- Each peer seen is a candidate now, or there were enough better ones before.
  candidates_best :
      (p : ℕ) (seen vs : List ℕ)
      → IsChoice seen vs
      → (x : ℕ) → 1 ≤ count x (p ∷ seen)
      → may_evict t (memory x) ≡ true
      → (1 ≤ count x (p ∷ vs))
        ⊎ ((length vs ≡ max_victims) × ((w : ℕ) → 1 ≤ count w vs → Behind t memory x w))
  candidates_best p seen vs c x h may = elim (among x p seen h) [
    | inl e ↦ inl (rw (sym e) (omega (arith, count-head p vs)))
    | inr more ↦ elim (c.best x more may) [
      | inl kept ↦ inl (omega (arith, kept))
      | inr full ↦ inr full
    ]
  ]

  unchanged-IsChoice :
      (p : ℕ) (seen vs : List ℕ)
      → (may_evict t (memory p) ≡ false) ⊎ (1 ≤ count p vs)
      → IsChoice seen vs
      → IsChoice (p ∷ seen) vs
  unchanged-IsChoice p seen vs why c = record {
    few = c.few;
    once = c.once;
    sorted = c.sorted;
    from = λ x h. let (may, before) = c.from x h in (may, omega (arith, before));
    best = λ x h may. elim (among x p seen h) [
      | inl e ↦ elim why [
        | inl idle ↦ absurd (no_victim p x e idle may)
        | inr already ↦ inl (rw (sym e) already)
      ]
      | inr more ↦ c.best x more may
    ];
  }

  appended-IsChoice :
      (p : ℕ) (seen vs vs' : List ℕ) (r : Option ℕ)
      → (s : Sorting t memory p vs (vs', r)) → length vs' < max_victims
      → count p vs ≡ 0
      → may_evict t (memory p) ≡ true
      → IsChoice seen vs
      → IsChoice (p ∷ seen) (vs' ++ (s.worst ∷ []))
  appended-IsChoice p seen vs vs' r s room new may c =
      let same : (x : ℕ) → count x (vs' ++ (s.worst ∷ [])) ≡ count x (p ∷ vs) =
        λ x. omega (arith, s.same x, count-append x vs' (s.worst ∷ [])) in
      record {
        few = omega (arith, room, length-append vs' (s.worst ∷ []));
        once = λ x. omega (arith, same x, candidates_once p vs new c.once x);
        sorted = IsSorted-append t memory s.worst vs' s.last s.sorted;
        from = λ x h. candidates_from p seen vs may c x (omega (arith, h, same x));
        best = λ x h may'. elim (candidates_best p seen vs c x h may') [
          | inl here ↦ inl (omega (arith, here, same x))
          | inr (full, behind) ↦ absurd (omega (arith, full, room, s.as_long))
        ];
      }

  not_both :
      (p : ℕ) (vs vs' : List ℕ) (r : Option ℕ)
      → (s : Sorting t memory p vs (vs', r)) → (w : ℕ) → count w (p ∷ vs) ≤ 1
      → count s.worst vs ≡ 0
      → p ≡ w
      → 1 ≤ count w vs'
      → ⊥
  not_both p vs vs' r s w once gone here h =
      elim (among s.worst p vs (omega (arith, s.same s.worst, count-head s.worst vs'))) [
        | inl e ↦ absurd (
            omega (
              arith,
              once,
              s.same w,
              h,
              ap one_if (==-refl s.worst),
              ap (λ y. one_if (s.worst == y)) (sym e ∙ here),
            ))
        | inr more ↦ absurd (omega (arith, more, gone))
      ]

  full-Behind :
      (p : ℕ) (vs vs' : List ℕ) (r : Option ℕ)
      → (s : Sorting t memory p vs (vs', r)) → (x : ℕ) → ((w : ℕ) → count w (p ∷ vs) ≤ 1)
      → ((w : ℕ) → 1 ≤ count w vs → Behind t memory x w)
      → (w : ℕ) → 1 ≤ count w vs'
      → Behind t memory x w
  full-Behind p vs vs' r s x once behind w h = elim (Bool-cases (ltb 0 (count s.worst vs))) [
    | inl e ↦ trans t memory x s.worst w (behind s.worst (ground (arith, e))) (s.last w h)
    | inr e ↦ elim (among w p vs (omega (arith, h, s.same w))) [
      | inl here ↦ absurd (not_both p vs vs' r s w (once w) (ground (arith, e)) here h)
      | inr more ↦ behind w more
    ]
  ]

  full-IsChoice :
      (p : ℕ) (seen vs vs' : List ℕ) (r : Option ℕ)
      → (s : Sorting t memory p vs (vs', r)) → max_victims ≤ length vs'
      → count p vs ≡ 0
      → may_evict t (memory p) ≡ true
      → IsChoice seen vs
      → IsChoice (p ∷ seen) vs'
  full-IsChoice p seen vs vs' r s full new may c = record {
    few = omega (arith, s.as_long, c.few);
    once = λ x. omega (arith, s.same x, candidates_once p vs new c.once x);
    sorted = s.sorted;
    from = λ x h. candidates_from p seen vs may c x (omega (arith, h, s.same x));
    best = λ x h may'. elim (candidates_best p seen vs c x h may') [
      | inl here ↦ elim (among x s.worst vs' (omega (arith, here, s.same x))) [
        | inl e ↦
            inr (omega (arith, full, s.as_long, c.few), λ w inside. rw (sym e) (s.last w inside))
        | inr kept ↦ inl kept
      ]
      | inr (enough, behind) ↦ inr (
        omega (arith, enough, s.as_long),
        full-Behind p vs vs' r s x (candidates_once p vs new c.once) behind,
      )
    ];
  }

  consider_peer-IsChoice :
      (p : ℕ) (seen vs : List ℕ)
      → IsChoice seen vs
      → IsChoice (p ∷ seen) (consider_peer t memory max_victims p vs)
  unfolding consider_peer
  consider_peer-IsChoice p seen vs c = elim (Bool-cases (may_evict t (memory p))) [
    | inr idle ↦ rw idle (unchanged-IsChoice p seen vs (inl idle) c)
    | inl may ↦ rw may (elim (Bool-cases (ltb 0 (count p vs))) [
      | inl e ↦
          let known : 1 ≤ count p vs = ground (arith, e) in
          rw (sort_victim-known t memory p vs known c.sorted)
            (unchanged-IsChoice p seen vs (inr known) c)
      | inr e ↦
          let new : count p vs ≡ 0 = ground (arith, e) in
          let r = sort_victim t memory p vs in
          let s = sort_victim-Sorting t memory p vs new c.once c.sorted in
          rw s.rest (elim (Bool-cases (ltb (length r.0) max_victims)) [
            | inl room ↦
                rw room (appended-IsChoice p seen vs r.0 r.1 s (ground (arith, room)) new may c)
            | inr full ↦
                rw full (full-IsChoice p seen vs r.0 r.1 s (ground (arith, full)) new may c)
          ])
    ])
  ]

  scan_peers-IsChoice :
      (all seen peers vs : List ℕ)
      → ((x : ℕ) → count x all ≡ count x seen + count x peers)
      → IsChoice seen vs
      → IsChoice all (scan_peers t memory max_victims peers vs)
  unfolding scan_peers
  scan_peers-IsChoice all seen [] vs same c = record {
    few = c.few;
    once = c.once;
    sorted = c.sorted;
    from = λ x h. let (may, before) = c.from x h in (may, omega (arith, before, same x));
    best = λ x h may. c.best x (omega (arith, h, same x)) may;
  }
  scan_peers-IsChoice all seen (p ∷ peers) vs same c =
      scan_peers-IsChoice all (p ∷ seen) peers (consider_peer t memory max_victims p vs)
        (λ x. omega (arith, same x)) (consider_peer-IsChoice p seen vs c)

  -- For any walk of the table, one that comes by a peer several times too, the victims are at most
  -- max_victims, none of them twice, and sorted with the best ones to evict first. Each passes the test of
  -- its idle time and is one of the peers looked at, the first of the walk, twice max_victims. And each of
  -- those that passes the test is a victim, or there are max_victims victims and it is not better to evict
  -- than any of them.
  pub pick_victims_lem :
      (walk : List ℕ)
      → let vs = pick_victims t memory max_victims walk in
        let seen = take (2 * max_victims) walk in
        (length vs ≤ max_victims)
        × ((x : ℕ) → count x vs ≤ 1)
        × IsSorted t memory vs
        × ((x : ℕ) → 1 ≤ count x vs → (may_evict t (memory x) ≡ true) × (1 ≤ count x seen))
        × ((x : ℕ)
            → 1 ≤ count x seen
            → may_evict t (memory x) ≡ true
            → (1 ≤ count x vs)
              ⊎ ((length vs ≡ max_victims) × ((w : ℕ) → 1 ≤ count w vs → Behind t memory x w)))
  unfolding pick_victims
  pick_victims_lem walk =
      let seen = take (2 * max_victims) walk in
      let none_yet : IsChoice [] [] = record {
        few = omega arith;
        once = λ x. omega arith;
        sorted = tt;
        from = λ x h. absurd (omega (arith, h));
        best = λ x h may. absurd (omega (arith, h));
      } in
      let c = scan_peers-IsChoice seen [] seen [] (λ x. omega arith) none_yet in
      (c.few, c.once, c.sorted, c.from, c.best)
