-- ===== src/Peer/Evict/Sorting.antt =====
-- How homa_peer_pick_victims sorts a peer into the victims.
use homa_module.Prelude.{
  ℕ, suc, ◌≤◌, ◌≡◌, refl, sym, ap, inl, inr, true, false, Option, none, some, List, [], ◌∷◌, ◌++◌,
  arith, ◌==◌, Bool-cases, length, one_if, count, count-append, count-head, ==-same, among,
}
use homa_module.Peer.Evict.{Candidate, Peertab, prefer_evict, with_victim, sort_victim}

prefer_evict_asym :
    (t : Peertab) (p q : Candidate) → prefer_evict t p q ≡ true → prefer_evict t q p ≡ false
unfolding prefer_evict
prefer_evict_asym t p q h = ground (arith, h)

-- Who is not better than the next one is not better than those behind it.
prefer_evict_trans :
    (t : Peertab) (p q r : Candidate)
    → prefer_evict t p q ≡ false
    → prefer_evict t q r ≡ false
    → prefer_evict t p r ≡ false
unfolding prefer_evict
prefer_evict_trans t p q r h k = ground (arith, h, k)

module _ (t : Peertab) (memory : ℕ → Candidate) where
  -- The first peer is not better to evict than the second.
  abbrev pub Behind : ℕ → ℕ → Type 0
  Behind p q = prefer_evict t (memory p) (memory q) ≡ false

  abbrev pub IsSorted : List ℕ → Type 0
  IsSorted [] = Unit {0}
  IsSorted (v ∷ vs) = ((w : ℕ) → 1 ≤ count w vs → Behind w v) × IsSorted vs

  pub trans : (p q r : ℕ) → Behind p q → Behind q r → Behind p r
  trans p q r h k = prefer_evict_trans t (memory p) (memory q) (memory r) h k

  -- What sort_victim has in the end: the worst peer, and the others.
  pub record Sorting (p : ℕ) (vs : List ℕ) (r : List ℕ × Option ℕ) : Type 0 where
    pub worst : ℕ
    pub rest : r.1 ≡ some worst
    pub same : (x : ℕ) → count x (p ∷ vs) ≡ count x (worst ∷ r.0)
    pub sorted : IsSorted r.0
    pub last : (w : ℕ) → 1 ≤ count w r.0 → Behind worst w
    pub as_long : length r.0 ≡ length vs

  head_sorted :
      (p v : ℕ) (vs : List ℕ) (r : List ℕ × Option ℕ)
      → ((w : ℕ) → 1 ≤ count w (p ∷ vs) → Behind w v)
      → (s : Sorting p vs r) → (a b : ℕ) → ((x : ℕ) → count x (a ∷ b ∷ vs) ≡ count x (v ∷ p ∷ vs))
      → Sorting a (b ∷ vs) (with_victim v r)
  head_sorted p v vs r front s a b same = record {
    worst = s.worst;
    rest = s.rest;
    same = λ x. omega (arith, s.same x, same x);
    sorted = (λ w h. front w (omega (arith, h, s.same w)), s.sorted);
    last = λ w h. elim (among w v r.0 h) [
      | inl e ↦ rw (sym e) (front s.worst (omega (arith, s.same s.worst, count-head s.worst r.0)))
      | inr more ↦ s.last w more
    ];
    as_long = ap suc s.as_long;
  }

  swap_front :
      (p v : ℕ) (vs : List ℕ)
      → prefer_evict t (memory p) (memory v) ≡ true
      → IsSorted (v ∷ vs)
      → (w : ℕ) → 1 ≤ count w (v ∷ vs)
      → Behind w p
  swap_front p v vs better sorted w h =
      let first : Behind v p = prefer_evict_asym t (memory p) (memory v) better in
      elim (among w v vs h) [
        | inl e ↦ rw (sym e) first
        | inr more ↦ trans w v p (sorted.0 w more) first
      ]

  keep_front :
      (p v : ℕ) (vs : List ℕ)
      → Behind p v
      → IsSorted (v ∷ vs)
      → (w : ℕ) → 1 ≤ count w (p ∷ vs)
      → Behind w v
  keep_front p v vs behind sorted w h = elim (among w p vs h) [
    | inl e ↦ rw (sym e) behind
    | inr more ↦ sorted.0 w more
  ]

  pub sort_victim-Sorting :
      (p : ℕ) (vs : List ℕ)
      → count p vs ≡ 0
      → ((x : ℕ) → count x vs ≤ 1)
      → IsSorted vs
      → Sorting p vs (sort_victim t memory p vs)
  unfolding sort_victim
  sort_victim-Sorting p [] new once sorted = record {
    worst = p;
    rest = refl;
    same = λ x. refl;
    sorted = tt;
    last = λ w h. absurd (omega (arith, h));
    as_long = refl;
  }
  sort_victim-Sorting p (v ∷ vs) new once sorted =
      let fewer : (x : ℕ) → count x vs ≤ 1 = λ x. omega (arith, once x) in
      let other : (v == p) ≡ false = elim (Bool-cases (v == p)) [
        | inl e ↦ absurd (omega (arith, new, ap one_if e))
        | inr e ↦ e
      ] in
      let differs : (p == v) ≡ false = ground (arith, other) in
      elim (Bool-cases (prefer_evict t (memory p) (memory v))) [
        | inl e ↦
            let r =
              sort_victim-Sorting v vs (omega (arith, once v, count-head v vs)) fewer sorted.1 in
            rw (differs, e)
              (head_sorted v p vs (sort_victim t memory v vs) (swap_front p v vs e sorted) r p v
                (λ x. refl))
        | inr e ↦
            let r = sort_victim-Sorting p vs (omega (arith, new)) fewer sorted.1 in
            rw (differs, e)
              (head_sorted p v vs (sort_victim t memory p vs) (keep_front p v vs e sorted) r p v
                (λ x. omega arith))
      ]

  -- A victim is not taken twice.
  pub sort_victim-known :
      (p : ℕ) (vs : List ℕ) → 1 ≤ count p vs → IsSorted vs → sort_victim t memory p vs ≡ (vs, none)
  unfolding sort_victim
  sort_victim-known p [] h sorted = absurd (omega (arith, h))
  sort_victim-known p (v ∷ vs) h sorted = elim (Bool-cases (p == v)) [
    | inl e ↦ rw e refl
    | inr e ↦ elim (among p v vs h) [
      | inl same ↦ absurd (ground (arith, e, same))
      | inr more ↦ rw (e, sorted.0 p more, sort_victim-known p vs more sorted.1) refl
    ]
  ]

  pub IsSorted-append :
      (q : ℕ) (vs : List ℕ)
      → ((w : ℕ) → 1 ≤ count w vs → Behind q w)
      → IsSorted vs
      → IsSorted (vs ++ (q ∷ []))
  IsSorted-append q [] last sorted = (λ w h. absurd (omega (arith, h)), tt)
  IsSorted-append q (v ∷ vs) last sorted = (
    λ w h. elim (Bool-cases (q == w)) [
      | inl e ↦ rw (sym (==-same q w e)) (last v (omega (arith, count-head v vs)))
      | inr e ↦ sorted.0 w (omega (arith, h, count-append w vs (q ∷ []), ap one_if e))
    ],
    IsSorted-append q vs (λ w h. last w (omega (arith, h))) sorted.1,
  )
