-- ===== src/Reap/All.antt =====
-- homa_rpc_reap ends, frees only what nobody uses, and loses nothing.
use homa_module.Prelude.{
  ℕ, zero, suc, ◌+◌, ◌-◌, ◌≤◌, ◌<◌, ◌≡◌, refl, sym, ap, ◌∙◌, inl, inr, Bool, true, false, not, ◌&&◌,
  Option, some, List, [], ◌∷◌, ◌++◌, arith, ◌==◌, Bool-cases, one_if, count, count-append, Each,
  Each-append, Each-map,
}
use homa_module.Reap.{
  DeadRpc, Pass, collect, Reaped, freed_before, batch_size, reap_loop, weight, rpc_reap,
}
use homa_module.Reap.Passes.{all_ids, all_skbs, PassSpec, collect-PassSpec}

module _ (refs users : ℕ → ℕ → ℕ) (protect : ℕ → Bool) (reap_all : Bool) where
  -- What homa_rpc_reap has done with the dead RPCs.
  pub record ReapSpec (dead : List DeadRpc) (r : Reaped) : Type 0 where
    pub skbs : (q : ℕ) → count q (all_skbs dead) ≡ count q r.skbs + count q (all_skbs r.dead)
    pub rpcs : (q : ℕ) → count q (all_ids dead) ≡ count q r.rpcs + count q (all_ids r.dead)
    pub unused_skbs : Each (λ q. (turn : ℕ) × (users turn q ≤ 1)) r.skbs
    pub unused_rpcs : Each (λ q. (turn : ℕ) × (refs turn q ≤ 1)) r.rpcs
    pub complete :
        ((turn q : ℕ) → refs turn q ≤ 1)
        → ((turn q : ℕ) → users turn q ≤ 1)
        → ((turn : ℕ) → protect turn ≡ false)
        → r.more ≡ false
        → r.dead ≡ []
    pub all : reap_all ≡ true → r.more ≡ false

  nothing-ReapSpec :
      (dead : List DeadRpc) (more : Bool)
      → (more ≡ false → ((turn : ℕ) → protect turn ≡ false) → dead ≡ [])
      → (reap_all ≡ true → more ≡ false)
      → ReapSpec dead (record { skbs = []; rpcs = []; dead = dead; more = more })
  nothing-ReapSpec dead more done all = record {
    skbs = λ q. omega arith;
    rpcs = λ q. omega arith;
    unused_skbs = tt;
    unused_rpcs = tt;
    complete = λ r u p e. done e p;
    all = all;
  }

  abbrev pub Ended : List DeadRpc → Option Reaped → Type 0
  Ended dead o = (r : Reaped) × (o ≡ some r) × ReapSpec dead r

  freed_before-Ended :
      (turn : ℕ) (dead : List DeadRpc) (p : Pass) (o : Option Reaped)
      → PassSpec (refs turn) (users turn) dead p
      → Ended p.dead o
      → Ended dead (freed_before p o)
  freed_before-Ended turn dead p o s (r, e, h) = (
    record r { skbs = p.skbs ++ r.skbs; rpcs = p.rpcs ++ r.rpcs },
    ap (freed_before p) e,
    record {
      skbs = λ q. omega (arith, s.skbs q, h.skbs q, count-append q p.skbs r.skbs);
      rpcs = λ q. omega (arith, s.rpcs q, h.rpcs q, count-append q p.rpcs r.rpcs);
      unused_skbs =
          Each-append (λ q. (turn' : ℕ) × (users turn' q ≤ 1)) p.skbs r.skbs
            (Each-map (λ q. users turn q ≤ 1) (λ q. (turn' : ℕ) × (users turn' q ≤ 1)) p.skbs
              (λ x k. (turn, k)) s.unused_skbs)
            h.unused_skbs;
      unused_rpcs =
          Each-append (λ q. (turn' : ℕ) × (refs turn' q ≤ 1)) p.rpcs r.rpcs
            (Each-map (λ q. refs turn q ≤ 1) (λ q. (turn' : ℕ) × (refs turn' q ≤ 1)) p.rpcs
              (λ x k. (turn, k)) s.unused_rpcs)
            h.unused_rpcs;
      complete = h.complete;
      all = h.all;
    },
  )

  Pass-ReapSpec :
      (turn : ℕ) (dead : List DeadRpc) (p : Pass)
      → PassSpec (refs turn) (users turn) dead p
      → p.checked_all ≡ true
      → ReapSpec dead (record { skbs = p.skbs; rpcs = p.rpcs; dead = p.dead; more = false })
  Pass-ReapSpec turn dead p s e = record {
    skbs = s.skbs;
    rpcs = s.rpcs;
    unused_skbs =
        Each-map (λ q. users turn q ≤ 1) (λ q. (turn' : ℕ) × (users turn' q ≤ 1)) p.skbs
          (λ x k. (turn, k)) s.unused_skbs;
    unused_rpcs =
        Each-map (λ q. refs turn q ≤ 1) (λ q. (turn' : ℕ) × (refs turn' q ≤ 1)) p.rpcs
          (λ x k. (turn, k)) s.unused_rpcs;
    complete = λ r u _ _. s.complete (r turn) (u turn) e;
    all = λ _. refl;
  }

  reap_loop-Ended :
      (fuel limit : ℕ) (dead : List DeadRpc)
      → weight dead < fuel
      → Ended dead (reap_loop refs users protect reap_all fuel limit dead)
  unfolding reap_loop
  reap_loop-Ended zero limit dead h = absurd (omega (arith, h))
  reap_loop-Ended (suc fuel) limit dead h = elim (Bool-cases (not reap_all && (limit == 0))) [
    | inl e ↦ rw e (
      record { skbs = []; rpcs = []; dead = dead; more = true },
      refl,
      nothing-ReapSpec dead true (λ e' _. absurd (omega (arith, ap one_if e')))
          (λ all. absurd (ground (arith, e, all))),
    )
    | inr e ↦ elim (Bool-cases (protect fuel)) [
      | inl held ↦
          rw (e, held)
            (
              record { skbs = []; rpcs = []; dead = dead; more = false },
              refl,
              nothing-ReapSpec dead false
                  (λ _ free. absurd (omega (arith, ap one_if (sym held ∙ free fuel)))) (λ _. refl),
            )
      | inr free ↦
          let batch = batch_size reap_all limit in
          let some_batch : 1 ≤ batch_size reap_all limit = ground (arith, e) in
          let p = collect (refs fuel) (users fuel) batch batch dead in
          let s =
            collect-PassSpec (refs fuel) (users fuel) batch batch dead some_batch some_batch in
          elim (Bool-cases p.checked_all) [
            | inl last ↦
                rw (e, free, last)
                  (
                    record { skbs = p.skbs; rpcs = p.rpcs; dead = p.dead; more = false },
                    refl,
                    Pass-ReapSpec fuel dead p s last,
                  )
            | inr more ↦
                rw (e, free, more)
                  (freed_before-Ended fuel dead p
                    (reap_loop refs users protect reap_all fuel (limit - batch) p.dead) s
                    (reap_loop-Ended fuel (limit - batch) p.dead
                      (omega (arith, s.progress more, h))))
          ]
    ]
  ]

  -- homa_rpc_reap ends, whatever references other cores take and drop meanwhile. Each packet and each RPC of
  -- `dead_rpcs` is then freed or still there, none of them freed twice or lost. Each one freed had no reference
  -- but one in some turn. With reap_all the result is 0. If nobody else refers to an RPC or a packet and
  -- the socket is not protected, a result of 0 means that no dead RPC is left.
  pub rpc_reap_lem :
      (reap_limit : ℕ) (dead : List DeadRpc)
      → (r : Reaped) × (rpc_reap refs users protect reap_all reap_limit dead ≡ some r)
        × ReapSpec dead r
  unfolding rpc_reap
  rpc_reap_lem reap_limit [] = (
    record { skbs = []; rpcs = []; dead = []; more = false },
    refl,
    nothing-ReapSpec [] false (λ _ _. refl) (λ _. refl),
  )
  rpc_reap_lem reap_limit (rpc ∷ rpcs) =
      reap_loop-Ended (suc (weight (rpc ∷ rpcs))) reap_limit (rpc ∷ rpcs) (omega arith)
