-- ===== src/Reap/Passes.antt =====
-- One pass of homa_rpc_reap over the dead RPCs.
use homa_module.Prelude.{
  ℕ, ◌+◌, ◌-◌, ◌≤◌, ◌<◌, ◌≡◌, refl, ap, ◌∙◌, inl, inr, true, false, List, [], ◌∷◌, ◌++◌, arith, leb,
  ltb, Bool-cases, length, length-append, one_if, count, count-append, Each, Each-append,
}
use homa_module.Reap.{
  DeadRpc, TakeEnd, emptied, active, full, Taken, take_skbs, Pass, keep_rpc, after_take, collect,
  weight,
}

abbrev pub all_ids : List DeadRpc → List ℕ
all_ids [] = []
all_ids (rpc ∷ rpcs) = rpc.id ∷ all_ids rpcs

abbrev pub all_skbs : List DeadRpc → List ℕ
all_skbs [] = []
all_skbs (rpc ∷ rpcs) = rpc.skbs ++ all_skbs rpcs

-- Where the loop on packets ends.
abbrev Ends : (ℕ → ℕ) → ℕ → List ℕ → List ℕ → TakeEnd → Type 0
Ends users room taken left emptied = (left ≡ []) × (length taken < room)
Ends users room taken left active = (((q : ℕ) → users q ≤ 1) → ⊥) × (length taken < room)
Ends users room taken left full = 1 ≤ length taken

record TakeSpec (users : ℕ → ℕ) (room : ℕ) (skbs : List ℕ) (t : Taken) : Type 0 where
  all : skbs ≡ t.skbs ++ t.left
  unused : Each (λ q. users q ≤ 1) t.skbs
  ends : Ends users room t.skbs t.left t.ending

with_skb-Ends :
    (users : ℕ → ℕ) (room skb : ℕ) (taken left : List ℕ) (e : TakeEnd)
    → Ends users (room - 1) taken left e
    → Ends users room (skb ∷ taken) left e
with_skb-Ends users room skb taken left emptied h = (h.0, omega (arith, h.1))
with_skb-Ends users room skb taken left active h = (h.0, omega (arith, h.1))
with_skb-Ends users room skb taken left full h = omega arith

take_skbs-TakeSpec :
    (users : ℕ → ℕ) (room : ℕ) (skbs : List ℕ)
    → 1 ≤ room
    → TakeSpec users room skbs (take_skbs users room skbs)
unfolding take_skbs
take_skbs-TakeSpec users room [] h = record {
  all = refl;
  unused = tt;
  ends = (refl, omega (arith, h));
}
take_skbs-TakeSpec users room (skb ∷ skbs) h = elim (Bool-cases (ltb 1 (users skb))) [
  | inl e ↦ rw e (record {
    all = refl;
    unused = tt;
    ends = (λ f. absurd (ground (arith, e, f skb)), omega (arith, h));
  })
  | inr e ↦ elim (Bool-cases (leb room 1)) [
    | inl last ↦
        rw (e, last) (record { all = refl; unused = (ground (arith, e), tt); ends = omega arith })
    | inr more ↦
        let r = take_skbs-TakeSpec users (room - 1) skbs (ground (arith, more)) in
        rw (e, more)
          (record {
            all = ap (λ x. skb ∷ x) r.all;
            unused = (ground (arith, e), r.unused);
            ends =
                with_skb-Ends users room skb (take_skbs users (room - 1) skbs).skbs
                  (take_skbs users (room - 1) skbs).left (take_skbs users (room - 1) skbs).ending
                  r.ends;
          })
  ]
]

pub record PassSpec (refs users : ℕ → ℕ) (dead : List DeadRpc) (p : Pass) : Type 0 where
  pub skbs : (q : ℕ) → count q (all_skbs dead) ≡ count q p.skbs + count q (all_skbs p.dead)
  pub rpcs : (q : ℕ) → count q (all_ids dead) ≡ count q p.rpcs + count q (all_ids p.dead)
  pub unused_skbs : Each (λ q. users q ≤ 1) p.skbs
  pub unused_rpcs : Each (λ q. refs q ≤ 1) p.rpcs
  pub less : weight p.dead ≤ weight dead
  pub progress : p.checked_all ≡ false → weight p.dead < weight dead
  pub complete :
      ((q : ℕ) → refs q ≤ 1) → ((q : ℕ) → users q ≤ 1) → p.checked_all ≡ true → p.dead ≡ []

after_take-PassSpec :
    (refs users : ℕ → ℕ) (rpc : DeadRpc) (rpcs : List DeadRpc) (room rpc_room : ℕ)
    (taken left : List ℕ) (e : TakeEnd) (kept freed : Pass)
    → refs rpc.id ≤ 1
    → rpc.skbs ≡ taken ++ left
    → Each (λ q. users q ≤ 1) taken
    → Ends users room taken left e
    → (1 ≤ room - length taken → PassSpec refs users rpcs kept)
    → (1 ≤ room - length taken → 1 ≤ rpc_room - 1 → PassSpec refs users rpcs freed)
    → PassSpec refs users (rpc ∷ rpcs) (after_take rpc rpcs rpc_room taken left e kept freed)
after_take-PassSpec refs users rpc rpcs room rpc_room taken left full kept freed ref all unused ends
      k f =
    let len : length rpc.skbs ≡ length taken + length left =
      ap length all ∙ length-append taken left in
    record {
      skbs = λ q. omega (
        arith,
        ap (count q) all,
        count-append q taken left,
        count-append q rpc.skbs (all_skbs rpcs),
        count-append q left (all_skbs rpcs),
      );
      rpcs = λ q. omega arith;
      unused_skbs = unused;
      unused_rpcs = tt;
      less = omega (arith, len);
      progress = λ e. omega (arith, len, ends);
      complete = λ r u e. absurd (omega (arith, ap one_if e));
    }
after_take-PassSpec refs users rpc rpcs room rpc_room taken left active kept freed ref all unused
      ends k f =
    let len : length rpc.skbs ≡ length taken + length left =
      ap length all ∙ length-append taken left in
    let s = k (omega (arith, ends.1)) in
    record {
      skbs = λ q. omega (
        arith,
        s.skbs q,
        ap (count q) all,
        count-append q taken left,
        count-append q taken kept.skbs,
        count-append q rpc.skbs (all_skbs rpcs),
        count-append q left (all_skbs kept.dead),
      );
      rpcs = λ q. omega (arith, s.rpcs q);
      unused_skbs = Each-append (λ q. users q ≤ 1) taken kept.skbs unused s.unused_skbs;
      unused_rpcs = s.unused_rpcs;
      less = omega (arith, len, s.less);
      progress = λ e. omega (arith, len, s.progress e);
      complete = λ r u e. absurd (ends.0 u);
    }
after_take-PassSpec refs users rpc rpcs room rpc_room taken left emptied kept freed ref all unused
      ends k f =
    let len : length rpc.skbs ≡ length taken + length left =
      ap length all ∙ length-append taken left in
    let same : (q : ℕ)
        → count q (rpc.skbs ++ all_skbs rpcs) ≡ count q taken + count q (all_skbs rpcs) =
      λ q. omega (
        arith,
        ap (count q) all,
        count-append q taken left,
        ap (count q) ends.0,
        count-append q rpc.skbs (all_skbs rpcs),
      ) in
    elim (Bool-cases (leb rpc_room 1)) [
      | inl e ↦ rw e (record {
        skbs = same;
        rpcs = λ q. omega arith;
        unused_skbs = unused;
        unused_rpcs = (ref, tt);
        less = omega (arith, len);
        progress = λ e'. omega (arith, len);
        complete = λ r u e'. absurd (omega (arith, ap one_if e'));
      })
      | inr e ↦
          let s = f (omega (arith, ends.1)) (ground (arith, e)) in
          rw e (record {
            skbs = λ q. omega (arith, same q, s.skbs q, count-append q taken freed.skbs);
            rpcs = λ q. omega (arith, s.rpcs q);
            unused_skbs = Each-append (λ q. users q ≤ 1) taken freed.skbs unused s.unused_skbs;
            unused_rpcs = (ref, s.unused_rpcs);
            less = omega (arith, len, s.less);
            progress = λ e'. omega (arith, len, s.progress e');
            complete = s.complete;
          })
    ]

keep_rpc-PassSpec :
    (refs users : ℕ → ℕ) (rpc : DeadRpc) (rpcs : List DeadRpc) (p : Pass)
    → ltb 1 (refs rpc.id) ≡ true
    → PassSpec refs users rpcs p
    → PassSpec refs users (rpc ∷ rpcs) (keep_rpc rpc p)
keep_rpc-PassSpec refs users rpc rpcs p held s = record {
  skbs = λ q. omega (
    arith,
    s.skbs q,
    count-append q rpc.skbs (all_skbs rpcs),
    count-append q rpc.skbs (all_skbs p.dead),
  );
  rpcs = λ q. omega (arith, s.rpcs q);
  unused_skbs = s.unused_skbs;
  unused_rpcs = s.unused_rpcs;
  less = omega (arith, s.less);
  progress = λ e. omega (arith, s.progress e);
  complete = λ r u e. absurd (ground (arith, held, r rpc.id));
}

pub collect-PassSpec :
    (refs users : ℕ → ℕ) (room rpc_room : ℕ) (dead : List DeadRpc)
    → 1 ≤ room
    → 1 ≤ rpc_room
    → PassSpec refs users dead (collect refs users room rpc_room dead)
unfolding collect
collect-PassSpec refs users room rpc_room [] h h' = record {
  skbs = λ q. omega arith;
  rpcs = λ q. omega arith;
  unused_skbs = tt;
  unused_rpcs = tt;
  less = omega arith;
  progress = λ e. absurd (omega (arith, ap one_if e));
  complete = λ r u e. refl;
}
collect-PassSpec refs users room rpc_room (rpc ∷ rpcs) h h' =
    elim (Bool-cases (ltb 1 (refs rpc.id))) [
      | inl held ↦ rw held (
          keep_rpc-PassSpec refs users rpc rpcs (collect refs users room rpc_room rpcs) held
            (collect-PassSpec refs users room rpc_room rpcs h h'))
      | inr e ↦
          let t = take_skbs users room rpc.skbs in
          let s = take_skbs-TakeSpec users room rpc.skbs h in
          let next = room - length t.skbs in
          rw e (
            after_take-PassSpec refs users rpc rpcs room rpc_room t.skbs t.left t.ending
              (collect refs users next rpc_room rpcs) (collect refs users next (rpc_room - 1) rpcs)
              (ground (arith, e)) s.all s.unused s.ends
              (λ more. collect-PassSpec refs users next rpc_room rpcs more h')
              (λ more more'. collect-PassSpec refs users next (rpc_room - 1) rpcs more more'))
    ]
