-- ===== src/Grant/Insert.antt =====
-- What homa_grant_insert_active (homa_grant.c) does to the active RPCs.
pub mod Array
use mathlib.Core.List.{Perm, append_assoc, append-nil, perm_middle}
use mathlib.Core.List.Perm
use mathlib.Core.Path.{subst}
use homa_module.Prelude.{
  ℕ, zero, suc, ◌+◌, ◌-◌, ◌≤◌, ◌<◌, ◌≡◌, refl, sym, ap, ◌∙◌, ◌⊎◌, inl, inr, Bool, true, false,
  Option, none, some, List, [], ◌∷◌, ◌++◌, map, arith, ltb, leb, ltb→lt, leb→le, ◌==◌, Bool-cases,
  length, length-append, if◌then◌else◌,
}
use homa_module.Grant.{
  GrantRpc, Grant, outranks, scan_active, Ejected, nobody, eject, last_of_peer, last_active,
  put_active, eject_for, insert_split, insert_active, add_active, sub_active,
}
use homa_module.Grant.Active.{
  InOrder, OutranksNone, OutranksAll, Split, scan_active-Split, count_peer, EjectSpec,
  last_of_peer-EjectSpec, last_active-EjectSpec,
}
use homa_module.Grant.Insert.Array.{
  unranked, IsActive, HasRanks, HasRanks-split, put_active-unranked, put_active-HasRanks,
  length-put_active, count_peer-put_active, count_peer-append, InOrder-insert, InOrder-remove,
  OutranksAll-remove, InOrder-unranked, unranked-InOrder,
}

abbrev pub left_over : Option GrantRpc → List GrantRpc
left_over none = []
left_over (some b) = b ∷ []

-- The active RPCs that `rpc` does not outrank.
abbrev pub ahead_of : GrantRpc → List GrantRpc → List GrantRpc
ahead_of rpc [] = []
ahead_of rpc (a ∷ others) = if outranks rpc a then ahead_of rpc others else a ∷ ahead_of rpc others

-- Why `rpc` is turned away, where the array is in order.
abbrev pub IsCrowded : Grant → GrantRpc → Type 0
IsCrowded g rpc =
    (g.max_overcommit ≤ length (ahead_of rpc g.active_rpcs))
    ⊎ (g.max_rpcs_per_peer ≤ count_peer rpc.peer (ahead_of rpc g.active_rpcs))

-- Who goes: nobody, `rpc` itself, or an RPC that it outranks.
abbrev pub Loser : Grant → GrantRpc → Grant → Option GrantRpc → Type 0
Loser g rpc g' none = Unit {0}
Loser g rpc g' (some b) =
    ((g' ≡ g) × (b ≡ rpc) × (InOrder g.active_rpcs → IsCrowded g rpc))
    ⊎ ((outranks rpc b ≡ true) × (b.rank ≡ none))

pub record Inserted (g : Grant) (rpc : GrantRpc) (result : Grant × Option GrantRpc) : Type 0 where
  pub active : IsActive result.0
  pub members :
      Perm
        (map unranked (rpc ∷ g.active_rpcs))
        (map unranked (left_over result.1 ++ result.0.active_rpcs))
  pub order : InOrder g.active_rpcs → InOrder result.0.active_rpcs
  pub loser : Loser g rpc result.0 result.1

ahead_of-split :
    (rpc : GrantRpc) (above passed : List GrantRpc)
    → OutranksNone rpc above
    → OutranksAll rpc passed
    → ahead_of rpc (above ++ passed) ≡ above
ahead_of-split rpc [] [] n h = refl
ahead_of-split rpc [] (a ∷ passed) n h = rw (h.0) (ahead_of-split rpc [] passed n h.1)
ahead_of-split rpc (a ∷ above) passed n h =
    rw (n.0) (ap (λ x. a ∷ x) (ahead_of-split rpc above passed n.1 h))

turned_away :
    (g : Grant) (rpc : GrantRpc)
    → IsActive g
    → (InOrder g.active_rpcs → IsCrowded g rpc)
    → Inserted g rpc (g, some rpc)
turned_away g rpc v why = record {
  active = v;
  members = Perm.refl _;
  order = λ o. o;
  loser = inl (refl, refl, why);
}

swap_in :
    (rpc b : GrantRpc) (above before after : List GrantRpc)
    → Perm (rpc ∷ above ++ (before ++ (b ∷ after))) (b ∷ above ++ (rpc ∷ before ++ after))
swap_in rpc b above before after =
    Perm.trans
      (Perm.cons rpc (
        Perm.trans (Perm.append_left above (perm_middle before after))
          (perm_middle above (before ++ after))))
      (Perm.trans (Perm.swap _ _ _) (Perm.cons b (Perm.symm (perm_middle above (before ++ after)))))

put_active-IsActive :
    (g : Grant) (rpc : GrantRpc) (above before after : List GrantRpc) (counts : ℕ → ℕ)
    → HasRanks 0 above
    → HasRanks (length above + 1 + length before) after
    → ((q : ℕ) → counts q ≡ count_peer q above + count_peer q before + count_peer q after)
    → ((q : ℕ) → add_active counts rpc.peer q ≤ g.max_rpcs_per_peer)
    → length above + 1 + length before + length after ≤ g.max_overcommit
    → IsActive (put_active g rpc above before after counts)
unfolding put_active
put_active-IsActive g rpc above before after counts h k c p f = record {
  ranks = put_active-HasRanks g rpc above before after counts h k;
  counts = λ q. ground (arith, c q, count_peer-put_active g rpc above before after counts q);
  per_peer = p;
  few = omega (arith, length-put_active g rpc above before after counts);
}

unranked_outranked : (rpc b : GrantRpc) → outranks rpc b ≡ true → outranks rpc (unranked b) ≡ true
unfolding outranks
unranked_outranked rpc b h = h

module _ (g : Grant) (rpc : GrantRpc) (above passed : List GrantRpc) (v : IsActive g)
    (s : Split rpc g.active_rpcs (above, passed)) where
  parts_ranks : HasRanks 0 above × HasRanks (0 + length above) passed
  parts_ranks = HasRanks-split 0 above passed (subst (HasRanks 0) (sym s.joins) v.ranks)

  parts_counts : (q : ℕ) → g.peer_active q ≡ count_peer q above + count_peer q passed
  parts_counts q = v.counts q ∙ ap (count_peer q) (sym s.joins) ∙ count_peer-append q above passed

  parts_length : length g.active_rpcs ≡ length above + length passed
  parts_length = ap length (sym s.joins) ∙ length-append above passed

  -- The new array in order, if the old one is.
  in_order :
      (before after : List GrantRpc) (counts : ℕ → ℕ)
      → (InOrder g.active_rpcs → InOrder (above ++ (before ++ after)))
      → OutranksAll rpc (before ++ after)
      → InOrder g.active_rpcs
      → InOrder (put_active g rpc above before after counts).active_rpcs
  in_order before after counts keeps all o = InOrder-unranked _ (
      subst InOrder (sym (put_active-unranked g rpc above before after counts))
        (unranked-InOrder _ (InOrder-insert rpc above (before ++ after) (keeps o) (s.above o) all)))

  -- A free slot.
  joined :
      g.peer_active rpc.peer < g.max_rpcs_per_peer
      → length g.active_rpcs < g.max_overcommit
      → Inserted g rpc (put_active g rpc above passed [] g.peer_active, none)
  joined free room = record {
    active =
        put_active-IsActive g rpc above passed [] g.peer_active parts_ranks.0 tt
          (λ q. omega (arith, parts_counts q)) (λ q. ground (arith, v.per_peer q))
          (omega (arith, parts_length));
    members =
        subst (Perm (map unranked (rpc ∷ g.active_rpcs)))
          (sym (put_active-unranked g rpc above passed [] g.peer_active))
          (Perm.map unranked (
            subst (λ x. Perm (rpc ∷ x) (above ++ (rpc ∷ passed ++ []))) s.joins
              (rw append-nil (Perm.symm (perm_middle above passed)))));
    order =
        in_order passed [] g.peer_active
          (subst InOrder (sym (ap (λ x. above ++ x) (append-nil passed) ∙ s.joins)))
          (subst (OutranksAll rpc) (sym (append-nil passed)) s.passed);
    loser = tt;
  }

  module _ (before after : List GrantRpc) (b : GrantRpc) (e : before ++ (b ∷ after) ≡ passed) where
    whole : above ++ (before ++ (b ∷ after)) ≡ g.active_rpcs
    whole = ap (λ x. above ++ x) e ∙ s.joins

    ejected_ranks : HasRanks (length above + 1 + length before) after
    ejected_ranks =
        let h =
          HasRanks-split (0 + length above) before (b ∷ after)
            (subst (HasRanks (0 + length above)) (sym e) parts_ranks.1) in
        subst (λ i. HasRanks i after) (omega arith) (h.1.1)

    ejected_counts :
        (q : ℕ)
        → g.peer_active q
          ≡ count_peer q above
            + count_peer q before
            + (if q == b.peer then 1 else 0)
            + count_peer q after
    ejected_counts q =
        omega (arith, parts_counts q, ap (count_peer q) e, count_peer-append q before (b ∷ after))

    room_for :
        (q : ℕ)
        → (b.peer ≡ rpc.peer) ⊎ (g.peer_active rpc.peer < g.max_rpcs_per_peer)
        → add_active (sub_active g.peer_active b.peer) rpc.peer q ≤ g.max_rpcs_per_peer
    room_for q (inl same) = ground (arith, same, ejected_counts q, v.per_peer q)
    room_for q (inr lt) = ground (arith, lt, v.per_peer q)

    -- `rpc` takes the place of an entry that it outranks.
    displaced :
        (b.peer ≡ rpc.peer) ⊎ (g.peer_active rpc.peer < g.max_rpcs_per_peer)
        → Inserted g rpc (eject_for g rpc above (eject before b after))
    unfolding eject_for
    displaced room =
        let (all, out) =
          OutranksAll-remove rpc b before after (subst (OutranksAll rpc) (sym e) s.passed) in
        record {
          active =
              put_active-IsActive g rpc above before after (sub_active g.peer_active b.peer)
                parts_ranks.0 ejected_ranks (λ q. ground (arith, ejected_counts q))
                (λ q. room_for q room)
                (omega (arith, parts_length, v.few, ap length e, length-append before (b ∷ after)));
          members =
              subst (λ x. Perm (map unranked (rpc ∷ g.active_rpcs)) (unranked b ∷ x))
                (sym
                  (put_active-unranked g rpc above before after (sub_active g.peer_active b.peer)))
                (Perm.map unranked (
                  subst (λ x. Perm (rpc ∷ x) (b ∷ above ++ (rpc ∷ before ++ after))) whole
                    (swap_in rpc b above before after)));
          order =
              in_order before after (sub_active g.peer_active b.peer)
                (λ o. subst InOrder (append_assoc above before after) (
                  InOrder-remove b (above ++ before) after
                    (subst InOrder (sym (append_assoc above before (b ∷ after) ∙ whole)) o)))
                all;
          loser = inr (unranked_outranked rpc b out, refl);
        }

  ahead_above : InOrder g.active_rpcs → above ≡ ahead_of rpc g.active_rpcs
  ahead_above o =
      sym (ahead_of-split rpc above passed (s.above o) s.passed) ∙ ap (ahead_of rpc) s.joins

  -- Where the peer has its limit of active RPCs.
  at_limit :
      (e : Ejected)
      → EjectSpec (λ b. b.peer ≡ rpc.peer) (count_peer rpc.peer passed ≡ 0) passed e
      → g.max_rpcs_per_peer ≤ g.peer_active rpc.peer
      → Inserted g rpc (eject_for g rpc above e)
  unfolding eject_for
  at_limit nobody h full = turned_away g rpc v (λ o.
      inr (omega (arith, parts_counts rpc.peer, h, full, ap (count_peer rpc.peer) (ahead_above o))))
  at_limit (eject before b after) h full = displaced before after b h.0 (inl h.1)

  -- Where the array is full.
  overfull :
      (e : Ejected)
      → EjectSpec (λ b. Unit {0}) (passed ≡ []) passed e
      → g.peer_active rpc.peer < g.max_rpcs_per_peer
      → length above < length g.active_rpcs
      → Inserted g rpc (eject_for g rpc above e)
  overfull nobody h free less = absurd (omega (arith, less, parts_length, ap length h))
  overfull (eject before b after) h free less = displaced before after b h.0 (inr free)

  insert_split-Inserted : Inserted g rpc (insert_split g rpc (above, passed))
  unfolding insert_split
  insert_split-Inserted = elim (Bool-cases (leb g.max_rpcs_per_peer (g.peer_active rpc.peer))) [
    | inl e ↦ rw e (
        at_limit (last_of_peer rpc.peer passed) (last_of_peer-EjectSpec rpc.peer passed)
          (leb→le _ _ e))
    | inr e ↦ elim (Bool-cases (leb g.max_overcommit (length above))) [
      | inl low ↦
          rw (e, low)
            (turned_away g rpc v
              (λ o. inl (omega (arith, leb→le _ _ low, ap length (ahead_above o)))))
      | inr low ↦ elim (Bool-cases (leb g.max_overcommit (length g.active_rpcs))) [
        | inl full ↦
            rw (e, low, full)
              (overfull (last_active passed) (last_active-EjectSpec passed) (ground arith)
                (ground arith))
        | inr full ↦ rw (e, low, full) (joined (ground arith) (ground arith))
      ]
    ]
  ]

-- homa_grant_insert_active keeps ranks, counts and both limits right, and drops no RPC: the new active
-- RPCs, with the one that it returns, are the old ones and `rpc`. An array in order stays in order. What
-- it returns has no rank and is outranked by `rpc`; or it is `rpc` itself, nothing has changed, and if
-- the array is in order there are as many active RPCs that `rpc` does not outrank as may be active at
-- all, or as many of its peer as a peer may have.
pub insert_active-Inserted :
    (g : Grant) (rpc : GrantRpc) → IsActive g → Inserted g rpc (insert_active g rpc)
unfolding insert_active
insert_active-Inserted g rpc v =
    insert_split-Inserted g rpc (scan_active rpc g.active_rpcs).0 (scan_active rpc g.active_rpcs).1
      v (scan_active-Split rpc g.active_rpcs)
