-- ===== src/Grant/Recalc.antt =====
-- homa_grant_fix_order (homa_grant.c) sorts the active RPCs.
use mathlib.Core.List.{Perm, append-nil, perm_middle, map-append}
use mathlib.Core.List.Perm
use mathlib.Core.Path.{subst}
use homa_module.Prelude.{
  ℕ, ◌+◌, ◌≡◌, refl, sym, ap, ◌∙◌, some, List, [], ◌∷◌, ◌++◌, map, arith, length, length-append,
  ◌==◌, if◌then◌else◌,
}
use homa_module.Pool.{int_max}
use homa_module.Grant.{
  GrantRpc, Grant, scan_active, move_down, move_up, improved, fix_loop, fix_order,
}
use homa_module.Grant.Active.{InOrder, Split, scan_active-Split, count_peer}
use homa_module.Grant.Insert.Array.{
  unranked, IsActive, HasRanks, HasRanks-append, HasRanks-split, move_down-HasRanks,
  move_down-unranked, length-move_down, count_peer-append, count_peer-unranked, InOrder-insert,
  InOrder-unranked, unranked-InOrder,
}

move_up-unranked :
    (rpc : GrantRpc) (parts : List GrantRpc × List GrantRpc)
    → map unranked (move_up rpc parts) ≡ map unranked (parts.0 ++ (rpc ∷ parts.1))
unfolding move_up
move_up-unranked rpc (above, []) = refl
move_up-unranked rpc (above, other ∷ others) =
    map-append unranked above _
    ∙ ap (λ x. map unranked above ++ (unranked rpc ∷ x))
        (move_down-unranked (length above + 1) (other ∷ others))
    ∙ sym (map-append unranked above (rpc ∷ other ∷ others))

move_up-HasRanks :
    (rpc : GrantRpc) (parts : List GrantRpc × List GrantRpc)
    → HasRanks 0 parts.0
    → rpc.rank ≡ some (length parts.0 + length parts.1)
    → HasRanks 0 (move_up rpc parts)
unfolding move_up
move_up-HasRanks rpc (above, []) h e =
    HasRanks-append 0 above (rpc ∷ []) h (e ∙ ap some (omega arith), tt)
move_up-HasRanks rpc (above, other ∷ others) h e = HasRanks-append 0 above _ h (
    subst
      (λ i.
        HasRanks i (
          record rpc { rank = some (length above) }
          ∷ move_down (length above + 1) (other ∷ others)))
      (omega arith) (refl, move_down-HasRanks (length above + 1) (other ∷ others)))

length-move_up :
    (rpc : GrantRpc) (parts : List GrantRpc × List GrantRpc)
    → length (move_up rpc parts) ≡ length parts.0 + length parts.1 + 1
unfolding move_up
length-move_up rpc (above, []) = omega (arith, length-append above (rpc ∷ []))
length-move_up rpc (above, other ∷ others) =
    rw (length-append above) (omega (arith, length-move_down (length above + 1) (other ∷ others)))

move_up-InOrder :
    (rpc : GrantRpc) (fixed : List GrantRpc) (parts : List GrantRpc × List GrantRpc)
    → Split rpc fixed parts
    → InOrder fixed
    → InOrder (move_up rpc parts)
move_up-InOrder rpc fixed parts s o = InOrder-unranked _ (
    subst InOrder (sym (move_up-unranked rpc parts)) (
      unranked-InOrder _
        (InOrder-insert rpc parts.0 parts.1 (subst InOrder (sym s.joins) o) (s.above o) s.passed)))

-- The counts of the active RPCs by peer.
move_up-count_peer :
    (q : ℕ) (rpc : GrantRpc) (fixed : List GrantRpc) (parts : List GrantRpc × List GrantRpc)
    → Split rpc fixed parts
    → count_peer q (move_up rpc parts) ≡ count_peer q fixed + (if q == rpc.peer then 1 else 0)
move_up-count_peer q rpc fixed parts s =
    let same =
      sym (count_peer-unranked q (move_up rpc parts))
      ∙ ap (count_peer q) (move_up-unranked rpc parts)
      ∙ count_peer-unranked q (parts.0 ++ (rpc ∷ parts.1)) in
    omega (
      arith,
      same,
      count_peer-append q parts.0 (rpc ∷ parts.1),
      count_peer-append q parts.0 parts.1,
      ap (count_peer q) s.joins,
    )

move_up-members :
    (rpc : GrantRpc) (fixed rpcs : List GrantRpc) (parts : List GrantRpc × List GrantRpc)
    → Split rpc fixed parts
    → Perm (map unranked (move_up rpc parts ++ rpcs)) (map unranked (fixed ++ (rpc ∷ rpcs)))
move_up-members rpc fixed rpcs parts s =
    subst (λ l. Perm l (map unranked (fixed ++ (rpc ∷ rpcs))))
      (map-append unranked (parts.0 ++ (rpc ∷ parts.1)) rpcs
        ∙ ap (λ l. l ++ map unranked rpcs) (sym (move_up-unranked rpc parts))
        ∙ sym (map-append unranked (move_up rpc parts) rpcs))
      (Perm.map unranked (
        Perm.trans (Perm.append_right rpcs (perm_middle parts.0 parts.1)) (
          subst (λ l. Perm (rpc ∷ l ++ rpcs) (fixed ++ (rpc ∷ rpcs))) (sym s.joins)
            (Perm.symm (perm_middle fixed rpcs)))))

-- What the loop makes of the entries before and from the one that it is at.
record Fixed (fixed rpcs active : List GrantRpc) : Type 0 where
  order : InOrder fixed → InOrder active
  ranks : HasRanks 0 fixed → HasRanks (length fixed) rpcs → HasRanks 0 active
  members : Perm (map unranked active) (map unranked (fixed ++ rpcs))
  counts : (q : ℕ) → count_peer q active ≡ count_peer q fixed + count_peer q rpcs
  size : length active ≡ length fixed + length rpcs

fix_loop-Fixed :
    (result : ℕ) (fixed rpcs : List GrantRpc) → Fixed fixed rpcs (fix_loop result fixed rpcs).0
unfolding fix_loop
fix_loop-Fixed result fixed [] = record {
  order = λ o. o;
  ranks = λ h k. h;
  members = rw append-nil (Perm.refl _);
  counts = λ q. omega arith;
  size = omega arith;
}
fix_loop-Fixed result fixed (rpc ∷ rpcs) =
    let parts = scan_active rpc fixed in
    let s = scan_active-Split rpc fixed in
    let rest = fix_loop-Fixed (improved result parts) (move_up rpc parts) rpcs in
    let size : length parts.0 + length parts.1 ≡ length fixed =
      sym (length-append parts.0 parts.1) ∙ ap length s.joins in
    let moved : length (move_up rpc parts) ≡ length fixed + 1 =
      omega (arith, size, length-move_up rpc parts) in
    record {
      order = λ o. rest.order (move_up-InOrder rpc fixed parts s o);
      ranks = λ h k.
          rest.ranks
            (move_up-HasRanks rpc parts
              ((HasRanks-split 0 parts.0 parts.1 (subst (HasRanks 0) (sym s.joins) h)).0)
              (k.0 ∙ ap some (sym size)))
            (subst (λ i. HasRanks i rpcs) (sym moved) k.1);
      members = Perm.trans rest.members (move_up-members rpc fixed rpcs parts s);
      counts = λ q. omega (arith, rest.counts q, move_up-count_peer q rpc fixed parts s);
      size = omega (arith, rest.size, moved);
    }

-- homa_grant_fix_order puts the active RPCs in order of priority, whatever order they have drifted into: they
-- are the same RPCs, each with its new rank, and the counts and limits stay right.
pub fix_order_lem :
    (g : Grant)
    → IsActive g
    → InOrder (fix_order g).0.active_rpcs
      × IsActive (fix_order g).0
      × Perm (map unranked (fix_order g).0.active_rpcs) (map unranked g.active_rpcs)
unfolding fix_order
fix_order_lem g v =
    let f = fix_loop-Fixed int_max [] g.active_rpcs in
    (
      f.order tt,
      record {
        ranks = f.ranks tt v.ranks;
        counts = λ q. omega (arith, v.counts q, f.counts q);
        per_peer = v.per_peer;
        few = omega (arith, v.few, f.size);
      },
      f.members,
    )
