-- ===== src/Grant/Grantable/Manage.antt =====
-- homa_grant_manage_rpc and homa_grant_remove_active (homa_grant.c): no RPC that needs grants is lost.
use mathlib.Core.List.{Perm, perm_middle, map-append}
use mathlib.Core.List.Perm
use homa_module.Prelude.{
  ◌+◌, ◌≡◌, refl, inl, inr, Option, none, some, List, ◌∷◌, ◌++◌, map, leb, Bool-cases, length,
}
use homa_module.Grant.{
  GrantRpc, Grant, Ejected, nobody, eject, scan_active, last_of_peer, last_active, put_active,
  eject_for, insert_split, insert_active,
}
use homa_module.Grant.Active.{InOrder}
use homa_module.Grant.Insert.{Inserted, insert_active-Inserted}
use homa_module.Grant.Insert.Array.{unranked, IsActive}
use homa_module.Grant.Grantable.{count_managed, manage_bumped, manage_rpc}
use homa_module.Grant.Grantable.Contents.{contents, insert_grantable-perm}

-- All RPCs that still need grants, active and waiting.
abbrev pub managed : Grant → List GrantRpc
managed g = g.active_rpcs ++ contents g.grantable_peers

-- What homa_grant_manage_rpc does with `rpc`.
pub record Managed (g : Grant) (rpc : GrantRpc) (g' : Grant) : Type 0 where
  pub active : IsActive g'
  pub members : Perm (map unranked (rpc ∷ managed g)) (map unranked (managed g'))
  pub order : InOrder g.active_rpcs → InOrder g'.active_rpcs
  pub number : g'.num_grantable_rpcs ≡ g.num_grantable_rpcs + 1

count_managed-IsActive : (g : Grant) → IsActive g → IsActive (count_managed g)
unfolding count_managed
count_managed-IsActive g v = record {
  ranks = v.ranks;
  counts = v.counts;
  per_peer = v.per_peer;
  few = v.few;
}

-- The active RPCs and the waiting ones, apart from ranks.
pub with_waiting :
    (xs ys waiting waiting' : List GrantRpc)
    → Perm (map unranked xs) (map unranked (ys))
    → Perm waiting waiting'
    → Perm (map unranked (xs ++ waiting)) (map unranked (ys ++ waiting'))
with_waiting xs ys waiting waiting' p w =
    rw (map-append unranked xs waiting, map-append unranked ys waiting')
      (Perm.append p (Perm.map unranked w))

manage_bumped-Managed :
    (g : Grant) (rpc : GrantRpc) (result : Grant × Option GrantRpc)
    → Inserted (count_managed g) rpc result
    → result.0.grantable_peers ≡ g.grantable_peers
    → result.0.num_grantable_rpcs ≡ g.num_grantable_rpcs + 1
    → Managed g rpc (manage_bumped result)
unfolding manage_bumped count_managed
manage_bumped-Managed g rpc (g', none) s same n = record {
  active = record {
    ranks = s.active.ranks;
    counts = s.active.counts;
    per_peer = s.active.per_peer;
    few = s.active.few;
  };
  members =
      with_waiting (rpc ∷ g.active_rpcs) g'.active_rpcs (contents g.grantable_peers)
        (contents g'.grantable_peers) s.members (rw same (Perm.refl _));
  order = s.order;
  number = n;
}
manage_bumped-Managed g rpc (g', some bumped) s same n = record {
  active = record {
    ranks = s.active.ranks;
    counts = s.active.counts;
    per_peer = s.active.per_peer;
    few = s.active.few;
  };
  members =
      Perm.trans
        (with_waiting (rpc ∷ g.active_rpcs) (bumped ∷ g'.active_rpcs) (contents g.grantable_peers)
          (contents g'.grantable_peers) s.members (rw same (Perm.refl _)))
        (Perm.map unranked (
          Perm.trans (Perm.symm (perm_middle g'.active_rpcs (contents g'.grantable_peers))) (
            Perm.append_left g'.active_rpcs
              (Perm.symm (insert_grantable-perm g'.grantable_peers bumped)))));
  order = s.order;
  number = n;
}

-- The insertion leaves the grantable lists as they are.
KeepsWaiting : Grant → Grant → Type 0
KeepsWaiting g g' =
    (g'.grantable_peers ≡ g.grantable_peers) × (g'.num_grantable_rpcs ≡ g.num_grantable_rpcs)

eject_for-KeepsWaiting :
    (g : Grant) (rpc : GrantRpc) (above : List GrantRpc) (e : Ejected)
    → KeepsWaiting g (eject_for g rpc above e).0
unfolding KeepsWaiting eject_for put_active
eject_for-KeepsWaiting g rpc above nobody = (refl, refl)
eject_for-KeepsWaiting g rpc above (eject before bumped after) = (refl, refl)

insert_split-KeepsWaiting :
    (g : Grant) (rpc : GrantRpc) (above passed : List GrantRpc)
    → KeepsWaiting g (insert_split g rpc (above, passed)).0
unfolding insert_split
insert_split-KeepsWaiting g rpc above passed =
    elim (Bool-cases (leb g.max_rpcs_per_peer (g.peer_active rpc.peer))) [
      | inl e ↦ rw e (eject_for-KeepsWaiting g rpc above (last_of_peer rpc.peer passed))
      | inr e ↦ elim (Bool-cases (leb g.max_overcommit (length above))) [
        | inl low ↦ rw (e, low) (unfold KeepsWaiting in (refl, refl))
        | inr low ↦ elim (Bool-cases (leb g.max_overcommit (length g.active_rpcs))) [
          | inl full ↦ rw (e, low, full) (eject_for-KeepsWaiting g rpc above (last_active passed))
          | inr full ↦ rw (e, low, full) (unfold KeepsWaiting put_active in (refl, refl))
        ]
      ]
    ]

-- homa_grant_manage_rpc adds exactly `rpc` to the RPCs that are managed for grants, those in the array of
-- active RPCs and those in the grantable lists, and loses none; it keeps the ranks, the counts and the
-- limits of the array right, its order where it was in order, and counts one RPC more.
pub manage_rpc-Managed :
    (g : Grant) (rpc : GrantRpc) → IsActive g → Managed g rpc (manage_rpc g rpc)
unfolding manage_rpc count_managed insert_active
manage_rpc-Managed g rpc v =
    let split = scan_active rpc g.active_rpcs in
    let keeps = insert_split-KeepsWaiting (count_managed g) rpc split.0 split.1 in
    manage_bumped-Managed g rpc (insert_active (count_managed g) rpc)
      (insert_active-Inserted (count_managed g) rpc (count_managed-IsActive g v))
      (unfold KeepsWaiting in keeps.0) (unfold KeepsWaiting in keeps.1)
