-- ===== src/Grant/Grantable/Remove.antt =====
-- homa_grant_remove_active (homa_grant.c): an RPC leaves, and one that waits may take its slot.
use mathlib.Core.List.{Perm, append_assoc, perm_middle, map-append}
use mathlib.Core.List.Perm
use mathlib.Core.Option.{some-injective}
use mathlib.Core.Path.{subst}
use homa_module.Prelude.{
  ℕ, zero, suc, ◌+◌, ◌-◌, ◌≤◌, ◌<◌, ◌≡◌, refl, sym, ap, ◌∙◌, inl, inr, false, Option, none, some,
  List, [], ◌∷◌, ◌++◌, map, arith, ltb, ltb→lt, Bool-cases, length, length-append, take, drop,
  get_elem?,
}
use homa_module.Grant.{GrantRpc, Grant, PeerQueue, move_down, sub_active}
use homa_module.Grant.Active.{count_peer}
use homa_module.Grant.Insert.Array.{
  unranked, IsActive, HasRanks, HasRanks-append, HasRanks-split, move_down-HasRanks,
  move_down-unranked, length-move_down, count_peer-append, count_peer-unranked,
}
use homa_module.Grant.Grantable.{
  Found, nowhere, found, found_behind, find_below, remove_first, promote_first, take_out,
  remove_active,
}
use homa_module.Grant.Grantable.Contents.{contents, FoundSpec, EachPeer, remove_first-perm}
use homa_module.Grant.Grantable.Manage.{managed, with_waiting}

-- Where an entry stands.
get_elem?-split :
    (xs : List GrantRpc) (i : ℕ) (x : GrantRpc)
    → get_elem? xs i ≡ some x
    → (take i xs ++ (x ∷ drop (suc i) xs) ≡ xs) × (length (take i xs) ≡ i)
get_elem?-split [] i x e = ground arith
get_elem?-split (y ∷ xs) zero x e = (ap (λ z. z ∷ xs) (sym (some-injective y x e)), refl)
get_elem?-split (y ∷ xs) (suc i) x e =
    let (joins, len) = get_elem?-split xs i x e in (ap (λ l. y ∷ l) joins, ap suc len)

-- The state with `rpc` gone.
record TakenOut (g : Grant) (rpc : GrantRpc) (g' : Grant) : Type 0 where
  active : IsActive g'
  members : Perm (map unranked (rpc ∷ g'.active_rpcs)) (map unranked g.active_rpcs)
  waiting : g'.grantable_peers ≡ g.grantable_peers
  room : length g'.active_rpcs < g'.max_overcommit

count_peer-move_down :
    (q n : ℕ) (others : List GrantRpc) → count_peer q (move_down n others) ≡ count_peer q others
count_peer-move_down q n others =
    sym (count_peer-unranked q (move_down n others))
    ∙ ap (count_peer q) (move_down-unranked n others)
    ∙ count_peer-unranked q others

module _ (g : Grant) (rpc : GrantRpc) (before after : List GrantRpc) (v : IsActive g)
    (e : before ++ (rpc ∷ after) ≡ g.active_rpcs) where
  rest_ranks : HasRanks 0 (before ++ move_down (length before) after)
  rest_ranks =
      HasRanks-append 0 before _
        ((HasRanks-split 0 before (rpc ∷ after) (subst (HasRanks 0) (sym e) v.ranks)).0)
        (subst (λ i. HasRanks i (move_down (length before) after)) (omega arith)
          (move_down-HasRanks (length before) after))

  rest_counts :
      (q : ℕ)
      → sub_active g.peer_active rpc.peer q
        ≡ count_peer q (before ++ move_down (length before) after)
  rest_counts q = ground (
    arith,
    v.counts q,
    ap (count_peer q) e,
    count_peer-append q before (rpc ∷ after),
    count_peer-append q before (move_down (length before) after),
    count_peer-move_down q (length before) after,
  )

  rest_length : length (before ++ move_down (length before) after) < g.max_overcommit
  rest_length = omega (
    arith,
    v.few,
    ap length e,
    length-append before (rpc ∷ after),
    length-append before (move_down (length before) after),
    length-move_down (length before) after,
  )

  rest_members :
      Perm
        (map unranked (rpc ∷ before ++ move_down (length before) after))
        (map unranked g.active_rpcs)
  rest_members =
      subst (λ l. Perm (unranked rpc ∷ l) (map unranked g.active_rpcs))
        (map-append unranked before after
          ∙ ap (λ l. map unranked before ++ l) (sym (move_down-unranked (length before) after))
          ∙ sym (map-append unranked before (move_down (length before) after)))
        (Perm.map unranked
          (subst (Perm (rpc ∷ before ++ after)) e (Perm.symm (perm_middle before after))))

take_out-TakenOut :
    (g : Grant) (rpc : GrantRpc) (rank : ℕ)
    → IsActive g
    → get_elem? g.active_rpcs rank ≡ some rpc
    → TakenOut g rpc (take_out g rpc rank)
unfolding take_out
take_out-TakenOut g rpc rank v e =
    let before = take rank g.active_rpcs in
    let after = drop (suc rank) g.active_rpcs in
    let (joins, len) = get_elem?-split g.active_rpcs rank rpc e in
    let new = λ (i : ℕ). before ++ move_down i after in
    record {
      active = record {
        ranks = subst (λ i. HasRanks 0 (new i)) len (rest_ranks g rpc before after v joins);
        counts = λ q. rest_counts g rpc before after v joins q ∙ ap (λ i. count_peer q (new i)) len;
        per_peer = λ q. ground (arith, v.per_peer q);
        few = omega (
          arith,
          subst (λ i. length (new i) < g.max_overcommit) len
              (rest_length g rpc before after v joins),
        );
      };
      members =
          subst (λ i. Perm (map unranked (rpc ∷ new i)) (map unranked g.active_rpcs)) len
            (rest_members g rpc before after v joins);
      waiting = refl;
      room =
          subst (λ i. length (new i) < g.max_overcommit) len
            (rest_length g rpc before after v joins);
    }

find_below-FoundSpec :
    (limit : ℕ) (counts : ℕ → ℕ) (peers : List PeerQueue)
    → FoundSpec
        (λ q. counts q.peer < limit)
        (EachPeer (λ q. limit ≤ counts q.peer) peers)
        peers
        (find_below limit counts peers)
unfolding find_below
find_below-FoundSpec limit counts [] = tt
find_below-FoundSpec limit counts (other ∷ others) =
    elim (Bool-cases (ltb (counts other.peer) limit)) [
      | inl e ↦ rw e (refl, ltb→lt _ _ e)
      | inr e ↦
          rw e (go e (find_below limit counts others) (find_below-FoundSpec limit counts others))
    ]
  where
    go :
        ltb (counts other.peer) limit ≡ false
        → (f : Found)
        → FoundSpec
            (λ q. counts q.peer < limit)
            (EachPeer (λ q. limit ≤ counts q.peer) others)
            others
            f
        → FoundSpec
            (λ q. counts q.peer < limit)
            (EachPeer (λ q. limit ≤ counts q.peer) (other ∷ others))
            (other ∷ others)
            (found_behind other f)
    go e nowhere h = (ground arith, h)
    go e (found before q after) h = (ap (λ l. other ∷ l) h.0, h.1)

each_found :
    (P : PeerQueue → Type 0) (before : List PeerQueue) (q : PeerQueue) (after : List PeerQueue)
    → EachPeer P (before ++ (q ∷ after))
    → P q
each_found P [] q after h = h.0
each_found P (other ∷ before) q after h = each_found P before q after h.1

-- Nobody has been promoted only if each waiting peer has its limit; else the promoted RPC is the last
-- active one.
abbrev pub Promotion : Grant → Option GrantRpc → Type 0
Promotion g none = EachPeer (λ q. g.max_rpcs_per_peer ≤ g.peer_active q.peer) g.grantable_peers
Promotion g (some p) = get_elem? g.active_rpcs (length g.active_rpcs - 1) ≡ some p

record Promoted (g : Grant) (result : Grant × Option GrantRpc) : Type 0 where
  active : IsActive result.0
  members : Perm (map unranked (managed result.0)) (map unranked (managed g))
  promotion : Promotion result.0 result.1

last_entry :
    (xs : List GrantRpc) (x : GrantRpc)
    → get_elem? (xs ++ (x ∷ [])) (length (xs ++ (x ∷ [])) - 1) ≡ some x
last_entry xs x = rw (length-append xs (x ∷ [])) (go xs (length xs + 1 - 1) (omega arith))
  where
    go : (ys : List GrantRpc) (i : ℕ) → i ≡ length ys → get_elem? (ys ++ (x ∷ [])) i ≡ some x
    go [] i e = rw e refl
    go (y ∷ ys) i e = rw e (go ys (length ys) refl)

-- The promoted RPC among the managed ones.
promoted_members :
    (xs : List GrantRpc) (a : GrantRpc) (rank : Option ℕ) (waiting waiting' : List GrantRpc)
    → Perm (a ∷ waiting') waiting
    → Perm
        (map unranked (xs ++ (record a { rank = rank } ∷ []) ++ waiting'))
        (map unranked (xs ++ waiting))
promoted_members xs a rank waiting waiting' p =
    rw (append_assoc xs (record a { rank = rank } ∷ []) waiting') (
      rw
        (
          map-append unranked xs (record a { rank = rank } ∷ waiting'),
          map-append unranked xs waiting,
        )
        (Perm.append_left (map unranked xs) (Perm.map unranked p)))

promote_first-Promoted :
    (g : Grant) (f : Found)
    → IsActive g
    → length g.active_rpcs < g.max_overcommit
    → EachPeer (λ q. q.first.peer ≡ q.peer) g.grantable_peers
    → FoundSpec
        (λ q. g.peer_active q.peer < g.max_rpcs_per_peer)
        (EachPeer (λ q. g.max_rpcs_per_peer ≤ g.peer_active q.peer) g.grantable_peers)
        g.grantable_peers
        f
    → Promoted g (promote_first g f)
unfolding promote_first
promote_first-Promoted g nowhere v room own h = record {
  active = v;
  members = Perm.refl _;
  promotion = h;
}
promote_first-Promoted g (found before q after) v room own h =
    let own_q =
      each_found (λ q. q.first.peer ≡ q.peer) before q after
        (subst (EachPeer (λ q. q.first.peer ≡ q.peer)) (sym h.0) own) in
    let promoted = record q.first { rank = some (length g.active_rpcs) } in
    record {
      active = record {
        ranks =
            HasRanks-append 0 g.active_rpcs (promoted ∷ []) v.ranks
              (subst (λ i. HasRanks i (promoted ∷ [])) (omega arith) (refl, tt));
        counts = λ k.
            ground (arith, v.counts k, count_peer-append k g.active_rpcs (promoted ∷ []), own_q);
        per_peer = λ k. ground (arith, v.per_peer k, h.1);
        few = omega (arith, room, length-append g.active_rpcs (promoted ∷ []));
      };
      members =
          promoted_members g.active_rpcs q.first (some (length g.active_rpcs))
            (contents g.grantable_peers) (contents (remove_first before q after))
            (remove_first-perm before q after g.grantable_peers h.0);
      promotion = last_entry g.active_rpcs promoted;
    }

-- What homa_grant_remove_active does with `rpc`.
pub record Removed (g : Grant) (rpc : GrantRpc) (result : Grant × Option GrantRpc) : Type 0 where
  pub active : IsActive result.0
  pub members : Perm (map unranked (rpc ∷ managed result.0)) (map unranked (managed g))
  pub promotion : Promotion result.0 result.1

-- homa_grant_remove_active takes exactly the RPC at its rank out of the RPCs that are managed for grants,
-- those in the array of active RPCs and those in the grantable lists; it loses no other and keeps the ranks,
-- the counts and the limits of the array right, where each waiting peer's first RPC is of that peer. The
-- RPC that it promotes, if any, becomes the last active one; it promotes none only if each peer with
-- waiting RPCs has its limit of active ones.
pub remove_active-Removed :
    (g : Grant) (rpc : GrantRpc) (rank : ℕ)
    → IsActive g
    → EachPeer (λ q. q.first.peer ≡ q.peer) g.grantable_peers
    → get_elem? g.active_rpcs rank ≡ some rpc
    → Removed g rpc (remove_active g rpc rank)
unfolding remove_active
remove_active-Removed g rpc rank v own e =
    let g' = take_out g rpc rank in
    let t = take_out-TakenOut g rpc rank v e in
    let p =
      promote_first-Promoted g' (find_below g'.max_rpcs_per_peer g'.peer_active g'.grantable_peers)
        t.active t.room (subst (EachPeer (λ q. q.first.peer ≡ q.peer)) (sym t.waiting) own)
        (find_below-FoundSpec g'.max_rpcs_per_peer g'.peer_active g'.grantable_peers) in
    record {
      active = p.active;
      members = Perm.trans (Perm.cons (unranked rpc) p.members) (
          with_waiting (rpc ∷ g'.active_rpcs) g.active_rpcs (contents g'.grantable_peers)
            (contents g.grantable_peers) t.members (rw (t.waiting) (Perm.refl _)));
      promotion = p.promotion;
    }
