-- ===== src/Grant/Grantable.antt =====
-- homa_grant.c: the RPCs that wait for grants outside the array of active RPCs, by peer, and the
-- operations that move RPCs between the two.
pub mod Contents
pub mod Manage
pub mod Remove
use homa_module.Prelude.{
  ℕ, suc, ◌+◌, ◌-◌, Bool, true, false, Option, none, some, List, [], ◌∷◌, ◌++◌, ltb, leb, ◌==◌,
  if◌then◌else◌, length, take, drop,
}
use homa_module.Grant.{
  GrantRpc, Grant, PeerQueue, outranks, insert_active, move_down, add_active, sub_active,
  grant_window,
}

-- In front of the first entry that `rpc` outranks, else at the end.
unfoldable pub insert_rpc : GrantRpc → List GrantRpc → List GrantRpc
unfolding outranks
insert_rpc rpc [] = rpc ∷ []
insert_rpc rpc (other ∷ others) =
    if outranks rpc other then rpc ∷ other ∷ others else other ∷ insert_rpc rpc others

-- The same in a peer's list that is not empty.
unfoldable pub insert_queue : GrantRpc → PeerQueue → PeerQueue
unfolding insert_rpc
insert_queue rpc q =
    if outranks rpc q.first
    then record q { first = rpc; rest = q.first ∷ q.rest }
    else record q { rest = insert_rpc rpc q.rest }

-- homa_grant_adjust_peer for a peer that is not in `grantable_peers`.
unfoldable pub insert_peer : PeerQueue → List PeerQueue → List PeerQueue
unfolding outranks
insert_peer q [] = q ∷ []
insert_peer q (other ∷ others) =
    if outranks q.first other.first then q ∷ other ∷ others else other ∷ insert_peer q others

-- Its two loops for a peer that is: first up, past the peers in front of it, from the last one on; the
-- peers that stay in front, and those that it has passed.
abbrev pub rise_past :
    PeerQueue → PeerQueue → List PeerQueue × List PeerQueue → List PeerQueue × List PeerQueue
rise_past q other ([], passed) =
    if outranks q.first other.first then ([], other ∷ passed) else (other ∷ [], passed)
rise_past q other (a ∷ above, passed) = (other ∷ a ∷ above, passed)

unfoldable pub rise : PeerQueue → List PeerQueue → List PeerQueue × List PeerQueue
unfolding outranks
rise q [] = ([], [])
rise q (other ∷ others) = rise_past q other (rise q others)

-- Then down, past the peers behind it that outrank it.
unfoldable pub sink : PeerQueue → List PeerQueue → List PeerQueue
unfolding outranks
sink q [] = q ∷ []
sink q (other ∷ others) =
    if outranks other.first q.first then other ∷ sink q others else q ∷ other ∷ others

unfoldable pub adjust_between :
    PeerQueue → List PeerQueue × List PeerQueue → List PeerQueue → List PeerQueue
unfolding sink
adjust_between q (above, passed) after = above ++ sink q (passed ++ after)

unfoldable pub adjust_peer : List PeerQueue → PeerQueue → List PeerQueue → List PeerQueue
unfolding adjust_between rise
adjust_peer before q after = adjust_between q (rise q before) after

-- A peer in the list, with those before and behind it.
pub data Found : Type 0 where
  nowhere : Found
  found : List PeerQueue → PeerQueue → List PeerQueue → Found

abbrev pub found_behind : PeerQueue → Found → Found
found_behind other nowhere = nowhere
found_behind other (found before q after) = found (other ∷ before) q after

unfoldable pub find_peer : ℕ → List PeerQueue → Found
find_peer peer [] = nowhere
find_peer peer (other ∷ others) =
    let rest = found_behind other (find_peer peer others) in
    if other.peer == peer then found [] other others else rest

-- homa_grant_insert_grantable
unfoldable pub insert_found : GrantRpc → List PeerQueue → Found → List PeerQueue
unfolding insert_peer adjust_peer insert_queue
insert_found rpc peers nowhere =
    insert_peer (record { peer = rpc.peer; first = rpc; rest = [] }) peers
insert_found rpc peers (found before q after) = adjust_peer before (insert_queue rpc q) after

unfoldable pub insert_grantable : List PeerQueue → GrantRpc → List PeerQueue
unfolding insert_found find_peer
insert_grantable peers rpc = insert_found rpc peers (find_peer rpc.peer peers)

-- homa_grant_manage_rpc under the grant lock, less the integral over time.
unfoldable pub count_managed : Grant → Grant
count_managed g =
    let n = g.num_grantable_rpcs + 1 in
    record g {
      num_grantable_rpcs = n;
      max_grantable_rpcs = if ltb g.max_grantable_rpcs n then n else g.max_grantable_rpcs;
    }

abbrev pub update_window : Grant → Grant
update_window g = record g { window = grant_window g }

unfoldable pub manage_bumped : Grant × Option GrantRpc → Grant
unfolding insert_grantable grant_window
manage_bumped (g, none) = update_window g
manage_bumped (g, some bumped) =
    update_window (record g { grantable_peers = insert_grantable g.grantable_peers bumped })

unfoldable pub manage_rpc : Grant → GrantRpc → Grant
unfolding manage_bumped insert_active count_managed
manage_rpc g rpc = manage_bumped (insert_active (count_managed g) rpc)

-- The first entry of a peer goes: homa_grant_remove_grantable for the head of a list.
unfoldable pub remove_first : List PeerQueue → PeerQueue → List PeerQueue → List PeerQueue
unfolding adjust_peer
remove_first before q after = elim q.rest [
  | [] ↦ before ++ after
  | a ∷ others ↦ adjust_peer before (record q { first = a; rest = others }) after
]

-- The first peer in `grantable_peers` that may have one more active RPC.
unfoldable pub find_below : ℕ → (ℕ → ℕ) → List PeerQueue → Found
find_below limit counts [] = nowhere
find_below limit counts (other ∷ others) =
    let rest = found_behind other (find_below limit counts others) in
    if ltb (counts other.peer) limit then found [] other others else rest

-- The end of homa_grant_remove_active, with the RPC that has been promoted.
unfoldable pub promote_first : Grant → Found → Grant × Option GrantRpc
unfolding remove_first
promote_first g nowhere = (g, none)
promote_first g (found before q after) =
    let promoted = record q.first { rank = some (length g.active_rpcs) } in
    (
      record g {
        active_rpcs = g.active_rpcs ++ (promoted ∷ []);
        peer_active = add_active g.peer_active q.peer;
        grantable_peers = remove_first before q after;
      },
      some promoted,
    )

-- homa_grant_remove_active for `rpc` at `rank`, up to the promotion.
unfoldable pub take_out : Grant → GrantRpc → ℕ → Grant
unfolding move_down
take_out g rpc rank = record g {
  active_rpcs = take rank g.active_rpcs ++ move_down rank (drop (suc rank) g.active_rpcs);
  peer_active = sub_active g.peer_active rpc.peer;
}

-- homa_grant_remove_active
unfoldable pub remove_active : Grant → GrantRpc → ℕ → Grant × Option GrantRpc
unfolding promote_first take_out find_below
remove_active g rpc rank =
    let g' = take_out g rpc rank in
    promote_first g' (find_below g'.max_rpcs_per_peer g'.peer_active g'.grantable_peers)
