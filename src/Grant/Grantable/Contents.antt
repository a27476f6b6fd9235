-- ===== src/Grant/Grantable/Contents.antt =====
-- homa_grant.c: the RPCs in the grantable lists, whatever their order.
use mathlib.Core.List.{Perm, append_assoc, perm_append_comm}
use mathlib.Core.List.Perm
use mathlib.Core.Path.{subst}
use homa_module.Prelude.{
  ℕ, ◌≡◌, refl, sym, ap, ◌∙◌, inl, inr, List, [], ◌∷◌, ◌++◌, arith, ◌==◌, Bool-cases,
}
use homa_module.Grant.{GrantRpc, PeerQueue, outranks}
use homa_module.Grant.Grantable.{
  insert_rpc, insert_queue, insert_peer, rise_past, rise, sink, adjust_between, adjust_peer, Found,
  nowhere, found, found_behind, find_peer, insert_found, insert_grantable, remove_first,
}

abbrev pub entries : PeerQueue → List GrantRpc
entries q = q.first ∷ q.rest

abbrev pub contents : List PeerQueue → List GrantRpc
contents [] = []
contents (q ∷ others) = entries q ++ contents others

contents-append : (xs ys : List PeerQueue) → contents (xs ++ ys) ≡ contents xs ++ contents ys
contents-append [] ys = refl
contents-append (q ∷ xs) ys =
    ap (λ l. entries q ++ l) (contents-append xs ys)
    ∙ sym (append_assoc (entries q) (contents xs) (contents ys))

swap_blocks : (xs ys zs : List GrantRpc) → Perm (xs ++ (ys ++ zs)) (ys ++ (xs ++ zs))
swap_blocks xs ys zs =
    subst (λ l. Perm l (ys ++ (xs ++ zs))) (append_assoc xs ys zs)
      (subst (λ l. Perm (xs ++ ys ++ zs) l) (append_assoc ys xs zs)
        (Perm.append_right zs (perm_append_comm xs ys)))

insert_rpc-perm :
    (rpc : GrantRpc) (others : List GrantRpc) → Perm (insert_rpc rpc others) (rpc ∷ others)
unfolding insert_rpc
insert_rpc-perm rpc [] = Perm.refl _
insert_rpc-perm rpc (other ∷ others) = elim (Bool-cases (outranks rpc other)) [
  | inl e ↦ rw e (Perm.refl _)
  | inr e ↦
      rw e (Perm.trans (Perm.cons other (insert_rpc-perm rpc others)) (Perm.swap rpc other others))
]

insert_queue-perm :
    (rpc : GrantRpc) (q : PeerQueue) → Perm (entries (insert_queue rpc q)) (rpc ∷ entries q)
unfolding insert_queue
insert_queue-perm rpc q = elim (Bool-cases (outranks rpc q.first)) [
  | inl e ↦ rw e (Perm.refl _)
  | inr e ↦
      rw e
        (Perm.trans (Perm.cons q.first (insert_rpc-perm rpc q.rest)) (Perm.swap rpc q.first q.rest))
]

insert_peer-perm :
    (q : PeerQueue) (peers : List PeerQueue)
    → Perm (contents (insert_peer q peers)) (entries q ++ contents peers)
unfolding insert_peer
insert_peer-perm q [] = Perm.refl _
insert_peer-perm q (other ∷ others) = elim (Bool-cases (outranks q.first other.first)) [
  | inl e ↦ rw e (Perm.refl _)
  | inr e ↦ rw e (
      Perm.trans (Perm.append_left (entries other) (insert_peer-perm q others))
        (swap_blocks (entries other) (entries q) (contents others)))
]

sink-perm :
    (q : PeerQueue) (peers : List PeerQueue)
    → Perm (contents (sink q peers)) (entries q ++ contents peers)
unfolding sink
sink-perm q [] = Perm.refl _
sink-perm q (other ∷ others) = elim (Bool-cases (outranks other.first q.first)) [
  | inl e ↦ rw e (
      Perm.trans (Perm.append_left (entries other) (sink-perm q others))
        (swap_blocks (entries other) (entries q) (contents others)))
  | inr e ↦ rw e (Perm.refl _)
]

pub rise-joins :
    (q : PeerQueue) (before : List PeerQueue) → (rise q before).0 ++ (rise q before).1 ≡ before
unfolding rise
rise-joins q [] = refl
rise-joins q (other ∷ others) = go (rise q others) (rise-joins q others)
  where
    go :
        (parts : List PeerQueue × List PeerQueue)
        → parts.0 ++ parts.1 ≡ others
        → (rise_past q other parts).0 ++ (rise_past q other parts).1 ≡ other ∷ others
    go ([], passed) e = elim (Bool-cases (outranks q.first other.first)) [
      | inl h ↦ rw h (ap (λ l. other ∷ l) e)
      | inr h ↦ rw h (ap (λ l. other ∷ l) e)
    ]
    go (a ∷ above, passed) e = ap (λ l. other ∷ l) e

pub adjust_peer-perm :
    (before : List PeerQueue) (q : PeerQueue) (after : List PeerQueue)
    → Perm (contents (adjust_peer before q after)) (entries q ++ contents (before ++ after))
unfolding adjust_peer adjust_between
adjust_peer-perm before q after =
    let above = (rise q before).0 in
    let passed = (rise q before).1 in
    rw (contents-append above) (
      Perm.trans (Perm.append_left (contents above) (sink-perm q (passed ++ after))) (
        subst
          (λ l. Perm (contents above ++ (entries q ++ contents (passed ++ after))) (entries q ++ l))
          (sym (contents-append above (passed ++ after))
            ∙ ap contents (
                sym (append_assoc above passed after) ∙ ap (λ l. l ++ after) (rise-joins q before)))
          (swap_blocks (contents above) (entries q) (contents (passed ++ after)))))

-- A search in the list of peers.
abbrev pub FoundSpec : (PeerQueue → Type 0) → Type 0 → List PeerQueue → Found → Type 0
FoundSpec P Q peers nowhere = Q
FoundSpec P Q peers (found before q after) = (before ++ (q ∷ after) ≡ peers) × P q

abbrev pub EachPeer : (PeerQueue → Type 0) → List PeerQueue → Type 0
EachPeer P [] = Unit {0}
EachPeer P (q ∷ others) = P q × EachPeer P others

contents_found :
    (before : List PeerQueue) (q : PeerQueue) (after peers : List PeerQueue)
    → before ++ (q ∷ after) ≡ peers
    → Perm (entries q ++ contents (before ++ after)) (contents peers)
contents_found before q after peers e =
    subst (λ l. Perm (entries q ++ contents (before ++ after)) l)
      (sym (contents-append before (q ∷ after)) ∙ ap contents e)
      (subst (λ l. Perm (entries q ++ l) (contents before ++ (entries q ++ contents after)))
        (sym (contents-append before after))
        (swap_blocks (entries q) (contents before) (contents after)))

pub find_peer-FoundSpec :
    (peer : ℕ) (peers : List PeerQueue)
    → FoundSpec (λ q. q.peer ≡ peer) (Unit {0}) peers (find_peer peer peers)
unfolding find_peer
find_peer-FoundSpec peer [] = tt
find_peer-FoundSpec peer (other ∷ others) = elim (Bool-cases (other.peer == peer)) [
  | inl e ↦ rw e (refl, ground arith)
  | inr e ↦ rw e (go (find_peer peer others) (find_peer-FoundSpec peer others))
]
  where
    go :
        (f : Found)
        → FoundSpec (λ q. q.peer ≡ peer) (Unit {0}) others f
        → FoundSpec (λ q. q.peer ≡ peer) (Unit {0}) (other ∷ others) (found_behind other f)
    go nowhere h = tt
    go (found before q after) h = (ap (λ l. other ∷ l) h.0, h.1)

insert_found-perm :
    (rpc : GrantRpc) (peers : List PeerQueue) (f : Found)
    → FoundSpec (λ q. q.peer ≡ rpc.peer) (Unit {0}) peers f
    → Perm (contents (insert_found rpc peers f)) (rpc ∷ contents peers)
unfolding insert_found
insert_found-perm rpc peers nowhere h =
    insert_peer-perm (record { peer = rpc.peer; first = rpc; rest = [] }) peers
insert_found-perm rpc peers (found before q after) h =
    Perm.trans (adjust_peer-perm before (insert_queue rpc q) after) (
      Perm.trans (Perm.append_right (contents (before ++ after)) (insert_queue-perm rpc q))
        (Perm.cons rpc (contents_found before q after peers h.0)))

pub insert_grantable-perm :
    (peers : List PeerQueue) (rpc : GrantRpc)
    → Perm (contents (insert_grantable peers rpc)) (rpc ∷ contents peers)
unfolding insert_grantable
insert_grantable-perm peers rpc =
    insert_found-perm rpc peers (find_peer rpc.peer peers) (find_peer-FoundSpec rpc.peer peers)

pub remove_first-perm :
    (before : List PeerQueue) (q : PeerQueue) (after peers : List PeerQueue)
    → before ++ (q ∷ after) ≡ peers
    → Perm (q.first ∷ contents (remove_first before q after)) (contents peers)
unfolding remove_first
remove_first-perm before q after peers e =
    Perm.trans (Perm.cons q.first (go q.rest)) (contents_found before q after peers e)
  where
    go :
        (rest : List GrantRpc)
        → Perm
            (contents (remove_first before (record q { rest = rest }) after))
            (rest ++ contents (before ++ after))
    go [] = Perm.refl _
    go (a ∷ others) = adjust_peer-perm before (record q { first = a; rest = others }) after
