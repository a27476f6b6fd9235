-- ===== src/Peer/Acks.antt =====
-- homa_peer_add_ack and homa_peer_get_acks (homa_peer.c): no ack is lost or sent twice.
use mathlib.Core.List.{Perm, append_assoc, append-nil, perm_append_comm}
use mathlib.Core.List.Perm
use mathlib.Core.Path.{subst}
use homa_module.Prelude.{
  ℕ, zero, suc, ◌+◌, ◌-◌, ◌≤◌, ◌≡◌, refl, sym, ap, ◌∙◌, inl, inr, Option, none, some, List, [], ◌∷◌,
  ◌++◌, arith, ltb, ◌==◌, Bool-cases, if◌then◌else◌, length, length-append, take, drop,
}
use homa_module.Peer.{Ack, Peer, AckPacket, max_acks_per_pkt, peer_add_ack, peer_get_acks}

-- A client's RPC that has completed, or a packet that takes up to so many acks along.
pub data AckOp : Type 0 where
  add : Ack → AckOp
  get : ℕ → AckOp

abbrev pub added : AckOp → List Ack
added (add ack) = ack ∷ []
added (get count) = []

-- All RPCs that a packet acks, the one in its header too.
abbrev pub acks_in : Option AckPacket → List Ack
acks_in none = []
acks_in (some pkt) = pkt.header ∷ pkt.acks

abbrev pub apply : Peer → AckOp → Peer × List Ack
apply peer (add ack) = let (peer', pkt) = peer_add_ack peer ack in (peer', acks_in pkt)
apply peer (get count) = peer_get_acks peer count

-- What one operation sends fits its packet.
abbrev pub fits : AckOp → ℕ
fits (add ack) = max_acks_per_pkt + 1
fits (get count) = count

abbrev pub apply_all : Peer → List AckOp → Peer × List Ack
apply_all peer [] = (peer, [])
apply_all peer (op ∷ ops) =
    let (peer', sent) = apply peer op in
    let (peer'', others) = apply_all peer' ops in (peer'', sent ++ others)

abbrev pub all_added : List AckOp → List Ack
all_added [] = []
all_added (op ∷ ops) = added op ++ all_added ops

take-drop : (n : ℕ) (xs : List Ack) → take n xs ++ drop n xs ≡ xs
take-drop zero xs = refl
take-drop (suc n) [] = refl
take-drop (suc n) (x ∷ xs) = ap (λ l. x ∷ l) (take-drop n xs)

length-take-drop :
    (n : ℕ) (xs : List Ack)
    → n ≤ length xs
    → (length (take n xs) ≡ n) × (length (drop n xs) + n ≡ length xs)
length-take-drop zero xs h = (refl, omega arith)
length-take-drop (suc n) [] h = absurd (omega (arith, h))
length-take-drop (suc n) (x ∷ xs) h =
    let (t, d) = length-take-drop n xs (omega (arith, h)) in (ap suc t, omega (arith, d))

pub record OpSpec (peer : Peer) (op : AckOp) (r : Peer × List Ack) : Type 0 where
  pub all : Perm (peer.acks ++ added op) (r.1 ++ r.0.acks)
  pub few : length r.0.acks ≤ max_acks_per_pkt
  pub sent : length r.1 ≤ fits op

apply-OpSpec :
    (peer : Peer) (op : AckOp)
    → length peer.acks ≤ max_acks_per_pkt
    → OpSpec peer op (apply peer op)
unfolding peer_add_ack peer_get_acks
apply-OpSpec peer (add ack) h = elim (Bool-cases (ltb (length peer.acks) max_acks_per_pkt)) [
  | inl e ↦ rw e (record {
    all = Perm.refl _;
    few = ground (arith, e, length-append peer.acks (ack ∷ []));
    sent = omega arith;
  })
  | inr e ↦ rw e (record {
    all =
        subst (Perm (peer.acks ++ (ack ∷ []))) (sym (append-nil (ack ∷ peer.acks)))
          (perm_append_comm peer.acks (ack ∷ []));
    few = omega arith;
    sent = omega (arith, h);
  })
]
apply-OpSpec peer (get count) h = elim (Bool-cases (length peer.acks == 0)) [
  | inl e ↦ rw e (record { all = rw append-nil (Perm.refl _); few = h; sent = omega arith })
  | inr e ↦
      let n = if ltb (length peer.acks) count then length peer.acks else count in
      let (kept, gone) = length-take-drop (length peer.acks - n) peer.acks (omega arith) in
      rw e (record {
        all =
            subst
              (λ l.
                Perm l
                  (drop (length peer.acks - n) peer.acks ++ take (length peer.acks - n) peer.acks))
              (take-drop (length peer.acks - n) peer.acks ∙ sym (append-nil peer.acks))
              (perm_append_comm (take (length peer.acks - n) peer.acks)
                (drop (length peer.acks - n) peer.acks));
        few = omega (arith, kept, h);
        sent = ground (arith, gone);
      })
]

-- Over any row of RPCs that complete and packets that take acks along, each ack of an RPC that completes
-- goes out once, in an ACK packet or another one, or is still kept for the peer: the acks that were kept and
-- those that come in are, in some order, those that go out and those that are kept. No more than
-- HOMA_MAX_ACKS_PER_PKT are ever kept.
pub acks_lem :
    (peer : Peer) (ops : List AckOp)
    → length peer.acks ≤ max_acks_per_pkt
    → Perm (peer.acks ++ all_added ops) ((apply_all peer ops).1 ++ (apply_all peer ops).0.acks)
      × (length (apply_all peer ops).0.acks ≤ max_acks_per_pkt)
acks_lem peer [] h = (rw append-nil (Perm.refl _), h)
acks_lem peer (op ∷ ops) h =
    let s = apply-OpSpec peer op h in
    let (p', sent) = apply peer op in
    let (ih, few) = acks_lem p' ops s.few in
    let others = apply_all p' ops in
    (
      subst (λ l. Perm l ((sent ++ others.1) ++ others.0.acks))
          (append_assoc peer.acks (added op) (all_added ops))
          (Perm.trans (Perm.append_right (all_added ops) s.all) (
            subst (λ l. Perm l ((sent ++ others.1) ++ others.0.acks))
              (sym (append_assoc sent p'.acks (all_added ops)))
              (subst (Perm (sent ++ (p'.acks ++ all_added ops)))
                (sym (append_assoc sent others.1 others.0.acks)) (Perm.append_left sent ih)))),
      few,
    )
