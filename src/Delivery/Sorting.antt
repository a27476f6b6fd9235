-- ===== src/Delivery/Sorting.antt =====
-- The queue that homa_deliver_skbs builds (homa_incoming.c) is its packets sorted by offset.
use mathlib.Core.List.{Perm, append_assoc, append-nil, perm_middle}
use mathlib.Core.List.Perm
use homa_module.Prelude.{
  ℕ, suc, ◌≤◌, ◌<◌, ◌≡◌, refl, sym, ◌∙◌, inl, inr, true, none, some, List, [], ◌∷◌, ◌++◌, arith,
  ltb, Bool-cases, length,
}
use homa_module.Incoming.{Packet}
use homa_module.Delivery.{in_order, insert_packet, sort_packets, sorted_queue}

abbrev pub AllFrom : ℕ → List Packet → Type 0
AllFrom n [] = Unit {0}
AllFrom n (p ∷ ps) = (n ≤ p.offset) × AllFrom n ps

abbrev pub AllUpTo : ℕ → List Packet → Type 0
AllUpTo n [] = Unit {0}
AllUpTo n (p ∷ ps) = (p.offset ≤ n) × AllUpTo n ps

abbrev pub IsSorted : List Packet → Type 0
IsSorted [] = Unit {0}
IsSorted (p ∷ ps) = AllFrom p.offset ps × IsSorted ps

pub AllFrom-weaken : (n m : ℕ) (ps : List Packet) → n ≤ m → AllFrom m ps → AllFrom n ps
AllFrom-weaken n m [] h a = tt
AllFrom-weaken n m (p ∷ ps) h a = (omega arith, AllFrom-weaken n m ps h a.1)

AllFrom-insert :
    (n : ℕ) (p : Packet) (qs : List Packet)
    → n ≤ p.offset
    → AllFrom n qs
    → AllFrom n (insert_packet p qs)
unfolding insert_packet
AllFrom-insert n p [] h a = (h, tt)
AllFrom-insert n p (q ∷ qs) h a = elim (Bool-cases (ltb p.offset q.offset)) [
  | inl e ↦ rw e (h, a)
  | inr e ↦ rw e (a.0, AllFrom-insert n p qs h a.1)
]

insert_packet-IsSorted :
    (p : Packet) (qs : List Packet) → IsSorted qs → IsSorted (insert_packet p qs)
unfolding insert_packet
insert_packet-IsSorted p [] s = (tt, tt)
insert_packet-IsSorted p (q ∷ qs) s = elim (Bool-cases (ltb p.offset q.offset)) [
  | inl e ↦ rw e ((ground arith, AllFrom-weaken p.offset q.offset qs (ground arith) s.0), s)
  | inr e ↦ rw e (AllFrom-insert q.offset p qs (ground arith) s.0, insert_packet-IsSorted p qs s.1)
]

insert_packet-perm : (p : Packet) (qs : List Packet) → Perm (insert_packet p qs) (p ∷ qs)
unfolding insert_packet
insert_packet-perm p [] = Perm.refl _
insert_packet-perm p (q ∷ qs) = elim (Bool-cases (ltb p.offset q.offset)) [
  | inl e ↦ rw e (Perm.refl _)
  | inr e ↦ rw e (Perm.trans (Perm.cons q (insert_packet-perm p qs)) (Perm.swap p q qs))
]

-- Behind packets with no greater offset the new one goes last.
insert_packet-last :
    (p : Packet) (qs : List Packet) → AllUpTo p.offset qs → insert_packet p qs ≡ qs ++ (p ∷ [])
unfolding insert_packet
insert_packet-last p [] a = refl
insert_packet-last p (q ∷ qs) a = ground (arith, insert_packet-last p qs a.1)

AllUpTo-snoc :
    (n : ℕ) (qs : List Packet) (p : Packet)
    → AllUpTo n qs
    → n ≤ p.offset
    → AllUpTo p.offset (qs ++ (p ∷ []))
AllUpTo-snoc n [] p a h = (omega arith, tt)
AllUpTo-snoc n (q ∷ qs) p a h = (omega arith, AllUpTo-snoc n qs p a.1 h)

AllUpTo-weaken : (n m : ℕ) (ps : List Packet) → n ≤ m → AllUpTo n ps → AllUpTo m ps
AllUpTo-weaken n m [] h a = tt
AllUpTo-weaken n m (p ∷ ps) h a = (omega arith, AllUpTo-weaken n m ps h a.1)

rising_cons :
    (n : ℕ) (p : Packet) (ps : List Packet)
    → in_order (some n) (p ∷ ps) ≡ true
    → (n < p.offset) × (in_order (some p.offset) ps ≡ true)
unfolding in_order
rising_cons n p ps e = (ground arith, ground arith)

sort_packets-rising :
    (n : ℕ) (sorted ps : List Packet)
    → AllUpTo n sorted
    → in_order (some n) ps ≡ true
    → sort_packets sorted ps ≡ sorted ++ ps
unfolding sort_packets in_order
sort_packets-rising n sorted [] a e = sym (append-nil sorted)
sort_packets-rising n sorted (p ∷ ps) a e =
    let (above, more) = rising_cons n p ps e in
    rw (insert_packet-last p sorted (AllUpTo-weaken n p.offset sorted (omega arith) a)) (
      sort_packets-rising p.offset (sorted ++ (p ∷ [])) ps (AllUpTo-snoc n sorted p a (omega arith))
        more
      ∙ append_assoc sorted (p ∷ []) ps)

sort_packets-IsSorted :
    (sorted ps : List Packet) → IsSorted sorted → IsSorted (sort_packets sorted ps)
unfolding sort_packets
sort_packets-IsSorted sorted [] s = s
sort_packets-IsSorted sorted (p ∷ ps) s =
    sort_packets-IsSorted (insert_packet p sorted) ps (insert_packet-IsSorted p sorted s)

sort_packets-perm : (sorted ps : List Packet) → Perm (sort_packets sorted ps) (sorted ++ ps)
unfolding sort_packets
sort_packets-perm sorted [] = rw append-nil (Perm.refl _)
sort_packets-perm sorted (p ∷ ps) = Perm.trans (sort_packets-perm (insert_packet p sorted) ps) (
    Perm.trans (Perm.append_right ps (insert_packet-perm p sorted))
      (Perm.symm (perm_middle sorted ps)))

sort_packets-in_order :
    (p : Packet) (ps : List Packet)
    → in_order none (p ∷ ps) ≡ true
    → sort_packets [] (p ∷ ps) ≡ p ∷ ps
unfolding sort_packets in_order
sort_packets-in_order p ps e = sort_packets-rising p.offset (p ∷ []) ps (omega arith, tt) e

two_or_more : (n : ℕ) → ltb 1 (suc (suc n)) ≡ true
two_or_more n = ground arith

-- The fast path, which leaves packets as they are whose offsets rise, gives what the insertion sort
-- would; so the queue is always the result of the sort.
sorted_queue-sort : (packets : List Packet) → sorted_queue packets ≡ sort_packets [] packets
unfolding sorted_queue
sorted_queue-sort [] = unfold sort_packets in refl
sorted_queue-sort (p ∷ []) = unfold sort_packets in refl
sorted_queue-sort (p ∷ q ∷ ps) = elim (Bool-cases (in_order none (p ∷ q ∷ ps))) [
  | inl e ↦ rw (two_or_more (length ps), e) (sym (sort_packets-in_order p (q ∷ ps) e))
  | inr e ↦ rw (two_or_more (length ps), e)
]

-- The queue that homa_deliver_skbs builds, on its fast path too, is what the insertion sort gives: the
-- same packets, each at an offset that is at least that of the one in front of it.
pub sorted_queue_lem :
    (packets : List Packet)
    → (sorted_queue packets ≡ sort_packets [] packets)
      × IsSorted (sorted_queue packets)
      × Perm (sorted_queue packets) packets
sorted_queue_lem packets = (
  sorted_queue-sort packets,
  rw sorted_queue-sort (sort_packets-IsSorted [] packets tt),
  rw sorted_queue-sort (sort_packets-perm [] packets),
)
