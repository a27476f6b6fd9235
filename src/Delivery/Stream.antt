-- ===== src/Delivery/Stream.antt =====
-- A complete message, as homa_deliver_skbs hands it over (homa_incoming.c), is one contiguous stream.
use mathlib.Core.List.{Perm, append_assoc, append-nil}
use homa_module.Prelude.{
  ℕ, ◌+◌, ◌-◌, ◌≤◌, ◌<◌, ◌≡◌, ◌≢◌, ◌⊎◌, refl, sym, ◌∙◌, ap, inl, inr, Bool, false, not, ◌&&◌, true,
  some, List, [], ◌∷◌, ◌++◌, arith, ltb, ◌==◌, if◌then◌else◌, Bool-cases, length,
}
use homa_module.Incoming.{Gap, Packet, MessageIn}
use homa_module.Incoming.Gaps.{in_gaps, gap_bytes, GapsIn}
use homa_module.Incoming.Received.{received, holds, copies, AllNonempty, IsAccounted}
use homa_module.Delivery.{
  insert_packet, sort_packets, sorted_queue, Actor, hand_over, Delivered, handed, not_ready,
  dead_rpc, deliver,
}
use homa_module.Delivery.Sorting.{AllFrom, AllFrom-weaken, IsSorted, sorted_queue_lem}

-- The packets follow each other without a break or an overlap, from `c` to `len`.
abbrev pub Tiles : ℕ → ℕ → List Packet → Type 0
Tiles c len [] = c ≡ len
Tiles c len (p ∷ ps) = (p.offset ≡ c) × Tiles (c + p.size) len ps

copies-insert :
    (b : ℕ) (p : Packet) (qs : List Packet)
    → copies b (insert_packet p qs) ≡ (if holds p b then 1 else 0) + copies b qs
unfolding insert_packet
copies-insert b p [] = refl
copies-insert b p (q ∷ qs) = ground (arith, copies-insert b p qs)

AllNonempty-insert :
    (p : Packet) (qs : List Packet) → 0 < p.size → AllNonempty qs → AllNonempty (insert_packet p qs)
unfolding insert_packet
AllNonempty-insert p [] h a = (h, tt)
AllNonempty-insert p (q ∷ qs) h a = ground (arith, AllNonempty-insert p qs h a.1)

sort_packets-same :
    (sorted ps : List Packet)
    → AllNonempty sorted
    → AllNonempty ps
    → AllNonempty (sort_packets sorted ps)
      × ((b : ℕ) → copies b (sort_packets sorted ps) ≡ copies b sorted + copies b ps)
unfolding sort_packets
sort_packets-same sorted [] a c = (a, λ b. omega arith)
sort_packets-same sorted (p ∷ ps) a c =
    let ih =
      sort_packets-same (insert_packet p sorted) ps (AllNonempty-insert p sorted c.0 a) c.1 in
    (ih.0, λ b. omega (arith, ih.1 b, copies-insert b p sorted))

-- Sorted packets from `m` on leave the bytes before alone.
copies-below : (b m : ℕ) (ps : List Packet) → AllFrom m ps → b < m → copies b ps ≡ 0
copies-below b m [] a h = refl
copies-below b m (p ∷ ps) a h = ground (arith, copies-below b m ps a.1 h)

-- Packets that have no byte before `d` start there or later.
AllFrom-free :
    (c d : ℕ) (ps : List Packet)
    → AllNonempty ps
    → AllFrom c ps
    → ((b : ℕ) → c ≤ b → b < d → copies b ps ≡ 0)
    → AllFrom d ps
AllFrom-free c d [] n a z = tt
AllFrom-free c d (p ∷ ps) n a z = (
  elim (Bool-cases (ltb p.offset d)) [
    | inl before ↦ absurd (ground (arith, z p.offset))
    | inr after ↦ ground arith
  ],
  AllFrom-free c d ps n.1 a.1 (λ b h k. omega (arith, z b h k)),
)

Tiles-sorted :
    (c len : ℕ) (ps : List Packet)
    → IsSorted ps
    → AllNonempty ps
    → AllFrom c ps
    → c ≤ len
    → ((b : ℕ) → c ≤ b → copies b ps ≡ (if ltb b len then 1 else 0))
    → Tiles c len ps
Tiles-sorted c len [] s n a h z = ground (arith, z c)
Tiles-sorted c len (p ∷ ps) s n a h z =
    (start, Tiles-sorted (c + p.size) len ps s.1 n.1 from fits rest)
  where
    start : p.offset ≡ c
    start = elim (Bool-cases (ltb c p.offset)) [
      | inl later ↦ absurd (ground (arith, z c, z p.offset, copies-below c p.offset ps s.0))
      | inr at_c ↦ ground arith
    ]

    fits : c + p.size ≤ len
    fits = elim (Bool-cases (ltb len (c + p.size))) [
      | inl long ↦ absurd (ground (arith, z (c + p.size - 1), start))
      | inr fit ↦ ground arith
    ]

    free : (b : ℕ) → c ≤ b → b < c + p.size → copies b ps ≡ 0
    free b hb kb = ground (arith, z b, start)

    from : AllFrom (c + p.size) ps
    from = AllFrom-free c (c + p.size) ps n.1 (AllFrom-weaken c p.offset ps (omega arith) s.0) free

    rest : (b : ℕ) → c + p.size ≤ b → copies b ps ≡ (if ltb b len then 1 else 0)
    rest b hb = ground (arith, z b, start)

gaps_gone : (lo hi : ℕ) (gs : List Gap) → GapsIn lo hi gs → gap_bytes gs ≡ 0 → gs ≡ []
gaps_gone lo hi [] w e = refl
gaps_gone lo hi (g ∷ gs) w e = absurd (omega arith)

AllFrom-zero : (ps : List Packet) → AllFrom 0 ps
AllFrom-zero [] = tt
AllFrom-zero (p ∷ ps) = (omega arith, AllFrom-zero ps)

-- Once no bytes remain, each byte of the message has arrived.
complete :
    (m : MessageIn) → IsAccounted m → m.bytes_remaining ≡ 0 → (b : ℕ) → received m b ≡ ltb b m.len
complete m v e b = ground (arith, v.remaining, v.inside, in_none)
  where
    none_left : m.gaps ≡ []
    none_left = gaps_gone 0 m.recv_end m.gaps v.ordered (omega (arith, v.remaining))

    in_none : in_gaps b m.gaps ≡ false
    in_none = rw none_left

-- The queue that homa_deliver_skbs builds from a complete message: its packets, in an order in which
-- each begins where the one before it ends, from the first byte of the message to the last.
pub sorted_queue-Tiles :
    (m : MessageIn)
    → IsAccounted m
    → m.bytes_remaining ≡ 0
    → Tiles 0 m.len (sorted_queue m.packets) × Perm (sorted_queue m.packets) m.packets
sorted_queue-Tiles m v e =
    let (sort, order, perm) = sorted_queue_lem m.packets in
    let (some_bytes, same) = sort_packets-same [] m.packets tt v.nonempty in
    (
      Tiles-sorted 0 m.len _ order (rw sort some_bytes) (AllFrom-zero _) (omega arith) (λ b h.
          ap (copies b) sort
          ∙ omega (arith, same b, v.packets b)
          ∙ ap (λ t. if t then 1 else 0) (complete m v e b)),
      perm,
    )

nil_of_length : (ps : List Packet) → length ps ≡ 0 → ps ≡ []
nil_of_length [] e = refl
nil_of_length (p ∷ ps) e = absurd (omega arith)

-- The actor takes a packet, after those of `before`: it sets no error and uses some of its bytes.
abbrev pub accepts : Actor → List Packet → Packet → Bool
accepts actor before p = not (actor.fails before p) && not (actor.used before p == 0)

abbrev pub AllAccepted : Actor → List Packet → List Packet → Type 0
AllAccepted actor before [] = Unit {0}
AllAccepted actor before (p ∷ ps) =
    (accepts actor before p ≡ true) × AllAccepted actor (before ++ (p ∷ [])) ps

-- The calls that are made of those for `ps`: all of them, or up to the first that is not accepted.
abbrev pub HandSpec : Actor → List Packet → List Packet → List Packet × Bool → Type 0
HandSpec actor before ps (given, true) = (given ≡ before ++ ps) × AllAccepted actor before ps
HandSpec actor before ps (given, false) =
    (taken : List Packet) × (last : Packet) × (rest : List Packet) × (ps ≡ taken ++ (last ∷ rest))
    × (given ≡ before ++ (taken ++ (last ∷ [])))
    × AllAccepted actor before taken
    × (accepts actor (before ++ taken) last ≡ false)

refused_first :
    (actor : Actor) (before : List Packet) (p : Packet) (ps : List Packet)
    → accepts actor before p ≡ false
    → HandSpec actor before (p ∷ ps) (before ++ (p ∷ []), false)
refused_first actor before p ps e =
    ([], p, ps, refl, refl, tt, ap (λ l. accepts actor l p) (append-nil before) ∙ e)

accepted_first :
    (actor : Actor) (before : List Packet) (p : Packet) (ps : List Packet) (r : List Packet × Bool)
    → accepts actor before p ≡ true
    → HandSpec actor (before ++ (p ∷ [])) ps r
    → HandSpec actor before (p ∷ ps) r
accepted_first actor before p ps (given, true) e (all, h) =
    (all ∙ append_assoc before (p ∷ []) ps, (e, h))
accepted_first actor before p ps (given, false) e (taken, last, rest, parts, is, h, no_more) = (
  p ∷ taken,
  last,
  rest,
  ap (λ l. p ∷ l) parts,
  is ∙ append_assoc before (p ∷ []) (taken ++ (last ∷ [])),
  (e, h),
  ap (λ l. accepts actor l last) (sym (append_assoc before (p ∷ []) taken)) ∙ no_more,
)

hand_over_lem :
    (actor : Actor) (before ps : List Packet) → HandSpec actor before ps (hand_over actor before ps)
unfolding hand_over
hand_over_lem actor before [] = (sym (append-nil before), tt)
hand_over_lem actor before (p ∷ ps) = elim (Bool-cases (actor.fails before p)) [
  | inl bad ↦ rw bad (refused_first actor before p ps (ground (arith, bad)))
  | inr fine ↦ elim (Bool-cases (actor.used before p == 0)) [
    | inl none_used ↦
        rw (fine, none_used) (refused_first actor before p ps (ground (arith, fine, none_used)))
    | inr used ↦
        rw (fine, used)
          (accepted_first actor before p ps (hand_over actor (before ++ (p ∷ [])) ps)
            (ground (arith, fine, used)) (hand_over_lem actor (before ++ (p ∷ [])) ps))
  ]
]

abbrev pub DeliverSpec : Actor → MessageIn → Delivered → Type 0
DeliverSpec actor m dead_rpc = ⊥
DeliverSpec actor m not_ready = (m.bytes_remaining ≢ 0) ⊎ (m.packets ≡ [])
DeliverSpec actor m (handed given done) =
    (m.bytes_remaining ≡ 0)
    × (stream : List Packet) × Tiles 0 m.len stream
    × Perm stream m.packets
    × HandSpec actor [] stream (given, done)

-- For an RPC that is not dead and a message whose account is right, homa_deliver_skbs waits exactly as long as
-- bytes are missing or there is no packet. Otherwise it calls the actor with the message's packets, in the
-- order in which they are one contiguous stream from the first byte of the message to the last: with each of
-- them, if the actor accepts each, and else up to the first that it does not accept, that one included. It
-- accepts a packet if it sets no error and uses some bytes.
pub deliver_lem :
    (actor : Actor) (m : MessageIn)
    → IsAccounted m
    → DeliverSpec actor m (deliver false actor (some m))
unfolding deliver
deliver_lem actor m v = elim (Bool-cases (m.bytes_remaining == 0)) [
  | inr wait ↦ rw wait (inl (ground arith))
  | inl whole ↦ elim (Bool-cases (length m.packets == 0)) [
    | inl empty ↦ rw (whole, empty) (inr (nil_of_length m.packets (ground arith)))
    | inr more ↦
        let zero_left : m.bytes_remaining ≡ 0 = ground arith in
        let (tiles, perm) = sorted_queue-Tiles m v zero_left in
        rw (whole, more)
          (
            zero_left,
            sorted_queue m.packets,
            tiles,
            perm,
            hand_over_lem actor [] (sorted_queue m.packets),
          )
  ]
]
