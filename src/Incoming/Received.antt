-- ===== src/Incoming/Received.antt =====
-- homa_add_packet (homa_incoming.c) against the set of bytes that have been received.
use homa_module.Prelude.{
  ℕ, ◌+◌, ◌-◌, ◌≤◌, ◌<◌, ◌≡◌, inl, inr, refl, Bool, true, false, not, ◌&&◌, ◌||◌, none, some, List,
  [], ◌∷◌, ◌++◌, arith, ltb, ◌==◌, if◌then◌else◌, Bool-cases,
}
use homa_module.Incoming.{
  Gap, Packet, MessageIn, Fill, filled, refused, pkt_too_big, dup_frag, nomem, Added, kept,
  discarded, keep, keep_filled, add_packet, message_in_init,
}
use homa_module.Incoming.Gaps.{
  between, in_gaps, gap_bytes, GapsIn, in_gaps_below, Filled, FillSpec, fill_gaps-FillSpec,
}

-- Byte `b` of the message has arrived.
abbrev pub received : MessageIn → ℕ → Bool
received m b = ltb b m.recv_end && not (in_gaps b m.gaps)

abbrev pub holds : Packet → ℕ → Bool
holds p b = between p.offset (p.offset + p.size) b

-- In how many packets byte `b` is.
abbrev pub copies : ℕ → List Packet → ℕ
copies b [] = 0
copies b (p ∷ ps) = (if holds p b then 1 else 0) + copies b ps

abbrev pub AllNonempty : List Packet → Type 0
AllNonempty [] = Unit {0}
AllNonempty (p ∷ ps) = (0 < p.size) × AllNonempty ps

-- The gaps, the count of missing bytes and the packets agree on what has arrived: each byte that has
-- is in one packet, and no other byte is in any.
pub record IsAccounted (m : MessageIn) : Type 0 where
  pub ordered : GapsIn 0 m.recv_end m.gaps
  pub inside : m.recv_end ≤ m.len
  pub remaining : m.bytes_remaining ≡ gap_bytes m.gaps + (m.len - m.recv_end)
  pub packets : (b : ℕ) → copies b m.packets ≡ (if received m b then 1 else 0)
  pub nonempty : AllNonempty m.packets

pub message_in_init-IsAccounted : (len : ℕ) → IsAccounted (message_in_init len)
unfolding message_in_init
message_in_init-IsAccounted len = record {
  ordered = omega arith;
  inside = omega arith;
  remaining = omega arith;
  packets = λ b. ground arith;
  nonempty = tt;
}

-- What homa_add_packet does, on each of its exits.
pub record Kept (m : MessageIn) (p : Packet) (m' : MessageIn) : Type 0 where
  pub accounted : IsAccounted m'
  pub arrived : (b : ℕ) → received m' b ≡ (received m b || holds p b)
  pub fresh : (b : ℕ) → holds p b ≡ true → received m b ≡ false
  pub queued : m'.packets ≡ m.packets ++ (p ∷ [])
  pub same_len : m'.len ≡ m.len

abbrev pub AddSpec : MessageIn → Packet → Bool → Added → Type 0
AddSpec m p memory (kept m') = Kept m p m'
AddSpec m p memory (discarded (some pkt_too_big)) = m.len < p.offset + p.size
AddSpec m p memory (discarded (some nomem)) = memory ≡ false
AddSpec m p memory (discarded (some dup_frag)) =
    (b : ℕ) × (c : ℕ) × (holds p b ≡ true)
    × (received m b ≡ false)
    × (holds p c ≡ true)
    × (received m c ≡ true)
AddSpec m p memory (discarded none) =
    (p.offset < m.recv_end) × ((b : ℕ) → holds p b ≡ true → b < m.recv_end → received m b ≡ true)

copies-snoc :
    (b : ℕ) (ps : List Packet) (p : Packet)
    → copies b (ps ++ (p ∷ [])) ≡ copies b ps + (if holds p b then 1 else 0)
copies-snoc b [] p = omega arith
copies-snoc b (q ∷ ps) p = omega (arith, copies-snoc b ps p)

AllNonempty-snoc :
    (ps : List Packet) (p : Packet) → AllNonempty ps → 0 < p.size → AllNonempty (ps ++ (p ∷ []))
AllNonempty-snoc [] p a h = (h, tt)
AllNonempty-snoc (q ∷ ps) p a h = (a.0, AllNonempty-snoc ps p a.1 h)

-- A packet is kept when the new gaps are missing exactly its bytes less.
keep-Kept :
    (m : MessageIn) (p : Packet) (e : ℕ) (gs : List Gap)
    → IsAccounted m
    → 0 < p.size
    → GapsIn 0 e gs
    → e ≤ m.len
    → gap_bytes gs + (m.len - e) + p.size ≡ m.bytes_remaining
    → ((b : ℕ) → (ltb b e && not (in_gaps b gs)) ≡ (received m b || holds p b))
    → ((b : ℕ) → holds p b ≡ true → received m b ≡ false)
    → AddSpec m p true (keep m p e gs)
keep-Kept m p e gs v pos ordered inside bytes arrived fresh = record {
  accounted = record {
    ordered = ordered;
    inside = inside;
    remaining = omega arith;
    packets = λ b. ground (arith, copies-snoc b m.packets p, v.packets b, arrived b, fresh b);
    nonempty = AllNonempty-snoc m.packets p v.nonempty pos;
  };
  arrived = arrived;
  fresh = fresh;
  queued = refl;
  same_len = refl;
}

GapsIn-extend : (lo hi hi' : ℕ) (gs : List Gap) → hi ≤ hi' → GapsIn lo hi gs → GapsIn lo hi' gs
GapsIn-extend lo hi hi' [] h w = omega arith
GapsIn-extend lo hi hi' (g ∷ gs) h w = (w.0, w.1, GapsIn-extend (g.end + 1) hi hi' gs h w.2)

-- A new last gap, from `hi` to its end.
module _ (hi : ℕ) (g : Gap) (start : g.start ≡ hi) (nonempty : hi < g.end) where
  GapsIn-snoc :
      (lo stop : ℕ) (gs : List Gap)
      → g.end < stop
      → GapsIn lo hi gs
      → GapsIn lo stop (gs ++ (g ∷ []))
  GapsIn-snoc lo stop [] h w = (omega arith, omega arith, omega arith)
  GapsIn-snoc lo stop (f ∷ gs) h w = (w.0, w.1, GapsIn-snoc (f.end + 1) stop gs h w.2)

  in_gaps-snoc :
      (b : ℕ) (gs : List Gap) → in_gaps b (gs ++ (g ∷ [])) ≡ (in_gaps b gs || between hi g.end b)
  in_gaps-snoc b [] = ground arith
  in_gaps-snoc b (f ∷ gs) = ground (arith, in_gaps-snoc b gs)

  gap_bytes-snoc : (gs : List Gap) → gap_bytes (gs ++ (g ∷ [])) ≡ gap_bytes gs + (g.end - hi)
  gap_bytes-snoc [] = omega arith
  gap_bytes-snoc (f ∷ gs) = omega (arith, gap_bytes-snoc gs)

module _ (m : MessageIn) (p : Packet) (v : IsAccounted m) (pos : 0 < p.size)
    (fits : p.offset + p.size ≤ m.len) where
  next_packet :
      (memory : Bool)
      → p.offset ≡ m.recv_end
      → AddSpec m p memory (keep m p (m.recv_end + p.size) m.gaps)
  next_packet memory e =
      keep-Kept m p (m.recv_end + p.size) m.gaps v pos
        (GapsIn-extend 0 m.recv_end _ m.gaps (omega arith) v.ordered) (omega arith)
        (omega (arith, v.remaining))
        (λ b. ground (arith, in_gaps_below 0 m.recv_end b m.gaps v.ordered)) (λ b h. ground arith)

  gap_packet :
      (memory : Bool) (now : ℕ)
      → m.recv_end < p.offset
      → AddSpec m p memory (
          keep m p
            (p.offset + p.size)
            (m.gaps ++ (record { start = m.recv_end; end = p.offset; time = now } ∷ [])))
  gap_packet memory now h =
      keep-Kept m p (p.offset + p.size) _ v pos
        (GapsIn-snoc m.recv_end gap refl h 0 (p.offset + p.size) m.gaps (omega arith) v.ordered)
        (omega arith) (omega (arith, v.remaining, gap_bytes-snoc m.recv_end gap refl h m.gaps))
        (λ b. ground (
          arith,
          in_gaps-snoc m.recv_end gap refl h b m.gaps,
          in_gaps_below 0 m.recv_end b m.gaps v.ordered,
        ))
        (λ b e. ground arith)
    where
      gap : Gap
      gap = record { start = m.recv_end; end = p.offset; time = now }

  late_packet :
      (memory : Bool) (f : Fill)
      → p.offset < m.recv_end
      → FillSpec p.offset (p.offset + p.size) memory 0 m.recv_end m.gaps f
      → AddSpec m p memory (keep_filled m p f)
  late_packet memory (filled gs) h s =
      keep-Kept m p m.recv_end gs v pos s.ordered v.inside (omega (arith, s.bytes, v.remaining))
        (λ b. ground (arith, s.holes b, late b s)) (λ b e. ground (arith, s.missing b e))
    where
      late :
          (b : ℕ)
          → Filled p.offset (p.offset + p.size) 0 m.recv_end m.gaps gs
          → holds p b ≡ true
          → b < m.recv_end
      late b s e = ground (arith, s.missing b e, in_gaps_below 0 m.recv_end b m.gaps v.ordered)
  late_packet memory (refused none) h s = (h, λ b e below. ground (arith, s b e))
  late_packet memory (refused (some pkt_too_big)) h s = absurd s
  late_packet memory (refused (some nomem)) h s = s
  late_packet memory (refused (some dup_frag)) h s =
      let (b, c, eb, ib, ec, ic, below) = s in (b, c, eb, ground arith, ec, ground arith)

-- For a packet with some data and a message whose account is right, homa_add_packet keeps the account, and
-- does one of these: it keeps a packet none of whose bytes had arrived, at the end of the queue, and then
-- exactly its bytes have arrived besides those of before; or it discards a packet that reaches past the end of
-- the message, that has bytes both missing and not, that begins below `recv_end` and has no byte missing
-- there, or for which there is no memory.
pub add_packet-AddSpec :
    (m : MessageIn) (p : Packet) (memory : Bool) (now : ℕ)
    → IsAccounted m
    → 0 < p.size
    → AddSpec m p memory (add_packet m p memory now)
unfolding add_packet
add_packet-AddSpec m p memory now v pos = elim (Bool-cases (ltb m.len (p.offset + p.size))) [
  | inl long ↦ rw long (ground arith)
  | inr fits ↦ elim (Bool-cases (p.offset == m.recv_end)) [
    | inl next ↦ rw (fits, next) (next_packet m p v pos (ground arith) memory (ground arith))
    | inr other ↦ elim (Bool-cases (ltb m.recv_end p.offset)) [
      | inl ahead ↦ rw (fits, other, ahead) (ahead_packet memory (ground arith) (ground arith))
      | inr late ↦
          rw (fits, other, late)
            (late_packet m p v pos (ground arith) memory _ (ground arith) (
              fill_gaps-FillSpec p.offset (p.offset + p.size) 0 m.recv_end memory m.gaps v.ordered
                (omega arith)))
    ]
  ]
]
  where
    ahead_packet :
        (memory : Bool)
        → p.offset + p.size ≤ m.len
        → m.recv_end < p.offset
        → AddSpec m p memory (
            if memory
            then keep m p
                (p.offset + p.size)
                (m.gaps ++ (record { start = m.recv_end; end = p.offset; time = now } ∷ []))
            else discarded (some nomem))
    ahead_packet true fits h = gap_packet m p v pos fits true now h
    ahead_packet false fits h = refl
