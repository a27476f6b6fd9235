-- ===== src/Transfer/Arrivals.antt =====
-- The segments of a message that has been sent, in any order and as often as may be, at homa_add_packet.
use homa_module.Prelude.{
  ℕ, ◌+◌, ◌<◌, ◌≡◌, refl, sym, ap, ◌∙◌, inl, inr, Bool, true, false, ◌||◌, none, some, List, [],
  ◌∷◌, arith, ltb, ◌==◌, Bool-cases, Each,
}
use homa_module.Incoming.{
  Packet, pkt_too_big, dup_frag, nomem, MessageIn, Added, kept, discarded, add_packet,
}
use homa_module.Incoming.Received.{received, holds, IsAccounted, AddSpec, add_packet-AddSpec}
use homa_module.Outgoing.{Segment}
use homa_module.Outgoing.Segments.{SegTiles}
use homa_module.Transfer.Places.{IsSegment, packet_of, start_of, IsSegment-within, holds-start_of}

-- A packet that is discarded changes nothing; there is memory for the gaps.
abbrev pub after_add : MessageIn → Added → MessageIn
after_add m (kept m') = m'
after_add m (discarded reason) = m

abbrev pub receive_all : (ℕ → ℕ) → MessageIn → List Segment → MessageIn
receive_all now m [] = m
receive_all now m (s ∷ ss) =
    receive_all now (after_add m (add_packet m (packet_of s) true (now s.offset))) ss

-- A packet is discarded without a reason only where the gaps are searched.
abbrev unexplained : Added → Bool
unexplained (kept m) = false
unexplained (discarded none) = true
unexplained (discarded (some reason)) = false

add_packet-explained :
    (m : MessageIn) (p : Packet) (now : ℕ)
    → ltb p.offset m.recv_end ≡ false
    → unexplained (add_packet m p true now) ≡ false
unfolding add_packet
add_packet-explained m p now h = elim (Bool-cases (ltb m.len (p.offset + p.size))) [
  | inl long ↦ rw long refl
  | inr fits ↦ elim (Bool-cases (p.offset == m.recv_end)) [
    | inl next ↦ rw (fits, next) refl
    | inr other ↦
        let ahead : ltb m.recv_end p.offset ≡ true = ground (arith, h, other) in
        rw (fits, other, ahead) refl
  ]
]

-- Exactly the bytes of the segments that begin at an offset of `got` have arrived.
pub record Arrived (len : ℕ) (segs : List Segment) (got : ℕ → Bool) (m : MessageIn) : Type 0 where
  pub accounted : IsAccounted m
  pub same_len : m.len ≡ len
  pub bytes : (b : ℕ) → b < len → received m b ≡ got (start_of segs b)

abbrev pub with_offset : (ℕ → Bool) → ℕ → ℕ → Bool
with_offset got n o = got o || (o == n)

module _ (len : ℕ) (segs : List Segment) (t : SegTiles 0 len segs) (got : ℕ → Bool) (m : MessageIn)
    (s : Segment) (member : IsSegment s segs) (h : Arrived len segs got m) where
  own_byte : (b : ℕ) → b < len → holds (packet_of s) b ≡ true → received m b ≡ got s.offset
  own_byte b lt e =
      h.bytes b lt
      ∙ ap got (ground (arith, e, holds-start_of 0 len b s segs t member (omega arith) lt))

  within : (b : ℕ) → holds (packet_of s) b ≡ true → b < len
  within b e = ground (arith, e, (IsSegment-within 0 len s segs t member).1)

  -- All of its bytes had arrived.
  repeated : got s.offset ≡ true → Arrived len segs (with_offset got s.offset) m
  repeated all = record {
    accounted = h.accounted;
    same_len = h.same_len;
    bytes = λ b lt. elim (Bool-cases (start_of segs b == s.offset)) [
      | inl e ↦
          let here : start_of segs b ≡ s.offset = ground (arith, e) in
          ground (arith, h.bytes b lt, ap got here, all, e)
      | inr e ↦ ground (arith, h.bytes b lt, e)
    ];
  }

  add-Arrived :
      (r : Added)
      → AddSpec m (packet_of s) true r
      → (ltb s.offset m.recv_end ≡ false → unexplained r ≡ false)
      → Arrived len segs (with_offset got s.offset) (after_add m r)
  add-Arrived (kept m') k first = record {
    accounted = k.accounted;
    same_len = k.same_len ∙ h.same_len;
    bytes = λ b lt.
        ground (
          arith,
          k.arrived b,
          h.bytes b lt,
          holds-start_of 0 len b s segs t member (omega arith) lt,
        );
  }
  add-Arrived (discarded (some pkt_too_big)) k first =
      absurd (omega (arith, k, h.same_len, (IsSegment-within 0 len s segs t member).1))
  add-Arrived (discarded (some nomem)) k first = absurd (ground (arith, k))
  add-Arrived (discarded (some dup_frag)) (b, c, hb, rb, hc, rc) first =
      absurd
        (ground (arith, sym rb ∙ own_byte b (within b hb) hb, sym rc ∙ own_byte c (within c hc) hc))
  add-Arrived (discarded none) k first =
      let (lo, hi, pos) = IsSegment-within 0 len s segs t member in
      let own : holds (packet_of s) s.offset ≡ true = ground (arith, pos) in
      elim (Bool-cases (ltb s.offset m.recv_end)) [
        | inl e ↦ repeated (
            sym (own_byte s.offset (omega (arith, hi, pos)) own)
            ∙ k.1 s.offset own (ground (arith, e)))
        | inr e ↦ absurd (ground (arith, first e))
      ]

-- Which segments are among those that have come, after those of `got`.
abbrev pub with_all : (ℕ → Bool) → List Segment → ℕ → Bool
with_all got [] = got
with_all got (s ∷ ss) = with_all (with_offset got s.offset) ss

pub receive_all-Arrived :
    (now : ℕ → ℕ) (len : ℕ) (segs : List Segment) (got : ℕ → Bool) (m : MessageIn)
    (arrivals : List Segment)
    → SegTiles 0 len segs
    → Each (λ s. IsSegment s segs) arrivals
    → Arrived len segs got m
    → Arrived len segs (with_all got arrivals) (receive_all now m arrivals)
receive_all-Arrived now len segs got m [] t k h = h
receive_all-Arrived now len segs got m (s ∷ ss) t (member, k) h =
    let (lo, hi, pos) = IsSegment-within 0 len s segs t member in
    receive_all-Arrived now len segs (with_offset got s.offset)
      (after_add m (add_packet m (packet_of s) true (now s.offset))) ss t k
      (add-Arrived len segs t got m s member h (add_packet m (packet_of s) true (now s.offset))
        (add_packet-AddSpec m (packet_of s) true (now s.offset) h.accounted pos)
        (add_packet-explained m (packet_of s) (now s.offset)))
