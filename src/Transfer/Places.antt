-- ===== src/Transfer/Places.antt =====
-- Where the bytes of a message are among its segments.
use homa_module.Prelude.{
  ℕ, ◌+◌, ◌≤◌, ◌<◌, ◌≡◌, refl, ap, ◌⊎◌, inl, inr, List, [], ◌∷◌, arith, ltb, ◌==◌, Bool-cases,
  if◌then◌else◌,
}
use homa_module.Incoming.{Packet}
use homa_module.Incoming.Received.{holds}
use homa_module.Outgoing.{Segment}
use homa_module.Outgoing.Segments.{SegTiles}

abbrev pub IsSegment : Segment → List Segment → Type 0
IsSegment s [] = ⊥
IsSegment s (t ∷ ts) = (t ≡ s) ⊎ IsSegment s ts

-- The DATA packet that a segment arrives as.
abbrev pub packet_of : Segment → Packet
packet_of s = record { offset = s.offset; size = s.seg_bytes }

-- The offset of the segment that has byte `b`.
abbrev pub start_of : List Segment → ℕ → ℕ
start_of [] b = 0
start_of (s ∷ ss) b = if ltb b (s.offset + s.seg_bytes) then s.offset else start_of ss b

SegTiles-le : (a len : ℕ) (ss : List Segment) → SegTiles a len ss → a ≤ len
SegTiles-le a len [] t = omega (arith, t)
SegTiles-le a len (s ∷ ss) (at, pos, t) = omega (arith, SegTiles-le (a + s.seg_bytes) len ss t)

pub IsSegment-within :
    (a len : ℕ) (s : Segment) (ss : List Segment)
    → SegTiles a len ss
    → IsSegment s ss
    → (a ≤ s.offset) × (s.offset + s.seg_bytes ≤ len) × (0 < s.seg_bytes)
IsSegment-within a len s [] t m = absurd m
IsSegment-within a len s (u ∷ ss) (at, pos, t) (inl e) = (
  omega (arith, at, ap (λ x. x.offset) e),
  omega (
    arith,
    at,
    ap (λ x. x.offset) e,
    ap (λ x. x.seg_bytes) e,
    SegTiles-le (a + u.seg_bytes) len ss t,
  ),
  omega (arith, pos, ap (λ x. x.seg_bytes) e),
)
IsSegment-within a len s (u ∷ ss) (at, pos, t) (inr m) =
    let (lo, hi, some) = IsSegment-within (a + u.seg_bytes) len s ss t m in
    (omega (arith, lo), hi, some)

start_of-within :
    (a len b : ℕ) (ss : List Segment) → SegTiles a len ss → a ≤ b → b < len → a ≤ start_of ss b
start_of-within a len b [] t lo hi = absurd (omega (arith, t))
start_of-within a len b (u ∷ ss) (at, pos, t) lo hi =
    elim (Bool-cases (ltb b (u.offset + u.seg_bytes))) [
      | inl e ↦ rw e (omega (arith, at))
      | inr e ↦
          rw e
            (omega (arith, start_of-within (a + u.seg_bytes) len b ss t (ground (arith, e, at)) hi))
    ]

-- A segment has the bytes whose segment begins where it does.
pub holds-start_of :
    (a len b : ℕ) (s : Segment) (ss : List Segment)
    → SegTiles a len ss
    → IsSegment s ss
    → a ≤ b
    → b < len
    → holds (packet_of s) b ≡ (start_of ss b == s.offset)
holds-start_of a len b s [] t m lo hi = absurd m
holds-start_of a len b s (u ∷ ss) (at, pos, t) (inl e) lo hi =
    elim (Bool-cases (ltb b (u.offset + u.seg_bytes))) [
      | inl c ↦ rw c (ground (arith, c, at, lo, ap (λ x. x.offset) e, ap (λ x. x.seg_bytes) e))
      | inr c ↦ rw c (
          ground (
            arith,
            c,
            at,
            pos,
            ap (λ x. x.offset) e,
            ap (λ x. x.seg_bytes) e,
            start_of-within (a + u.seg_bytes) len b ss t (ground (arith, c, at)) hi,
          ))
    ]
holds-start_of a len b s (u ∷ ss) (at, pos, t) (inr m) lo hi =
    let (above, below, some) = IsSegment-within (a + u.seg_bytes) len s ss t m in
    elim (Bool-cases (ltb b (u.offset + u.seg_bytes))) [
      | inl c ↦ rw c (ground (arith, c, at, pos, above))
      | inr c ↦ rw c (holds-start_of (a + u.seg_bytes) len b s ss t m (ground (arith, c, at)) hi)
    ]

-- Each byte has a segment.
pub start_of-IsSegment :
    (a len b : ℕ) (ss : List Segment)
    → SegTiles a len ss
    → a ≤ b
    → b < len
    → (s : Segment) × IsSegment s ss × (s.offset ≡ start_of ss b)
start_of-IsSegment a len b [] t lo hi = absurd (omega (arith, t))
start_of-IsSegment a len b (u ∷ ss) (at, pos, t) lo hi =
    elim (Bool-cases (ltb b (u.offset + u.seg_bytes))) [
      | inl c ↦ rw c (u, inl refl, refl)
      | inr c ↦
          let (s, m, e) =
            start_of-IsSegment (a + u.seg_bytes) len b ss t (ground (arith, c, at)) hi in
          rw c (s, inr m, e)
    ]
