-- ===== src/Transfer/RoundTrip.antt =====
-- What homa_message_out_fill puts into packets is what homa_add_packet puts together again.
use mathlib.Core.Path.{subst}
use homa_module.Prelude.{
  ℕ, ◌+◌, ◌≤◌, ◌<◌, ◌≡◌, refl, ap, ◌∙◌, inl, inr, Bool, true, false, List, [], ◌∷◌, arith, ltb,
  Bool-cases, Each,
}
use homa_module.Incoming.{Gap, MessageIn, message_in_init}
use homa_module.Incoming.Gaps.{GapsIn, GapsIn-le, in_gaps, gap_bytes}
use homa_module.Incoming.Received.{received, IsAccounted, message_in_init-IsAccounted}
use homa_module.Outgoing.{Packet, Segment, MessageOut}
use homa_module.Outgoing.Segments.{SegTiles, Tiles, HasSegments, segments_of, segments_of-SegTiles}
use homa_module.Pacer.{Pacer}
use homa_module.Transmit.{Filling, filled, Filled, max_message_length, message_out_fill}
use homa_module.Transmit.Fill.{IsShaped, IsFilling, FillSpec, message_out_fill_lem}
use homa_module.Transfer.Places.{IsSegment, start_of, start_of-IsSegment}
use homa_module.Transfer.Arrivals.{receive_all, Arrived, with_offset, with_all, receive_all-Arrived}

with_all-kept :
    (arrivals : List Segment) (got : ℕ → Bool) (o : ℕ)
    → got o ≡ true
    → with_all got arrivals o ≡ true
with_all-kept [] got o h = h
with_all-kept (s ∷ ss) got o h = with_all-kept ss (with_offset got s.offset) o (ground (arith, h))

with_all-member :
    (arrivals : List Segment) (got : ℕ → Bool) (s : Segment)
    → IsSegment s arrivals
    → with_all got arrivals s.offset ≡ true
with_all-member [] got s m = absurd m
with_all-member (u ∷ ss) got s (inl e) =
    with_all-kept ss (with_offset got u.offset) s.offset (ground (arith, ap (λ x. x.offset) e))
with_all-member (u ∷ ss) got s (inr m) = with_all-member ss (with_offset got u.offset) s m

Each-IsSegment :
    (P : Segment → Type 0) (s : Segment) (ss : List Segment) → IsSegment s ss → Each P ss → P s
Each-IsSegment P s [] m h = absurd m
Each-IsSegment P s (u ∷ ss) (inl e) h = subst P e h.0
Each-IsSegment P s (u ∷ ss) (inr m) h = Each-IsSegment P s ss m h.1

-- A message of which every byte has arrived.
abbrev pub IsWhole : MessageIn → Type 0
IsWhole m = (m.bytes_remaining ≡ 0) × (m.gaps ≡ []) × (m.recv_end ≡ m.len)

no_gaps :
    (hi : ℕ) (gaps : List Gap)
    → GapsIn 0 hi gaps
    → ((b : ℕ) → b < hi → in_gaps b gaps ≡ false)
    → gaps ≡ []
no_gaps hi [] w h = refl
no_gaps hi (g ∷ gaps) w h =
    absurd (ground (arith, h g.start (omega (arith, w.1, GapsIn-le (g.end + 1) hi gaps w.2)), w.1))

all_received :
    (m : MessageIn) → IsAccounted m → ((b : ℕ) → b < m.len → received m b ≡ true) → IsWhole m
all_received m v h =
    let none_left : m.gaps ≡ [] =
      no_gaps m.recv_end m.gaps v.ordered
        (λ b lt. ground (arith, h b (omega (arith, lt, v.inside)))) in
    let ends : m.recv_end ≡ m.len = elim (Bool-cases (ltb m.recv_end m.len)) [
      | inl e ↦ absurd (ground (arith, h m.recv_end (ground (arith, e))))
      | inr e ↦ ground (arith, e, v.inside)
    ] in
    (omega (arith, v.remaining, ends, ap gap_bytes none_left), none_left, ends)

-- What all segments of a message make of it at the receiver.
segments-IsWhole :
    (now : ℕ → ℕ) (len : ℕ) (segs arrivals : List Segment)
    → SegTiles 0 len segs
    → Each (λ s. IsSegment s segs) arrivals
    → Each (λ s. IsSegment s arrivals) segs
    → (IsWhole (receive_all now (message_in_init len) arrivals))
      × IsAccounted (receive_all now (message_in_init len) arrivals)
      × ((receive_all now (message_in_init len) arrivals).len ≡ len)
unfolding message_in_init
segments-IsWhole now len segs arrivals t k all =
    let fresh : Arrived len segs (λ o. false) (message_in_init len) = record {
      accounted = message_in_init-IsAccounted len;
      same_len = refl;
      bytes = λ b lt. ground arith;
    } in
    let h =
      receive_all-Arrived now len segs (λ o. false) (message_in_init len) arrivals t k fresh in
    let every : (b : ℕ) → b < len → with_all (λ o. false) arrivals (start_of segs b) ≡ true =
      λ b lt.
        let (s, m, e) = start_of-IsSegment 0 len b segs t (omega arith) lt in
        subst (λ o. with_all (λ o. false) arrivals o ≡ true) e
          (with_all-member arrivals (λ o. false) s (Each-IsSegment _ s segs m all)) in
    (
      all_received _ h.accounted (λ b lt.
          h.bytes b (omega (arith, lt, h.same_len)) ∙ every b (omega (arith, lt, h.same_len))),
      h.accounted,
      h.same_len,
    )

shaped-HasSegments :
    (f : Filling) (unscheduled : ℕ) (skbs : List Packet)
    → 0 < f.seg_data
    → Each (IsShaped f unscheduled) skbs
    → HasSegments skbs
shaped-HasSegments f unscheduled [] pos h = tt
shaped-HasSegments f unscheduled (skb ∷ skbs) pos h =
    (omega (arith, pos, h.0.0), shaped-HasSegments f unscheduled skbs pos h.1)

-- The packets after a success.
filled-segments :
    (f : Filling) (len : ℕ) (r : Filled)
    → FillSpec f len [] r
    → r.0 ≡ filled
    → 0 < f.seg_data
    → SegTiles 0 len (segments_of r.1.0.packets)
filled-segments f len (status, (m, p, sent)) h e pos =
    let done : IsFilling f len sent m 0 = subst (λ s. FillSpec f len [] (s, (m, p, sent))) e h in
    segments_of-SegTiles 0 len m.packets (subst (λ n. Tiles 0 n m.packets) (omega arith) done.tiles)
      (shaped-HasSegments f m.unscheduled m.packets pos done.shapes)

-- A message of 1 to 1400000 bytes that homa_message_out_fill has put into packets arrives whole: whatever
-- segments of these packets arrive, in any order and as often as may be, if each of them is among them, then
-- homa_add_packet has no byte missing, no gap, and each byte in exactly one packet. This supposes segments of
-- some bytes, and memory for the gaps.
pub transfer_lem :
    (f : Filling) (len unsched_bytes clock : ℕ) (m : MessageOut) (p : Pacer) (now : ℕ → ℕ)
    (arrivals : List Segment)
    → 0 < f.gso_data
    → 0 < f.seg_data
    → 0 < len
    → len ≤ max_message_length
    → (message_out_fill f len unsched_bytes clock m p).0 ≡ filled
    → Each
        (λ s.
          IsSegment s (segments_of (message_out_fill f len unsched_bytes clock m p).1.0.packets))
        arrivals
    → Each
        (λ s. IsSegment s arrivals)
        (segments_of (message_out_fill f len unsched_bytes clock m p).1.0.packets)
    → IsWhole (receive_all now (message_in_init len) arrivals)
      × IsAccounted (receive_all now (message_in_init len) arrivals)
      × ((receive_all now (message_in_init len) arrivals).len ≡ len)
transfer_lem f len unsched_bytes clock m p now arrivals gso pos some fits done k all =
    segments-IsWhole now len _ arrivals
      (filled-segments f len (message_out_fill f len unsched_bytes clock m p)
        (message_out_fill_lem f len unsched_bytes clock m p gso some fits).0 done pos)
      k all
