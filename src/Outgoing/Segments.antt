-- ===== src/Outgoing/Segments.antt =====
-- homa_fill_data_interleaved and homa_resend_data (homa_outgoing.c): the segments of a message, and which
-- of them are sent again.
use mathlib.Core.Path.{subst}
use homa_module.Prelude.{
  ℕ, zero, suc, ◌+◌, ◌-◌, ◌≤◌, ◌<◌, ◌≡◌, refl, sym, ap, ◌∙◌, ◌⊎◌, inl, inr, Bool, true, false, ◌&&◌,
  List, [], ◌∷◌, ◌++◌, arith, ltb, leb, leb→le, ◌==◌, length, Bool-cases, if◌then◌else◌,
}
use homa_module.Pacer.{Pacer, check_nic_q}
use homa_module.Outgoing.{
  Packet, MessageOut, Segment, Resent, fill_data_interleaved, resend_segments, resend_packets,
  resend_data, keep_resent, resent_packet,
}

-- The packets cover the bytes from `a` to `b` in order, each of them once.
abbrev pub Tiles : ℕ → ℕ → List Packet → Type 0
Tiles a b [] = a ≡ b
Tiles a b (skb ∷ skbs) = (skb.offset ≡ a) × (0 < skb.data_bytes) × Tiles (a + skb.data_bytes) b skbs

-- The same of segments.
abbrev pub SegTiles : ℕ → ℕ → List Segment → Type 0
SegTiles a b [] = a ≡ b
SegTiles a b (s ∷ ss) = (s.offset ≡ a) × (0 < s.seg_bytes) × SegTiles (a + s.seg_bytes) b ss

abbrev pub NoneAbove : ℕ → List Segment → Type 0
NoneAbove n [] = Unit {0}
NoneAbove n (s ∷ ss) = (s.seg_bytes ≤ n) × NoneAbove n ss

-- What the loop goes on with: nothing behind the last segment.
abbrev fill_rest : ℕ → ℕ → ℕ → ℕ → List Segment
fill_rest fuel seg_length offset left =
    if left == 0 then [] else fill_data_interleaved fuel seg_length offset left

abbrev min_of : ℕ → ℕ → ℕ
min_of left seg_length = if ltb left seg_length then left else seg_length

NoneAbove-le : (m n : ℕ) (ss : List Segment) → m ≤ n → NoneAbove m ss → NoneAbove n ss
NoneAbove-le m n [] h k = tt
NoneAbove-le m n (s ∷ ss) h k = (omega (arith, k.0), NoneAbove-le m n ss h k.1)

-- Enough fuel for the segments of `left` bytes.
fill_rest_lem :
    (fuel seg_length offset left : ℕ)
    → 0 < seg_length
    → left ≤ fuel
    → SegTiles offset (offset + left) (fill_rest fuel seg_length offset left)
      × NoneAbove seg_length (fill_rest fuel seg_length offset left)
unfolding fill_data_interleaved
fill_rest_lem zero seg_length offset left pos enough =
    let none_left : left ≡ 0 = omega arith in rw none_left (omega arith, tt)
fill_rest_lem (suc fuel) seg_length offset left pos enough = elim (Bool-cases (left == 0)) [
  | inl e ↦ rw e (ground arith, tt)
  | inr e ↦
      let size = min_of left seg_length in
      let (tiles, small) =
        fill_rest_lem fuel size (offset + size) (left - size) (ground arith) (ground arith) in
      rw e (
        (
          refl,
          ground arith,
          subst
              (λ b. SegTiles (offset + size) b (fill_rest fuel size (offset + size) (left - size)))
              (ground arith) tiles,
        ),
        (ground arith, NoneAbove-le size seg_length _ (ground arith) small),
      )
]

-- The segments that a range of the message meets.
abbrev pub meeting : ℕ → ℕ → List Segment → List Segment
meeting start end_ [] = []
meeting start end_ (s ∷ ss) =
    if ltb start (s.offset + s.seg_bytes) && ltb s.offset end_
    then s ∷ meeting start end_ ss
    else meeting start end_ ss

-- Those in front of the first one that fails.
abbrev pub until : (ℕ → Bool) → List Segment → List Segment
until fails [] = []
until fails (s ∷ ss) = if fails s.offset then [] else s ∷ until fails ss

-- The length of a packet's segments: it has several or one.
abbrev pub longest : Packet → ℕ
longest skb = if leb skb.gso_segs 1 then skb.data_bytes else skb.seg_length

-- All the segments of a packet, and of a list of packets.
abbrev pub packet_segments : Packet → List Segment
packet_segments skb = fill_data_interleaved skb.data_bytes (longest skb) skb.offset skb.data_bytes

abbrev pub segments_of : List Packet → List Segment
segments_of [] = []
segments_of (skb ∷ skbs) = packet_segments skb ++ segments_of skbs

abbrev pub HasSegments : List Packet → Type 0
HasSegments [] = Unit {0}
HasSegments (skb ∷ skbs) = (0 < skb.seg_length) × HasSegments skbs

meeting-beyond :
    (start end_ a b : ℕ) (ss : List Segment)
    → end_ ≤ a
    → SegTiles a b ss
    → meeting start end_ ss ≡ []
meeting-beyond start end_ a b [] h t = refl
meeting-beyond start end_ a b (s ∷ ss) h (e, pos, t) =
    let no : (ltb start (s.offset + s.seg_bytes) && ltb s.offset end_) ≡ false = ground arith in
    rw no (meeting-beyond start end_ (a + s.seg_bytes) b ss (omega arith) t)

meeting-before :
    (start end_ a b : ℕ) (ss others : List Segment)
    → b ≤ start
    → SegTiles a b ss
    → meeting start end_ (ss ++ others) ≡ meeting start end_ others
meeting-before start end_ a b [] others h t = refl
meeting-before start end_ a b (s ∷ ss) others h (e, pos, t) =
    let no : (ltb start (s.offset + s.seg_bytes) && ltb s.offset end_) ≡ false =
      ground (arith, end_of (a + s.seg_bytes) b ss t) in
    rw no (meeting-before start end_ (a + s.seg_bytes) b ss others h t)
  where
    end_of : (a b : ℕ) (ss : List Segment) → SegTiles a b ss → a ≤ b
    end_of a b [] t = omega arith
    end_of a b (s ∷ ss) (e, pos, t) = omega (arith, end_of (a + s.seg_bytes) b ss t)

SegTiles-append :
    (a b c : ℕ) (xs ys : List Segment) → SegTiles a b xs → SegTiles b c ys → SegTiles a c (xs ++ ys)
SegTiles-append a b c [] ys t u = subst (λ x. SegTiles x c ys) (sym t) u
SegTiles-append a b c (s ∷ xs) ys (e, pos, t) u =
    (e, pos, SegTiles-append (a + s.seg_bytes) b c xs ys t u)

module _ (fails : ℕ → Bool) (start end_ : ℕ) where
  abbrev wanted : List Segment → List Segment
  wanted ss = until fails (meeting start end_ ss)

  -- What is sent again, in front of what comes of the later packets.
  abbrev joined : List Segment × Bool → List Segment → List Segment
  joined r others = if r.1 then r.0 else r.0 ++ wanted others

  joined-cons :
      (s : Segment) (segs : List Segment) (stop : Bool) (others : List Segment)
      → joined (s ∷ segs, stop) others ≡ s ∷ joined (segs, stop) others
  joined-cons s segs true others = refl
  joined-cons s segs false others = refl

  resend_segments_lem :
      (fuel seg_length offset left c : ℕ) (others : List Segment)
      → 0 < seg_length
      → left ≤ fuel
      → SegTiles (offset + left) c others
      → wanted (fill_rest fuel seg_length offset left ++ others)
        ≡ joined (resend_segments fails start end_ (suc fuel) seg_length offset left) others
  unfolding resend_segments fill_data_interleaved
  resend_segments_lem zero seg_length offset left c others pos enough t =
      let none_left : left ≡ 0 = omega arith in rw none_left refl
  resend_segments_lem (suc fuel) seg_length offset left c others pos enough t =
      elim (Bool-cases (left == 0)) [
        | inl e ↦ rw e refl
        | inr e ↦
            let size = min_of left seg_length in
            let rest = fill_rest fuel size (offset + size) (left - size) in
            let tiles =
              fill_rest_lem fuel size (offset + size) (left - size) (ground arith) (ground arith) in
            let whole : SegTiles (offset + size) c (rest ++ others) =
              SegTiles-append (offset + size) (offset + size + (left - size)) c rest others tiles.0
                (subst (λ b. SegTiles b c others) (ground arith) t) in
            let ih =
              resend_segments_lem fuel size (offset + size) (left - size) c others (ground arith)
                (ground arith) (subst (λ b. SegTiles b c others) (ground arith) t) in
            elim (Bool-cases (leb end_ offset)) [
              | inl late ↦
                  rw (e, late)
                    (ap (until fails) (
                      meeting-beyond start end_ offset c
                        (record { offset = offset; seg_bytes = size } ∷ rest ++ others)
                        (leb→le _ _ late) (refl, ground arith, whole)))
              | inr late ↦ elim (Bool-cases (leb (offset + size) start)) [
                | inl early ↦
                    let out : (ltb start (offset + size) && ltb offset end_) ≡ false =
                      ground arith in
                    rw (e, late, early, out) ih
                | inr early ↦
                    let in_range : (ltb start (offset + size) && ltb offset end_) ≡ true =
                      ground arith in
                    elim (Bool-cases (fails offset)) [
                      | inl bad ↦ rw (e, late, early, in_range, bad) refl
                      | inr bad ↦
                          rw (e, late, early, in_range, bad)
                            (ap (λ l. record { offset = offset; seg_bytes = size } ∷ l) ih
                              ∙ sym (joined-cons _ _ _ others))
                    ]
              ]
            ]
      ]

  resend_packets_lem :
      (a b : ℕ) (skbs : List Packet)
      → Tiles a b skbs
      → HasSegments skbs
      → (wanted (segments_of skbs) ≡ resend_packets fails start end_ skbs)
        × SegTiles a b (segments_of skbs)
  unfolding resend_packets
  resend_packets_lem a b [] t k = (refl, t)
  resend_packets_lem a b (skb ∷ skbs) (at, some_data, t) (pos, k) =
      let (ih, later) = resend_packets_lem (a + skb.data_bytes) b skbs t k in
      let size = skb.data_bytes in
      let next : SegTiles (skb.offset + size) b (segments_of skbs) =
        subst (λ x. SegTiles (x + size) b (segments_of skbs)) (sym at) later in
      let has_data : (size == 0) ≡ false = ground arith in
      let own : SegTiles skb.offset (skb.offset + size) (packet_segments skb) =
        subst (λ l. SegTiles skb.offset (skb.offset + size) l) (rw has_data refl)
          (fill_rest_lem size (longest skb) skb.offset size (ground arith) (omega arith)).0 in
      let inner : wanted (packet_segments skb ++ segments_of skbs)
          ≡ joined (resend_segments fails start end_ (suc size) (longest skb) skb.offset size)
              (segments_of skbs) =
        subst
          (λ l.
            wanted (l ++ segments_of skbs)
            ≡ joined (resend_segments fails start end_ (suc size) (longest skb) skb.offset size)
                (segments_of skbs))
          (rw has_data refl)
          (resend_segments_lem size (longest skb) skb.offset size b (segments_of skbs)
            (ground arith) (omega arith) next) in
      let whole = SegTiles-append skb.offset (skb.offset + size) b _ _ own next in
      (
        elim (Bool-cases (leb end_ skb.offset)) [
          | inl late ↦
              rw late (
                ap (until fails) (meeting-beyond start end_ skb.offset b _ (leb→le _ _ late) whole))
          | inr late ↦ elim (Bool-cases (leb (skb.offset + size) start)) [
            | inl early ↦
                rw (late, early)
                  (ap (until fails) (
                      meeting-before start end_ skb.offset (skb.offset + size) (packet_segments skb)
                        (segments_of skbs) (leb→le _ _ early) own)
                    ∙ ih)
            | inr early ↦ rw (late, early, sym ih) inner
          ]
        ],
        subst (λ x. SegTiles x b (segments_of (skb ∷ skbs))) at whole,
      )

-- The segments of packets that cover a message in order do so too.
pub segments_of-SegTiles :
    (a b : ℕ) (skbs : List Packet)
    → Tiles a b skbs
    → HasSegments skbs
    → SegTiles a b (segments_of skbs)
segments_of-SegTiles a b skbs t k = (resend_packets_lem (λ o. false) 0 0 a b skbs t k).1

-- The byte at `x` is in one of the segments.
abbrev pub Covers : ℕ → List Segment → Type 0
Covers x [] = ⊥
Covers x (s ∷ ss) = ((s.offset ≤ x) × (x < s.offset + s.seg_bytes)) ⊎ Covers x ss

meeting-Covers :
    (fails : ℕ → Bool) (start end_ x a b : ℕ) (ss : List Segment)
    → ((o : ℕ) → fails o ≡ false)
    → start ≤ x
    → x < end_
    → a ≤ x
    → x < b
    → SegTiles a b ss
    → Covers x (until fails (meeting start end_ ss))
meeting-Covers fails start end_ x a b [] none_fails h k l u t = absurd (omega arith)
meeting-Covers fails start end_ x a b (s ∷ ss) none_fails h k l u (e, pos, t) =
    elim (Bool-cases (ltb x (a + s.seg_bytes))) [
      | inl here ↦
          let met : (ltb start (s.offset + s.seg_bytes) && ltb s.offset end_) ≡ true =
            ground arith in
          rw (met, none_fails s.offset) (inl (ground arith, ground arith))
      | inr further ↦
          let there =
            meeting-Covers fails start end_ x (a + s.seg_bytes) b ss none_fails h k (ground arith) u
              t in
          elim (Bool-cases (ltb start (s.offset + s.seg_bytes) && ltb s.offset end_)) [
            | inl met ↦ rw (met, none_fails s.offset) (inr there)
            | inr met ↦ rw met there
          ]
    ]

-- What homa_resend_data does for a range of the first `n` bytes of a message.
pub record ResendSpec (fails : ℕ → Bool) (m : MessageOut) (start end_ n : ℕ) (result : Resent)
    : Type 0 where
  pub sent : result.2 ≡ until fails (meeting start end_ (segments_of m.packets))
  pub tiles : SegTiles 0 n (segments_of m.packets)
  pub kept : result.0.packets ≡ m.packets
  pub counted : result.0.num_skbs ≡ m.num_skbs + length result.2

keep_resent_lem :
    (ip_header : ℕ) (clock : ℕ → ℕ) (m : MessageOut) (p : Pacer) (segs : List Segment)
    → ((keep_resent ip_header clock m p segs).0.packets ≡ m.packets)
      × ((keep_resent ip_header clock m p segs).0.num_skbs ≡ m.num_skbs + length segs)
unfolding keep_resent
keep_resent_lem ip_header clock m p [] = (refl, omega arith)
keep_resent_lem ip_header clock m p (seg ∷ segs) =
    let skb = resent_packet ip_header seg in
    let (same, count) =
      keep_resent_lem ip_header clock
        (record m { to_free = skb ∷ m.to_free; num_skbs = m.num_skbs + 1 })
        (check_nic_q p (clock seg.offset) skb.wire_bytes true).0 segs in
    (same, omega (arith, count))

-- homa_resend_data, for a message whose packets cover its first `n` bytes in order, sends the segments that
-- meet the range, in order, each once and up to the first that cannot be made; these segments are those in
-- which the message went out, which cover the `n` bytes in order. The packets stay, and each new one is
-- counted.
pub resend_data_lem :
    (ip_header : ℕ) (fails : ℕ → Bool) (clock : ℕ → ℕ) (m : MessageOut) (p : Pacer)
    (start end_ n : ℕ)
    → Tiles 0 n m.packets
    → HasSegments m.packets
    → start < end_
    → ResendSpec fails m start end_ n (resend_data ip_header fails clock m p start end_)
unfolding resend_data
resend_data_lem ip_header fails clock m p start end_ n t k lt =
    let (same, tiles) = resend_packets_lem fails start end_ 0 n m.packets t k in
    let some_range : leb end_ start ≡ false = ground arith in
    let (same_packets, c) =
      keep_resent_lem ip_header clock m p (resend_packets fails start end_ m.packets) in
    rw some_range (record { sent = sym same; tiles = tiles; kept = same_packets; counted = c })

-- If no segment fails, homa_resend_data sends every byte of the range that is among the first `n` bytes, which
-- the packets cover in order.
pub resend_data-Covers :
    (ip_header : ℕ) (fails : ℕ → Bool) (clock : ℕ → ℕ) (m : MessageOut) (p : Pacer)
    (start end_ n x : ℕ)
    → Tiles 0 n m.packets
    → HasSegments m.packets
    → ((o : ℕ) → fails o ≡ false)
    → start ≤ x
    → x < end_
    → x < n
    → Covers x (resend_data ip_header fails clock m p start end_).2
resend_data-Covers ip_header fails clock m p start end_ n x t k none_fails h l u =
    let r = resend_data_lem ip_header fails clock m p start end_ n t k (omega arith) in
    subst (Covers x) (sym r.sent) (
      meeting-Covers fails start end_ x 0 n (segments_of m.packets) none_fails h l (omega arith) u
        r.tiles)
