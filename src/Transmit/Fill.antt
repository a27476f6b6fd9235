-- ===== src/Transmit/Fill.antt =====
-- homa_message_out_fill (homa_outgoing.c): the packets of a message, and what is sent while they are made.
use mathlib.Core.Path.{subst}
use mathlib.Core.List.{append_assoc, append-nil, map-append}
use homa_module.Prelude.{
  ℕ, zero, suc, ◌+◌, ◌-◌, ◌≤◌, ◌<◌, ◌≡◌, refl, sym, ap, ◌∙◌, ◌⊎◌, inl, inr, Bool, true, false, ◌&&◌,
  ◌||◌, List, [], ◌∷◌, ◌++◌, arith, ltb, ◌==◌, Bool-cases, if◌then◌else◌, length, length-append,
  length-map, drop, Each, Each-append, Each-map,
}
use homa_module.Outgoing.{Packet, MessageOut, message_out_init, tx_packet, skb_data_bytes}
use homa_module.Outgoing.Segments.{Tiles}
use homa_module.Pacer.{Pacer}
use homa_module.Transmit.{
  Scene, Sent, xmit_data, meanwhile, Filling, filled, bad_length, alloc_failed, rpc_dead, looping,
  Filled, link_packet, xmit_early, and_then, fill_loop, max_message_length, finish_fill,
  message_out_fill,
}
use homa_module.Transmit.Moves.{Moves, IsPending, pending, skbs_of, meanwhile-Moves}
use homa_module.Transmit.Xmit.{WhyStop, WhyStop-later, xmit_data-XmitSpec}

-- A packet of the message: it has no more data than it may, and all of it or none is unscheduled.
abbrev pub IsShaped : Filling → ℕ → Packet → Type 0
IsShaped f unscheduled skb =
    (skb.seg_length ≡ f.seg_data)
    × (skb.data_bytes ≤ f.gso_data)
    × ((skb.offset + skb.data_bytes ≤ unscheduled) ⊎ (unscheduled ≤ skb.offset))

-- A packet that may be sent, with this much granted: it is unscheduled, or scheduled and granted.
abbrev pub IsDue : ℕ → ℕ → Sent → Type 0
IsDue unscheduled granted x =
    (x.skb.offset + x.skb.data_bytes ≤ unscheduled)
    ⊎ ((unscheduled ≤ x.skb.offset) × (x.skb.offset < granted))

-- The message with all but the last `left` bytes in packets, after `sent` has been sent: that is the
-- packets in front of `next_xmit`.
pub record IsFilling (f : Filling) (len : ℕ) (sent : List Sent) (m : MessageOut) (left : ℕ)
    : Type 0 where
  pub size : m.len ≡ len
  pub few : left ≤ len
  pub tiles : Tiles 0 (len - left) m.packets
  pub shapes : Each (IsShaped f m.unscheduled) m.packets
  pub front : skbs_of sent ++ pending m ≡ m.packets
  pub count : length sent ≡ m.next_xmit
  pub behind : IsPending (len - left) m
  pub more : m.unscheduled ≤ m.granted
  pub due : Each (IsDue m.unscheduled m.granted) sent

drop-append : {A : Type 0} (xs ys : List A) (n : ℕ) → length xs ≡ n → drop n (xs ++ ys) ≡ ys
drop-append [] ys zero h = refl
drop-append [] ys (suc n) h = absurd (omega (arith, h))
drop-append (x ∷ xs) ys zero h = absurd (omega (arith, h))
drop-append (x ∷ xs) ys (suc n) h = drop-append xs ys n (omega (arith, h))

Tiles-append :
    (a b c : ℕ) (xs ys : List Packet) → Tiles a b xs → Tiles b c ys → Tiles a c (xs ++ ys)
Tiles-append a b c [] ys t u = subst (λ x. Tiles x c ys) (sym t) u
Tiles-append a b c (s ∷ xs) ys (e, pos, t) u =
    (e, pos, Tiles-append (a + s.data_bytes) b c xs ys t u)

-- Shaped packets that begin below `granted` are due.
Each-IsDue :
    (f : Filling) (granted unscheduled : ℕ) (sent : List Sent) (left : List Packet)
    → Each (IsShaped f unscheduled) (skbs_of sent ++ left)
    → Each (λ x. x.skb.offset < granted) sent
    → Each (IsDue unscheduled granted) sent
Each-IsDue f granted unscheduled [] left h k = tt
Each-IsDue f granted unscheduled (x ∷ sent) left h k = (
  elim (h.0.2) [ inl early ↦ inl early | inr late ↦ inr (late, k.0) ],
  Each-IsDue f granted unscheduled sent left h.1 k.1,
)

IsDue-more :
    (unscheduled granted granted' : ℕ) (sent : List Sent)
    → granted ≤ granted'
    → Each (IsDue unscheduled granted) sent
    → Each (IsDue unscheduled granted') sent
IsDue-more unscheduled granted granted' sent le =
    Each-map (IsDue unscheduled granted) (IsDue unscheduled granted') sent
      (λ x h. elim h [ inl early ↦ inl early | inr (late, lt) ↦ inr (late, omega (arith, lt, le)) ])

Each-behind : {A : Type 0} (P : A → Type 0) (xs ys : List A) → Each P (xs ++ ys) → Each P ys
Each-behind P [] ys h = h
Each-behind P (x ∷ xs) ys h = Each-behind P xs ys h.1

-- Packets may be taken at any time.
Moves-IsFilling :
    (f : Filling) (len left : ℕ) (before sent : List Sent) (m m' : MessageOut)
    → IsFilling f len before m left
    → Moves (len - left) m m' sent
    → IsFilling f len (before ++ sent) m' left
Moves-IsFilling f len left before sent m m' h k =
    let packets : m'.packets ≡ m.packets = ap (λ x. x.packets) k.same in
    let unscheduled : m'.unscheduled ≡ m.unscheduled = ap (λ x. x.unscheduled) k.same in
    let size : m'.len ≡ m.len = ap (λ x. x.len) k.same in
    let shapes : Each (IsShaped f m'.unscheduled) m'.packets =
      subst (λ u. Each (IsShaped f u) m'.packets) (sym unscheduled)
        (subst (Each (IsShaped f m.unscheduled)) (sym packets) h.shapes) in
    let front : skbs_of (before ++ sent) ++ pending m' ≡ m'.packets =
      ap (λ l. l ++ pending m') (map-append (λ x. x.skb) before sent)
      ∙ append_assoc (skbs_of before) (skbs_of sent) (pending m')
      ∙ ap (λ l. skbs_of before ++ l) k.split
      ∙ h.front
      ∙ sym packets in
    let shaped =
      Each-behind (IsShaped f m'.unscheduled) (skbs_of before) (skbs_of sent ++ pending m') (
        subst (Each (IsShaped f m'.unscheduled))
          (sym (
            sym (append_assoc (skbs_of before) (skbs_of sent) (pending m'))
            ∙ sym (ap (λ l. l ++ pending m') (map-append (λ x. x.skb) before sent))
            ∙ front))
          shapes) in
    record {
      size = size ∙ h.size;
      few = h.few;
      tiles = subst (Tiles 0 (len - left)) (sym packets) h.tiles;
      shapes = shapes;
      front = front;
      count = omega (arith, length-append before sent, h.count, k.count);
      behind = k.rest;
      more = omega (arith, h.more, k.more, unscheduled);
      due =
          Each-append (IsDue m'.unscheduled m'.granted) before sent
            (subst (λ u. Each (IsDue u m'.granted) before) (sym unscheduled)
              (IsDue-more m.unscheduled m.granted m'.granted before k.more h.due))
            (Each-IsDue f m'.granted m'.unscheduled sent (pending m') shaped k.granted);
    }

xmit-IsFilling :
    (f : Filling) (len left : ℕ) (before : List Sent) (s : Scene) (m : MessageOut) (p : Pacer)
    → IsFilling f len before m left
    → IsFilling f len (before ++ (xmit_data s false m p).2) (xmit_data s false m p).0 left
xmit-IsFilling f len left before s m p h =
    let r = xmit_data-XmitSpec s false m p (len - left) h.behind.0 h.behind.1 in
    Moves-IsFilling f len left before _ m _ h r.moves

skb_data_bytes_lem :
    (unscheduled gso_data offset left : ℕ)
    → 0 < gso_data
    → 0 < left
    → let size = skb_data_bytes unscheduled gso_data offset left in
      (0 < size)
      × (size ≤ left)
      × (size ≤ gso_data)
      × ((offset + size ≤ unscheduled) ⊎ (unscheduled ≤ offset))
unfolding skb_data_bytes
skb_data_bytes_lem unscheduled gso_data offset left pos some =
    elim (Bool-cases (ltb offset unscheduled && ltb unscheduled (offset + gso_data))) [
      | inl e ↦ rw e (ground (arith, e), ground arith, ground (arith, e), inl (ground (arith, e)))
      | inr e ↦ rw e (ground arith, ground arith, ground arith, ground (arith, e))
    ]

link_packet-IsFilling :
    (f : Filling) (len left offset unscheduled : ℕ) (before : List Sent) (m : MessageOut)
    → 0 < f.gso_data
    → 0 < left
    → m.len ≡ offset + left
    → unscheduled ≡ m.unscheduled
    → IsFilling f len before m left
    → let size = skb_data_bytes unscheduled f.gso_data offset left in
      IsFilling f len before
        (link_packet m (tx_packet f.ip_header offset size f.seg_data) (left - size))
        (left - size)
unfolding link_packet tx_packet
link_packet-IsFilling f len left offset unscheduled before m pos some whole_len same h =
    let size = skb_data_bytes unscheduled f.gso_data offset left in
    let skb = tx_packet f.ip_header offset size f.seg_data in
    let (more, fits, small, whole) =
      skb_data_bytes_lem unscheduled f.gso_data offset left pos some in
    let begins : offset ≡ len - left = omega (arith, h.size, whole_len) in
    let ends : len - left + size ≡ len - (left - size) = omega (arith, h.few, fits) in
    let one : Tiles (len - left) (len - (left - size)) (skb ∷ []) = (begins, more, ends) in
    let rest : drop m.next_xmit (m.packets ++ (skb ∷ []))
        ≡ drop m.next_xmit m.packets ++ (skb ∷ []) =
      subst (λ l. drop m.next_xmit (l ++ (skb ∷ [])) ≡ drop m.next_xmit m.packets ++ (skb ∷ []))
        h.front
        (ap (drop m.next_xmit)
            (append_assoc (skbs_of before) (drop m.next_xmit m.packets) (skb ∷ []))
          ∙ drop-append (skbs_of before) _ m.next_xmit
              (length-map before (λ x. x.skb) ∙ h.count)) in
    record {
      size = h.size;
      few = omega (arith, h.few);
      tiles = Tiles-append 0 (len - left) _ m.packets (skb ∷ []) h.tiles one;
      shapes =
          Each-append (IsShaped f m.unscheduled) m.packets (skb ∷ []) h.shapes
            ((refl, small, subst (λ u. (offset + size ≤ u) ⊎ (u ≤ offset)) same whole), tt);
      front =
          ap (λ l. skbs_of before ++ l) rest
          ∙ sym (append_assoc (skbs_of before) (drop m.next_xmit m.packets) (skb ∷ []))
          ∙ ap (λ l. l ++ (skb ∷ [])) h.front;
      count = h.count;
      behind = (
        subst (Tiles m.next_xmit_offset _) (sym rest)
            (Tiles-append _ (len - left) _ (drop m.next_xmit m.packets) (skb ∷ []) h.behind.0 one),
        h.behind.1,
      );
      more = h.more;
      due = h.due;
    }

-- The state that is left, by the result.
abbrev pub FillSpec : Filling → ℕ → List Sent → Filled → Type 0
FillSpec f len before (filled, (m, p, sent)) = IsFilling f len (before ++ sent) m 0
FillSpec f len before (bad_length, r) = ⊥
FillSpec f len before (alloc_failed, (m, p, sent)) =
    (left : ℕ) × (f.alloc_fails (len - left) ≡ true) × IsFilling f len (before ++ sent) m left
FillSpec f len before (rpc_dead, (m, p, sent)) =
    (left : ℕ) × (f.dead (len - left) ≡ true) × IsFilling f len (before ++ sent) m left
FillSpec f len before (looping, r) = ⊥

and_then-FillSpec :
    (f : Filling) (len : ℕ) (before sent : List Sent) (r : Filled)
    → FillSpec f len (before ++ sent) r
    → FillSpec f len before (and_then sent r)
and_then-FillSpec f len before sent (filled, (m, p, others)) h =
    subst (λ l. IsFilling f len l m 0) (append_assoc before sent others) h
and_then-FillSpec f len before sent (bad_length, r) h = h
and_then-FillSpec f len before sent (alloc_failed, (m, p, others)) (left, e, h) =
    (left, e, subst (λ l. IsFilling f len l m left) (append_assoc before sent others) h)
and_then-FillSpec f len before sent (rpc_dead, (m, p, others)) (left, e, h) =
    (left, e, subst (λ l. IsFilling f len l m left) (append_assoc before sent others) h)
and_then-FillSpec f len before sent (looping, r) h = h

nothing_more :
    (f : Filling) (len left : ℕ) (before : List Sent) (m : MessageOut)
    → IsFilling f len before m left
    → IsFilling f len (before ++ []) m left
nothing_more f len left before m h = rw append-nil h

xmit_early-IsFilling :
    (f : Filling) (len left offset : ℕ) (before : List Sent) (m : MessageOut) (p : Pacer)
    → IsFilling f len before m left
    → IsFilling f len (before ++ (xmit_early f offset m p).2) (xmit_early f offset m p).0 left
unfolding xmit_early
xmit_early-IsFilling f len left offset before m p h =
    elim (Bool-cases (ltb offset m.unscheduled && f.xmit)) [
      | inl e ↦ rw e (xmit-IsFilling f len left before (f.scene offset) m p h)
      | inr e ↦ rw e (nothing_more f len left before m h)
    ]

fill_loop-FillSpec :
    (f : Filling) (len left fuel : ℕ) (before : List Sent) (m : MessageOut) (p : Pacer)
    → 0 < f.gso_data
    → left ≤ fuel
    → IsFilling f len before m left
    → FillSpec f len before (fill_loop f left fuel m p)
unfolding fill_loop
fill_loop-FillSpec f len zero fuel before m p pos enough h = nothing_more f len 0 before m h
fill_loop-FillSpec f len (suc left) zero before m p pos enough h = absurd (omega (arith, enough))
fill_loop-FillSpec f len (suc left) (suc fuel) before m p pos enough h =
    let offset = m.len - suc left in
    let size = skb_data_bytes m.unscheduled f.gso_data offset (suc left) in
    let skb = tx_packet f.ip_header offset size f.seg_data in
    let o = meanwhile (f.scene offset) (f.others offset) m p in
    let r = xmit_early f offset (link_packet o.0 skb (suc left - size)) o.1 in
    let (more, fits, small, whole) =
      skb_data_bytes_lem m.unscheduled f.gso_data offset (suc left) pos (omega arith) in
    let k = meanwhile-Moves (len - suc left) (f.scene offset) (f.others offset) m p h.behind in
    let moved = Moves-IsFilling f len (suc left) before o.2 m o.0 h k in
    let linked =
      link_packet-IsFilling f len (suc left) offset m.unscheduled (before ++ o.2) o.0 pos
        (omega arith) (omega (arith, ap (λ x. x.len) k.same, h.size, h.few))
        (sym (ap (λ x. x.unscheduled) k.same)) moved in
    let ih =
      fill_loop-FillSpec f len (suc left - size) fuel ((before ++ o.2) ++ r.2) r.0 r.1 pos
        (omega (arith, more, fits, enough))
        (xmit_early-IsFilling f len (suc left - size) offset (before ++ o.2)
          (link_packet o.0 skb (suc left - size)) o.1 linked) in
    elim (Bool-cases (f.alloc_fails offset)) [
      | inl e ↦ rw e (suc left, at_offset f.alloc_fails e, moved)
      | inr e ↦ elim (Bool-cases (f.dead offset)) [
        | inl d ↦ rw (e, d) (suc left, at_offset f.dead d, moved)
        | inr d ↦
            rw (e, d)
              (and_then-FillSpec f len before (o.2 ++ r.2)
                (fill_loop f (suc left - size) fuel r.0 r.1)
                (subst (λ l. FillSpec f len l (fill_loop f (suc left - size) fuel r.0 r.1))
                  (append_assoc before o.2 r.2) ih))
      ]
    ]
  where
    at_offset : (fails : ℕ → Bool) → fails (m.len - suc left) ≡ true → fails (len - suc left) ≡ true
    at_offset fails e = ap (λ n. fails (n - suc left)) (sym (h.size)) ∙ e

finish_fill-FillSpec :
    (f : Filling) (len : ℕ) (r : Filled) → FillSpec f len [] r → FillSpec f len [] (finish_fill f r)
finish_fill-FillSpec f len (filled, (m, p, sent)) h = go f.xmit
  where
    go :
        (x : Bool)
        → FillSpec f len [] (
            if x
            then and_then sent (filled, xmit_data (f.scene m.len) false m p)
            else (filled, (m, p, sent)))
    go true = xmit-IsFilling f len 0 sent (f.scene m.len) m p h
    go false = h
finish_fill-FillSpec f len (bad_length, r) h = h
finish_fill-FillSpec f len (alloc_failed, r) h = h
finish_fill-FillSpec f len (rpc_dead, r) h = h
finish_fill-FillSpec f len (looping, r) h = h

-- After a success with `xmit`, homa_xmit_data has stopped for one of its reasons.
abbrev pub HasSent : Filling → Filled → Type 0
HasSent f (filled, (m, p, sent)) =
    (f.xmit ≡ false) ⊎ WhyStop (f.scene m.len) false (length sent) m p
HasSent f (bad_length, r) = Unit {0}
HasSent f (alloc_failed, r) = Unit {0}
HasSent f (rpc_dead, r) = Unit {0}
HasSent f (looping, r) = Unit {0}

finish_fill-HasSent :
    (f : Filling) (len : ℕ) (r : Filled) → FillSpec f len [] r → HasSent f (finish_fill f r)
finish_fill-HasSent f len (filled, (m, p, sent)) h = go f.xmit refl
  where
    s : Scene
    s = f.scene m.len

    go :
        (x : Bool)
        → f.xmit ≡ x
        → HasSent f
            (if x then and_then sent (filled, xmit_data s false m p) else (filled, (m, p, sent)))
    go true e =
        let r = xmit_data-XmitSpec s false m p (len - 0) h.behind.0 h.behind.1 in
        let after = xmit_data s false m p in
        let size : after.0.len ≡ m.len = ap (λ x. x.len) r.moves.same in
        inr (
          subst (λ n. WhyStop (f.scene n) false (length (sent ++ after.2)) after.0 after.1)
            (sym size)
            (WhyStop-later s false (length after.2) (length (sent ++ after.2)) after.0 after.1
              (omega (arith, length-append sent after.2)) r.why))
    go false e = inl e
finish_fill-HasSent f len (bad_length, r) h = tt
finish_fill-HasSent f len (alloc_failed, r) h = tt
finish_fill-HasSent f len (rpc_dead, r) h = tt
finish_fill-HasSent f len (looping, r) h = tt

pub message_out_fill_lem :
    (f : Filling) (len unsched_bytes clock : ℕ) (m : MessageOut) (p : Pacer)
    → 0 < f.gso_data
    → 0 < len
    → len ≤ max_message_length
    → FillSpec f len [] (message_out_fill f len unsched_bytes clock m p)
      × HasSent f (message_out_fill f len unsched_bytes clock m p)
unfolding message_out_fill message_out_init
message_out_fill_lem f len unsched_bytes clock m p pos some fits =
    let good : (ltb max_message_length len || (len == 0)) ≡ false = ground arith in
    let m' = message_out_init len unsched_bytes clock in
    let loop =
      fill_loop-FillSpec f len len len [] (record m' { granted = m'.unscheduled }) p pos
        (omega arith)
        (record {
          size = refl;
          few = omega arith;
          tiles = omega arith;
          shapes = tt;
          front = refl;
          count = refl;
          behind = (omega arith, ground arith);
          more = omega arith;
          due = tt;
        }) in
    rw good (finish_fill-FillSpec f len _ loop, finish_fill-HasSent f len _ loop)
