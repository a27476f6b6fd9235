-- ===== src/Transmit/Moves.antt =====
-- How a message moves on as its packets are taken to be sent, by this thread or another one.
use mathlib.Core.List.{append_assoc, map-append}
use mathlib.Core.Path.{subst}
use homa_module.Prelude.{
  ℕ, zero, suc, ◌+◌, ◌≤◌, ◌<◌, ◌≡◌, refl, sym, ap, ◌∙◌, inl, inr, List, [], ◌∷◌, ◌++◌, map, arith,
  leb, Bool-cases, length, length-append, drop, Each, Each-append, Each-map,
}
use homa_module.Outgoing.{Packet, MessageOut}
use homa_module.Outgoing.Segments.{Tiles}
use homa_module.Pacer.{Pacer}
use homa_module.Transmit.{
  Meanwhile, grant, take_packet, use_pacer, Scene, Sent, priority_of, advance, grant_pkt, take_next,
  meanwhile,
}

abbrev pub skbs_of : List Sent → List Packet
skbs_of sent = map (λ x. x.skb) sent

abbrev pub pending : MessageOut → List Packet
pending m = drop m.next_xmit m.packets

-- The pending packets cover the message up to `e`, and no more than the message is granted.
abbrev pub IsPending : ℕ → MessageOut → Type 0
IsPending e m = Tiles m.next_xmit_offset e (pending m) × (m.granted ≤ m.len)

-- The packets of `sent` have been taken, each from below `granted`, and the others up to `e` are pending. Only
-- these fields have changed, and `granted` has not become less.
pub record Moves (e : ℕ) (m m' : MessageOut) (sent : List Sent) : Type 0 where
  pub same : m' ≡ record m {
    next_xmit = m'.next_xmit;
    next_xmit_offset = m'.next_xmit_offset;
    granted = m'.granted;
    sched_priority = m'.sched_priority;
  }
  pub split : skbs_of sent ++ pending m' ≡ pending m
  pub count : m'.next_xmit ≡ m.next_xmit + length sent
  pub more : m.granted ≤ m'.granted
  pub granted : Each (λ x. x.skb.offset < m'.granted) sent
  pub rest : IsPending e m'

pub stays : (e : ℕ) (m : MessageOut) → IsPending e m → Moves e m m []
stays e m t = record {
  same = refl;
  split = refl;
  count = omega arith;
  more = omega arith;
  granted = tt;
  rest = t;
}

same_trans :
    (m m' m'' : MessageOut)
    → m' ≡ record m {
      next_xmit = m'.next_xmit;
      next_xmit_offset = m'.next_xmit_offset;
      granted = m'.granted;
      sched_priority = m'.sched_priority;
    }
    → m'' ≡ record m' {
      next_xmit = m''.next_xmit;
      next_xmit_offset = m''.next_xmit_offset;
      granted = m''.granted;
      sched_priority = m''.sched_priority;
    }
    → m'' ≡ record m {
      next_xmit = m''.next_xmit;
      next_xmit_offset = m''.next_xmit_offset;
      granted = m''.granted;
      sched_priority = m''.sched_priority;
    }
same_trans m m' m'' e e' =
    e'
    ∙ ap {A = MessageOut} {B = MessageOut}
        (λ x. record x {
          next_xmit = m''.next_xmit;
          next_xmit_offset = m''.next_xmit_offset;
          granted = m''.granted;
          sched_priority = m''.sched_priority;
        })
        e

pub Moves-trans :
    (e : ℕ) (m m' m'' : MessageOut) (sent sent' : List Sent)
    → Moves e m m' sent
    → Moves e m' m'' sent'
    → Moves e m m'' (sent ++ sent')
Moves-trans e m m' m'' sent sent' h k = record {
  same = same_trans m m' m'' h.same k.same;
  split =
      ap (λ l. l ++ pending m'') (map-append (λ x. x.skb) sent sent')
      ∙ append_assoc (skbs_of sent) (skbs_of sent') (pending m'')
      ∙ ap (λ l. skbs_of sent ++ l) k.split
      ∙ h.split;
  count = omega (arith, h.count, k.count, length-append sent sent');
  more = omega (arith, h.more, k.more);
  granted =
      Each-append (λ x. x.skb.offset < m''.granted) sent sent'
        (Each-map (λ x. x.skb.offset < m'.granted) (λ x. x.skb.offset < m''.granted) sent
          (λ x lt. omega (arith, lt, k.more)) h.granted)
        k.granted;
  rest = k.rest;
}

drop-next :
    {A : Type 0} (x : A) (xs ys : List A) (n : ℕ) → drop n xs ≡ x ∷ ys → drop (suc n) xs ≡ ys
drop-next x [] ys zero e = absurd (omega (arith, ap length e))
drop-next x [] ys (suc n) e = absurd (omega (arith, ap length e))
drop-next x (y ∷ xs) ys zero e = ap (drop 1) e
drop-next x (y ∷ xs) ys (suc n) e = drop-next x xs ys n e

pub advance-Moves :
    (e priority : ℕ) (m : MessageOut) (skb : Packet) (skbs : List Packet)
    → pending m ≡ skb ∷ skbs
    → m.next_xmit_offset < m.granted
    → IsPending e m
    → Moves e m (advance m skb) (record { skb = skb; priority = priority } ∷ [])
unfolding advance
advance-Moves e priority m skb skbs is lt t =
    let (at, some_data, rest) = subst (Tiles m.next_xmit_offset e) is t.0 in
    let behind : drop (m.next_xmit + 1) m.packets ≡ skbs =
      ap (λ n. drop n m.packets) {x = m.next_xmit + 1} {y = suc m.next_xmit} (omega arith)
      ∙ drop-next skb m.packets skbs m.next_xmit is in
    record {
      same = refl;
      split = ap (λ l. skb ∷ l) behind ∙ sym is;
      count = refl;
      more = omega arith;
      granted = (omega (arith, lt, at), tt);
      rest = (subst (Tiles (m.next_xmit_offset + skb.data_bytes) e) (sym behind) rest, t.1);
    }

grant_pkt-Moves :
    (e new_offset priority : ℕ) (m : MessageOut)
    → IsPending e m
    → Moves e m (grant_pkt m new_offset priority) []
unfolding grant_pkt
grant_pkt-Moves e new_offset priority m t = record {
  same = refl;
  split = refl;
  count = omega arith;
  more = ground (arith, t.1);
  granted = tt;
  rest = (t.0, ground (arith, t.1));
}

take_next-Moves :
    (e : ℕ) (s : Scene) (m : MessageOut) (skbs : List Packet)
    → pending m ≡ skbs
    → IsPending e m
    → Moves e m (take_next s m skbs).0 (take_next s m skbs).1
unfolding take_next
take_next-Moves e s m [] is t = stays e m t
take_next-Moves e s m (skb ∷ skbs) is t = elim (Bool-cases (leb m.granted m.next_xmit_offset)) [
  | inl none ↦ rw none (stays e m t)
  | inr some ↦ rw some (advance-Moves e (priority_of s m) m skb skbs is (ground (arith, some)) t)
]

pub meanwhile-Moves :
    (e : ℕ) (s : Scene) (es : List Meanwhile) (m : MessageOut) (p : Pacer)
    → IsPending e m
    → Moves e m (meanwhile s es m p).0 (meanwhile s es m p).2
unfolding meanwhile
meanwhile-Moves e s [] m p t = stays e m t
meanwhile-Moves e s (grant new_offset priority ∷ es) m p t =
    let g = grant_pkt-Moves e new_offset priority m t in
    Moves-trans e m (grant_pkt m new_offset priority) _ [] _ g
      (meanwhile-Moves e s es (grant_pkt m new_offset priority) p g.rest)
meanwhile-Moves e s (take_packet ∷ es) m p t =
    let g = take_next-Moves e s m (pending m) refl t in
    let r = take_next s m (pending m) in
    Moves-trans e m r.0 _ r.1 _ g (meanwhile-Moves e s es r.0 p g.rest)
meanwhile-Moves e s (use_pacer f ∷ es) m p t = meanwhile-Moves e s es m (f p) t
