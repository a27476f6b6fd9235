-- ===== src/Transmit/Xmit.antt =====
-- homa_xmit_data (homa_outgoing.c): what is sent, and why it stops.
use mathlib.Core.Path.{subst}
use homa_module.Prelude.{
  ℕ, zero, suc, ◌+◌, ◌-◌, ◌%◌, ◌≤◌, ◌<◌, ◌≡◌, refl, sym, ap, ◌⊎◌, inl, inr, Bool, true, false, not,
  ◌&&◌, ◌||◌, List, [], ◌∷◌, ◌++◌, arith, ltb, leb, leb→le, ◌==◌, if◌then◌else◌, Bool-cases, length,
  length-append, drop, IsAmong,
}
use homa_module.Pool.{u64_mod}
use homa_module.Outgoing.{Packet, MessageOut}
use homa_module.Pacer.{Pacer, check_nic_q, is_throttled, insert_throttled, pacer_manage_rpc}
use homa_module.Pacer.Throttled.{pacer_manage_rpc-IsAmong}
use homa_module.Transmit.{
  Scene, Sent, Xmitted, may_send, priority_of, advance, meanwhile, xmit_pass, xmit_loop, xmit_data,
}
use homa_module.Outgoing.Segments.{Tiles}
use homa_module.Transmit.Moves.{
  Moves, IsPending, pending, skbs_of, stays, Moves-trans, advance-Moves, meanwhile-Moves,
}

-- The NIC queue is full for the next packet: the pacer is asked, the packet is not forced, and the link is
-- busy for longer than it may.
pub record NicFull (s : Scene) (pass : ℕ) (force : Bool) (m : MessageOut) (p : Pacer) : Type 0 where
  pub large : s.defer_min_bytes < m.len - m.next_xmit_offset
  pub no_qdisc : s.qdisc_active ≡ false
  pub forced : force ≡ false
  pub throttle : p.dont_throttle ≡ false
  pub busy : (s.clock pass + p.max_nic_queue_cycles) % u64_mod < p.link_idle_time

-- Why homa_xmit_data returns: all is sent, the RPC is dead, all granted bytes are sent, or the NIC queue
-- is full and the pacer has the RPC now. This is found in a pass up to `last`; only the first is forced.
abbrev pub WhyStop : Scene → Bool → ℕ → MessageOut → Pacer → Type 0
WhyStop s force last m p =
    (pending m ≡ [])
    ⊎ ((pass : ℕ) × (pass ≤ last) × (s.dead pass ≡ true))
    ⊎ (m.granted ≤ m.next_xmit_offset)
    ⊎ ((pass : ℕ) × (pass ≤ last)
        × NicFull s pass (force && (pass == 0)) m p
        × IsAmong s.id p.throttled_rpcs)

pub WhyStop-later :
    (s : Scene) (force : Bool) (last last' : ℕ) (m : MessageOut) (p : Pacer)
    → last ≤ last'
    → WhyStop s force last m p
    → WhyStop s force last' m p
WhyStop-later s force last last' m p le (inl h) = inl h
WhyStop-later s force last last' m p le (inr (inl (pass, early, h))) =
    inr (inl (pass, omega (arith, early, le), h))
WhyStop-later s force last last' m p le (inr (inr (inl h))) = inr (inr (inl h))
WhyStop-later s force last last' m p le (inr (inr (inr (pass, early, h, k)))) =
    inr (inr (inr (pass, omega (arith, early, le), h, k)))

or_false : (a b : Bool) → a ≡ false → (a || b) ≡ true → b ≡ true
or_false false b e h = h
or_false true b e h = ground (arith, e)

first_forced : (force : Bool) → force ≡ (force && (0 == 0))
first_forced true = refl
first_forced false = refl

later : (force : Bool) (pass : ℕ) → false ≡ (force && (suc pass == 0))
later true pass = ground arith
later false pass = refl

none_left : (skbs : List Packet) → length skbs ≤ 0 → skbs ≡ []
none_left [] h = refl
none_left (skb ∷ skbs) h = absurd (omega (arith, h))

drop-length : (n : ℕ) (skbs : List Packet) → length (drop n skbs) ≤ length skbs
drop-length zero skbs = omega arith
drop-length (suc n) [] = omega arith
drop-length (suc n) (skb ∷ skbs) = omega (arith, drop-length n skbs)

-- What a call leaves behind, the packets up to `e` being there.
pub record XmitSpec (s : Scene) (force : Bool) (e : ℕ) (m : MessageOut) (r : Xmitted) : Type 0 where
  pub moves : Moves e m r.0 r.2
  pub why : WhyStop s force (length r.2) r.0 r.1

-- A refusal by the pacer.
record Refused (s : Scene) (pass : ℕ) (force : Bool) (m : MessageOut) (p : Pacer) (r : Pacer × Bool)
    : Type 0 where
  kept : r.0 ≡ p
  full : NicFull s pass force m p

check_nic_q-full :
    (p : Pacer) (clock bytes : ℕ) (force : Bool)
    → (check_nic_q p clock bytes force).1 ≡ false
    → ((check_nic_q p clock bytes force).0 ≡ p)
      × (force ≡ false)
      × (p.dont_throttle ≡ false)
      × ((clock + p.max_nic_queue_cycles) % u64_mod < p.link_idle_time)
unfolding check_nic_q
check_nic_q-full p clock bytes force h =
    elim (Bool-cases (
      ltb ((clock + p.max_nic_queue_cycles) % u64_mod) p.link_idle_time
      && not force
      && not p.dont_throttle)) [
        | inl e ↦ rw e (refl, ground (arith, e), ground (arith, e), ground (arith, e))
        | inr e ↦ cc (rw e at h)
      ]

may_send-Refused :
    (s : Scene) (pass : ℕ) (force : Bool) (m : MessageOut) (p : Pacer) (skb : Packet)
    → (may_send s pass force m p skb).1 ≡ false
    → Refused s pass force m p (may_send s pass force m p skb)
unfolding may_send
may_send-Refused s pass force m p skb h =
    elim (Bool-cases (ltb s.defer_min_bytes (m.len - m.next_xmit_offset) && not s.qdisc_active)) [
      | inl e ↦
          let (kept, not_forced, free, busy) =
            check_nic_q-full p (s.clock pass) skb.wire_bytes force (rw e at h) in
          rw e (record {
            kept = kept;
            full = record {
              large = ground (arith, e);
              no_qdisc = ground (arith, e);
              forced = not_forced;
              throttle = free;
              busy = busy;
            };
          })
      | inr e ↦ cc (rw e at h)
    ]

manage-NicFull :
    (s : Scene) (pass : ℕ) (force : Bool) (m : MessageOut) (p : Pacer) (rpc bytes : ℕ)
    → NicFull s pass force m p
    → NicFull s pass force m (pacer_manage_rpc s.bytes_left p rpc bytes)
unfolding pacer_manage_rpc
manage-NicFull s pass force m p rpc bytes h = go (is_throttled rpc p.throttled_rpcs)
  where
    go :
        (b : Bool)
        → NicFull s pass force m (
            if b then p else record p {
              throttled_rpcs = insert_throttled s.bytes_left rpc bytes p.throttled_rpcs;
            })
    go true = h
    go false = record {
      large = h.large;
      no_qdisc = h.no_qdisc;
      forced = h.forced;
      throttle = h.throttle;
      busy = h.busy;
    }

module _ (s : Scene) (force0 : Bool) (e : ℕ) where
  -- The same of the passes from `pass` on.
  abbrev From : ℕ → MessageOut → Xmitted → Type 0
  From pass m r = Moves e m r.0 r.2 × WhyStop s force0 (pass + length r.2) r.0 r.1

  stop_here :
      (pass : ℕ) (m : MessageOut) (p : Pacer)
      → IsPending e m
      → WhyStop s force0 pass m p
      → From pass m (m, p, [])
  stop_here pass m p t why =
      (stays e m t, WhyStop-later s force0 pass (pass + 0) m p (omega arith) why)

  xmit_pass-From :
      (pass : ℕ) (force : Bool) (m : MessageOut) (p : Pacer) (skbs : List Packet)
      (next : Packet → Pacer → Xmitted)
      → force ≡ (force0 && (pass == 0))
      → IsPending e m
      → pending m ≡ skbs
      → ((skb : Packet) (skbs' : List Packet) (p' : Pacer)
          → pending m ≡ skb ∷ skbs'
          → m.next_xmit_offset < m.granted
          → From pass m (next skb p'))
      → From pass m (xmit_pass s pass force m p skbs next)
  unfolding xmit_pass
  xmit_pass-From pass force m p [] next f t is go = stop_here pass m p t (inl is)
  xmit_pass-From pass force m p (skb ∷ skbs) next f t is go =
      elim (Bool-cases (s.dead pass || leb m.granted m.next_xmit_offset)) [
        | inl stop ↦ rw stop (
            stop_here pass m p t (elim (Bool-cases (s.dead pass)) [
              | inl dead ↦ inr (inl (pass, omega arith, dead))
              | inr alive ↦ inr (inr (inl (leb→le _ _ (or_false _ _ alive stop))))
            ]))
        | inr on ↦ elim (Bool-cases (may_send s pass force m p skb).1) [
          | inl may ↦
              rw (on, may) (go skb skbs (may_send s pass force m p skb).0 is (ground (arith, on)))
          | inr may ↦
              let left = m.len - m.next_xmit_offset in
              let r = may_send-Refused s pass force m p skb may in
              let p' = (may_send s pass force m p skb).0 in
              let full : NicFull s pass (force0 && (pass == 0)) m p' =
                subst (λ b. NicFull s pass b m p') f
                  (subst (λ x. NicFull s pass force m x) (sym r.kept) r.full) in
              rw (on, may)
                (stop_here pass m _ t (
                  inr (
                    inr (
                      inr (
                        pass,
                        omega arith,
                        manage-NicFull s pass _ m p' s.id left full,
                        pacer_manage_rpc-IsAmong s.bytes_left p' s.id left,
                      )))))
        ]
      ]

  xmit_loop-From :
      (fuel pass : ℕ) (force : Bool) (m : MessageOut) (p : Pacer)
      → force ≡ (force0 && (pass == 0))
      → IsPending e m
      → length (pending m) ≤ fuel
      → From pass m (xmit_loop s fuel pass force m p)
  unfolding xmit_loop
  xmit_loop-From zero pass force m p f t enough =
      stop_here pass m p t (inl (none_left (pending m) enough))
  xmit_loop-From (suc fuel) pass force m p f t enough =
      xmit_pass-From pass force m p (pending m) _ f t refl (λ skb skbs p' is lt.
        let x : Sent = record { skb = skb; priority = priority_of s m } in
        let taken = advance-Moves e (priority_of s m) m skb skbs is lt t in
        let (m1, p1, others) = meanwhile s (s.others pass) (advance m skb) p' in
        let between = meanwhile-Moves e s (s.others pass) (advance m skb) p' taken.rest in
        let first = Moves-trans e m (advance m skb) m1 (x ∷ []) others taken between in
        let r = xmit_loop s fuel (suc pass) false m1 p1 in
        let (moves, why) =
          xmit_loop-From fuel (suc pass) false m1 p1 (later force0 pass) first.rest
            (fewer others m1 m x first.split enough) in
        (
          Moves-trans e m m1 r.0 (x ∷ others) r.2 first moves,
          WhyStop-later s force0 (suc pass + length r.2) (pass + length ((x ∷ others) ++ r.2)) r.0
              r.1 (omega (arith, length-append others r.2)) why,
        ))
    where
      fewer :
          (others : List Sent) (m1 m : MessageOut) (x : Sent)
          → skbs_of (x ∷ others) ++ pending m1 ≡ pending m
          → length (pending m) ≤ suc fuel
          → length (pending m1) ≤ fuel
      fewer others m1 m x split enough =
          omega (arith, ap length split, length-append (skbs_of others) (pending m1), enough)

-- homa_xmit_data sends packets in order, from `next_xmit` on, each of which begins below `granted`, with those
-- that other threads take while the lock of the RPC is free, where GRANT packets may come too; `next_xmit`
-- and `next_xmit_offset` move behind them, to where the pending packets begin, and but for them, `granted` and
-- `sched_priority` nothing changes in the message. It stops only when no packet is left, the RPC is dead,
-- nothing that is left has been granted, or when the NIC queue is full at the time of a pass, the packet not
-- forced, and the message one that the pacer is asked for, and then the RPC is among those that the pacer
-- has. This supposes that the packets from `next_xmit` on cover the message from `next_xmit_offset` to `e` in
-- order, that no more than the message is granted, and that no thread adds packets meanwhile.
pub xmit_data-XmitSpec :
    (s : Scene) (force : Bool) (m : MessageOut) (p : Pacer) (e : ℕ)
    → Tiles m.next_xmit_offset e (drop m.next_xmit m.packets)
    → m.granted ≤ m.len
    → XmitSpec s force e m (xmit_data s force m p)
unfolding xmit_data
xmit_data-XmitSpec s force m p e t fits =
    let r = xmit_loop s (length m.packets) 0 force m p in
    let (moves, why) =
      xmit_loop-From s force e (length m.packets) 0 force m p (first_forced force) (t, fits)
        (drop-length m.next_xmit m.packets) in
    record {
      moves = moves;
      why = WhyStop-later s force (0 + length r.2) (length r.2) r.0 r.1 (omega arith) why;
    }
