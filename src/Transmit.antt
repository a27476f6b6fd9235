-- ===== src/Transmit.antt =====
-- homa_message_out_fill and homa_xmit_data (homa_outgoing.c), with homa_pacer_xmit (homa_pacer.c): packets are
-- made and handed to the IP stack. The lock of the RPC is released in between: what other threads do then is
-- given, by the pass or the offset: the clock, the death of the RPC, and what `Meanwhile` has. No other thread
-- puts packets into the message during a call of homa_xmit_data.
pub mod Moves
pub mod Xmit
pub mod Fill
mod Tests
use homa_module.Prelude.{
  ℕ, zero, suc, ◌+◌, ◌-◌, Bool, true, false, not, ◌&&◌, ◌||◌, Option, none, some, List, [], ◌∷◌,
  ◌++◌, ltb, leb, ◌==◌, if◌then◌else◌, length, drop,
}
use homa_module.Pool.{u64_mod}
use homa_module.Outgoing.{
  Packet, MessageOut, message_out_init, max_seg_data, max_gso_data, tx_packet, skb_data_bytes,
}
use homa_module.Pacer.{Pacer, check_nic_q, pacer_manage_rpc, pick_rpc, pacer_unmanage_rpc}

-- What another thread does while the lock of the RPC is free: homa_grant_pkt up to its call of homa_xmit_data,
-- with the offset and the priority of the GRANT packet; a pass of its homa_xmit_data that takes a packet; and
-- anything with the pacer, which the RPCs share.
pub data Meanwhile : Type 0 where
  grant : ℕ → ℕ → Meanwhile
  take_packet : Meanwhile
  use_pacer : (Pacer → Pacer) → Meanwhile

-- What homa_xmit_data reads: `unsched_priority` is the result of homa_unsched_priority for the message,
-- `bytes_left` says how much the throttled RPCs have left, `clock`, `dead` and `others` are those of a
-- pass.
pub record Scene : Type 0 where
  pub id : ℕ
  pub unsched_priority : ℕ
  pub defer_min_bytes : ℕ
  pub qdisc_active : Bool
  pub bytes_left : ℕ → ℕ
  pub clock : ℕ → ℕ
  pub dead : ℕ → Bool
  pub others : ℕ → List Meanwhile

-- A packet that is sent, with its priority.
pub record Sent : Type 0 where
  pub skb : Packet
  pub priority : ℕ

abbrev pub Xmitted : Type 0
Xmitted = MessageOut × Pacer × List Sent

-- The question to the pacer.
unfoldable pub may_send : Scene → ℕ → Bool → MessageOut → Pacer → Packet → Pacer × Bool
may_send s pass force m p skb =
    if ltb s.defer_min_bytes (m.len - m.next_xmit_offset) && not s.qdisc_active
    then check_nic_q p (s.clock pass) skb.wire_bytes force
    else (p, true)

unfoldable pub priority_of : Scene → MessageOut → ℕ
priority_of s m =
    if ltb m.next_xmit_offset m.unscheduled then s.unsched_priority else m.sched_priority

unfoldable pub advance : MessageOut → Packet → MessageOut
advance m skb = record m {
  next_xmit = m.next_xmit + 1;
  next_xmit_offset = m.next_xmit_offset + skb.data_bytes;
}

-- homa_grant_pkt, for an RPC that is RPC_OUTGOING.
unfoldable pub grant_pkt : MessageOut → ℕ → ℕ → MessageOut
grant_pkt m new_offset priority = record m {
  granted =
      if ltb m.granted new_offset
      then if ltb m.len new_offset then m.len else new_offset
      else m.granted;
  sched_priority = priority;
}

-- The next packet, if it is granted.
unfoldable pub take_next : Scene → MessageOut → List Packet → MessageOut × List Sent
take_next s m [] = (m, [])
take_next s m (skb ∷ skbs) =
    if leb m.granted m.next_xmit_offset
    then (m, [])
    else (advance m skb, record { skb = skb; priority = priority_of s m } ∷ [])

abbrev pub sent_before : List Sent → Xmitted → Xmitted
sent_before sent (m, p, others) = (m, p, sent ++ others)

-- What other threads do, and the packets that they take.
unfoldable pub meanwhile : Scene → List Meanwhile → MessageOut → Pacer → Xmitted
meanwhile s [] m p = (m, p, [])
meanwhile s (grant new_offset priority ∷ es) m p =
    meanwhile s es (grant_pkt m new_offset priority) p
meanwhile s (take_packet ∷ es) m p =
    let (m', sent) = take_next s m (drop m.next_xmit m.packets) in
    sent_before sent (meanwhile s es m' p)
meanwhile s (use_pacer f ∷ es) m p = meanwhile s es m (f p)

-- A pass of homa_xmit_data, with the packets from `next_xmit` on, and how it goes on.
unfoldable pub xmit_pass :
    Scene → ℕ → Bool → MessageOut → Pacer → List Packet → (Packet → Pacer → Xmitted) → Xmitted
xmit_pass s pass force m p [] next = (m, p, [])
xmit_pass s pass force m p (skb ∷ skbs) next =
    let (p', may) = may_send s pass force m p skb in
    if s.dead pass || leb m.granted m.next_xmit_offset
    then (m, p, [])
    else if may
    then next skb p'
    else (m, pacer_manage_rpc s.bytes_left p' s.id (m.len - m.next_xmit_offset), [])

-- homa_xmit_data. The packets are those that it sends, and those that others take meanwhile, in the order in
-- which they are taken. Each pass takes one, so as many passes as packets are enough.
unfoldable pub xmit_loop : Scene → ℕ → ℕ → Bool → MessageOut → Pacer → Xmitted
unfolding xmit_pass meanwhile
xmit_loop s zero pass force m p = (m, p, [])
xmit_loop s (suc fuel) pass force m p =
    xmit_pass s pass force m p (drop m.next_xmit m.packets) (λ skb p'.
      let (m1, p1, others) = meanwhile s (s.others pass) (advance m skb) p' in
      sent_before (record { skb = skb; priority = priority_of s m } ∷ others)
        (xmit_loop s fuel (suc pass) false m1 p1))

unfoldable pub xmit_data : Scene → Bool → MessageOut → Pacer → Xmitted
xmit_data s force m p = xmit_loop s (length m.packets) 0 force m p

-- What homa_message_out_fill is given: the sizes of the headers and of the packets, `xmit`, and at each
-- offset whether homa_tx_data_pkt_alloc fails, whether the RPC is found dead afterwards, what others do while
-- the packet is made, and the scene of homa_xmit_data there.
pub record Filling : Type 0 where
  pub ip_header : ℕ
  pub seg_data : ℕ
  pub gso_data : ℕ
  pub xmit : Bool
  pub alloc_fails : ℕ → Bool
  pub dead : ℕ → Bool
  pub others : ℕ → List Meanwhile
  pub scene : ℕ → Scene

-- `looping` is a lack of fuel.
pub data Status : Type 0 where
  filled : Status
  bad_length : Status
  alloc_failed : Status
  rpc_dead : Status
  looping : Status

abbrev pub Filled : Type 0
Filled = Status × Xmitted

unfoldable pub link_packet : MessageOut → Packet → ℕ → MessageOut
link_packet m skb bytes_left = record m {
  packets = m.packets ++ (skb ∷ []);
  num_skbs = m.num_skbs + 1;
  copied_from_user = m.len - bytes_left;
  first_not_tx = 0;
}

-- The transmission at the end of a pass, and what the later passes add to it.
unfoldable pub xmit_early : Filling → ℕ → MessageOut → Pacer → Xmitted
xmit_early f offset m p =
    if ltb offset m.unscheduled && f.xmit then xmit_data (f.scene offset) false m p else (m, p, [])

abbrev pub and_then : List Sent → Filled → Filled
and_then sent (status, (m, p, others)) = (status, (m, p, sent ++ others))

-- The loop of homa_message_out_fill, on `bytes_left`.
unfoldable pub fill_loop : Filling → ℕ → ℕ → MessageOut → Pacer → Filled
fill_loop f zero fuel m p = (filled, (m, p, []))
fill_loop f (suc left) zero m p = (looping, (m, p, []))
fill_loop f (suc left) (suc fuel) m p =
    let offset = m.len - suc left in
    let size = skb_data_bytes m.unscheduled f.gso_data offset (suc left) in
    let skb = tx_packet f.ip_header offset size f.seg_data in
    let (m1, p1, others) = meanwhile (f.scene offset) (f.others offset) m p in
    let (m', p', sent) = xmit_early f offset (link_packet m1 skb (suc left - size)) p1 in
    let rest = fill_loop f (suc left - size) fuel m' p' in
    if f.alloc_fails offset
    then (alloc_failed, (m1, p1, others))
    else if f.dead offset
    then (rpc_dead, (m1, p1, others))
    else and_then (others ++ sent) rest

abbrev pub max_message_length : ℕ
max_message_length = 1400000

abbrev pub finish_fill : Filling → Filled → Filled
finish_fill f (filled, (m, p, sent)) =
    if f.xmit
    then and_then sent (filled, xmit_data (f.scene m.len) false m p)
    else (filled, (m, p, sent))
finish_fill f (status, r) = (status, r)

-- homa_message_out_fill
unfoldable pub message_out_fill : Filling → ℕ → ℕ → ℕ → MessageOut → Pacer → Filled
message_out_fill f len unsched_bytes clock m p =
    let m' = message_out_init len unsched_bytes clock in
    if ltb max_message_length len || (len == 0)
    then (bad_length, (m, p, []))
    else finish_fill f (fill_loop f len len (record m' { granted = m'.unscheduled }) p)
