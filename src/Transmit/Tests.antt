-- ===== src/Transmit/Tests.antt =====
-- Runs of homa_message_out_fill and homa_xmit_data.
use homa_module.Prelude.{
  ℕ, ◌+◌, ◌≡◌, refl, true, false, List, [], ◌∷◌, arith, map, if◌then◌else◌, ◌==◌,
}
use homa_module.Prelude.Int.{pos}
use homa_module.Outgoing.{Packet, MessageOut, message_out_init, tx_packet, skb_data_bytes}
use homa_module.Pacer.{Pacer, check_nic_q, cycles_for_packet, pacer_manage_rpc, insert_throttled}
use homa_module.Transmit.{
  grant, take_packet, grant_pkt, take_next, meanwhile, xmit_pass, Scene, Filling, Filled,
  message_out_fill, fill_loop, link_packet, xmit_early, xmit_data, xmit_loop, may_send, priority_of,
  advance,
}
use homa_module.Transmit.Xmit.{XmitSpec, xmit_data-XmitSpec}

abbrev idle_pacer : Pacer
idle_pacer = record {
  fifo_count = pos 1000;
  throttled_rpcs = [];
  cycles_per_mbyte = 1000000;
  link_idle_time = 0;
  max_nic_queue_cycles = 4000;
  fifo_fraction = 50;
  dont_throttle = false;
}

abbrev scene : ℕ → Scene
scene offset = record {
  id = 14;
  unsched_priority = 6;
  defer_min_bytes = 100;
  qdisc_active = false;
  bytes_left = λ rpc. rpc;
  clock = λ pass. 10000 + offset + pass;
  dead = λ pass. false;
  others = λ pass. [];
}

abbrev filling : Filling
filling = record {
  ip_header = 20;
  seg_data = 1000;
  gso_data = 2000;
  xmit = true;
  alloc_fails = λ o. false;
  dead = λ o. false;
  others = λ o. if o == 3500 then grant 5000 2 ∷ take_packet ∷ take_packet ∷ [] else [];
  scene = scene;
}

abbrev empty : MessageOut
empty = message_out_init 0 0 0

abbrev offsets : Filled → List ℕ × List ℕ × ℕ
offsets r =
    (map (λ skb. skb.offset) r.1.0.packets, map (λ x. x.skb.offset) r.1.2, r.1.0.next_xmit_offset)

-- 6500 bytes, the first 3500 of them unscheduled. The grant for 5000 bytes comes when no packet beyond 3500 is
-- there, so that the last call of homa_xmit_data sends the packet from 3500 to 5500.
fill_run :
    offsets (message_out_fill filling 6500 3500 10 empty idle_pacer)
    ≡ (0 ∷ 2000 ∷ 3500 ∷ 5500 ∷ [], 0 ∷ 2000 ∷ 3500 ∷ [], 5500)
unfolding message_out_fill fill_loop link_packet xmit_early xmit_data xmit_loop xmit_pass meanwhile
    grant_pkt take_next may_send priority_of advance check_nic_q cycles_for_packet message_out_init
    tx_packet skb_data_bytes
fill_run = refl

abbrev packet : ℕ → ℕ → Packet
packet offset size = record {
  offset = offset;
  data_bytes = size;
  seg_length = 1000;
  wire_bytes = size + 94;
  gso_segs = 2;
}

-- All is granted, but the NIC queue is full after two more packets.
abbrev long : MessageOut
long = record {
  len = 9500;
  packets =
      packet 0 2000
      ∷ packet 2000 2000
      ∷ packet 4000 2000
      ∷ packet 6000 2000
      ∷ packet 8000 1500
      ∷ [];
  copied_from_user = 9500;
  num_skbs = 5;
  next_xmit = 1;
  next_xmit_offset = 2000;
  first_not_tx = 0;
  to_free = [];
  unscheduled = 4000;
  granted = 9500;
  sched_priority = 2;
  init_time = 77;
}

abbrev busy_pacer : Pacer
busy_pacer = record idle_pacer { link_idle_time = 11000 }

xmit_run :
    (map (λ x. x.priority) (xmit_data (scene 0) false long busy_pacer).2 ≡ 6 ∷ 2 ∷ [])
    × ((xmit_data (scene 0) false long busy_pacer).1.throttled_rpcs ≡ 14 ∷ [])
unfolding xmit_data xmit_loop xmit_pass meanwhile may_send priority_of advance check_nic_q
    cycles_for_packet pacer_manage_rpc insert_throttled
xmit_run = (refl, refl)

xmit_data-XmitSpec_example :
    XmitSpec (scene 0) false 9500 long (xmit_data (scene 0) false long busy_pacer)
xmit_data-XmitSpec_example =
    xmit_data-XmitSpec (scene 0) false long busy_pacer 9500
      (refl, omega arith, (refl, omega arith, (refl, omega arith, (refl, omega arith, refl))))
      (omega arith)
