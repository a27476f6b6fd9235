-- ===== src/Transfer/Tests.antt =====
-- A message whose segments arrive in another order, one of them twice.
use mathlib.Core.Path.{subst}
use homa_module.Prelude.{ℕ, ◌+◌, ◌≡◌, refl, sym, Each, true, false, inl, inr, List, [], ◌∷◌, arith}
use homa_module.Prelude.Int.{pos}
use homa_module.Incoming.{message_in_init}
use homa_module.Incoming.Received.{IsAccounted}
use homa_module.Outgoing.{
  MessageOut, Segment, message_out_init, tx_packet, skb_data_bytes, fill_data_interleaved,
}
use homa_module.Pacer.{Pacer}
use homa_module.Transmit.{
  Scene, Filling, filled, message_out_fill, fill_loop, link_packet, xmit_early, meanwhile,
}
use homa_module.Outgoing.Segments.{segments_of}
use homa_module.Transfer.Places.{IsSegment}
use homa_module.Transfer.Arrivals.{receive_all}
use homa_module.Transfer.RoundTrip.{IsWhole, transfer_lem}

abbrev pacer : Pacer
pacer = record {
  fifo_count = pos 1000;
  throttled_rpcs = [];
  cycles_per_mbyte = 1000000;
  link_idle_time = 0;
  max_nic_queue_cycles = 4000;
  fifo_fraction = 50;
  dont_throttle = false;
}

abbrev scene : ℕ → Scene
scene offset = record {
  id = 14;
  unsched_priority = 6;
  defer_min_bytes = 100;
  qdisc_active = true;
  bytes_left = λ rpc. rpc;
  clock = λ pass. 10000 + pass;
  dead = λ pass. false;
  others = λ pass. [];
}

abbrev filling : Filling
filling = record {
  ip_header = 20;
  seg_data = 1000;
  gso_data = 2000;
  xmit = false;
  alloc_fails = λ o. false;
  dead = λ o. false;
  others = λ o. [];
  scene = scene;
}

abbrev empty : MessageOut
empty = message_out_init 0 0 0

abbrev seg : ℕ → ℕ → Segment
seg offset size = record { offset = offset; seg_bytes = size }

abbrev sent : List Segment
sent = segments_of (message_out_fill filling 2500 1500 10 empty pacer).1.0.packets

abbrev arrivals : List Segment
arrivals = seg 1500 1000 ∷ seg 1000 500 ∷ seg 1000 500 ∷ seg 0 1000 ∷ []

sent_run : sent ≡ seg 0 1000 ∷ seg 1000 500 ∷ seg 1500 1000 ∷ []
unfolding message_out_fill fill_loop link_packet xmit_early message_out_init tx_packet
    skb_data_bytes meanwhile fill_data_interleaved
sent_run = refl

filled_run : (message_out_fill filling 2500 1500 10 empty pacer).0 ≡ filled
unfolding message_out_fill fill_loop message_out_init skb_data_bytes xmit_early link_packet
    meanwhile
filled_run = refl

transfer_lem_example :
    IsWhole (receive_all (λ o. 7) (message_in_init 2500) arrivals)
    × IsAccounted (receive_all (λ o. 7) (message_in_init 2500) arrivals)
    × ((receive_all (λ o. 7) (message_in_init 2500) arrivals).len ≡ 2500)
transfer_lem_example =
    transfer_lem filling 2500 1500 10 empty pacer (λ o. 7) arrivals (omega arith) (omega arith)
      (omega arith) (omega arith) filled_run
      (subst (λ l. Each (λ s. IsSegment s l) arrivals) (sym sent_run)
        (inr (inr (inl refl)), (inr (inl refl), (inr (inl refl), (inl refl, tt)))))
      (subst (Each (λ s. IsSegment s arrivals)) (sym sent_run)
        (inr (inr (inr (inl refl))), (inr (inl refl), (inl refl, tt))))
