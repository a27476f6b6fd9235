-- ===== src/Outgoing/Tests.antt =====
-- Runs of the operations on outgoing messages.
use homa_module.Prelude.{ℕ, ◌+◌, ◌≡◌, refl, false, Bool, List, [], ◌∷◌, arith, ◌==◌, if◌then◌else◌}
use homa_module.Prelude.Int.{pos}
use homa_module.Pacer.{Pacer}
use homa_module.Outgoing.{
  Packet, MessageOut, Segment, max_seg_data, max_gso_data, segs_per_gso, resend_data,
  resend_packets, resend_segments, fill_data_interleaved, tx_end, tx_end_loop,
}
use homa_module.Outgoing.Geometry.{GeometrySpec, geometry_lem}
use homa_module.Outgoing.Segments.{
  ResendSpec, resend_data_lem, Covers, resend_data-Covers, segments_of,
}
use homa_module.Outgoing.TxEnd.{TxEndSpec, tx_end_lem}

geometry_run : (max_seg_data 1500 20 ≡ 1424) × (max_gso_data false 4352 20 1424 ≡ 2848)
unfolding max_seg_data max_gso_data segs_per_gso
geometry_run = (refl, refl)

geometry_lem_example :
    GeometrySpec false 1500 4352 20 (segs_per_gso false 4352 20 (max_seg_data 1500 20))
geometry_lem_example =
    geometry_lem false 1500 20 4352 (omega arith) (omega arith) (omega arith) (omega arith)

-- A message of 5500 bytes in packets of up to three segments of 1000 bytes.
abbrev packet : ℕ → ℕ → ℕ → Packet
packet offset size segs = record {
  offset = offset;
  data_bytes = size;
  seg_length = 1000;
  wire_bytes = size + 94;
  gso_segs = segs;
}

abbrev three_packets : List Packet
three_packets = packet 0 3000 3 ∷ packet 3000 700 0 ∷ packet 3700 1800 2 ∷ []

abbrev message : MessageOut
message = record {
  len = 5500;
  packets = three_packets;
  copied_from_user = 5500;
  num_skbs = 3;
  next_xmit = 2;
  next_xmit_offset = 3700;
  first_not_tx = 1;
  to_free = [];
  unscheduled = 3700;
  granted = 5500;
  sched_priority = 2;
  init_time = 77;
}

abbrev seg : ℕ → ℕ → Segment
seg offset size = record { offset = offset; seg_bytes = size }

abbrev no_failure : ℕ → Bool
no_failure o = false

abbrev clock : ℕ → ℕ
clock o = 1000000 + o

abbrev pacer : Pacer
pacer = record {
  fifo_count = pos 1000;
  throttled_rpcs = [];
  cycles_per_mbyte = 1000000;
  link_idle_time = 0;
  max_nic_queue_cycles = 4000;
  fifo_fraction = 50;
  dont_throttle = false;
}

resend_run :
    ((resend_data 20 no_failure clock message pacer 2500 3800).2
      ≡ seg 2000 1000 ∷ seg 3000 700 ∷ seg 3700 1000 ∷ [])
    × ((resend_data 20 (λ o. o == 3000) clock message pacer 2500 3800).2 ≡ seg 2000 1000 ∷ [])
unfolding resend_data resend_packets resend_segments
resend_run = (refl, refl)

segments_run :
    segments_of three_packets
    ≡ seg 0 1000 ∷ seg 1000 1000 ∷ seg 2000 1000 ∷ seg 3000 700 ∷ seg 3700 1000 ∷ seg 4700 800 ∷ []
unfolding fill_data_interleaved
segments_run = refl

resend_data_lem_example :
    ResendSpec no_failure message 2500 3800 5500
      (resend_data 20 no_failure clock message pacer 2500 3800)
resend_data_lem_example =
    resend_data_lem 20 no_failure clock message pacer 2500 3800 5500
      (refl, omega arith, (refl, omega arith, (refl, omega arith, refl)))
      (omega arith, (omega arith, (omega arith, tt))) (omega arith)

resend_data-Covers_example : Covers 3650 (resend_data 20 no_failure clock message pacer 2500 3800).2
resend_data-Covers_example =
    resend_data-Covers 20 no_failure clock message pacer 2500 3800 5500 3650
      (refl, omega arith, (refl, omega arith, (refl, omega arith, refl)))
      (omega arith, (omega arith, (omega arith, tt))) (λ o. refl) (omega arith) (omega arith)
      (omega arith)

-- The driver still has the second packet, or only the third has not been passed on.
abbrev users : ℕ → ℕ
users offset = if offset == 3000 then 2 else 1

tx_end_run : ((tx_end users message).1 ≡ 3000) × ((tx_end (λ o. 1) message).1 ≡ 3700)
unfolding tx_end tx_end_loop
tx_end_run = (refl, refl)

tx_end_lem_example :
    (gone : List Packet) × (rest : List Packet) × TxEndSpec
      (λ o. 1)
      message
      (tx_end (λ o. 1) message)
      gone
      rest
tx_end_lem_example =
    tx_end_lem (λ o. 1) message (packet 0 3000 3 ∷ []) 3000 refl refl
      ((omega arith, omega arith), tt) (refl, omega arith, (refl, omega arith, refl))
