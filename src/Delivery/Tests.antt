-- ===== src/Delivery/Tests.antt =====
-- Runs of homa_deliver_skbs and of the copying loop.
use mathlib.Core.List.{Perm}
use homa_module.Prelude.{ℕ, ◌≡◌, refl, true, false, some, [], ◌∷◌, arith}
use homa_module.Pool.Buffers.{get_buffer}
use homa_module.Incoming.{Packet, MessageIn}
use homa_module.Incoming.Received.{IsAccounted}
use homa_module.Delivery.{Actor, chunks, handed, deliver, sorted_queue, sort_packets, copy_chunks}
use homa_module.Delivery.Sorting.{IsSorted, sorted_queue_lem}
use homa_module.Delivery.Stream.{DeliverSpec, deliver_lem}
use homa_module.Delivery.Copy.{CopySpec, copy_chunks-CopySpec}

abbrev packet : ℕ → ℕ → Packet
packet offset size = record { offset = offset; size = size }

-- All 2500 bytes have arrived, the first packet last.
abbrev whole : MessageIn
whole = record {
  len = 2500;
  packets = packet 1000 1000 ∷ packet 2000 500 ∷ packet 0 1000 ∷ [];
  recv_end = 2500;
  gaps = [];
  bytes_remaining = 0;
}

whole-IsAccounted : IsAccounted whole
whole-IsAccounted = record {
  ordered = omega arith;
  inside = omega arith;
  remaining = refl;
  packets = λ b. ground arith;
  nonempty = omega arith;
}

abbrev willing : Actor
willing = record { used = λ before p. p.size; fails = λ before p. false }

deliver_run :
    deliver false willing (some whole)
    ≡ handed (packet 0 1000 ∷ packet 1000 1000 ∷ packet 2000 500 ∷ []) true
unfolding deliver
deliver_run = refl

deliver_lem_example : DeliverSpec willing whole (deliver false willing (some whole))
deliver_lem_example = deliver_lem willing whole whole-IsAccounted

sorted_queue_lem_example :
    (sorted_queue whole.packets ≡ sort_packets [] whole.packets)
    × IsSorted (sorted_queue whole.packets)
    × Perm (sorted_queue whole.packets) whole.packets
sorted_queue_lem_example = sorted_queue_lem whole.packets

-- A packet across the border of two buffers.
abbrev across : Packet
across = packet 65000 1000

copy_chunks_run :
    copy_chunks 1001 4096 70000 (65536 ∷ 100 ∷ []) across 0
    ≡ chunks (
        record { from = 0; dst = 134632; size = 536 }
        ∷ record { from = 536; dst = 4196; size = 464 }
        ∷ [])
unfolding copy_chunks get_buffer
copy_chunks_run = refl

copy_chunks-CopySpec_example :
    CopySpec 4096
      (65536 ∷ 100 ∷ [])
      65000
      0
      1000
      (copy_chunks 1001 4096 70000 (65536 ∷ 100 ∷ []) across 0)
copy_chunks-CopySpec_example =
    copy_chunks-CopySpec 1001 4096 70000 (65536 ∷ 100 ∷ []) across 0 refl (omega arith)
      (omega arith) (omega arith)
