-- ===== src/Incoming/Tests.antt =====
-- Runs of homa_add_packet on a message of 3000 bytes.
use homa_module.Prelude.{◌≡◌, refl, true, not, ◌&&◌, ◌||◌, none, some, [], ◌∷◌, arith, ltb}
use homa_module.Incoming.{Packet, MessageIn, dup_frag, kept, discarded, add_packet, request_retrans}
use homa_module.Incoming.Received.{received, IsAccounted, AddSpec, add_packet-AddSpec}
use homa_module.Incoming.Retrans.{requested, request_retrans_lem}

-- Bytes 1000 to 2000 have arrived.
abbrev pub partial : MessageIn
partial = record {
  len = 3000;
  packets = record { offset = 1000; size = 1000 } ∷ [];
  recv_end = 2000;
  gaps = record { start = 0; end = 1000; time = 7 } ∷ [];
  bytes_remaining = 2000;
}

partial-IsAccounted : IsAccounted partial
partial-IsAccounted = record {
  ordered = omega arith;
  inside = omega arith;
  remaining = refl;
  packets = λ b. ground arith;
  nonempty = (omega arith, tt);
}

-- A packet in the middle of the gap splits it.
abbrev middle : Packet
middle = record { offset = 300; size = 200 }

add_packet_run :
    add_packet partial middle true 9
    ≡ kept (record partial {
      packets = record { offset = 1000; size = 1000 } ∷ middle ∷ [];
      gaps =
          record { start = 0; end = 300; time = 7 }
          ∷ record { start = 500; end = 1000; time = 7 }
          ∷ [];
      bytes_remaining = 1800;
    })
unfolding add_packet
add_packet_run = refl

-- One that begins in the gap and reaches past it is refused.
add_packet_overlap :
    add_packet partial (record { offset = 900; size = 300 }) true 9 ≡ discarded (some dup_frag)
unfolding add_packet
add_packet_overlap = refl

-- A packet that has arrived is discarded with no reason set.
add_packet_twice :
    add_packet partial (record { offset = 1000; size = 1000 }) true 9 ≡ discarded none
unfolding add_packet
add_packet_twice = refl

add_packet-AddSpec_example : AddSpec partial middle true (add_packet partial middle true 9)
add_packet-AddSpec_example =
    add_packet-AddSpec partial middle true 9 partial-IsAccounted (omega arith)

request_retrans_lem_example :
    requested 2500 (request_retrans (some partial) 2600)
    ≡ (not (received partial 2500) && (ltb 2500 2000 || ltb 2500 2600))
request_retrans_lem_example = request_retrans_lem partial 2600 2500 partial-IsAccounted
