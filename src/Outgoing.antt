-- ===== src/Outgoing.antt =====
-- homa_outgoing.c: how a message is split into packets, and what is sent of it. The packets of a message
-- are a list in the order of their `next_skb` links; a pointer into it, such as `next_xmit` or
-- `first_not_tx`, is the number of packets in front of the one that it names. The data itself is left out.
pub mod Geometry
pub mod TxEnd
pub mod Segments
mod Tests
use homa_module.Prelude.{
  ℕ, zero, suc, ◌+◌, ◌-◌, ◌*◌, ◌/◌, ◌%◌, Bool, true, false, ◌&&◌, ◌||◌, Option, none, some, List,
  [], ◌∷◌, ◌++◌, ltb, leb, ◌==◌, if◌then◌else◌, drop,
}
use homa_module.Pool.{u32_mod, u64_mod}
use homa_module.Pacer.{Pacer, check_nic_q}

-- sizeof(struct homa_data_hdr), sizeof(struct homa_seg_hdr) and HOMA_ETH_OVERHEAD.
abbrev pub data_hdr_size : ℕ
data_hdr_size = 56

abbrev pub seg_hdr_size : ℕ
seg_hdr_size = 4

abbrev pub eth_overhead : ℕ
eth_overhead = 38

-- struct homa_skb_info, with the `gso_segs` of the packet.
pub record Packet : Type 0 where
  pub offset : ℕ
  pub data_bytes : ℕ
  pub seg_length : ℕ
  pub wire_bytes : ℕ
  pub gso_segs : ℕ

-- struct homa_message_out; the packets that homa_resend_data makes are in `to_free`.
pub record MessageOut : Type 0 where
  pub len : ℕ
  pub packets : List Packet
  pub copied_from_user : ℕ
  pub num_skbs : ℕ
  pub next_xmit : ℕ
  pub next_xmit_offset : ℕ
  pub first_not_tx : ℕ
  pub to_free : List Packet
  pub unscheduled : ℕ
  pub granted : ℕ
  pub sched_priority : ℕ
  pub init_time : ℕ

-- homa_message_out_init
unfoldable pub message_out_init : ℕ → ℕ → ℕ → MessageOut
message_out_init len unsched_bytes clock = record {
  len = len;
  packets = [];
  copied_from_user = 0;
  num_skbs = 0;
  next_xmit = 0;
  next_xmit_offset = 0;
  first_not_tx = 0;
  to_free = [];
  unscheduled = if ltb len unsched_bytes then len else unsched_bytes;
  granted = 0;
  sched_priority = 0;
  init_time = clock;
}

-- The sizes that homa_message_out_fill works with. `hijack` is IPPROTO_TCP; the arithmetic is that of u64,
-- since sizeof has an unsigned type, and the results are stored in ints.
unfoldable pub max_seg_data : ℕ → ℕ → ℕ
max_seg_data mtu ip_header = (mtu + u64_mod - (ip_header + data_hdr_size)) % u64_mod % u32_mod

unfoldable pub segs_per_gso : Bool → ℕ → ℕ → ℕ → ℕ
segs_per_gso hijack gso_size ip_header seg_data =
    let room = (gso_size + u64_mod - (ip_header + data_hdr_size)) % u64_mod in
    let segs =
      if hijack
      then room / seg_data
      else ((room + seg_hdr_size) % u64_mod) / (seg_data + seg_hdr_size) in
    if segs == 0 then 1 else segs

unfoldable pub max_gso_data : Bool → ℕ → ℕ → ℕ → ℕ
unfolding segs_per_gso
max_gso_data hijack gso_size ip_header seg_data =
    segs_per_gso hijack gso_size ip_header seg_data * seg_data % u32_mod

-- homa_tx_data_pkt_alloc: what it puts in the packet's homa_skb_info and shared info. `gso_segs` stays 0
-- where there is one segment.
unfoldable pub tx_packet : ℕ → ℕ → ℕ → ℕ → Packet
tx_packet ip_header offset size seg_data =
    let segs = (size + seg_data - 1) / seg_data in
    record {
      offset = offset;
      data_bytes = size;
      seg_length = seg_data;
      wire_bytes = size + segs * (data_hdr_size + ip_header + eth_overhead);
      gso_segs = if ltb 1 segs then segs else 0;
    }

-- The size of the next packet, in the loop of homa_message_out_fill.
unfoldable pub skb_data_bytes : ℕ → ℕ → ℕ → ℕ → ℕ
skb_data_bytes unscheduled gso_data offset bytes_left =
    let size =
      if ltb offset unscheduled && ltb unscheduled (offset + gso_data)
      then unscheduled - offset
      else gso_data in
    if ltb bytes_left size then bytes_left else size

-- A segment of a message: its offset and its length.
pub record Segment : Type 0 where
  pub offset : ℕ
  pub seg_bytes : ℕ

-- homa_fill_data_interleaved: the segments of a packet, each with its header. It ends because of the last
-- segment; with a `seg_length` of 0 it would not, and the fuel ends it.
unfoldable pub fill_data_interleaved : ℕ → ℕ → ℕ → ℕ → List Segment
fill_data_interleaved zero seg_length offset bytes_left = []
fill_data_interleaved (suc fuel) seg_length offset bytes_left =
    let size = if ltb bytes_left seg_length then bytes_left else seg_length in
    let rest = fill_data_interleaved fuel size (offset + size) (bytes_left - size) in
    record { offset = offset; seg_bytes = size } ∷ (if bytes_left - size == 0 then [] else rest)

-- The loop on the segments of a packet in homa_resend_data: those to send, and whether it stops there.
-- `fails` says of an offset that the new packet cannot be made.
unfoldable pub resend_segments : (ℕ → Bool) → ℕ → ℕ → ℕ → ℕ → ℕ → ℕ → List Segment × Bool
resend_segments fails start end_ zero seg_length offset data_left = ([], false)
resend_segments fails start end_ (suc fuel) seg_length offset data_left =
    let size = if ltb data_left seg_length then data_left else seg_length in
    let rest = resend_segments fails start end_ fuel size (offset + size) (data_left - size) in
    if data_left == 0
    then ([], false)
    else if leb end_ offset
    then ([], true)
    else if leb (offset + size) start
    then rest
    else if fails offset
    then ([], true)
    else (record { offset = offset; seg_bytes = size } ∷ rest.0, rest.1)

-- The loop on the packets.
unfoldable pub resend_packets : (ℕ → Bool) → ℕ → ℕ → List Packet → List Segment
resend_packets fails start end_ [] = []
resend_packets fails start end_ (skb ∷ skbs) =
    let rest = resend_packets fails start end_ skbs in
    let seg_length = if leb skb.gso_segs 1 then skb.data_bytes else skb.seg_length in
    let (segs, stop) =
      resend_segments fails start end_ (suc skb.data_bytes) seg_length skb.offset skb.data_bytes in
    if leb end_ skb.offset
    then []
    else if leb (skb.offset + skb.data_bytes) start
    then rest
    else if stop
    then segs
    else segs ++ rest

-- The packet that is made for a segment.
unfoldable pub resent_packet : ℕ → Segment → Packet
resent_packet ip_header seg = record {
  offset = seg.offset;
  data_bytes = seg.seg_bytes;
  seg_length = seg.seg_bytes;
  wire_bytes = ip_header + data_hdr_size + seg.seg_bytes + eth_overhead;
  gso_segs = 0;
}

-- homa_resend_data: the segments are sent again one by one, and the pacer counts them. `clock` is the time
-- at an offset.
unfoldable pub keep_resent : ℕ → (ℕ → ℕ) → MessageOut → Pacer → List Segment → MessageOut × Pacer
keep_resent ip_header clock m p [] = (m, p)
keep_resent ip_header clock m p (seg ∷ segs) =
    let skb = resent_packet ip_header seg in
    keep_resent ip_header clock (record m { to_free = skb ∷ m.to_free; num_skbs = m.num_skbs + 1 })
      (check_nic_q p (clock seg.offset) skb.wire_bytes true).0 segs

abbrev pub Resent : Type 0
Resent = MessageOut × Pacer × List Segment

unfoldable pub resend_data : ℕ → (ℕ → Bool) → (ℕ → ℕ) → MessageOut → Pacer → ℕ → ℕ → Resent
resend_data ip_header fails clock m p start end_ =
    let segs = if leb end_ start then [] else resend_packets fails start end_ m.packets in
    let (m', p') = keep_resent ip_header clock m p segs in (m', p', segs)

-- homa_rpc_tx_end: `users` is the reference count of the packet at an offset.
unfoldable pub tx_end_loop : (ℕ → ℕ) → MessageOut → List Packet → MessageOut × ℕ
tx_end_loop users m [] = (m, m.len)
tx_end_loop users m (skb ∷ skbs) =
    if leb m.next_xmit_offset skb.offset || ltb 1 (users skb.offset)
    then (m, skb.offset)
    else tx_end_loop users (record m { first_not_tx = m.first_not_tx + 1 }) skbs

unfoldable pub tx_end : (ℕ → ℕ) → MessageOut → MessageOut × ℕ
tx_end users m = tx_end_loop users m (drop m.first_not_tx m.packets)
