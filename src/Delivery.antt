-- ===== src/Delivery.antt =====
-- homa_incoming.c: homa_deliver_skbs, which hands the packets of a whole message to a socket's actor, and
-- the loop of homa_copy_to_pool that copies one packet to the message's buffers.
pub mod Sorting
pub mod Stream
pub mod Copy
mod Tests
use homa_module.Prelude.{
  ℕ, zero, suc, ◌+◌, ◌-◌, Bool, true, false, not, Option, none, some, List, [], ◌∷◌, ◌++◌, ltb, leb,
  ◌==◌, if◌then◌else◌, length,
}
use homa_module.Pool.Buffers.{get_buffer}
use homa_module.Incoming.{Packet, MessageIn}

-- The scan that sees whether the offsets rise; `prev` is `prev_offset`, `none` for -1.
abbrev pub rises : Option ℕ → ℕ → Bool
rises none offset = true
rises (some prev) offset = ltb prev offset

unfoldable pub in_order : Option ℕ → List Packet → Bool
in_order prev [] = true
in_order prev (p ∷ ps) =
    let rest = in_order (some p.offset) ps in if rises prev p.offset then rest else false

-- In front of the first packet with a greater offset, else at the end.
unfoldable pub insert_packet : Packet → List Packet → List Packet
insert_packet p [] = p ∷ []
insert_packet p (q ∷ qs) = if ltb p.offset q.offset then p ∷ q ∷ qs else q ∷ insert_packet p qs

-- The loop that moves the packets to the queue `sorted`.
unfoldable pub sort_packets : List Packet → List Packet → List Packet
unfolding insert_packet
sort_packets sorted [] = sorted
sort_packets sorted (p ∷ ps) = sort_packets (insert_packet p sorted) ps

unfoldable pub sorted_queue : List Packet → List Packet
unfolding in_order sort_packets
sorted_queue packets =
    if ltb 1 (length packets)
    then if in_order none packets then packets else sort_packets [] packets
    else packets

-- What the actor returns for a packet: the bytes that it used, and whether it has set an error. Both
-- depend on what it has been given before.
pub record Actor : Type 0 where
  pub used : List Packet → Packet → ℕ
  pub fails : List Packet → Packet → Bool

-- The loop that hands the packets over: those that the actor has been called with, and whether all of
-- them went through.
unfoldable pub hand_over : Actor → List Packet → List Packet → List Packet × Bool
hand_over actor before [] = (before, true)
hand_over actor before (p ∷ ps) =
    let rest = hand_over actor (before ++ (p ∷ [])) ps in
    if actor.fails before p
    then (before ++ (p ∷ []), false)
    else if actor.used before p == 0
    then (before ++ (p ∷ []), false)
    else rest

-- How a call of homa_deliver_skbs goes on to where it takes the RPC lock again: -EINVAL for an RPC
-- that is dead; 0 for a message that is not complete or has been delivered; or the packets handed over.
pub data Delivered : Type 0 where
  dead_rpc : Delivered
  not_ready : Delivered
  handed : List Packet → Bool → Delivered

abbrev pub as_handed : List Packet × Bool → Delivered
as_handed (ps, done) = handed ps done

-- `none` stands for a message with length -1.
unfoldable pub deliver : Bool → Actor → Option MessageIn → Delivered
unfolding sorted_queue hand_over
deliver true actor m = dead_rpc
deliver false actor none = not_ready
deliver false actor (some m) =
    if not (m.bytes_remaining == 0)
    then not_ready
    else if length m.packets == 0
    then not_ready
    else as_handed (hand_over actor [] (sorted_queue m.packets))

-- One copy of homa_copy_to_pool: from this offset in the packet, to this address, so many bytes.
pub record Chunk : Type 0 where
  pub from : ℕ
  pub dst : ℕ
  pub size : ℕ

pub data Copied : Type 0 where
  chunks : List Chunk → Copied
  fault : Copied
  looping : Copied

abbrev pub chunk_then : Chunk → Copied → Copied
chunk_then c (chunks cs) = chunks (c ∷ cs)
chunk_then c fault = fault
chunk_then c looping = looping

-- One turn for the next `wanted` bytes, with the buffer for the first of them and what is available
-- there; `next` goes on behind the copy. `fault` is -EFAULT for a NULL or empty buffer; each single copy
-- is taken to succeed.
unfoldable pub copy_step : ℕ → ℕ → Option ℕ × ℕ → (ℕ → Copied) → Copied
copy_step copied wanted (none, buf_bytes) next = fault
copy_step copied wanted (some dst, buf_bytes) next =
    let chunk_size = if ltb buf_bytes wanted then buf_bytes else wanted in
    if buf_bytes == 0
    then fault
    else chunk_then (record { from = copied; dst = dst; size = chunk_size }) (next chunk_size)

-- The loop over the buffers of one packet, from `copied` on.
unfoldable pub copy_chunks : ℕ → ℕ → ℕ → List ℕ → Packet → ℕ → Copied
unfolding copy_step
copy_chunks zero region len offsets p copied = looping
copy_chunks (suc fuel) region len offsets p copied =
    if leb p.size copied
    then chunks []
    else copy_step copied (p.size - copied) (get_buffer region len offsets (p.offset + copied))
        (λ chunk_size. copy_chunks fuel region len offsets p (copied + chunk_size))
