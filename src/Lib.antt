-- ===== src/Lib.antt =====
-- HomaModule: the Homa transport in the Linux kernel.
--
-- Modules and the code they model:
-- - Prelude: names of the library, Boolean tests and lists over the native numbers.
-- - Pool: homa_pool.c and homa_pool.h, the pool of buffers that a socket receives into. Pool has the
--   data and homa_pool_get_pages; Pool.Buffers has set_region, alloc_msg, get_buffer, release_buffers
--   and avail_bytes; Pool.Waiting has the socket's queue of RPCs that wait for space and
--   homa_pool_check_waiting. The other modules below Pool hold proofs.
-- - Incoming: homa_add_packet, homa_request_retrans and homa_message_in_init of homa_incoming.c, with
--   struct homa_gap and struct homa_message_in of homa_rpc.h.
-- - Delivery: homa_deliver_skbs of homa_incoming.c, and the loop of homa_copy_to_pool that copies a
--   packet; it gets its addresses from Pool.Buffers, and its messages from Incoming.
-- - Grant: homa_grant.c and homa_grant.h. Grant itself has the array of active RPCs, with
--   homa_grant_insert_active and homa_grant_fix_order, and what is granted as data arrives:
--   homa_grant_update_granted and homa_grant_update_incoming, as homa_grant_check_rpc calls them.
--   Grant.Grantable has the lists of RPCs that wait, by peer, with homa_grant_manage_rpc and
--   homa_grant_remove_active, which move RPCs between the two. Grant.Oldest has homa_grant_find_oldest,
--   and Grant.Candidates the ring of RPCs that are to be looked at. The other modules below Grant hold
--   proofs. An RPC is a value: the copy in the array carries its new rank.
-- - Outgoing: homa_outgoing.c, the layout of a message in packets and segments, homa_resend_data and
--   homa_rpc_tx_end.
-- - Pacer: homa_pacer.c and homa_pacer.h. homa_xmit_data and homa_resend_data ask it before they send.
-- - Transmit: homa_message_out_fill and homa_xmit_data of homa_outgoing.c, which use Outgoing and Pacer.
-- - Timer: homa_timer.c, for one RPC; it uses homa_rpc_tx_end of Outgoing.
-- - Peer: the acks, the priorities and the choice of victims of homa_peer.c, with homa_prios_changed of
--   homa_utils.c and homa_cutoffs_pkt of homa_incoming.c.
-- - Transfer: a message from homa_message_out_fill to homa_add_packet; it uses Transmit, Outgoing and
--   Incoming.
-- - Handoff: homa_rpc_handoff and homa_wait_shared of homa_incoming.c with homa_interest.c and
--   homa_sock_shutdown, how an RPC gets to a thread. Private RPCs are left out.
-- - Reap: homa_rpc_reap of homa_rpc.c, for the packets sent.
--
-- How the code is read:
-- - Numbers are natural numbers; an int that can be negative is written with a guard or an Option, and
--   a u32 or u64 whose wrap-around matters has its modulus written out.
-- - Shared objects are records that an operation takes and returns. What other cores do while an
--   operation runs is an argument: a lock attempt that can fail, a clock reading, memory that can be had,
--   and in Transmit the GRANT packets and packets taken while the lock of the RPC is free.
-- - A search in the pool runs on fuel `scan_fuel`, two turns over the pool per page wanted: the search
--   resets its limit once per turn and every bpage below the limit is looked at. The copy loop has fuel
--   for one turn per byte. The loop of homa_pool_check_waiting has one turn per waiting RPC and one more.
--   The loop of homa_message_out_fill makes packets of at least one byte and has a turn for each byte; the
--   loops on the segments of a packet have the same. Each turn of homa_rpc_reap but the last frees a packet
--   or an RPC, and each pass of homa_xmit_data takes a packet.
--
-- Not modelled: memory allocation, reference counts, metrics and traces, system calls, the bytes of
-- messages and the byte order of the network, the queueing discipline and the offload hooks, the
-- states of an RPC, and the handlers of packets as a whole. Several calls that change one pool at the same
-- time are not modelled: an operation on a pool ends before the next begins. No thread adds packets to a
-- message while another one is in homa_xmit_data for it.
pub mod Prelude
pub mod Pool
pub mod Incoming
pub mod Delivery
pub mod Grant
pub mod Outgoing
pub mod Pacer
pub mod Transmit
pub mod Timer
pub mod Peer
pub mod Transfer
pub mod Handoff
pub mod Reap
