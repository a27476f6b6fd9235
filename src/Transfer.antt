-- ===== src/Transfer.antt =====
-- A message from homa_message_out_fill (homa_outgoing.c) at the sender to homa_add_packet (homa_incoming.c)
-- at the receiver. The network may change the order of the segments and repeat them, as may RESENDs.
pub mod Places
pub mod Arrivals
pub mod RoundTrip
mod Tests
