-- ===== src/Incoming.antt =====
-- homa_incoming.c: the bytes of an incoming message that have arrived, and the packets that hold them.
-- Offsets and sizes are ints that stay below 2 ^ 31: a header whose offset is negative as an int, and
-- a sum that overflows, are left out.
pub mod Gaps
pub mod Received
pub mod Retrans
mod Tests
use homa_module.Prelude.{
  ℕ, ◌+◌, ◌-◌, Bool, true, false, not, Option, none, some, List, [], ◌∷◌, ◌++◌, ltb, leb, ◌==◌,
  if◌then◌else◌,
}

-- struct homa_gap
pub record Gap : Type 0 where
  pub start : ℕ
  pub end : ℕ
  pub time : ℕ

-- A DATA packet: its offset in the message, and its size, which is homa_data_len.
pub record Packet : Type 0 where
  pub offset : ℕ
  pub size : ℕ

-- The fields of struct homa_message_in that the arrival of data changes.
pub record MessageIn : Type 0 where
  pub len : ℕ
  pub packets : List Packet
  pub recv_end : ℕ
  pub gaps : List Gap
  pub bytes_remaining : ℕ

-- What homa_message_in_init sets here, in an RPC that was all zeros.
unfoldable pub message_in_init : ℕ → MessageIn
message_in_init len = record {
  len = len;
  packets = [];
  recv_end = 0;
  gaps = [];
  bytes_remaining = len;
}

pub data DropReason : Type 0 where
  pkt_too_big nomem dup_frag : DropReason

-- The scan of the gaps: the new list, or the reason set before the jump to `discard`, which is `none`
-- when the loop ends without setting it.
pub data Fill : Type 0 where
  filled : List Gap → Fill
  refused : Option DropReason → Fill

abbrev pub keep_gap : Gap → Fill → Fill
keep_gap g (filled gs) = filled (g ∷ gs)
keep_gap g (refused r) = refused r

-- Bytes `start` to `stop` against the gaps in turn; `memory` says whether a gap can be allocated.
unfoldable pub fill_gaps : ℕ → ℕ → Bool → List Gap → Fill
fill_gaps start stop memory [] = refused none
fill_gaps start stop memory (g ∷ gs) =
    let next = keep_gap g (fill_gaps start stop memory gs) in
    if leb start g.start
    then (if leb stop g.start
        then next
        else if ltb start g.start
        then refused (some dup_frag)
        else if ltb g.end stop
        then refused (some dup_frag)
        else filled (if leb g.end stop then gs else record g { start = stop } ∷ gs))
    else if leb g.end stop
    then (if leb g.end start
        then next
        else if ltb g.end stop
        then refused (some dup_frag)
        else filled (record g { end = start } ∷ gs))
    else if not memory
    then refused (some nomem)
    else filled
        (record { start = g.start; end = start; time = g.time } ∷ record g { start = stop } ∷ gs)

-- homa_add_packet: `keep:` with the new message, or `discard:` with the reason.
pub data Added : Type 0 where
  kept : MessageIn → Added
  discarded : Option DropReason → Added

-- `keep:`, after `recv_end` and the gaps have been brought up to date.
abbrev pub keep : MessageIn → Packet → ℕ → List Gap → Added
keep m p recv_end gaps = kept (record m {
  packets = m.packets ++ (p ∷ []);
  recv_end = recv_end;
  gaps = gaps;
  bytes_remaining = m.bytes_remaining - p.size;
})

abbrev pub keep_filled : MessageIn → Packet → Fill → Added
keep_filled m p (filled gaps) = keep m p m.recv_end gaps
keep_filled m p (refused reason) = discarded reason

unfoldable pub add_packet : MessageIn → Packet → Bool → ℕ → Added
unfolding fill_gaps
add_packet m p memory now =
    let start = p.offset in
    let stop = p.offset + p.size in
    if ltb m.len stop
    then discarded (some pkt_too_big)
    else if start == m.recv_end
    then keep m p (m.recv_end + p.size) m.gaps
    else if ltb m.recv_end start
    then (if memory
        then keep m p stop (m.gaps ++ (record { start = m.recv_end; end = start; time = now } ∷ []))
        else discarded (some nomem))
    else keep_filled m p (fill_gaps start stop memory m.gaps)

-- A RESEND request: the range of bytes, or all that has been sent.
pub data Resend : Type 0 where
  range : ℕ → ℕ → Resend
  everything : Resend

abbrev pub gap_resends : List Gap → List Resend
gap_resends [] = []
gap_resends (g ∷ gs) = range g.start (g.end - g.start) ∷ gap_resends gs

-- homa_request_retrans: the requests that it sends, in order. `none` is a message with length -1.
unfoldable pub request_retrans : Option MessageIn → ℕ → List Resend
request_retrans none granted = everything ∷ []
request_retrans (some m) granted =
    gap_resends m.gaps
    ++ (if leb granted m.recv_end then [] else range m.recv_end (granted - m.recv_end) ∷ [])
