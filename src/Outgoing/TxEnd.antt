-- ===== src/Outgoing/TxEnd.antt =====
-- homa_rpc_tx_end (homa_outgoing.c): how much of a message has left the host.
use mathlib.Core.List.{append_assoc}
use mathlib.Core.Path.{subst}
use homa_module.Prelude.{
  ℕ, ◌+◌, ◌≤◌, ◌<◌, ◌≡◌, refl, sym, ap, ◌∙◌, ◌⊎◌, inl, inr, ◌||◌, List, [], ◌∷◌, ◌++◌, arith, ltb,
  leb, Bool-cases, length, length-append, drop, Each, Each-append,
}
use homa_module.Outgoing.{Packet, MessageOut, tx_end_loop, tx_end}
use homa_module.Outgoing.Segments.{Tiles}

-- The packet has been passed to the IP stack, and the driver has released it.
abbrev pub HasLeft : (ℕ → ℕ) → MessageOut → Packet → Type 0
HasLeft users m skb = (skb.offset < m.next_xmit_offset) × (users skb.offset ≤ 1)

-- The next packet, if there is one, has not left.
abbrev pub Stays : (ℕ → ℕ) → MessageOut → List Packet → Type 0
Stays users m [] = Unit {0}
Stays users m (skb ∷ skbs) = (m.next_xmit_offset ≤ skb.offset) ⊎ (1 < users skb.offset)

-- The packets in two parts, `gone` and `rest`: all of `gone` have left, and `rest` begins at `end_` with one
-- that has not.
pub record TxEndSpec (users : ℕ → ℕ) (m : MessageOut) (r : MessageOut × ℕ) (gone rest : List Packet)
    : Type 0 where
  pub parts : gone ++ rest ≡ m.packets
  pub left : Each (HasLeft users m) gone
  pub first : Tiles r.1 m.len rest
  pub stays : Stays users m rest
  pub state : r.0 ≡ record m { first_not_tx = length gone }

tx_end_loop-TxEndSpec :
    (users : ℕ → ℕ) (m : MessageOut) (gone skbs : List Packet) (a : ℕ)
    → gone ++ skbs ≡ m.packets
    → length gone ≡ m.first_not_tx
    → Each (HasLeft users m) gone
    → Tiles a m.len skbs
    → (gone' : List Packet) × (rest : List Packet) × TxEndSpec users m
        (tx_end_loop users m skbs)
        gone'
        rest
unfolding tx_end_loop
tx_end_loop-TxEndSpec users m gone [] a e n h t = (
  gone,
  [],
  record {
    parts = e;
    left = h;
    first = refl;
    stays = tt;
    state = ap (λ k. record m { first_not_tx = k }) (sym n);
  },
)
tx_end_loop-TxEndSpec users m gone (skb ∷ skbs) a e n h (at, some_data, t) =
    elim (Bool-cases (leb m.next_xmit_offset skb.offset || ltb 1 (users skb.offset))) [
      | inl c ↦ rw c (
        gone,
        skb ∷ skbs,
        record {
          parts = e;
          left = h;
          first = (refl, some_data, subst (λ x. Tiles (x + skb.data_bytes) m.len skbs) (sym at) t);
          stays = ground (arith, c);
          state = ap (λ k. record m { first_not_tx = k }) (sym n);
        },
      )
      | inr c ↦
          let (gone', rest, r) =
            tx_end_loop-TxEndSpec users (record m { first_not_tx = m.first_not_tx + 1 })
              (gone ++ (skb ∷ [])) skbs (a + skb.data_bytes) (append_assoc gone (skb ∷ []) skbs ∙ e)
              (omega (arith, n, length-append gone (skb ∷ [])))
              (Each-append _ gone (skb ∷ []) h ((ground (arith, c), ground (arith, c)), tt)) t in
          rw c (
            gone',
            rest,
            record {
              parts = r.parts;
              left = r.left;
              first = r.first;
              stays = r.stays;
              state = r.state;
            },
          )
    ]

-- homa_rpc_tx_end returns the offset of the first packet that has not left the host, where leaving means that
-- the packet has been passed to the IP stack and nothing else refers to it, or the length of the message if
-- all have left. `first_not_tx` moves to that packet, and nothing else changes. This supposes that the packets
-- `before` in front of `first_not_tx` have left, and that the others cover the message to its end in order.
pub tx_end_lem :
    (users : ℕ → ℕ) (m : MessageOut) (before : List Packet) (a : ℕ)
    → before ++ drop m.first_not_tx m.packets ≡ m.packets
    → length before ≡ m.first_not_tx
    → Each (HasLeft users m) before
    → Tiles a m.len (drop m.first_not_tx m.packets)
    → (gone : List Packet) × (rest : List Packet) × TxEndSpec users m (tx_end users m) gone rest
unfolding tx_end
tx_end_lem users m before a e n h t =
    tx_end_loop-TxEndSpec users m before (drop m.first_not_tx m.packets) a e n h t
