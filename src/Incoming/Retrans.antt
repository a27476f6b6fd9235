-- ===== src/Incoming/Retrans.antt =====
-- homa_request_retrans (homa_incoming.c): which bytes its RESEND requests ask for.
use homa_module.Prelude.{
  ℕ, ◌+◌, ◌-◌, ◌≡◌, refl, Bool, true, false, not, ◌&&◌, ◌||◌, some, List, [], ◌∷◌, ◌++◌, arith, ltb,
  leb, if◌then◌else◌,
}
use homa_module.Incoming.{Gap, MessageIn, Resend, range, everything, gap_resends, request_retrans}
use homa_module.Incoming.Gaps.{between, in_gaps, GapsIn, in_gaps_below}
use homa_module.Incoming.Received.{received, IsAccounted}

-- Byte `b` is asked for.
abbrev pub requested : ℕ → List Resend → Bool
requested b [] = false
requested b (range offset size ∷ rs) = between offset (offset + size) b || requested b rs
requested b (everything ∷ rs) = true

requested-append :
    (b : ℕ) (rs ss : List Resend) → requested b (rs ++ ss) ≡ (requested b rs || requested b ss)
requested-append b [] ss = refl
requested-append b (range o n ∷ rs) ss = ground (arith, requested-append b rs ss)
requested-append b (everything ∷ rs) ss = refl

requested-gap_resends :
    (b lo hi : ℕ) (gs : List Gap) → GapsIn lo hi gs → requested b (gap_resends gs) ≡ in_gaps b gs
requested-gap_resends b lo hi [] w = refl
requested-gap_resends b lo hi (g ∷ gs) w =
    ground (arith, requested-gap_resends b (g.end + 1) hi gs w.2)

-- For a message that has begun, the requests ask for exactly the bytes that have not arrived, up to
-- the last byte that has arrived or been granted, whichever is later.
pub request_retrans_lem :
    (m : MessageIn) (granted b : ℕ)
    → IsAccounted m
    → requested b (request_retrans (some m) granted)
      ≡ (not (received m b) && (ltb b m.recv_end || ltb b granted))
unfolding request_retrans
request_retrans_lem m granted b v = ground (
  arith,
  requested-append b (gap_resends m.gaps)
      (if leb granted m.recv_end then [] else range m.recv_end (granted - m.recv_end) ∷ []),
  requested-gap_resends b 0 m.recv_end m.gaps v.ordered,
  in_gaps_below 0 m.recv_end b m.gaps v.ordered,
)
