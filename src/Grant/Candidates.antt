-- ===== src/Grant/Candidates.antt =====
-- struct homa_grant_candidates (homa_grant.h) and its operations in homa_grant.h and homa_grant.c. The RPCs
-- are numbers that stand for their addresses; their reference counts are left out.
use mathlib.Core.Path.{subst}
use homa_module.Prelude.{
  ℕ, zero, suc, ◌+◌, ◌-◌, ◌%◌, ◌≤◌, ◌<◌, ◌≡◌, ◌≢◌, refl, ap, ◌∙◌, inl, inr, Bool, true, false,
  Option, none, some, List, [], ◌∷◌, ◌++◌, arith, ltb, ltb→lt, lt→ltb, ◌==◌, length, length-set,
  get_or, set, if◌then◌else◌, Bool-cases,
}
use homa_module.Pool.{u32_mod}
use homa_module.Pool.Counting.{get_or-set_self, get_or-set_ne}

abbrev pub max_cand_rpcs : ℕ
max_cand_rpcs = 8

-- `x & HOMA_CAND_MASK` is `%` by 8.
pub record Candidates : Type 0 where
  pub inserts : ℕ
  pub removes : ℕ
  pub rpcs : List ℕ

-- homa_grant_cand_init
unfoldable pub cand_init : Candidates → Candidates
cand_init c = record c { inserts = 0; removes = 0 }

-- homa_grant_cand_empty
unfoldable pub cand_empty : Candidates → Bool
cand_empty c = c.inserts == c.removes

-- homa_grant_cand_add
unfoldable pub cand_add : Candidates → ℕ → Candidates
cand_add c rpc =
    if ltb c.inserts ((c.removes + max_cand_rpcs) % u32_mod)
    then record c {
      rpcs = set c.rpcs (c.inserts % max_cand_rpcs) rpc;
      inserts = (c.inserts + 1) % u32_mod;
    }
    else c

-- The start of an iteration of homa_grant_cand_check: the next RPC.
unfoldable pub cand_take : Candidates → Option (ℕ × Candidates)
cand_take c =
    if ltb c.removes c.inserts
    then some (
      get_or c.rpcs (c.removes % max_cand_rpcs) 0,
      record c { removes = (c.removes + 1) % u32_mod },
    )
    else none

-- The queue that a ring stands for: `n` entries from number `i` on.
abbrev pub entries_from : List ℕ → ℕ → ℕ → List ℕ
entries_from rpcs i zero = []
entries_from rpcs i (suc n) = get_or rpcs (i % max_cand_rpcs) 0 ∷ entries_from rpcs (i + 1) n

abbrev pub queue_of : Candidates → List ℕ
queue_of c = entries_from c.rpcs c.removes (c.inserts - c.removes)

pub record IsRing (c : Candidates) : Type 0 where
  pub started : c.removes ≤ c.inserts
  pub fits : c.inserts ≤ c.removes + max_cand_rpcs
  pub slots : length c.rpcs ≡ max_cand_rpcs

length-entries_from : (rpcs : List ℕ) (i n : ℕ) → length (entries_from rpcs i n) ≡ n
length-entries_from rpcs i zero = refl
length-entries_from rpcs i (suc n) = ap suc (length-entries_from rpcs (i + 1) n)

other_slot : (i k : ℕ) → i < k → k < i + 8 → k % 8 ≢ i % 8
other_slot i k h e = omega arith

le→ltb : (a b : ℕ) → b ≤ a → ltb a b ≡ false
le→ltb a b h = ground arith

-- A new entry behind fewer than 8.
entries_from-set :
    (rpcs : List ℕ) (rpc i n k : ℕ)
    → length rpcs ≡ 8
    → i + n ≡ k
    → n < 8
    → entries_from (set rpcs (k % 8) rpc) i (suc n) ≡ entries_from rpcs i n ++ (rpc ∷ [])
entries_from-set rpcs rpc i zero k size e less =
    ap (λ x. x ∷ [])
      (subst (λ j. get_or (set rpcs (k % 8) rpc) (j % 8) 0 ≡ rpc) {x = k} (omega arith)
        (get_or-set_self rpcs (k % 8) rpc 0 (omega arith)))
entries_from-set rpcs rpc i (suc n) k size e less =
    ap (λ x. x ∷ entries_from (set rpcs (k % 8) rpc) (i + 1) (suc n))
      (get_or-set_ne rpcs (k % 8) (i % 8) rpc 0 (other_slot i k (omega arith) (omega arith)))
    ∙ ap (λ l. get_or rpcs (i % 8) 0 ∷ l)
        (entries_from-set rpcs rpc (i + 1) n k size (omega arith) (omega arith))

-- The queue that the ring implements: it takes up to 8 entries.
abbrev pub offer : List ℕ → ℕ → List ℕ
offer xs rpc = if ltb (length xs) 8 then xs ++ (rpc ∷ []) else xs

abbrev pub TakeSpec : List ℕ → Option (ℕ × Candidates) → Type 0
TakeSpec [] o = o ≡ none
TakeSpec (x ∷ xs) o = (c : Candidates) × (o ≡ some (x, c)) × IsRing c × (queue_of c ≡ xs)

abbrev pub is_nil : List ℕ → Bool
is_nil [] = true
is_nil (x ∷ xs) = false

-- One insertion, with room for it and without.
cand_add-offer :
    (c : Candidates) (rpc : ℕ)
    → IsRing c
    → c.inserts + 9 < u32_mod
    → (queue_of (cand_add c rpc) ≡ offer (queue_of c) rpc) × IsRing (cand_add c rpc)
unfolding cand_add
cand_add-offer c rpc v few = elim (Bool-cases (ltb (c.inserts - c.removes) 8)) [
  | inl e ↦
      let lt = ltb→lt _ _ e in
      rw (room lt, one_more lt, length-entries_from c.rpcs c.removes (c.inserts - c.removes), e)
        (
          ap (λ n. entries_from (set c.rpcs (c.inserts % 8) rpc) c.removes n) (later)
              ∙ entries_from-set c.rpcs rpc c.removes (c.inserts - c.removes) c.inserts v.slots
                  (omega (arith, v.started)) lt,
          record {
            started = omega (arith, v.started);
            fits = omega (arith, lt, v.started);
            slots = length-set c.rpcs (c.inserts % 8) rpc ∙ v.slots;
          },
        )
  | inr e ↦
      rw (no_room (ground arith), length-entries_from c.rpcs c.removes (c.inserts - c.removes), e)
        (refl, v)
]
  where
    room : c.inserts - c.removes < 8 → ltb c.inserts ((c.removes + 8) % u32_mod) ≡ true
    room lt = lt→ltb _ _ (omega (arith, v.started, few, lt))

    no_room : 8 ≤ c.inserts - c.removes → ltb c.inserts ((c.removes + 8) % u32_mod) ≡ false
    no_room le = le→ltb _ _ (omega (arith, v.started, v.fits, few, le))

    one_more : c.inserts - c.removes < 8 → (c.inserts + 1) % u32_mod ≡ c.inserts + 1
    one_more lt = omega (arith, few)

    later : c.inserts + 1 - c.removes ≡ suc (c.inserts - c.removes)
    later = omega (arith, v.started)

-- One removal.
cand_take-TakeSpec :
    (c : Candidates) (n : ℕ)
    → IsRing c
    → c.inserts + 9 < u32_mod
    → c.inserts - c.removes ≡ n
    → TakeSpec (entries_from c.rpcs c.removes n) (cand_take c)
      × (cand_empty c ≡ is_nil (entries_from c.rpcs c.removes n))
unfolding cand_take cand_empty
cand_take-TakeSpec c zero v few e =
    (rw (le→ltb c.removes c.inserts (omega arith)) refl, ground (arith, e, v.started))
cand_take-TakeSpec c (suc n) v few e = (
  (
    record c { removes = c.removes + 1 },
    rw (lt→ltb c.removes c.inserts (omega arith), next) refl,
    record { started = omega (arith, e); fits = omega (arith, v.fits); slots = v.slots },
    ap (entries_from c.rpcs (c.removes + 1)) (omega (arith, e)),
  ),
  ground (arith, e, v.started),
)
  where
    next : (c.removes + 1) % u32_mod ≡ c.removes + 1
    next = omega (arith, few, v.started)

-- The ring is a queue of at most 8 RPCs, as long as there have been fewer than 2 ^ 32 - 9 insertions:
-- homa_grant_cand_add puts an RPC at the end if there are fewer than 8, and else changes nothing; the loop of
-- homa_grant_cand_check gets the first one; and homa_grant_cand_empty says whether there is none.
pub candidates_lem :
    (c : Candidates) (rpc : ℕ)
    → IsRing c
    → c.inserts + 9 < u32_mod
    → (queue_of (cand_add c rpc) ≡ offer (queue_of c) rpc)
      × IsRing (cand_add c rpc)
      × TakeSpec (queue_of c) (cand_take c)
      × (cand_empty c ≡ is_nil (queue_of c))
candidates_lem c rpc v few =
    let (queue, ring) = cand_add-offer c rpc v few in
    let (taken, empty) = cand_take-TakeSpec c (c.inserts - c.removes) v few refl in
    (queue, ring, taken, empty)
