-- ===== src/Peer/Levels.antt =====
-- The priority of unscheduled packets: homa_prios_changed (homa_utils.c) at the receiver, the CUTOFFS packet,
-- and homa_unsched_priority (homa_peer.c) at the sender.
use mathlib.Core.Path.{subst}
use homa_module.Prelude.{
  ℕ, zero, suc, ◌+◌, ◌-◌, ◌≤◌, ◌<◌, ◌≡◌, refl, sym, ap, ◌∙◌, ◌⊎◌, inl, inr, true, false, Option,
  none, some, List, [], ◌∷◌, arith, ltb, leb, leb→le, Bool-cases, if◌then◌else◌, length, length-set,
  drop, set, get_or,
}
use homa_module.Pool.{int_max}
use homa_module.Pool.Counting.{get_or-set_self, get_or-set_ne}
use homa_module.Peer.{
  Peer, Priorities, max_priorities, max_message_length, prios_loop, with_levels, prios_changed,
  cutoffs_pkt, level_from, unsched_priority,
}

abbrev cutoff : List ℕ → ℕ → ℕ
cutoff cutoffs i = get_or cutoffs i 0

-- The scheduled priorities end below the highest level for messages of any length, or at 0.
abbrev IsTop : ℕ → List ℕ → ℕ → ℕ → Type 0
IsTop num cutoffs prio top =
    (top < num) × (max_message_length ≤ cutoff cutoffs top) × ((prio < top) ⊎ (prio ≡ 0))

abbrev LoopSpec : ℕ → Option (List ℕ × ℕ) → Type 0
LoopSpec num none = ⊥
LoopSpec num (some (cutoffs, prio)) =
    (length cutoffs ≡ max_priorities)
    × (cutoff cutoffs 0 ≡ int_max)
    × ((top : ℕ) × IsTop num cutoffs prio top)

prios_loop-LoopSpec :
    (num i : ℕ) (cutoffs : List ℕ)
    → 0 < num
    → length cutoffs ≡ max_priorities
    → cutoff cutoffs 0 ≡ int_max
    → LoopSpec num (prios_loop num i cutoffs)
unfolding prios_loop
prios_loop-LoopSpec num zero cutoffs pos size start =
    let some_level : leb num 0 ≡ false = ground arith in
    let written : cutoff (set cutoffs 0 int_max) 0 ≡ int_max =
      get_or-set_self cutoffs 0 int_max 0 (omega (arith, size)) in
    rw some_level
      (length-set cutoffs 0 int_max ∙ size, written, (0, (pos, omega (arith, written), inr refl)))
prios_loop-LoopSpec num (suc i) cutoffs pos size start = elim (Bool-cases (leb num (suc i))) [
  | inl e ↦ rw e (
      prios_loop-LoopSpec num i (set cutoffs (suc i) 0) pos (length-set cutoffs (suc i) 0 ∙ size)
        (get_or-set_ne cutoffs (suc i) 0 0 0 (λ h. omega (arith, h)) ∙ start))
  | inr e ↦ elim (Bool-cases (leb max_message_length (cutoff cutoffs (suc i)))) [
    | inl c ↦ rw (e, c) (size, start, (suc i, (ground (arith, e), leb→le _ _ c, inl (omega arith))))
    | inr c ↦ rw (e, c) (prios_loop-LoopSpec num i cutoffs pos size start)
  ]
]

-- The highest level up to `i` that takes messages of this length.
abbrev pub IsLevel : List ℕ → ℕ → ℕ → ℕ → Type 0
IsLevel cutoffs len i level =
    (level ≤ i)
    × (len ≤ cutoff cutoffs level)
    × ((j : ℕ) → level < j → j ≤ i → cutoff cutoffs j < len)

-- A level `suc i` that takes no message of this length changes nothing.
IsLevel-suc :
    (cutoffs : List ℕ) (len i level : ℕ)
    → cutoff cutoffs (suc i) < len
    → IsLevel cutoffs len i level
    → IsLevel cutoffs len (suc i) level
IsLevel-suc cutoffs len i level lt (within, takes, others) = (
  omega (arith, within),
  takes,
  λ j more le. elim (Bool-cases (leb j i)) [
    | inl e ↦ others j more (leb→le _ _ e)
    | inr e ↦ omega (arith, lt, ap (cutoff cutoffs) (last_one j (ground (arith, e)) le))
  ],
)
  where
    last_one : (j : ℕ) → i < j → j ≤ suc i → j ≡ suc i
    last_one j lt le = omega arith

takes_lower :
    (cutoffs : List ℕ) (len i top : ℕ)
    → top ≤ suc i
    → len ≤ cutoff cutoffs top
    → cutoff cutoffs (suc i) < len
    → top ≤ i
takes_lower cutoffs len i top h k lt = elim (Bool-cases (leb top i)) [
  | inl e ↦ leb→le _ _ e
  | inr e ↦ absurd (omega (arith, k, lt, ap (cutoff cutoffs) (same (ground (arith, e)))))
]
  where
    same : i < top → top ≡ suc i
    same lt = omega (arith, h)

level_from-IsLevel :
    (cutoffs : List ℕ) (len i top : ℕ)
    → top ≤ i
    → len ≤ cutoff cutoffs top
    → (level : ℕ) × (level_from cutoffs len i ≡ some level)
      × (top ≤ level)
      × IsLevel cutoffs len i level
unfolding level_from
level_from-IsLevel cutoffs len zero top h k =
    let at : cutoff cutoffs top ≡ cutoff cutoffs 0 = ap (cutoff cutoffs) (omega arith) in
    let here : leb len (cutoff cutoffs 0) ≡ true = ground arith in
    rw here (0, refl, h, (omega arith, omega (arith, k, at), λ j lt le. omega arith))
level_from-IsLevel cutoffs len (suc i) top h k =
    elim (Bool-cases (leb len (cutoff cutoffs (suc i)))) [
      | inl e ↦ rw e (suc i, refl, h, (omega arith, leb→le _ _ e, λ j lt le. omega arith))
      | inr e ↦
          let lt : cutoff cutoffs (suc i) < len = ground (arith, e) in
          let (level, found, above, is) =
            level_from-IsLevel cutoffs len i top (takes_lower cutoffs len i top h k lt) k in
          rw e (level, found, above, IsLevel-suc cutoffs len i level lt is)
    ]

-- The peer's cutoffs are those that it is sent.
cutoff-sent :
    (cutoffs : List ℕ) (i : ℕ)
    → length cutoffs ≡ max_priorities
    → cutoff cutoffs 0 ≡ int_max
    → cutoff (int_max ∷ drop 1 cutoffs) i ≡ cutoff cutoffs i
cutoff-sent [] i size start = absurd (omega (arith, size))
cutoff-sent (c ∷ cutoffs) zero size start = sym start
cutoff-sent (c ∷ cutoffs) (suc i) size start = refl

-- How a sender that knows the cutoffs of `h` sends unscheduled data to it.
abbrev pub LevelSpec : Priorities → Peer → ℕ → Type 0
LevelSpec h peer len =
    (level : ℕ) × (unsched_priority h.num_priorities
        (cutoffs_pkt peer h.unsched_cutoffs h.cutoff_version) len
      ≡ some level)
    × IsLevel h.unsched_cutoffs len (h.num_priorities - 1) level
    × ((h.max_sched_prio < level) ⊎ (h.max_sched_prio ≡ 0))

LevelSpec-top :
    (h : Priorities) (num top : ℕ) (peer : Peer) (len : ℕ)
    → h.num_priorities ≡ suc num
    → length h.unsched_cutoffs ≡ max_priorities
    → cutoff h.unsched_cutoffs 0 ≡ int_max
    → IsTop (suc num) h.unsched_cutoffs h.max_sched_prio top
    → len ≤ max_message_length
    → LevelSpec h peer len
unfolding unsched_priority cutoffs_pkt
LevelSpec-top h num top peer len e size start (under, takes, sched) le =
    let sent = int_max ∷ drop 1 h.unsched_cutoffs in
    let (level, found, above, (within, holds, others)) =
      level_from-IsLevel sent len num top (omega (arith, under))
        (omega (arith, le, takes, cutoff-sent h.unsched_cutoffs top size start)) in
    rw e (
      level,
      found,
      (
        omega (arith, within),
        omega (arith, holds, cutoff-sent h.unsched_cutoffs level size start),
        λ j more j_in. omega (
          arith,
          others j more (omega (arith, j_in)),
          cutoff-sent h.unsched_cutoffs j size start,
        ),
      ),
      ground (arith, sched, above),
    )

-- What homa_prios_changed leaves.
abbrev pub PriosSpec : Peer → ℕ → Option Priorities → Type 0
PriosSpec peer len none = ⊥
PriosSpec peer len (some h) = LevelSpec h peer len

with_levels-PriosSpec :
    (h : Priorities) (num : ℕ) (peer : Peer) (len : ℕ) (r : Option (List ℕ × ℕ))
    → h.num_priorities ≡ suc num
    → LoopSpec (suc num) r
    → len ≤ max_message_length
    → PriosSpec peer len (with_levels h r)
with_levels-PriosSpec h num peer len none e s le = s
with_levels-PriosSpec h num peer len (some (cutoffs, prio)) e (size, start, (top, is)) le =
    LevelSpec-top
      (record h {
        unsched_cutoffs = cutoffs;
        max_sched_prio = prio;
        cutoff_version = h.cutoff_version + 1;
      })
      num top peer len e size start is le

-- With at least one priority, homa_prios_changed reads and writes only inside the array, and so does
-- homa_unsched_priority at a sender that has these cutoffs from a CUTOFFS packet and as many priorities. For a
-- message of any length that homa_message_out_fill accepts it returns the highest level whose cutoff is not
-- less than the length; that is above every priority for scheduled packets, or these have only priority 0.
pub prios_changed_lem :
    (h : Priorities) (peer : Peer) (len : ℕ)
    → 0 < h.num_priorities
    → length h.unsched_cutoffs ≡ max_priorities
    → len ≤ max_message_length
    → PriosSpec peer len (prios_changed h)
unfolding prios_changed
prios_changed_lem h peer len pos size le =
    let num = if ltb max_priorities h.num_priorities then max_priorities else h.num_priorities in
    let some_level : num ≡ suc (num - 1) = ground arith in
    with_levels-PriosSpec (record h { num_priorities = num }) (num - 1) peer len
      (prios_loop num 7 (set h.unsched_cutoffs 0 int_max)) some_level
      (subst (λ n. LoopSpec n (prios_loop num 7 (set h.unsched_cutoffs 0 int_max))) some_level
        (prios_loop-LoopSpec num 7 (set h.unsched_cutoffs 0 int_max) (ground arith)
          (length-set h.unsched_cutoffs 0 int_max ∙ size)
          (get_or-set_self h.unsched_cutoffs 0 int_max 0 (omega (arith, size)))))
      le
