-- ===== src/Pacer/Choice.antt =====
-- The choice of the next RPC in homa_pacer_xmit (homa_pacer.c): a fixed share of the turns goes to the
-- oldest message.
use mathlib.Core.List.{append_assoc, append-nil}
use mathlib.Core.Path.{subst}
use homa_module.Prelude.{
  ℕ, suc, ◌+◌, ◌-◌, ◌*◌, ◌≤◌, ◌<◌, ◌≡◌, refl, ap, ◌∙◌, inl, inr, Bool, true, false, not, Option,
  none, some, List, [], ◌∷◌, ◌++◌, arith, length, ltb, ltb→lt, if◌then◌else◌, Bool-cases, Each,
  Each-map, Each-append, IsAmong,
}
use homa_module.Prelude.Int.{pos, ◌+ℤ◌, ◌-ℤ◌, ltb_ℤ, int_laws}
use homa_module.Pool.{u64_mod}
use homa_module.Pacer.{Pacer, fifo_turn, oldest_of, first_of, pick_rpc}

-- The choice of the oldest among those seen.
abbrev IsOldest : (ℕ → ℕ) → List ℕ → Option ℕ → ℕ → Type 0
IsOldest init_time seen none oldest = (oldest ≡ u64_mod - 1) × Each (λ c. oldest ≤ init_time c) seen
IsOldest init_time seen (some r) oldest =
    (oldest ≡ init_time r) × IsAmong r seen × Each (λ c. init_time r ≤ init_time c) seen

-- What homa_pacer_xmit takes: in a FIFO turn a first message of the queue, or none if none was begun
-- before 2 ^ 64 - 1; else the head of the queue.
abbrev pub PickSpec : (ℕ → ℕ) → List ℕ → Bool → Option ℕ → Type 0
PickSpec init_time queue false o = o ≡ first_of queue
PickSpec init_time queue true none = Each (λ c. u64_mod - 1 ≤ init_time c) queue
PickSpec init_time queue true (some r) =
    IsAmong r queue × Each (λ c. init_time r ≤ init_time c) queue

IsAmong-end : (x : ℕ) (xs : List ℕ) → IsAmong x (xs ++ (x ∷ []))
IsAmong-end x [] = inl refl
IsAmong-end x (y ∷ ys) = inr (IsAmong-end x ys)

IsAmong-append : (x : ℕ) (xs ys : List ℕ) → IsAmong x xs → IsAmong x (xs ++ ys)
IsAmong-append x [] ys h = absurd h
IsAmong-append x (y ∷ xs) ys (inl e) = inl e
IsAmong-append x (y ∷ xs) ys (inr h) = inr (IsAmong-append x xs ys h)

module _ (init_time : ℕ → ℕ) where
  keep_choice :
      (seen : List ℕ) (rpc : Option ℕ) (oldest cur : ℕ)
      → IsOldest init_time seen rpc oldest
      → oldest ≤ init_time cur
      → IsOldest init_time (seen ++ (cur ∷ [])) rpc oldest
  keep_choice seen none oldest cur (e, h) le = (e, Each-append _ seen (cur ∷ []) h (le, tt))
  keep_choice seen (some r) oldest cur (e, m, h) le = (
    e,
    IsAmong-append r seen (cur ∷ []) m,
    Each-append _ seen (cur ∷ []) h (omega (arith, le, e), tt),
  )

  all_later :
      (seen : List ℕ) (rpc : Option ℕ) (oldest cur : ℕ)
      → IsOldest init_time seen rpc oldest
      → init_time cur < oldest
      → Each (λ c. init_time cur ≤ init_time c) seen
  all_later seen none oldest cur (e, h) lt =
      Each-map _ (λ c. init_time cur ≤ init_time c) seen (λ c k. omega (arith, k, lt)) h
  all_later seen (some r) oldest cur (e, m, h) lt =
      Each-map _ (λ c. init_time cur ≤ init_time c) seen (λ c k. omega (arith, k, lt, e)) h

  abbrev OldestSpec : List ℕ → Option ℕ → Type 0
  OldestSpec queue o = PickSpec init_time queue true o

  oldest_of_lem :
      (seen : List ℕ) (rpc : Option ℕ) (oldest : ℕ) (rpcs : List ℕ)
      → IsOldest init_time seen rpc oldest
      → OldestSpec (seen ++ rpcs) (oldest_of init_time (rpc, oldest) rpcs)
  unfolding oldest_of
  oldest_of_lem seen none oldest [] (e, h) =
      rw append-nil (subst (λ b. Each (λ c. b ≤ init_time c) seen) e h)
  oldest_of_lem seen (some r) oldest [] (e, m, h) = rw append-nil (m, h)
  oldest_of_lem seen rpc oldest (cur ∷ rpcs) h = elim (Bool-cases (ltb (init_time cur) oldest)) [
    | inl e ↦ rw e (
        subst (λ l. OldestSpec l (oldest_of init_time (some cur, init_time cur) rpcs))
          (append_assoc seen (cur ∷ []) rpcs)
          (oldest_of_lem (seen ++ (cur ∷ [])) (some cur) (init_time cur) rpcs (
            refl,
            IsAmong-end cur seen,
            Each-append _ seen (cur ∷ []) (all_later seen rpc oldest cur h (ltb→lt _ _ e))
                (omega arith, tt),
          )))
    | inr e ↦ rw e (
        subst (λ l. OldestSpec l (oldest_of init_time (rpc, oldest) rpcs))
          (append_assoc seen (cur ∷ []) rpcs)
          (oldest_of_lem (seen ++ (cur ∷ [])) rpc oldest rpcs
            (keep_choice seen rpc oldest cur h (ground arith))))
  ]

-- FIFO turns in a row of turns, in addition to `count`; each has its own queue.
abbrev pub take_turns : (ℕ → ℕ) → Pacer → ℕ → List (List ℕ) → Pacer × ℕ
take_turns init_time p count [] = (p, count)
take_turns init_time p count (queue ∷ queues) =
    let p' = record p { throttled_rpcs = queue } in
    take_turns init_time (pick_rpc init_time p').0 (if fifo_turn p' then count + 1 else count)
      queues

sub_pos : (n f : ℕ) → f ≤ n → pos n -ℤ pos f ≡ pos (n - f)
sub_pos n f h = omega (int_laws, h)

sub_add_pos : (n f : ℕ) → f ≤ n + 1000 → pos n -ℤ pos f +ℤ pos 1000 ≡ pos (n + 1000 - f)
sub_add_pos n f h = omega (int_laws, h)

pos_diff : (n f : ℕ) → ltb_ℤ (pos 0) (pos n -ℤ pos f) ≡ ltb f n
unfolding ◌-ℤ◌
pos_diff n f = ground arith

-- One turn, with a count of `n`.
abbrev next_count : ℕ → ℕ → ℕ
next_count n fraction = if ltb fraction n then n - fraction else n + 1000 - fraction

one_turn :
    (init_time : ℕ → ℕ) (p : Pacer) (n : ℕ)
    → p.fifo_fraction ≤ 1000
    → p.fifo_count ≡ pos n
    → ((pick_rpc init_time p).0.fifo_count ≡ pos (next_count n p.fifo_fraction))
      × ((pick_rpc init_time p).0.fifo_fraction ≡ p.fifo_fraction)
      × (fifo_turn p ≡ not (ltb p.fifo_fraction n))
unfolding pick_rpc fifo_turn
one_turn init_time p n h e = elim (Bool-cases (ltb p.fifo_fraction n)) [
  | inl c ↦
      rw (e, pos_diff n p.fifo_fraction, c) (sub_pos n p.fifo_fraction (ground arith), refl, refl)
  | inr c ↦
      rw (e, pos_diff n p.fifo_fraction, c)
        (sub_add_pos n p.fifo_fraction (omega (arith, h)), refl, refl)
]

-- Turns and FIFO turns in the same row.
abbrev Balance : ℕ → ℕ → ℕ → ℕ → Pacer × ℕ → Type 0
Balance fraction n count turns r =
    (n' : ℕ) × (r.0.fifo_count ≡ pos n')
    × (1 ≤ n')
    × (n' ≤ 1000)
    × (n' + fraction * turns + 1000 * count ≡ n + 1000 * r.1)

balance_step :
    (f n count turns n' k : ℕ) (few : Bool)
    → few ≡ ltb f n
    → f ≤ 1000
    → n' + f * turns + 1000 * (if not few then count + 1 else count) ≡ next_count n f + 1000 * k
    → n' + f * suc turns + 1000 * count ≡ n + 1000 * k
balance_step f n count turns n' k true e h sum =
    let next : next_count n f ≡ n - f = ground (arith, e) in
    let less : f < n = ground (arith, e) in omega (arith, sum, next)
balance_step f n count turns n' k false e h sum =
    let next : next_count n f ≡ n + 1000 - f = ground (arith, e) in omega (arith, sum, next)

take_turns-Balance :
    (init_time : ℕ → ℕ) (p : Pacer) (f n count : ℕ) (queues : List (List ℕ))
    → p.fifo_fraction ≡ f
    → f ≤ 1000
    → p.fifo_count ≡ pos n
    → 1 ≤ n
    → n ≤ 1000
    → Balance f n count (length queues) (take_turns init_time p count queues)
take_turns-Balance init_time p f n count [] same h e lo hi = (n, e, lo, hi, omega arith)
take_turns-Balance init_time p f n count (queue ∷ queues) same h e lo hi =
    let p' = record p { throttled_rpcs = queue } in
    let (e', same', turn) = one_turn init_time p' n (omega (arith, h, same)) e in
    let (n', c, lo', hi', sum) =
      take_turns-Balance init_time (pick_rpc init_time p').0 f (next_count n f)
        (if fifo_turn p' then count + 1 else count) queues (same' ∙ same) h
        (e' ∙ ap (λ x. pos (next_count n x)) same) (ground arith) (ground arith) in
    (
      n',
      c,
      lo',
      hi',
      balance_step f n count (length queues) n'
          (take_turns init_time (pick_rpc init_time p').0
            (if fifo_turn p' then count + 1 else count) queues).1
          (ltb f n) refl h
          (subst
            (λ b.
              n' + f * length queues + 1000 * (if b then count + 1 else count)
              ≡ next_count n f
                + 1000
                  * (take_turns init_time (pick_rpc init_time p').0
                      (if fifo_turn p' then count + 1 else count) queues).1)
            (turn ∙ ap (λ x. not (ltb x n)) same) sum),
    )

-- In any row of turns of homa_pacer_xmit, the share of FIFO turns is `fifo_fraction` thousandths, as exactly
-- as can be: a thousand times the FIFO turns and `fifo_fraction` times all turns differ by less than 1000.
-- This supposes a `fifo_fraction` of at most 1000 and a `fifo_count` from 1 to 1000, where it stays. The
-- queue may be another one in each turn.
pub take_turns_lem :
    (init_time : ℕ → ℕ) (p : Pacer) (n : ℕ) (queues : List (List ℕ))
    → p.fifo_fraction ≤ 1000
    → p.fifo_count ≡ pos n
    → 1 ≤ n
    → n ≤ 1000
    → let r = take_turns init_time p 0 queues in
      (1000 * r.1 < p.fifo_fraction * length queues + 1000)
      × (p.fifo_fraction * length queues < 1000 * r.1 + 1000)
      × ((n' : ℕ) × (r.0.fifo_count ≡ pos n') × (1 ≤ n') × (n' ≤ 1000))
take_turns_lem init_time p n queues h e lo hi =
    let (n', c, lo', hi', sum) =
      take_turns-Balance init_time p p.fifo_fraction n 0 queues refl h e lo hi in
    (omega (arith, sum, lo, hi, lo', hi'), omega (arith, sum, lo, hi, lo', hi'), (n', c, lo', hi'))

-- In a FIFO turn homa_pacer_xmit takes an RPC of the throttled queue whose message was begun no later than
-- any other's, or none, if each was begun at 2 ^ 64 - 1 or there is none. In another turn it takes the first
-- of the queue, if there is one.
pub pick_rpc_lem :
    (init_time : ℕ → ℕ) (p : Pacer)
    → PickSpec init_time p.throttled_rpcs (fifo_turn p) (pick_rpc init_time p).1
unfolding pick_rpc
pick_rpc_lem init_time p = elim (Bool-cases (fifo_turn p)) [
  | inl e ↦ rw e (oldest_of_lem init_time [] none (u64_mod - 1) p.throttled_rpcs (refl, tt))
  | inr e ↦ rw e refl
]
