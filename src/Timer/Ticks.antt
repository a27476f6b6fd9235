-- ===== src/Timer/Ticks.antt =====
-- homa_timer_check_rpc (homa_timer.c) over many ticks: a silent peer, and how soon an RPC can be aborted.
use native.Mathlib.Nat.{mul-mod_left, mod-add-div'}
use mathlib.Core.Path.{subst}
use homa_module.Prelude.{
  ℕ, zero, suc, ◌+◌, ◌-◌, ◌*◌, ◌/◌, ◌%◌, ◌⊎◌, ◌≤◌, ◌<◌, ◌≡◌, ◌≢◌, refl, sym, ap, ◌∙◌, inl, inr,
  Bool, true, false, not, ◌&&◌, List, [], ◌∷◌, arith, ltb, ltb→lt, leb, ◌==◌, Bool-cases, length,
  get_or,
}
use homa_module.Timer.{
  TimedRpc, TimerParams, Action, no_action, resend, abort_rpc, divide_error, check_ack,
  not_expecting, silent_action, timer_check_rpc, is_in_service, is_outgoing, timer_rpc,
}
use homa_module.Outgoing.{tx_end}

abbrev action_of : TimedRpc × Bool × Action → Action
action_of r = r.2

check_ack-silent :
    (t : TimerParams) (timer_ticks tx : ℕ) (rpc : TimedRpc)
    → (check_ack t timer_ticks tx rpc).0.silent_ticks ≡ rpc.silent_ticks
unfolding check_ack
check_ack-silent t timer_ticks tx rpc =
    elim (Bool-cases (not rpc.is_client && is_outgoing rpc.state && (tx == rpc.msgout.len))) [
      | inl e ↦ elim (Bool-cases (rpc.done_timer_ticks == 0)) [
        | inl k ↦ rw (e, k) refl
        | inr k ↦ rw (e, k) refl
      ]
      | inr e ↦ rw e refl
    ]

-- The RPC after the first part of homa_timer_check_rpc in a tick, and the end of what has left.
abbrev in_tick : TimerParams → ℕ → (ℕ → ℕ) → TimedRpc → TimedRpc × ℕ
in_tick t timer_ticks users rpc =
    let (out, tx) = tx_end users rpc.msgout in
    (
      (check_ack t timer_ticks tx
          (record rpc { silent_ticks = rpc.silent_ticks + 1; msgout = out })).0,
      tx,
    )

-- Whether a tick finds that the peer has something to send.
abbrev pub expects : TimerParams → ℕ → (ℕ → ℕ) → TimedRpc → Bool
expects t timer_ticks users rpc =
    let (rpc', tx) = in_tick t timer_ticks users rpc in
    not (is_in_service rpc.state) && not (not_expecting rpc' tx rpc'.state)

abbrev TickSpec : TimerParams → TimedRpc → Bool → TimedRpc × Bool × Action → Type 0
TickSpec t rpc false r = (r.0.silent_ticks ≡ 0) × (action_of r ≡ no_action)
TickSpec t rpc true r =
    (r.0.silent_ticks ≡ rpc.silent_ticks + 1)
    × (action_of r ≡ silent_action t (rpc.silent_ticks + 1))

timer_rpc-TickSpec :
    (t : TimerParams) (timer_ticks : ℕ) (users : ℕ → ℕ) (rpc : TimedRpc)
    → TickSpec t rpc (expects t timer_ticks users rpc) (timer_rpc t timer_ticks users rpc)
unfolding timer_rpc timer_check_rpc
timer_rpc-TickSpec t timer_ticks users rpc =
    let (rpc', tx) = in_tick t timer_ticks users rpc in
    let same : rpc'.silent_ticks ≡ rpc.silent_ticks + 1 = check_ack-silent t timer_ticks tx _ in
    elim (Bool-cases (is_in_service rpc.state)) [
      | inl e ↦ rw e (refl, refl)
      | inr e ↦ elim (Bool-cases (not_expecting rpc' tx rpc'.state)) [
        | inl c ↦ rw (e, c) (refl, refl)
        | inr c ↦ rw (e, c) (same, ap (silent_action t) same)
      ]
    ]

-- A tick: the time, and the reference counts of the packets.
pub record Tick : Type 0 where
  pub timer_ticks : ℕ
  pub users : ℕ → ℕ

-- The actions of the ticks from this one on.
abbrev pub actions : TimerParams → TimedRpc → List Tick → List Action
actions t rpc [] = []
actions t rpc (k ∷ ticks) =
    let r = timer_rpc t k.timer_ticks k.users rpc in r.2 ∷ actions t r.0 ticks

-- In each of the ticks the peer has something to send.
abbrev pub AllExpect : TimerParams → TimedRpc → List Tick → Type 0
AllExpect t rpc [] = Unit {0}
AllExpect t rpc (k ∷ ticks) =
    (expects t k.timer_ticks k.users rpc ≡ true)
    × AllExpect t (timer_rpc t k.timer_ticks k.users rpc).0 ticks

abbrev silent_actions : TimerParams → ℕ → ℕ → List Action
silent_actions t silent zero = []
silent_actions t silent (suc n) = silent_action t (silent + 1) ∷ silent_actions t (silent + 1) n

actions-silent :
    (t : TimerParams) (rpc : TimedRpc) (ticks : List Tick) (n silent : ℕ)
    → length ticks ≡ n
    → rpc.silent_ticks ≡ silent
    → AllExpect t rpc ticks
    → actions t rpc ticks ≡ silent_actions t silent n
actions-silent t rpc [] zero silent e s h = refl
actions-silent t rpc [] (suc n) silent e s h = absurd (omega (arith, e))
actions-silent t rpc (k ∷ ticks) zero silent e s h = absurd (omega (arith, e))
actions-silent t rpc (k ∷ ticks) (suc n) silent e s (expected, h) =
    let (next, acts) =
      subst (λ b. TickSpec t rpc b (timer_rpc t k.timer_ticks k.users rpc)) expected
        (timer_rpc-TickSpec t k.timer_ticks k.users rpc) in
    let ih =
      actions-silent t (timer_rpc t k.timer_ticks k.users rpc).0 ticks n (silent + 1)
        (omega (arith, e)) (next ∙ ap (λ x. x + 1) s) h in
    rw (acts ∙ ap (λ x. silent_action t (x + 1)) s) (ap (λ l. silent_action t (silent + 1) ∷ l) ih)

-- What is done in the tick after `i` silent ones.
get_or-silent_actions :
    (t : TimerParams) (silent n i : ℕ)
    → i < n
    → get_or (silent_actions t silent n) i no_action ≡ silent_action t (silent + i + 1)
get_or-silent_actions t silent zero i h = absurd (omega (arith, h))
get_or-silent_actions t silent (suc n) zero h = ap (silent_action t) (omega arith)
get_or-silent_actions t silent (suc n) (suc i) h =
    get_or-silent_actions t (silent + 1) n i (omega (arith, h)) ∙ ap (silent_action t) (omega arith)

-- What is done in as many ticks as it takes.
pub record SilentPeer (t : TimerParams) (acts : List Action) : Type 0 where
  pub ends : get_or acts (t.timeout_ticks - 1) no_action ≡ abort_rpc
  pub before : (i : ℕ) → i + 1 < t.timeout_ticks → get_or acts i no_action ≢ abort_rpc
  pub resends :
      (k : ℕ)
      → t.resend_ticks + k * t.resend_interval < t.timeout_ticks
      → get_or acts (t.resend_ticks + k * t.resend_interval - 1) no_action ≡ resend
  pub quiet :
      (i : ℕ)
      → i + 1 < t.timeout_ticks
      → (get_or acts i no_action ≡ no_action)
        ⊎ ((k : ℕ) × (i + 1 ≡ t.resend_ticks + k * t.resend_interval))

is_abort : Action → Bool
is_abort abort_rpc = true
is_abort _ = false

differs : (a : Action) → is_abort a ≡ false → a ≢ abort_rpc
unfolding is_abort
differs no_action h e = ground (arith, ap is_abort e)
differs resend h e = ground (arith, ap is_abort e)
differs abort_rpc h e = ground (arith, h)
differs divide_error h e = ground (arith, ap is_abort e)

module _ (t : TimerParams) where
  silent_action-abort_rpc :
      t.resend_ticks ≤ t.timeout_ticks → silent_action t t.timeout_ticks ≡ abort_rpc
  unfolding silent_action
  silent_action-abort_rpc h =
      let late : ltb t.timeout_ticks t.resend_ticks ≡ false = ground arith in
      let out : leb t.timeout_ticks t.timeout_ticks ≡ true = ground arith in rw (late, out) refl

  early_action : (n : ℕ) → n < t.timeout_ticks → silent_action t n ≢ abort_rpc
  unfolding silent_action is_abort
  early_action n h =
      let soon : leb t.timeout_ticks n ≡ false = ground arith in
      differs (silent_action t n) (elim (Bool-cases (ltb n t.resend_ticks)) [
        | inl e ↦ rw e refl
        | inr e ↦ elim (Bool-cases (t.resend_interval == 0)) [
          | inl z ↦ rw (e, soon, z) refl
          | inr z ↦ elim (Bool-cases ((n - t.resend_ticks) % t.resend_interval == 0)) [
            | inl c ↦ rw (e, soon, z, c) refl
            | inr c ↦ rw (e, soon, z, c) refl
          ]
        ]
      ])

  resend_action :
      (k : ℕ)
      → 0 < t.resend_interval
      → t.resend_ticks + k * t.resend_interval < t.timeout_ticks
      → silent_action t (t.resend_ticks + k * t.resend_interval) ≡ resend
  unfolding silent_action
  resend_action k pos h =
      let n = t.resend_ticks + k * t.resend_interval in
      let late : ltb n t.resend_ticks ≡ false = ground arith in
      let soon : leb t.timeout_ticks n ≡ false = ground arith in
      let back : n - t.resend_ticks ≡ k * t.resend_interval = omega arith in
      let some_ticks : (t.resend_interval == 0) ≡ false = ground arith in
      rw (late, soon, some_ticks, back, mul-mod_left k t.resend_interval) refl

  -- And in no other tick.
  quiet_action :
      (n : ℕ)
      → 0 < t.resend_interval
      → n < t.timeout_ticks
      → (silent_action t n ≡ no_action) ⊎ ((k : ℕ) × (n ≡ t.resend_ticks + k * t.resend_interval))
  unfolding silent_action
  quiet_action n pos h =
      let soon : leb t.timeout_ticks n ≡ false = ground arith in
      let some_ticks : (t.resend_interval == 0) ≡ false = ground arith in
      elim (Bool-cases (ltb n t.resend_ticks)) [
        | inl e ↦ rw e (inl refl)
        | inr e ↦ elim (Bool-cases ((n - t.resend_ticks) % t.resend_interval == 0)) [
          | inl c ↦ inr (
            (n - t.resend_ticks) / t.resend_interval,
            ground (arith, e, c, mod-add-div' (n - t.resend_ticks) t.resend_interval),
          )
          | inr c ↦ rw (e, soon, some_ticks, c) (inl refl)
        ]
      ]

-- If the peer of an RPC stays silent and has something to send in each of `timeout_ticks` ticks, from a
-- `silent_ticks` of 0 on, the RPC is aborted in the last of these ticks and not before. A RESEND is asked for
-- in tick `resend_ticks` and then every `resend_interval` ticks, as long as the RPC lives, and in no other tick.
-- This supposes `resend_ticks` from 1 to `timeout_ticks`, a `resend_interval` that is not 0, and that no tick
-- finds the RPC in service.
pub silent_peer_lem :
    (t : TimerParams) (rpc : TimedRpc) (ticks : List Tick)
    → 0 < t.resend_ticks
    → t.resend_ticks ≤ t.timeout_ticks
    → 0 < t.resend_interval
    → rpc.silent_ticks ≡ 0
    → length ticks ≡ t.timeout_ticks
    → AllExpect t rpc ticks
    → SilentPeer t (actions t rpc ticks)
silent_peer_lem t rpc ticks pos le often start size h =
    subst (SilentPeer t) (sym (actions-silent t rpc ticks t.timeout_ticks 0 size start h)) (record {
      ends =
          get_or-silent_actions t 0 t.timeout_ticks (t.timeout_ticks - 1) (omega (arith, pos, le))
          ∙ ap (silent_action t) (omega (arith, pos, le))
          ∙ silent_action-abort_rpc t le;
      before = λ i lt e.
          early_action t (0 + i + 1) (omega (arith, lt))
            (sym (get_or-silent_actions t 0 t.timeout_ticks i (omega (arith, lt))) ∙ e);
      resends = λ k lt.
          get_or-silent_actions t 0 t.timeout_ticks (t.resend_ticks + k * t.resend_interval - 1)
            (omega (arith, lt, pos))
          ∙ ap (silent_action t) (omega (arith, pos))
          ∙ resend_action t k often lt;
      quiet = λ i lt.
          subst
            (λ a. (a ≡ no_action) ⊎ ((k : ℕ) × (i + 1 ≡ t.resend_ticks + k * t.resend_interval)))
            (sym (
              get_or-silent_actions t 0 t.timeout_ticks i (omega (arith, lt))
              ∙ ap (silent_action t) (omega arith)))
            (quiet_action t (i + 1) often lt);
    })

-- The ticks in a row since the last packet of the RPC arrived, which is when homa_dispatch_pkts sets
-- `silent_ticks` to 0. In between other fields may change.
pub data Since (t : TimerParams) : ℕ → TimedRpc → Type 0 where
  arrival : (rpc : TimedRpc) → rpc.silent_ticks ≡ 0 → Since t 0 rpc
  change :
      (n : ℕ) (old rpc : TimedRpc)
      → Since t n old
      → rpc.silent_ticks ≡ old.silent_ticks
      → Since t n rpc
  ticked :
      (n : ℕ) (rpc : TimedRpc) (k : Tick)
      → Since t n rpc
      → Since t (suc n) (timer_rpc t k.timer_ticks k.users rpc).0

at_most :
    (t : TimerParams) (rpc : TimedRpc) (r : TimedRpc × Bool × Action) (b : Bool)
    → TickSpec t rpc b r
    → r.0.silent_ticks ≤ rpc.silent_ticks + 1
at_most t rpc r true h = omega (arith, h.0)
at_most t rpc r false h = omega (arith, h.0)

Since-silent : (t : TimerParams) (n : ℕ) (rpc : TimedRpc) → Since t n rpc → rpc.silent_ticks ≤ n
Since-silent t n rpc (arrival _ e) = omega (arith, e)
Since-silent t n rpc (change _ old _ h e) = omega (arith, e, Since-silent t n old h)
Since-silent t n rpc (ticked m old k h) = omega (
  arith,
  at_most t old _ _ (timer_rpc-TickSpec t k.timer_ticks k.users old),
  Since-silent t m old h,
)

abort_late : (t : TimerParams) (n : ℕ) → silent_action t n ≡ abort_rpc → t.timeout_ticks ≤ n
abort_late t n e = elim (Bool-cases (ltb n t.timeout_ticks)) [
  | inl lt ↦ absurd (early_action t n (ltb→lt _ _ lt) e)
  | inr ge ↦ ground (arith, ge)
]

aborting :
    (t : TimerParams) (rpc : TimedRpc) (r : TimedRpc × Bool × Action) (b : Bool)
    → TickSpec t rpc b r
    → action_of r ≡ abort_rpc
    → (b ≡ true) × (t.timeout_ticks ≤ rpc.silent_ticks + 1)
unfolding is_abort
aborting t rpc r true h e = (refl, abort_late t (rpc.silent_ticks + 1) (sym h.1 ∙ e))
aborting t rpc r false h e = absurd (differs no_action refl (sym h.1 ∙ e))

-- A tick aborts an RPC only if it is at least the tick number `timeout_ticks` in a row without a packet of
-- the RPC, and only if that tick finds that the peer has something to send.
pub abort_lem :
    (t : TimerParams) (n : ℕ) (rpc : TimedRpc) (k : Tick)
    → Since t n rpc
    → (timer_rpc t k.timer_ticks k.users rpc).2 ≡ abort_rpc
    → (expects t k.timer_ticks k.users rpc ≡ true) × (t.timeout_ticks ≤ n + 1)
abort_lem t n rpc k h e =
    let (expected, late) =
      aborting t rpc (timer_rpc t k.timer_ticks k.users rpc) (expects t k.timer_ticks k.users rpc)
        (timer_rpc-TickSpec t k.timer_ticks k.users rpc) e in
    (expected, omega (arith, late, Since-silent t n rpc h))
