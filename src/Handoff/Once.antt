-- ===== src/Handoff/Once.antt =====
-- homa_rpc_handoff and homa_wait_shared in any order: no RPC is lost, and no thread waits in vain.
use homa_module.Prelude.{
  ℕ, ◌+◌, ◌≡◌, refl, sym, ap, ◌∙◌, ◌⊎◌, inl, inr, Bool, true, false, not, Option, none, some, List,
  [], ◌∷◌, ◌++◌, arith, ◌==◌, if◌then◌else◌, Bool-cases, map, length, one_if, count, count-append,
  ==-same,
}
use homa_module.Handoff.{
  Interest, ReadyInterest, HomaSock, Chosen, nobody, chosen, or_first, find_idle, choose_interest,
  is_ready, hand_to, rpc_handoff, Outcome, found, again, shut_down, interrupted, waiting,
  take_ready, wait_start, Woken, asleep, woken, with_ready, find_woken, unlink_shared, wake,
  wait_end, unlink_ready, end_ready, shutdown_start, without_rpc, shutdown_finish,
}

-- How often an RPC is in the ready interests.
abbrev pub in_interest : ℕ → Option ℕ → ℕ
in_interest q none = 0
in_interest q (some r) = one_if (r == q)

abbrev pub count_ready : ℕ → List ReadyInterest → ℕ
count_ready q [] = 0
count_ready q (r ∷ rs) = in_interest q r.rpc + count_ready q rs

abbrev pub unless : Bool → ℕ → List ℕ
unless queued rpc = if queued then [] else rpc ∷ []

abbrev pub taken_on : ℕ → Bool → Chosen → List ℕ
taken_on rpc queued nobody = unless queued rpc
taken_on rpc queued (chosen i is) = rpc ∷ []

-- The RPCs that a handoff takes on: none after shutdown, or if the RPC is queued already.
abbrev pub accepted : (ℕ → Bool) → HomaSock → ℕ → List ℕ
accepted busy s rpc =
    if s.shutdown
    then []
    else taken_on rpc (is_ready rpc s.ready_rpcs) (choose_interest busy s.interests)

abbrev pub got : Outcome → List ℕ
got (found rpc) = rpc ∷ []
got again = []
got shut_down = []
got interrupted = []
got waiting = []

abbrev pub ended : HomaSock → ℕ → List ℕ
ended s rpc = unless (not (is_ready rpc s.ready_rpcs)) rpc

abbrev pub opened : HomaSock
opened = record { shutdown = false; interests = []; ready_rpcs = []; ready_interests = [] }

-- A socket after any row of these operations, with the RPCs that have been handed off and those that have
-- left: a thread has found them, or they have ended while they were queued.
pub data Run : List ℕ → List ℕ → HomaSock → Type 0 where
  start : Run [] [] opened
  hand :
      (acc left : List ℕ) (s : HomaSock) (busy : ℕ → Bool) (rpc : ℕ)
      → Run acc left s
      → Run (accepted busy s rpc ++ acc) left (rpc_handoff busy s rpc)
  begin :
      (acc left : List ℕ) (s : HomaSock) (nonblocking : Bool) (i : Interest)
      → Run acc left s
      → Run acc (got (wait_start nonblocking i s).1 ++ left) (wait_start nonblocking i s).0
  finish :
      (acc left : List ℕ) (s : HomaSock) (thread : ℕ) (signal : Bool)
      → Run acc left s
      → Run acc (got (wait_end thread signal s).1 ++ left) (wait_end thread signal s).0
  end_rpc :
      (acc left : List ℕ) (s : HomaSock) (rpc : ℕ)
      → Run acc left s
      → Run acc (ended s rpc ++ left) (end_ready s rpc)
  close : (acc left : List ℕ) (s : HomaSock) → Run acc left s → Run acc left (shutdown_start s)
  wake_all : (acc left : List ℕ) (s : HomaSock) → Run acc left s → Run acc left (shutdown_finish s)

-- What each operation keeps.
pub record Balanced (acc left : List ℕ) (s : HomaSock) : Type 0 where
  pub sums :
      (q : ℕ) → count q acc ≡ count q left + count_ready q s.ready_interests + count q s.ready_rpcs
  pub apart : (s.interests ≡ []) ⊎ (s.ready_rpcs ≡ [])

abbrev pub is_nobody : Chosen → Bool
is_nobody nobody = true
is_nobody (chosen i is) = false

or_first-chosen :
    (i : Interest) (is : List Interest) (c : Chosen) → is_nobody (or_first i is c) ≡ false
or_first-chosen i is nobody = refl
or_first-chosen i is (chosen j js) = refl

nobody_waits :
    (busy : ℕ → Bool) (is : List Interest) → is_nobody (choose_interest busy is) ≡ true → is ≡ []
unfolding choose_interest
nobody_waits busy [] e = refl
nobody_waits busy (i ∷ is) e =
    absurd (ground (arith, e, or_first-chosen i is (find_idle busy (i ∷ is))))

nobody_chosen :
    (busy : ℕ → Bool) (is : List Interest) → is ≡ [] → is_nobody (choose_interest busy is) ≡ true
unfolding choose_interest
nobody_chosen busy is e = rw e refl

queue-Balanced :
    (acc left : List ℕ) (s : HomaSock) (rpc : ℕ) (queued : Bool)
    → s.interests ≡ []
    → Balanced acc left s
    → Balanced
        (unless queued rpc ++ acc)
        left
        (if queued then s else record s { ready_rpcs = s.ready_rpcs ++ (rpc ∷ []) })
queue-Balanced acc left s rpc true e h = h
queue-Balanced acc left s rpc false e h = record {
  sums = λ q. omega (arith, h.sums q, count-append q s.ready_rpcs (rpc ∷ []));
  apart = inl e;
}

hand_to-Balanced :
    (acc left : List ℕ) (s : HomaSock) (rpc : ℕ) (c : Chosen)
    → (is_nobody c ≡ true → s.interests ≡ [])
    → (s.interests ≡ [] → is_nobody c ≡ true)
    → Balanced acc left s
    → Balanced (taken_on rpc (is_ready rpc s.ready_rpcs) c ++ acc) left (hand_to s rpc c)
hand_to-Balanced acc left s rpc nobody waits idle h =
    queue-Balanced acc left s rpc (is_ready rpc s.ready_rpcs) (waits refl) h
hand_to-Balanced acc left s rpc (chosen i is) waits idle h = record {
  sums = λ q. omega (arith, h.sums q);
  apart = elim h.apart [ inl e ↦ absurd (ground (arith, idle e)) | inr e ↦ inr e ];
}

hand-Balanced :
    (acc left : List ℕ) (s : HomaSock) (busy : ℕ → Bool) (rpc : ℕ)
    → Balanced acc left s
    → Balanced (accepted busy s rpc ++ acc) left (rpc_handoff busy s rpc)
unfolding rpc_handoff
hand-Balanced acc left s busy rpc h = go s.shutdown
  where
    go :
        (b : Bool)
        → Balanced
            ((if b
                then []
                else taken_on rpc (is_ready rpc s.ready_rpcs) (choose_interest busy s.interests))
              ++ acc)
            left
            (if b then s else hand_to s rpc (choose_interest busy s.interests))
    go true = h
    go false =
        hand_to-Balanced acc left s rpc (choose_interest busy s.interests)
          (nobody_waits busy s.interests) (nobody_chosen busy s.interests) h

take_ready-Balanced :
    (acc left : List ℕ) (s : HomaSock) (nonblocking : Bool) (i : Interest) (rpcs : List ℕ)
    → s.ready_rpcs ≡ rpcs
    → Balanced acc left s
    → Balanced acc
        (got (take_ready nonblocking i s rpcs).1 ++ left)
        (take_ready nonblocking i s rpcs).0
take_ready-Balanced acc left s true i [] e h = h
take_ready-Balanced acc left s false i [] e h = record { sums = h.sums; apart = inr e }
take_ready-Balanced acc left s nonblocking i (rpc ∷ rpcs) e h = record {
  sums = λ q. omega (arith, h.sums q, ap (count q) e);
  apart = elim h.apart [
    | inl none_waits ↦ inl none_waits
    | inr empty ↦ absurd (omega (arith, ap length (sym e ∙ empty)))
  ];
}

begin-Balanced :
    (acc left : List ℕ) (s : HomaSock) (nonblocking : Bool) (i : Interest)
    → Balanced acc left s
    → Balanced acc (got (wait_start nonblocking i s).1 ++ left) (wait_start nonblocking i s).0
unfolding wait_start
begin-Balanced acc left s nonblocking i h = go s.shutdown
  where
    go :
        (b : Bool)
        → let r = if b then (s, shut_down) else take_ready nonblocking i s s.ready_rpcs in
          Balanced acc (got r.1 ++ left) r.0
    go true = h
    go false = take_ready-Balanced acc left s nonblocking i s.ready_rpcs refl h

-- What find_woken takes out is all that it takes out.
abbrev pub HasWoken : ℕ → List ReadyInterest → Woken → Type 0
HasWoken q rs asleep = ℕ
HasWoken q rs (woken rpc others) = count_ready q rs ≡ in_interest q rpc + count_ready q others

with_ready-HasWoken :
    (q : ℕ) (r : ReadyInterest) (rs : List ReadyInterest) (w : Woken)
    → HasWoken q rs w
    → HasWoken q (r ∷ rs) (with_ready r w)
with_ready-HasWoken q r rs asleep h = h
with_ready-HasWoken q r rs (woken rpc others) h = omega (arith, h)

find_woken-HasWoken :
    (q thread : ℕ) (rs : List ReadyInterest) → HasWoken q rs (find_woken thread rs)
unfolding find_woken
find_woken-HasWoken q thread [] = 0
find_woken-HasWoken q thread (r ∷ rs) = elim (Bool-cases (r.interest.thread == thread)) [
  | inl e ↦ rw e refl
  | inr e ↦
      rw e (with_ready-HasWoken q r rs (find_woken thread rs) (find_woken-HasWoken q thread rs))
]

unlink_shared-nil : (thread : ℕ) (is : List Interest) → is ≡ [] → unlink_shared thread is ≡ []
unfolding unlink_shared
unlink_shared-nil thread is e = rw e refl

wake-Balanced :
    (acc left : List ℕ) (s : HomaSock) (thread : ℕ) (signal : Bool) (w : Woken)
    → ((q : ℕ) → HasWoken q s.ready_interests w)
    → Balanced acc left s
    → Balanced acc (got (wake thread signal s w).1 ++ left) (wake thread signal s w).0
wake-Balanced acc left s thread true asleep has h = record {
  sums = h.sums;
  apart = elim h.apart [ inl e ↦ inl (unlink_shared-nil thread s.interests e) | inr e ↦ inr e ];
}
wake-Balanced acc left s thread false asleep has h = h
wake-Balanced acc left s thread signal (woken none others) has h = record {
  sums = λ q. omega (arith, h.sums q, has q);
  apart = h.apart;
}
wake-Balanced acc left s thread signal (woken (some rpc) others) has h = record {
  sums = λ q. omega (arith, h.sums q, has q);
  apart = h.apart;
}

finish-Balanced :
    (acc left : List ℕ) (s : HomaSock) (thread : ℕ) (signal : Bool)
    → Balanced acc left s
    → Balanced acc (got (wait_end thread signal s).1 ++ left) (wait_end thread signal s).0
unfolding wait_end
finish-Balanced acc left s thread signal h =
    wake-Balanced acc left s thread signal (find_woken thread s.ready_interests)
      (λ q. find_woken-HasWoken q thread s.ready_interests) h

count-unlink_ready :
    (q rpc : ℕ) (rpcs : List ℕ)
    → count q rpcs
      ≡ count q (unless (not (is_ready rpc rpcs)) rpc) + count q (unlink_ready rpc rpcs)
unfolding unlink_ready
count-unlink_ready q rpc [] = omega arith
count-unlink_ready q rpc (r ∷ rpcs) = elim (Bool-cases (r == rpc)) [
  | inl e ↦ rw e (omega (arith, ap one_if (ap (λ x. x == q) (==-same r rpc e))))
  | inr e ↦ rw e (omega (arith, count-unlink_ready q rpc rpcs))
]

unlink_ready-nil : (rpc : ℕ) (rpcs : List ℕ) → rpcs ≡ [] → unlink_ready rpc rpcs ≡ []
unfolding unlink_ready
unlink_ready-nil rpc rpcs e = rw e refl

end-Balanced :
    (acc left : List ℕ) (s : HomaSock) (rpc : ℕ)
    → Balanced acc left s
    → Balanced acc (ended s rpc ++ left) (end_ready s rpc)
unfolding end_ready
end-Balanced acc left s rpc h = record {
  sums = λ q.
      omega
        (arith, h.sums q, count-unlink_ready q rpc s.ready_rpcs, count-append q (ended s rpc) left);
  apart = elim h.apart [ inl e ↦ inl e | inr e ↦ inr (unlink_ready-nil rpc s.ready_rpcs e) ];
}

count_ready-without_rpc :
    (q : ℕ) (is : List Interest) (rs : List ReadyInterest)
    → count_ready q (map without_rpc is ++ rs) ≡ count_ready q rs
count_ready-without_rpc q [] rs = refl
count_ready-without_rpc q (i ∷ is) rs = omega (arith, count_ready-without_rpc q is rs)

wake_all-Balanced :
    (acc left : List ℕ) (s : HomaSock) → Balanced acc left s → Balanced acc left (shutdown_finish s)
unfolding shutdown_finish
wake_all-Balanced acc left s h = record {
  sums = λ q. omega (arith, h.sums q, count_ready-without_rpc q s.interests s.ready_interests);
  apart = inl refl;
}

run-Balanced : (acc left : List ℕ) (s : HomaSock) → Run acc left s → Balanced acc left s
unfolding shutdown_start
run-Balanced acc left s start = record { sums = λ q. omega arith; apart = inl refl }
run-Balanced acc left s (hand acc' left' s' busy rpc run) =
    hand-Balanced acc' left' s' busy rpc (run-Balanced acc' left' s' run)
run-Balanced acc left s (begin acc' left' s' nonblocking i run) =
    begin-Balanced acc' left' s' nonblocking i (run-Balanced acc' left' s' run)
run-Balanced acc left s (finish acc' left' s' thread signal run) =
    finish-Balanced acc' left' s' thread signal (run-Balanced acc' left' s' run)
run-Balanced acc left s (end_rpc acc' left' s' rpc run) =
    end-Balanced acc' left' s' rpc (run-Balanced acc' left' s' run)
run-Balanced acc left s (close acc' left' s' run) =
    let h = run-Balanced acc' left' s' run in record { sums = h.sums; apart = h.apart }
run-Balanced acc left s (wake_all acc' left' s' run) =
    wake_all-Balanced acc' left' s' (run-Balanced acc' left' s' run)

-- After any row of operations from a new socket: for each RPC, the number of times it has been handed off is
-- the number of times it has left, plus its places in the ready interests, plus its places in ready_rpcs.
-- So it is never lost, and no two threads get the same handoff. And no thread waits in `interests` while an
-- RPC is in `ready_rpcs`.
pub run_lem :
    (acc left : List ℕ) (s : HomaSock)
    → Run acc left s
    → ((q : ℕ)
        → count q acc ≡ count q left + count_ready q s.ready_interests + count q s.ready_rpcs)
      × ((s.interests ≡ []) ⊎ (s.ready_rpcs ≡ []))
run_lem acc left s run = let h = run-Balanced acc left s run in (h.sums, h.apart)
