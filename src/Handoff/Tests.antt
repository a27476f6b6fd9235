-- ===== src/Handoff/Tests.antt =====
-- Examples of handoffs: a thread that waits gets an RPC, and another RPC is queued.
use homa_module.Prelude.{ℕ, ◌+◌, ◌≡◌, ◌⊎◌, Bool, true, false, [], ◌∷◌, count}
use homa_module.Handoff.{Interest, HomaSock, rpc_handoff, wait_start, choose_interest, find_idle}
use homa_module.Handoff.Once.{count_ready, Run, start, hand, begin, opened, run_lem}

abbrev all_busy : ℕ → Bool
all_busy core = true

abbrev thread_one : Interest
thread_one = record { thread = 1; core = 3 }

abbrev one_waits : HomaSock
one_waits = (wait_start false thread_one opened).0

abbrev handed : HomaSock
handed = rpc_handoff all_busy (rpc_handoff all_busy one_waits 40) 42

one_waits-Run : Run [] [] one_waits
unfolding wait_start
one_waits-Run = begin [] [] opened false thread_one start

handed-Run : Run (42 ∷ 40 ∷ []) [] handed
unfolding wait_start choose_interest find_idle rpc_handoff
handed-Run =
    hand (40 ∷ []) [] (rpc_handoff all_busy one_waits 40) all_busy 42
      (hand [] [] one_waits all_busy 40 one_waits-Run)

run_lem_example :
    ((q : ℕ)
      → count q (42 ∷ 40 ∷ [])
        ≡ count q [] + count_ready q handed.ready_interests + count q handed.ready_rpcs)
    × ((handed.interests ≡ []) ⊎ (handed.ready_rpcs ≡ []))
run_lem_example = run_lem (42 ∷ 40 ∷ []) [] handed handed-Run
