-- ===== src/Handoff.antt =====
-- How RPCs that need attention get to threads: homa_rpc_handoff and homa_wait_shared (homa_incoming.c), with
-- the interests of homa_interest.c and homa_sock_shutdown (homa_sock.c). Each operation here runs under the
-- socket lock as a whole. RPCs and threads are numbers; private RPCs are left out.
pub mod Once
mod Tests
use homa_module.Prelude.{
  ℕ, Bool, true, false, not, Option, none, some, List, [], ◌∷◌, ◌++◌, ◌==◌, if◌then◌else◌, map,
}

-- struct homa_interest, shared: the thread, and the core on which it has begun to wait.
pub record Interest : Type 0 where
  pub thread : ℕ
  pub core : ℕ

-- An interest with `ready` set and its `rpc`.
pub record ReadyInterest : Type 0 where
  pub interest : Interest
  pub rpc : Option ℕ

-- The fields of struct homa_sock that are used here, and the ready interests whose threads have not yet
-- looked at them.
pub record HomaSock : Type 0 where
  pub shutdown : Bool
  pub interests : List Interest
  pub ready_rpcs : List ℕ
  pub ready_interests : List ReadyInterest

-- An interest and the others.
pub data Chosen : Type 0 where
  nobody : Chosen
  chosen : Interest → List Interest → Chosen

abbrev pub link_behind : Interest → Chosen → Chosen
link_behind i nobody = nobody
link_behind i (chosen j js) = chosen j (i ∷ js)

-- The first one whose core is not busy.
unfoldable pub find_idle : (ℕ → Bool) → List Interest → Chosen
find_idle busy [] = nobody
find_idle busy (i ∷ is) = if busy i.core then link_behind i (find_idle busy is) else chosen i is

abbrev pub or_first : Interest → List Interest → Chosen → Chosen
or_first i is nobody = chosen i is
or_first i is (chosen j js) = chosen j js

-- homa_choose_interest; `nobody` where there is no interest.
unfoldable pub choose_interest : (ℕ → Bool) → List Interest → Chosen
choose_interest busy [] = nobody
choose_interest busy (i ∷ is) = or_first i is (find_idle busy (i ∷ is))

abbrev pub is_ready : ℕ → List ℕ → Bool
is_ready rpc [] = false
is_ready rpc (r ∷ rpcs) = if r == rpc then true else is_ready rpc rpcs

abbrev pub hand_to : HomaSock → ℕ → Chosen → HomaSock
hand_to s rpc nobody =
    if is_ready rpc s.ready_rpcs then s else record s { ready_rpcs = s.ready_rpcs ++ (rpc ∷ []) }
hand_to s rpc (chosen i is) = record s {
  interests = is;
  ready_interests = record { interest = i; rpc = some rpc } ∷ s.ready_interests;
}

-- homa_rpc_handoff, for a shared RPC.
unfoldable pub rpc_handoff : (ℕ → Bool) → HomaSock → ℕ → HomaSock
rpc_handoff busy s rpc = if s.shutdown then s else hand_to s rpc (choose_interest busy s.interests)

-- What homa_wait_shared has: an RPC, an error, or it waits.
pub data Outcome : Type 0 where
  found : ℕ → Outcome
  again : Outcome
  shut_down : Outcome
  interrupted : Outcome
  waiting : Outcome

abbrev pub take_ready : Bool → Interest → HomaSock → List ℕ → HomaSock × Outcome
take_ready nonblocking i s [] =
    if nonblocking then (s, again) else (record s { interests = i ∷ s.interests }, waiting)
take_ready nonblocking i s (rpc ∷ rpcs) = (record s { ready_rpcs = rpcs }, found rpc)

-- The first part of a pass of homa_wait_shared, up to homa_interest_wait.
unfoldable pub wait_start : Bool → Interest → HomaSock → HomaSock × Outcome
wait_start nonblocking i s =
    if s.shutdown then (s, shut_down) else take_ready nonblocking i s s.ready_rpcs

-- The interest of a thread, if it is ready, and the others.
pub data Woken : Type 0 where
  asleep : Woken
  woken : Option ℕ → List ReadyInterest → Woken

abbrev pub with_ready : ReadyInterest → Woken → Woken
with_ready r asleep = asleep
with_ready r (woken rpc others) = woken rpc (r ∷ others)

unfoldable pub find_woken : ℕ → List ReadyInterest → Woken
find_woken thread [] = asleep
find_woken thread (r ∷ rs) =
    if r.interest.thread == thread then woken r.rpc rs else with_ready r (find_woken thread rs)

-- homa_interest_unlink_shared
unfoldable pub unlink_shared : ℕ → List Interest → List Interest
unlink_shared thread [] = []
unlink_shared thread (i ∷ is) = if i.thread == thread then is else i ∷ unlink_shared thread is

abbrev pub wake : ℕ → Bool → HomaSock → Woken → HomaSock × Outcome
wake thread signal s asleep =
    if signal
    then (record s { interests = unlink_shared thread s.interests }, interrupted)
    else (s, waiting)
wake thread signal s (woken none others) = (record s { ready_interests = others }, shut_down)
wake thread signal s (woken (some rpc) others) = (record s { ready_interests = others }, found rpc)

-- The part of homa_wait_shared behind homa_interest_wait; `signal` is its error. Without one and with an
-- interest that is not ready the thread goes on waiting.
unfoldable pub wait_end : ℕ → Bool → HomaSock → HomaSock × Outcome
wait_end thread signal s = wake thread signal s (find_woken thread s.ready_interests)

-- What homa_rpc_end does to the queue. It leaves the RPC's own links as they are; an RPC that has ended is
-- not handed off again.
unfoldable pub unlink_ready : ℕ → List ℕ → List ℕ
unlink_ready rpc [] = []
unlink_ready rpc (r ∷ rpcs) = if r == rpc then rpcs else r ∷ unlink_ready rpc rpcs

unfoldable pub end_ready : HomaSock → ℕ → HomaSock
end_ready s rpc = record s { ready_rpcs = unlink_ready rpc s.ready_rpcs }

-- The two parts of homa_sock_shutdown that hold the lock.
unfoldable pub shutdown_start : HomaSock → HomaSock
shutdown_start s = record s { shutdown = true }

abbrev pub without_rpc : Interest → ReadyInterest
without_rpc i = record { interest = i; rpc = none }

unfoldable pub shutdown_finish : HomaSock → HomaSock
shutdown_finish s = record s {
  interests = [];
  ready_interests = map without_rpc s.interests ++ s.ready_interests;
}
