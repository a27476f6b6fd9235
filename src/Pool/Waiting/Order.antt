-- ===== src/Pool/Waiting/Order.antt =====
-- The queue of RPCs waiting for buffer space (homa_pool.c), and what homa_pool_check_waiting does.
use homa_module.Prelude.{
  ℕ, ◌≤◌, ◌<◌, ◌≡◌, inl, inr, refl, ap, List, [], ◌∷◌, ◌++◌, arith, ltb, Bool-cases,
}
use homa_module.Pool.{Pool, int_max}
use homa_module.Pool.Waiting.{Rpc, Sock, pages_needed, set_bpages_needed, insert_waiting, queue_rpc}

abbrev pub AllShorter : ℕ → List Rpc → Type 0
AllShorter n [] = Unit {0}
AllShorter n (r ∷ rs) = (r.len ≤ n) × AllShorter n rs

abbrev pub AllLonger : ℕ → List Rpc → Type 0
AllLonger n [] = Unit {0}
AllLonger n (r ∷ rs) = (n < r.len) × AllLonger n rs

abbrev pub AllAtLeast : ℕ → List Rpc → Type 0
AllAtLeast n [] = Unit {0}
AllAtLeast n (r ∷ rs) = (n ≤ r.len) × AllAtLeast n rs

-- Shortest message first.
abbrev pub IsSrpt : List Rpc → Type 0
IsSrpt [] = Unit {0}
IsSrpt (r ∷ rs) = AllAtLeast r.len rs × IsSrpt rs

AllLonger-weaken : (n m : ℕ) (rs : List Rpc) → n < m → AllAtLeast m rs → AllLonger n rs
AllLonger-weaken n m [] h a = tt
AllLonger-weaken n m (r ∷ rs) h a = (omega arith, AllLonger-weaken n m rs h a.1)

AllAtLeast-insert :
    (n : ℕ) (r : Rpc) (rs : List Rpc)
    → n ≤ r.len
    → AllAtLeast n rs
    → AllAtLeast n (insert_waiting r rs)
unfolding insert_waiting
AllAtLeast-insert n r [] h a = (h, tt)
AllAtLeast-insert n r (x ∷ xs) h a = elim (Bool-cases (ltb r.len x.len)) [
  | inl e ↦ rw e (h, a)
  | inr e ↦ rw e (a.0, AllAtLeast-insert n r xs h a.1)
]

AllAtLeast-trans : (n m : ℕ) (rs : List Rpc) → n ≤ m → AllAtLeast m rs → AllAtLeast n rs
AllAtLeast-trans n m [] h a = tt
AllAtLeast-trans n m (r ∷ rs) h a = (omega arith, AllAtLeast-trans n m rs h a.1)

insert_waiting-IsSrpt : (r : Rpc) (rs : List Rpc) → IsSrpt rs → IsSrpt (insert_waiting r rs)
unfolding insert_waiting
insert_waiting-IsSrpt r [] s = (tt, tt)
insert_waiting-IsSrpt r (x ∷ xs) s = elim (Bool-cases (ltb r.len x.len)) [
  | inl e ↦ rw e ((ground arith, AllAtLeast-trans r.len x.len xs (ground arith) s.0), s)
  | inr e ↦ rw e (AllAtLeast-insert x.len r xs (ground arith) s.0, insert_waiting-IsSrpt r xs s.1)
]

-- A waiting RPC is put behind all that are not longer, and in front of all that are.
insert_waiting_lem :
    (r : Rpc) (rs : List Rpc)
    → IsSrpt rs
    → (before : List Rpc) × (after : List Rpc) × (rs ≡ before ++ after)
      × (insert_waiting r rs ≡ before ++ (r ∷ after))
      × AllShorter r.len before
      × AllLonger r.len after
unfolding insert_waiting
insert_waiting_lem r [] s = ([], [], refl, refl, tt, tt)
insert_waiting_lem r (x ∷ xs) s = elim (Bool-cases (ltb r.len x.len)) [
  | inl e ↦ (
    [],
    x ∷ xs,
    refl,
    rw e,
    tt,
    (ground arith, AllLonger-weaken r.len x.len xs (ground arith) s.0),
  )
  | inr e ↦
      let (before, after, split, put, short, long) = insert_waiting_lem r xs s.1 in
      (x ∷ before, after, ap (λ l. x ∷ l) split, rw (e, put), (ground arith, short), long)
]

-- What set_bpages_needed computes; INT_MAX for an empty list.
abbrev pub needed_for : List Rpc → ℕ
needed_for [] = int_max
needed_for (r ∷ rs) = pages_needed r.len

-- The socket's waiting list is in order, and the pool knows what its first entry needs.
pub record IsQueued (sk : Sock) : Type 0 where
  pub srpt : IsSrpt sk.waiting_for_bufs
  pub needed : sk.pool.bpages_needed ≡ needed_for sk.waiting_for_bufs

pub set_bpages_needed_lem :
    (p : Pool) (rs : List Rpc) → (set_bpages_needed p rs).bpages_needed ≡ needed_for rs
unfolding set_bpages_needed
set_bpages_needed_lem p [] = refl
set_bpages_needed_lem p (r ∷ rs) = refl

-- An RPC that finds no buffers is queued, without buffers, behind the waiting RPCs that are not longer
-- and in front of the longer ones; the list stays in order and `bpages_needed` is that of its new head.
pub queue_rpc_lem :
    (sk : Sock) (p : Pool) (rpc : Rpc)
    → IsSrpt sk.waiting_for_bufs
    → IsQueued (queue_rpc sk p rpc)
      × (before : List Rpc) × (after : List Rpc) × (sk.waiting_for_bufs ≡ before ++ after)
      × ((queue_rpc sk p rpc).waiting_for_bufs
          ≡ before ++ (record rpc { bpage_offsets = [] } ∷ after))
      × AllShorter rpc.len before
      × AllLonger rpc.len after
unfolding queue_rpc
queue_rpc_lem sk p rpc s =
    let (before, after, split, put, short, long) =
      insert_waiting_lem (record rpc { bpage_offsets = [] }) sk.waiting_for_bufs s in
    (
      record {
        srpt = insert_waiting-IsSrpt (record rpc { bpage_offsets = [] }) sk.waiting_for_bufs s;
        needed = set_bpages_needed_lem p _;
      },
      before,
      after,
      split,
      put,
      short,
      long,
    )
