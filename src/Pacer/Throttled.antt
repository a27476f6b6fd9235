-- ===== src/Pacer/Throttled.antt =====
-- The queue of throttled RPCs: homa_pacer_manage_rpc and homa_pacer_unmanage_rpc (homa_pacer.c).
use homa_module.Prelude.{
  ℕ, ◌≤◌, ◌≡◌, ◌≢◌, refl, sym, ◌∙◌, ◌⊎◌, inl, inr, true, false, List, [], ◌∷◌, arith, ltb, ◌==◌,
  Bool-cases, Each, Each-map, IsAmong,
}
use homa_module.Pacer.{
  Pacer, is_throttled, insert_throttled, pacer_manage_rpc, remove_throttled, pacer_unmanage_rpc,
}

-- Each RPC once, those with fewer bytes left in front.
abbrev pub IsQueue : (ℕ → ℕ) → List ℕ → Type 0
IsQueue bytes_left [] = Unit {0}
IsQueue bytes_left (rpc ∷ rpcs) =
    Each (λ c. (bytes_left rpc ≤ bytes_left c) × (c ≢ rpc)) rpcs × IsQueue bytes_left rpcs

-- The same RPCs, but for `rpc`, which is among the new ones or not.
abbrev pub WithRpc : ℕ → List ℕ → List ℕ → Type 0
WithRpc rpc old new =
    IsAmong rpc new
    × ((x : ℕ) → x ≢ rpc → (IsAmong x old → IsAmong x new) × (IsAmong x new → IsAmong x old))

abbrev pub WithoutRpc : ℕ → List ℕ → List ℕ → Type 0
WithoutRpc rpc old new =
    Each (λ c. c ≢ rpc) new
    × ((x : ℕ) → x ≢ rpc → (IsAmong x old → IsAmong x new) × (IsAmong x new → IsAmong x old))

is_throttled-cases :
    (rpc : ℕ) (rpcs : List ℕ)
    → ((is_throttled rpc rpcs ≡ true) × IsAmong rpc rpcs)
      ⊎ ((is_throttled rpc rpcs ≡ false) × Each (λ c. c ≢ rpc) rpcs)
is_throttled-cases rpc [] = inr (refl, tt)
is_throttled-cases rpc (cur ∷ rpcs) = elim (Bool-cases (cur == rpc)) [
  | inl e ↦ rw e (inl (refl, inl (ground (arith, e))))
  | inr e ↦ rw e (go (ground (arith, e)) (is_throttled-cases rpc rpcs))
]
  where
    go :
        cur ≢ rpc
        → ((is_throttled rpc rpcs ≡ true) × IsAmong rpc rpcs)
          ⊎ ((is_throttled rpc rpcs ≡ false) × Each (λ c. c ≢ rpc) rpcs)
        → ((is_throttled rpc rpcs ≡ true) × IsAmong rpc (cur ∷ rpcs))
          ⊎ ((is_throttled rpc rpcs ≡ false) × Each (λ c. c ≢ rpc) (cur ∷ rpcs))
    go n (inl (t, m)) = inl (t, inr m)
    go n (inr (t, m)) = inr (t, (n, m))

behind :
    (c x : ℕ) (xs ys : List ℕ)
    → (IsAmong x xs → IsAmong x ys)
    → IsAmong x (c ∷ xs)
    → IsAmong x (c ∷ ys)
behind c x xs ys f (inl e) = inl e
behind c x xs ys f (inr h) = inr (f h)

module _ (bytes_left : ℕ → ℕ) (rpc bytes : ℕ) where
  insert_throttled-Each :
      (P : ℕ → Type 0) (rpcs : List ℕ)
      → P rpc
      → Each P rpcs
      → Each P (insert_throttled bytes_left rpc bytes rpcs)
  unfolding insert_throttled
  insert_throttled-Each P [] p h = (p, tt)
  insert_throttled-Each P (c ∷ rpcs) p h = elim (Bool-cases (ltb bytes (bytes_left c))) [
    | inl e ↦ rw e (p, h)
    | inr e ↦ rw e (h.0, insert_throttled-Each P rpcs p h.1)
  ]

  insert_throttled-IsQueue :
      (rpcs : List ℕ)
      → bytes_left rpc ≡ bytes
      → Each (λ c. c ≢ rpc) rpcs
      → IsQueue bytes_left rpcs
      → IsQueue bytes_left (insert_throttled bytes_left rpc bytes rpcs)
  unfolding insert_throttled
  insert_throttled-IsQueue [] b n q = (tt, tt)
  insert_throttled-IsQueue (c ∷ rpcs) b n q = elim (Bool-cases (ltb bytes (bytes_left c))) [
    | inl e ↦ rw e ((all_more e), q)
    | inr e ↦ rw e (
      insert_throttled-Each (λ d. (bytes_left c ≤ bytes_left d) × (d ≢ c)) rpcs
          (ground (arith, e, b), λ same. n.0 (sym same)) q.0,
      insert_throttled-IsQueue rpcs b n.1 q.1,
    )
  ]
    where
      both :
          (ds : List ℕ)
          → ltb bytes (bytes_left c) ≡ true
          → Each (λ d. d ≢ rpc) ds
          → Each (λ d. (bytes_left c ≤ bytes_left d) × (d ≢ c)) ds
          → Each (λ d. (bytes_left rpc ≤ bytes_left d) × (d ≢ rpc)) ds
      both [] e m k = tt
      both (d ∷ ds) e m k = ((ground (arith, e, b, k.0.0), m.0), both ds e m.1 k.1)

      all_more :
          ltb bytes (bytes_left c) ≡ true
          → Each (λ d. (bytes_left rpc ≤ bytes_left d) × (d ≢ rpc)) (c ∷ rpcs)
      all_more e = ((ground (arith, e, b), n.0), both rpcs e n.1 q.0)

  insert_throttled-WithRpc :
      (rpcs : List ℕ) → WithRpc rpc rpcs (insert_throttled bytes_left rpc bytes rpcs)
  unfolding insert_throttled
  insert_throttled-WithRpc [] =
      (inl refl, λ x n. (λ h. absurd h, λ h. elim h [ inl e ↦ absurd (n (sym e)) | inr k ↦ k ]))
  insert_throttled-WithRpc (c ∷ rpcs) = elim (Bool-cases (ltb bytes (bytes_left c))) [
    | inl e ↦
        rw e (inl refl, λ x n. (λ h. inr h, λ h. elim h [ inl k ↦ absurd (n (sym k)) | inr k ↦ k ]))
    | inr e ↦
        let (m, same) = insert_throttled-WithRpc rpcs in
        rw e (inr m, λ x n. (behind c x _ _ (same x n).0, behind c x _ _ (same x n).1))
  ]

-- homa_pacer_manage_rpc puts the RPC into the queue, if it is not there, and no other RPC comes or goes. The
-- queue has each RPC once and those with fewer bytes left in front, if it was so before and the RPC has as
-- many bytes left as are given.
pacer_manage_rpc_lem :
    (bytes_left : ℕ → ℕ) (p : Pacer) (rpc bytes : ℕ)
    → bytes_left rpc ≡ bytes
    → IsQueue bytes_left p.throttled_rpcs
    → let queue = (pacer_manage_rpc bytes_left p rpc bytes).throttled_rpcs in
      IsQueue bytes_left queue × WithRpc rpc p.throttled_rpcs queue
unfolding pacer_manage_rpc
pacer_manage_rpc_lem bytes_left p rpc bytes b q = elim (is_throttled-cases rpc p.throttled_rpcs) [
  | inl (t, m) ↦ rw t (q, (m, λ x n. (λ h. h, λ h. h)))
  | inr (t, n) ↦ rw t (
    insert_throttled-IsQueue bytes_left rpc bytes p.throttled_rpcs b n q,
    insert_throttled-WithRpc bytes_left rpc bytes p.throttled_rpcs,
  )
]

remove_throttled-Each :
    (P : ℕ → Type 0) (rpc : ℕ) (rpcs : List ℕ) → Each P rpcs → Each P (remove_throttled rpc rpcs)
unfolding remove_throttled
remove_throttled-Each P rpc [] h = tt
remove_throttled-Each P rpc (c ∷ rpcs) h = elim (Bool-cases (c == rpc)) [
  | inl e ↦ rw e (h.1)
  | inr e ↦ rw e (h.0, remove_throttled-Each P rpc rpcs h.1)
]

remove_throttled-IsQueue :
    (bytes_left : ℕ → ℕ) (rpc : ℕ) (rpcs : List ℕ)
    → IsQueue bytes_left rpcs
    → IsQueue bytes_left (remove_throttled rpc rpcs)
      × WithoutRpc rpc rpcs (remove_throttled rpc rpcs)
unfolding remove_throttled
remove_throttled-IsQueue bytes_left rpc [] q = (tt, (tt, λ x n. (λ h. h, λ h. h)))
remove_throttled-IsQueue bytes_left rpc (c ∷ rpcs) q = elim (Bool-cases (c == rpc)) [
  | inl e ↦
      let same : c ≡ rpc = ground (arith, e) in
      rw e (
        q.1,
        (
          Each-map _ (λ d. d ≢ rpc) rpcs (λ d k eq. k.1 (eq ∙ sym same)) q.0,
          λ x n. (front x n same, λ h. inr h),
        ),
      )
  | inr e ↦
      let (r, (gone, others)) = remove_throttled-IsQueue bytes_left rpc rpcs q.1 in
      rw e (
        (remove_throttled-Each (λ d. (bytes_left c ≤ bytes_left d) × (d ≢ c)) rpc rpcs q.0, r),
        (
          (ground (arith, e), gone),
          λ x n. (behind c x _ _ (others x n).0, behind c x _ _ (others x n).1),
        ),
      )
]
  where
    front : (x : ℕ) → x ≢ rpc → c ≡ rpc → IsAmong x (c ∷ rpcs) → IsAmong x rpcs
    front x n same (inl e) = absurd (n (sym e ∙ same))
    front x n same (inr h) = h

-- homa_pacer_unmanage_rpc takes the RPC out of the queue, if it is there, and no other RPC comes or goes. The
-- queue has each RPC once and those with fewer bytes left in front, as it was before.
pacer_unmanage_rpc_lem :
    (bytes_left : ℕ → ℕ) (p : Pacer) (rpc : ℕ)
    → IsQueue bytes_left p.throttled_rpcs
    → let queue = (pacer_unmanage_rpc p rpc).throttled_rpcs in
      IsQueue bytes_left queue × WithoutRpc rpc p.throttled_rpcs queue
unfolding pacer_unmanage_rpc
pacer_unmanage_rpc_lem bytes_left p rpc q = elim (is_throttled-cases rpc p.throttled_rpcs) [
  | inl (t, m) ↦ rw t (remove_throttled-IsQueue bytes_left rpc p.throttled_rpcs q)
  | inr (t, n) ↦ rw t (q, (n, λ x k. (λ h. h, λ h. h)))
]

-- Where the queue has each RPC once and those with fewer bytes left in front, homa_pacer_manage_rpc and
-- homa_pacer_unmanage_rpc keep it so, if the RPC that is added has as many bytes left as are given. The first
-- puts the RPC into the queue, if it is not there, the second takes it out, if it is there, and no other RPC
-- comes or goes.
pub throttled_lem :
    (bytes_left : ℕ → ℕ) (p : Pacer) (rpc bytes gone : ℕ)
    → bytes_left rpc ≡ bytes
    → IsQueue bytes_left p.throttled_rpcs
    → let more = (pacer_manage_rpc bytes_left p rpc bytes).throttled_rpcs in
      let fewer = (pacer_unmanage_rpc p gone).throttled_rpcs in
      (IsQueue bytes_left more × WithRpc rpc p.throttled_rpcs more)
      × (IsQueue bytes_left fewer × WithoutRpc gone p.throttled_rpcs fewer)
throttled_lem bytes_left p rpc bytes gone b q =
    (pacer_manage_rpc_lem bytes_left p rpc bytes b q, pacer_unmanage_rpc_lem bytes_left p gone q)

-- Whatever the order of the queue.
pub pacer_manage_rpc-IsAmong :
    (bytes_left : ℕ → ℕ) (p : Pacer) (rpc bytes : ℕ)
    → IsAmong rpc (pacer_manage_rpc bytes_left p rpc bytes).throttled_rpcs
unfolding pacer_manage_rpc
pacer_manage_rpc-IsAmong bytes_left p rpc bytes = elim (is_throttled-cases rpc p.throttled_rpcs) [
  | inl (t, m) ↦ rw t m
  | inr (t, n) ↦ rw t (insert_throttled-WithRpc bytes_left rpc bytes p.throttled_rpcs).0
]
