-- ===== src/Grant/Oldest.antt =====
-- homa_grant_find_oldest (homa_grant.c): the RPC that gets the next FIFO grant.
use mathlib.Core.List.{append_assoc, append-nil}
use mathlib.Core.Path.{subst}
use homa_module.Prelude.{
  ℕ, ◌+◌, ◌-◌, ◌*◌, ◌≤◌, ◌<◌, ◌≡◌, refl, sym, ap, ◌∙◌, ◌⊎◌, inl, inr, Option, none, some, List, [],
  ◌∷◌, ◌++◌, arith, leb, leb→le, drop, if◌then◌else◌, Bool-cases,
}
use homa_module.Pool.{u64_mod}
use homa_module.Grant.{GrantRpc, Grant}
use homa_module.Grant.Grantable.Contents.{contents}

-- `oldest` and `oldest_birth`.
abbrev pub Choice : Type 0
Choice = Option GrantRpc × ℕ

-- One RPC: it must be older, and have less than `max_incoming` bytes granted that have not arrived.
unfoldable pub consider : ℕ → Choice → GrantRpc → Choice
consider max_incoming (oldest, oldest_birth) rpc =
    if leb oldest_birth rpc.birth
    then (oldest, oldest_birth)
    else if leb max_incoming rpc.rec_incoming
    then (oldest, oldest_birth)
    else (some rpc, rpc.birth)

-- Both loops.
unfoldable pub scan_oldest : ℕ → Choice → List GrantRpc → Choice
unfolding consider
scan_oldest max_incoming choice [] = choice
scan_oldest max_incoming choice (rpc ∷ rpcs) =
    scan_oldest max_incoming (consider max_incoming choice rpc) rpcs

abbrev pub fifo_limit : Grant → ℕ
fifo_limit g = g.window + 2 * g.fifo_grant_increment

-- homa_grant_find_oldest: the RPCs of the grantable lists, then the active ones without the first.
unfoldable pub find_oldest : Grant → Option GrantRpc
unfolding scan_oldest
find_oldest g =
    (scan_oldest (fifo_limit g)
      (scan_oldest (fifo_limit g) (none, u64_mod - 1) (contents g.grantable_peers))
      (drop 1 g.active_rpcs)).0

abbrev pub EachRpc : (GrantRpc → Type 0) → List GrantRpc → Type 0
EachRpc P [] = Unit {0}
EachRpc P (a ∷ others) = P a × EachRpc P others

-- The RPCs that it looks at.
abbrev pub candidates : Grant → List GrantRpc
candidates g = contents g.grantable_peers ++ drop 1 g.active_rpcs

-- Not to be chosen before one born at `birth`.
abbrev pub IsNotBefore : ℕ → ℕ → GrantRpc → Type 0
IsNotBefore max_incoming birth a = (max_incoming ≤ a.rec_incoming) ⊎ (birth ≤ a.birth)

EachRpc-map :
    (P Q : GrantRpc → Type 0) (xs : List GrantRpc)
    → ((a : GrantRpc) → P a → Q a)
    → EachRpc P xs
    → EachRpc Q xs
EachRpc-map P Q [] f h = tt
EachRpc-map P Q (a ∷ xs) f h = (f a h.0, EachRpc-map P Q xs f h.1)

EachRpc-append :
    (P : GrantRpc → Type 0) (xs ys : List GrantRpc)
    → EachRpc P xs
    → EachRpc P ys
    → EachRpc P (xs ++ ys)
EachRpc-append P [] ys h k = k
EachRpc-append P (a ∷ xs) ys h k = (h.0, EachRpc-append P xs ys h.1 k)

-- A choice among RPCs seen so far: none born before 2 ^ 64 - 1 that may be had, or the first born, at a
-- place between two parts of those seen.
abbrev pub IsChosen : ℕ → List GrantRpc → Choice → Type 0
IsChosen max_incoming seen (none, birth) =
    (birth ≡ u64_mod - 1) × EachRpc (IsNotBefore max_incoming (u64_mod - 1)) seen
IsChosen max_incoming seen (some r, birth) =
    (birth ≡ r.birth)
    × (r.rec_incoming < max_incoming)
    × EachRpc (IsNotBefore max_incoming r.birth) seen
    × ((before : List GrantRpc) × (after : List GrantRpc) × (before ++ (r ∷ after) ≡ seen))

consider-IsChosen :
    (max_incoming : ℕ) (seen : List GrantRpc) (choice : Choice) (rpc : GrantRpc)
    → IsChosen max_incoming seen choice
    → IsChosen max_incoming (seen ++ (rpc ∷ [])) (consider max_incoming choice rpc)
unfolding consider
consider-IsChosen max_incoming seen (oldest, birth) rpc h =
    elim (Bool-cases (leb birth rpc.birth)) [
      | inl e ↦ rw e (keep oldest h (inr (leb→le _ _ e)))
      | inr e ↦ elim (Bool-cases (leb max_incoming rpc.rec_incoming)) [
        | inl k ↦ rw (e, k) (keep oldest h (inl (leb→le _ _ k)))
        | inr k ↦
            rw (e, k)
              (
                refl,
                ground arith,
                EachRpc-append (IsNotBefore max_incoming rpc.birth) seen (rpc ∷ [])
                    (older oldest h (ground arith)) (inr (omega arith), tt),
                (seen, [], refl),
              )
      ]
    ]
  where
    keep :
        (o : Option GrantRpc)
        → IsChosen max_incoming seen (o, birth)
        → IsNotBefore max_incoming birth rpc
        → IsChosen max_incoming (seen ++ (rpc ∷ [])) (o, birth)
    keep none c n = (
      c.0,
      EachRpc-append (IsNotBefore max_incoming (u64_mod - 1)) seen (rpc ∷ []) c.1
          (subst (λ b. IsNotBefore max_incoming b rpc) c.0 n, tt),
    )
    keep (some r) (eq, fits, all, (before, after, e)) n = (
      eq,
      fits,
      EachRpc-append (IsNotBefore max_incoming r.birth) seen (rpc ∷ []) all
          (subst (λ b. IsNotBefore max_incoming b rpc) eq n, tt),
      (
        before,
        after ++ (rpc ∷ []),
        sym (append_assoc before (r ∷ after) (rpc ∷ [])) ∙ ap (λ l. l ++ (rpc ∷ [])) e,
      ),
    )

    older :
        (o : Option GrantRpc)
        → IsChosen max_incoming seen (o, birth)
        → rpc.birth < birth
        → EachRpc (IsNotBefore max_incoming rpc.birth) seen
    older none c lt =
        EachRpc-map (IsNotBefore max_incoming (u64_mod - 1)) (IsNotBefore max_incoming rpc.birth)
          seen (λ a n. ground (arith, n, lt, c.0)) c.1
    older (some r) (eq, fits, all, place) lt =
        EachRpc-map (IsNotBefore max_incoming r.birth) (IsNotBefore max_incoming rpc.birth) seen
          (λ a n. ground (arith, n, lt, eq)) all

scan_oldest-IsChosen :
    (max_incoming : ℕ) (seen : List GrantRpc) (choice : Choice) (rpcs : List GrantRpc)
    → IsChosen max_incoming seen choice
    → IsChosen max_incoming (seen ++ rpcs) (scan_oldest max_incoming choice rpcs)
unfolding scan_oldest
scan_oldest-IsChosen max_incoming seen choice [] h = rw append-nil h
scan_oldest-IsChosen max_incoming seen choice (rpc ∷ rpcs) h =
    subst
      (λ l.
        IsChosen max_incoming l (scan_oldest max_incoming (consider max_incoming choice rpc) rpcs))
      (append_assoc seen (rpc ∷ []) rpcs)
      (scan_oldest-IsChosen max_incoming (seen ++ (rpc ∷ [])) (consider max_incoming choice rpc)
        rpcs (consider-IsChosen max_incoming seen choice rpc h))

-- What homa_grant_find_oldest returns.
abbrev pub OldestSpec : Grant → Option GrantRpc → Type 0
OldestSpec g none = EachRpc (IsNotBefore (fifo_limit g) (u64_mod - 1)) (candidates g)
OldestSpec g (some r) =
    (r.rec_incoming < fifo_limit g)
    × EachRpc (IsNotBefore (fifo_limit g) r.birth) (candidates g)
    × ((before : List GrantRpc) × (after : List GrantRpc) × (before ++ (r ∷ after) ≡ candidates g))

-- homa_grant_find_oldest looks at the RPCs in the grantable lists and at the active ones but the first. It
-- returns one of these that has less than the limit granted and not arrived, and no other such RPC was born
-- before it; or none, and then each of them has reached the limit or has the last possible time of birth.
pub find_oldest_lem : (g : Grant) → OldestSpec g (find_oldest g)
unfolding find_oldest
find_oldest_lem g =
    let waiting =
      scan_oldest-IsChosen (fifo_limit g) [] (none, u64_mod - 1) (contents g.grantable_peers)
        (refl, tt) in
    let all =
      scan_oldest-IsChosen (fifo_limit g) (contents g.grantable_peers)
        (scan_oldest (fifo_limit g) (none, u64_mod - 1) (contents g.grantable_peers))
        (drop 1 g.active_rpcs) waiting in
    go
      (scan_oldest (fifo_limit g)
        (scan_oldest (fifo_limit g) (none, u64_mod - 1) (contents g.grantable_peers))
        (drop 1 g.active_rpcs))
      all
  where
    go : (c : Choice) → IsChosen (fifo_limit g) (candidates g) c → OldestSpec g c.0
    go (none, birth) h = h.1
    go (some r, birth) (eq, fits, all, place) = (fits, all, place)
