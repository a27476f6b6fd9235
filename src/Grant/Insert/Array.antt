-- ===== src/Grant/Insert/Array.antt =====
-- The array that homa_grant_insert_active (homa_grant.c) leaves: its ranks, counts and order.
use mathlib.Core.List.{map-append}
use mathlib.Core.Path.{subst}
use homa_module.Prelude.{
  ℕ, suc, ◌+◌, ◌≤◌, ◌≡◌, refl, sym, ap, ◌∙◌, ◌↔◌, true, false, none, some, List, [], ◌∷◌, ◌++◌, map,
  arith, ◌==◌, length, length-append, if◌then◌else◌,
}
use homa_module.Grant.{GrantRpc, Grant, outranks, move_down, put_active}
use homa_module.Grant.Active.{
  IsAhead, InOrder, OutranksNone, OutranksAll, outranks_asym, count_peer,
}

-- An RPC apart from its rank.
abbrev pub unranked : GrantRpc → GrantRpc
unranked a = record a { rank = none }

abbrev pub HasRanks : ℕ → List GrantRpc → Type 0
HasRanks n [] = Unit {0}
HasRanks n (a ∷ others) = (a.rank ≡ some n) × HasRanks (n + 1) others

-- The state that the grant lock protects: ranks are positions, and the peers' counts are right.
pub record IsActive (g : Grant) : Type 0 where
  pub ranks : HasRanks 0 g.active_rpcs
  pub counts : (q : ℕ) → g.peer_active q ≡ count_peer q g.active_rpcs
  pub per_peer : (q : ℕ) → g.peer_active q ≤ g.max_rpcs_per_peer
  pub few : length g.active_rpcs ≤ g.max_overcommit

pub HasRanks-append :
    (n : ℕ) (above rest : List GrantRpc)
    → HasRanks n above
    → HasRanks (n + length above) rest
    → HasRanks n (above ++ rest)
HasRanks-append n [] rest h k = subst (λ i. HasRanks i rest) (omega arith) k
HasRanks-append n (a ∷ above) rest h k =
    (h.0, HasRanks-append (n + 1) above rest h.1 (subst (λ i. HasRanks i rest) (omega arith) k))

pub HasRanks-split :
    (n : ℕ) (above rest : List GrantRpc)
    → HasRanks n (above ++ rest)
    → HasRanks n above × HasRanks (n + length above) rest
HasRanks-split n [] rest h = (tt, subst (λ i. HasRanks i rest) (omega arith) h)
HasRanks-split n (a ∷ above) rest h =
    let (ha, hr) = HasRanks-split (n + 1) above rest h.1 in
    ((h.0, ha), subst (λ i. HasRanks i rest) (omega arith) hr)

pub move_down-HasRanks : (n : ℕ) (others : List GrantRpc) → HasRanks n (move_down n others)
unfolding move_down
move_down-HasRanks n [] = tt
move_down-HasRanks n (a ∷ others) = (refl, move_down-HasRanks (n + 1) others)

pub length-move_down :
    (n : ℕ) (others : List GrantRpc) → length (move_down n others) ≡ length others
unfolding move_down
length-move_down n [] = refl
length-move_down n (a ∷ others) = ap suc (length-move_down (n + 1) others)

pub move_down-unranked :
    (n : ℕ) (others : List GrantRpc) → map unranked (move_down n others) ≡ map unranked others
unfolding move_down
move_down-unranked n [] = refl
move_down-unranked n (a ∷ others) = ap (λ x. unranked a ∷ x) (move_down-unranked (n + 1) others)

pub count_peer-unranked :
    (q : ℕ) (others : List GrantRpc) → count_peer q (map unranked others) ≡ count_peer q others
count_peer-unranked q [] = refl
count_peer-unranked q (a ∷ others) =
    ap (λ n. (if q == a.peer then 1 else 0) + n) (count_peer-unranked q others)

pub count_peer-append :
    (q : ℕ) (xs ys : List GrantRpc) → count_peer q (xs ++ ys) ≡ count_peer q xs + count_peer q ys
count_peer-append q [] ys = omega arith
count_peer-append q (a ∷ xs) ys = omega (arith, count_peer-append q xs ys)

IsAhead-unranked :
    (a : GrantRpc) (others : List GrantRpc) → IsAhead a (map unranked others) ↔ IsAhead a others
unfolding outranks
IsAhead-unranked a [] = (λ h. h, λ h. h)
IsAhead-unranked a (b ∷ others) =
    (λ h. (h.0, (IsAhead-unranked a others).0 h.1), λ h. (h.0, (IsAhead-unranked a others).1 h.1))

unranked-IsAhead :
    (a : GrantRpc) (others : List GrantRpc) → IsAhead (unranked a) others ↔ IsAhead a others
unfolding outranks
unranked-IsAhead a [] = (λ h. h, λ h. h)
unranked-IsAhead a (b ∷ others) =
    (λ h. (h.0, (unranked-IsAhead a others).0 h.1), λ h. (h.0, (unranked-IsAhead a others).1 h.1))

pub InOrder-unranked : (others : List GrantRpc) → InOrder (map unranked others) → InOrder others
InOrder-unranked [] h = tt
InOrder-unranked (a ∷ others) h = (
  (IsAhead-unranked a others).0 ((unranked-IsAhead a (map unranked others)).0 h.0),
  InOrder-unranked others h.1,
)

pub unranked-InOrder : (others : List GrantRpc) → InOrder others → InOrder (map unranked others)
unranked-InOrder [] h = tt
unranked-InOrder (a ∷ others) h = (
  (unranked-IsAhead a (map unranked others)).1 ((IsAhead-unranked a others).1 h.0),
  unranked-InOrder others h.1,
)

-- The new array, apart from the ranks.
pub put_active-unranked :
    (g : Grant) (rpc : GrantRpc) (above before after : List GrantRpc) (counts : ℕ → ℕ)
    → map unranked (put_active g rpc above before after counts).active_rpcs
      ≡ map unranked (above ++ (rpc ∷ before ++ after))
unfolding put_active
put_active-unranked g rpc above before after counts =
    map-append unranked above _
    ∙ ap (λ x. map unranked above ++ (unranked rpc ∷ x))
        (map-append unranked (move_down (length above + 1) before) after
          ∙ ap (λ x. x ++ map unranked after) (move_down-unranked (length above + 1) before)
          ∙ sym (map-append unranked before after))
    ∙ sym (map-append unranked above (rpc ∷ before ++ after))

pub put_active-HasRanks :
    (g : Grant) (rpc : GrantRpc) (above before after : List GrantRpc) (counts : ℕ → ℕ)
    → HasRanks 0 above
    → HasRanks (length above + 1 + length before) after
    → HasRanks 0 (put_active g rpc above before after counts).active_rpcs
unfolding put_active
put_active-HasRanks g rpc above before after counts h k =
    let after_ranks =
      subst (λ i. HasRanks i after) (omega (arith, length-move_down (length above + 1) before)) k in
    let moved =
      HasRanks-append (length above + 1) (move_down (length above + 1) before) after
        (move_down-HasRanks (length above + 1) before) after_ranks in
    HasRanks-append 0 above _ h (
      subst
        (λ i. HasRanks i (
          record rpc { rank = some (length above) } ∷ move_down (length above + 1) before ++ after))
        (omega arith) (refl, moved))

pub length-put_active :
    (g : Grant) (rpc : GrantRpc) (above before after : List GrantRpc) (counts : ℕ → ℕ)
    → length (put_active g rpc above before after counts).active_rpcs
      ≡ length above + 1 + length before + length after
unfolding put_active
length-put_active g rpc above before after counts =
    rw (length-append above, length-append (move_down (length above + 1) before), length-move_down)
      (omega arith)

-- The numbers of RPCs of a peer in the new array.
pub count_peer-put_active :
    (g : Grant) (rpc : GrantRpc) (above before after : List GrantRpc) (counts : ℕ → ℕ) (q : ℕ)
    → count_peer q (put_active g rpc above before after counts).active_rpcs
      ≡ (if q == rpc.peer then 1 else 0)
        + count_peer q above
        + count_peer q before
        + count_peer q after
count_peer-put_active g rpc above before after counts q =
    let unranked_eq =
      sym (count_peer-unranked q (put_active g rpc above before after counts).active_rpcs)
      ∙ ap (count_peer q) (put_active-unranked g rpc above before after counts)
      ∙ count_peer-unranked q (above ++ (rpc ∷ before ++ after)) in
    omega (
      arith,
      unranked_eq,
      count_peer-append q above (rpc ∷ before ++ after),
      count_peer-append q before after,
    )

IsAhead-insert :
    (a rpc : GrantRpc) (above rest : List GrantRpc)
    → IsAhead a (above ++ rest)
    → outranks rpc a ≡ false
    → IsAhead a (above ++ (rpc ∷ rest))
IsAhead-insert a rpc [] rest h e = (e, h)
IsAhead-insert a rpc (b ∷ above) rest h e = (h.0, IsAhead-insert a rpc above rest h.1 e)

OutranksAll-IsAhead :
    (rpc : GrantRpc) (rest : List GrantRpc) → OutranksAll rpc rest → IsAhead rpc rest
OutranksAll-IsAhead rpc [] h = tt
OutranksAll-IsAhead rpc (b ∷ rest) h = (outranks_asym rpc b h.0, OutranksAll-IsAhead rpc rest h.1)

pub InOrder-insert :
    (rpc : GrantRpc) (above rest : List GrantRpc)
    → InOrder (above ++ rest)
    → OutranksNone rpc above
    → OutranksAll rpc rest
    → InOrder (above ++ (rpc ∷ rest))
InOrder-insert rpc [] rest o n h = (OutranksAll-IsAhead rpc rest h, o)
InOrder-insert rpc (a ∷ above) rest o n h =
    (IsAhead-insert a rpc above rest o.0 n.0, InOrder-insert rpc above rest o.1 n.1 h)

IsAhead-remove :
    (a b : GrantRpc) (before after : List GrantRpc)
    → IsAhead a (before ++ (b ∷ after))
    → IsAhead a (before ++ after)
IsAhead-remove a b [] after h = h.1
IsAhead-remove a b (c ∷ before) after h = (h.0, IsAhead-remove a b before after h.1)

pub InOrder-remove :
    (b : GrantRpc) (before after : List GrantRpc)
    → InOrder (before ++ (b ∷ after))
    → InOrder (before ++ after)
InOrder-remove b [] after o = o.1
InOrder-remove b (a ∷ before) after o =
    (IsAhead-remove a b before after o.0, InOrder-remove b before after o.1)

pub OutranksAll-remove :
    (rpc b : GrantRpc) (before after : List GrantRpc)
    → OutranksAll rpc (before ++ (b ∷ after))
    → OutranksAll rpc (before ++ after) × (outranks rpc b ≡ true)
OutranksAll-remove rpc b [] after h = (h.1, h.0)
OutranksAll-remove rpc b (c ∷ before) after h =
    let (rest, e) = OutranksAll-remove rpc b before after h.1 in ((h.0, rest), e)
