-- ===== src/Grant/Active.antt =====
-- homa_grant_insert_active (homa_grant.c): the active RPCs, their order and their ranks.
use mathlib.Core.Path.{subst}
use homa_module.Prelude.{
  ℕ, ◌+◌, ◌≡◌, refl, sym, ap, inl, inr, true, false, List, [], ◌∷◌, ◌++◌, arith, ◌==◌, Bool-cases,
  if◌then◌else◌,
}
use homa_module.Grant.{
  GrantRpc, outranks, pass, scan_active, Ejected, nobody, eject, eject_behind, last_of_peer,
  last_active,
}

-- The entries behind `a` do not outrank it.
abbrev pub IsAhead : GrantRpc → List GrantRpc → Type 0
IsAhead a [] = Unit {0}
IsAhead a (b ∷ bs) = (outranks b a ≡ false) × IsAhead a bs

-- In order of priority; RPCs of the same rank are in either order.
abbrev pub InOrder : List GrantRpc → Type 0
InOrder [] = Unit {0}
InOrder (a ∷ above) = IsAhead a above × InOrder above

-- `rpc` outranks none of these, or all of them.
abbrev pub OutranksNone : GrantRpc → List GrantRpc → Type 0
OutranksNone rpc [] = Unit {0}
OutranksNone rpc (a ∷ above) = (outranks rpc a ≡ false) × OutranksNone rpc above

abbrev pub OutranksAll : GrantRpc → List GrantRpc → Type 0
OutranksAll rpc [] = Unit {0}
OutranksAll rpc (a ∷ others) = (outranks rpc a ≡ true) × OutranksAll rpc others

outranks_trans :
    (a b c : GrantRpc) → outranks b a ≡ false → outranks c b ≡ false → outranks c a ≡ false
unfolding outranks
outranks_trans a b c h k = ground arith

pub outranks_asym : (a b : GrantRpc) → outranks a b ≡ true → outranks b a ≡ false
unfolding outranks
outranks_asym a b h = ground arith

IsAhead-head :
    (other a : GrantRpc) (above passed others : List GrantRpc)
    → (a ∷ above) ++ passed ≡ others
    → IsAhead other others
    → outranks a other ≡ false
IsAhead-head other a above passed others e h = (subst (λ x. IsAhead other x) (sym e) h).0

-- What the backward scan finds.
pub record Split (rpc : GrantRpc) (active : List GrantRpc) (parts : List GrantRpc × List GrantRpc)
    : Type 0 where
  pub joins : parts.0 ++ parts.1 ≡ active
  pub passed : OutranksAll rpc parts.1
  pub above : InOrder active → OutranksNone rpc parts.0

pass-Split :
    (rpc other : GrantRpc) (others : List GrantRpc) (parts : List GrantRpc × List GrantRpc)
    → Split rpc others parts
    → Split rpc (other ∷ others) (pass rpc other parts)
pass-Split rpc other others ([], passed) s = elim (Bool-cases (outranks rpc other)) [
  | inl e ↦
      rw e (record { joins = ap (λ x. other ∷ x) s.joins; passed = (e, s.passed); above = λ o. tt })
  | inr e ↦
      rw e (record { joins = ap (λ x. other ∷ x) s.joins; passed = s.passed; above = λ o. (e, tt) })
]
pass-Split rpc other others (a ∷ above, passed) s = record {
  joins = ap (λ x. other ∷ x) s.joins;
  passed = s.passed;
  above = λ o.
      let rest = s.above o.1 in
      (
        outranks_trans other a rpc (IsAhead-head other a above passed others s.joins o.0) rest.0,
        rest,
      );
}

pub scan_active-Split :
    (rpc : GrantRpc) (active : List GrantRpc) → Split rpc active (scan_active rpc active)
unfolding scan_active
scan_active-Split rpc [] = record { joins = refl; passed = tt; above = λ o. tt }
scan_active-Split rpc (other ∷ others) =
    pass-Split rpc other others (scan_active rpc others) (scan_active-Split rpc others)

-- How many of these RPCs have this peer.
abbrev pub count_peer : ℕ → List GrantRpc → ℕ
count_peer q [] = 0
count_peer q (a ∷ others) = (if q == a.peer then 1 else 0) + count_peer q others

abbrev pub EjectSpec : (GrantRpc → Type 0) → Type 0 → List GrantRpc → Ejected → Type 0
EjectSpec P Q passed nobody = Q
EjectSpec P Q passed (eject before bumped after) = (before ++ (bumped ∷ after) ≡ passed) × P bumped

pub last_of_peer-EjectSpec :
    (peer : ℕ) (passed : List GrantRpc)
    → EjectSpec (λ b. b.peer ≡ peer) (count_peer peer passed ≡ 0) passed (last_of_peer peer passed)
unfolding last_of_peer
last_of_peer-EjectSpec peer [] = refl
last_of_peer-EjectSpec peer (other ∷ others) =
    go (last_of_peer peer others) (last_of_peer-EjectSpec peer others)
  where
    go :
        (e : Ejected)
        → EjectSpec (λ b. b.peer ≡ peer) (count_peer peer others ≡ 0) others e
        → EjectSpec
            (λ b. b.peer ≡ peer)
            (count_peer peer (other ∷ others) ≡ 0)
            (other ∷ others)
            (eject_behind other (other.peer == peer) others e)
    go nobody h = elim (Bool-cases (other.peer == peer)) [
      | inl e ↦ rw e (refl, ground arith)
      | inr e ↦ rw e (ground arith)
    ]
    go (eject before bumped after) h = (ap (λ x. other ∷ x) h.0, h.1)

pub last_active-EjectSpec :
    (passed : List GrantRpc) → EjectSpec (λ b. Unit {0}) (passed ≡ []) passed (last_active passed)
unfolding last_active
last_active-EjectSpec [] = refl
last_active-EjectSpec (other ∷ others) = go (last_active others) (last_active-EjectSpec others)
  where
    go :
        (e : Ejected)
        → EjectSpec (λ b. Unit {0}) (others ≡ []) others e
        → EjectSpec
            (λ b. Unit {0})
            (other ∷ others ≡ [])
            (other ∷ others)
            (eject_behind other true others e)
    go nobody h = (refl, tt)
    go (eject before bumped after) h = (ap (λ x. other ∷ x) h.0, tt)
