-- ===== src/Prelude/Counts.antt =====
-- How often a number is in a list.
use Prim.Native.Nat.{ℕ, ◌+◌, ◌≤◌}
use mathlib.Core.Path.{◌≡◌, ap}
use mathlib.Core.Logic.{◌⊎◌, inl, inr}
use mathlib.Core.Bool.{Bool, true}
use mathlib.Core.List.{List, [], ◌∷◌, ◌++◌}
use native.Mathlib.Omega.{arith}
use homa_module.Prelude.Tests.{◌==◌, if◌then◌else◌, Bool-cases}

abbrev pub one_if : Bool → ℕ
one_if b = if b then 1 else 0

abbrev pub count : ℕ → List ℕ → ℕ
count q [] = 0
count q (r ∷ rs) = one_if (r == q) + count q rs

pub count-append : (q : ℕ) (xs ys : List ℕ) → count q (xs ++ ys) ≡ count q xs + count q ys
count-append q [] ys = omega arith
count-append q (x ∷ xs) ys = omega (arith, count-append q xs ys)

pub ==-same : (r rpc : ℕ) → (r == rpc) ≡ true → r ≡ rpc
==-same r rpc e = ground (arith, e)

pub ==-refl : (x : ℕ) → (x == x) ≡ true
==-refl x = ground arith

pub among : (w v : ℕ) (vs : List ℕ) → 1 ≤ count w (v ∷ vs) → (v ≡ w) ⊎ (1 ≤ count w vs)
among w v vs h = elim (Bool-cases (v == w)) [
  | inl e ↦ inl (==-same v w e)
  | inr e ↦ inr (omega (arith, h, ap one_if e))
]

pub count-head : (v : ℕ) (vs : List ℕ) → count v (v ∷ vs) ≡ 1 + count v vs
count-head v vs = omega (arith, ap one_if (==-refl v))
