-- ===== src/Pool/Counting.antt =====
-- How the proofs about homa_pool.c count bpages: those with no references, and the uses of one.
use homa_module.Prelude.{
  ℕ, zero, suc, ◌+◌, ◌≤◌, ◌<◌, ◌≡◌, ◌≢◌, refl, ap, List, [], ◌∷◌, ◌++◌, arith, ◌==◌, if◌then◌else◌,
  length, get_or, set,
}
use homa_module.Pool.{Bpage, bpage_at, no_bpage}

-- How often a bpage stands among the bpages that messages use.
abbrev pub count : ℕ → List ℕ → ℕ
count p [] = 0
count p (q ∷ qs) = (if q == p then 1 else 0) + count p qs

pub count-append : (p : ℕ) (xs ys : List ℕ) → count p (xs ++ ys) ≡ count p xs + count p ys
count-append p [] ys = omega arith
count-append p (x ∷ xs) ys = omega (arith, count-append p xs ys)

pub count-le-length : (p : ℕ) (xs : List ℕ) → count p xs ≤ length xs
count-le-length p [] = omega arith
count-le-length p (x ∷ xs) = ground (arith, count-le-length p xs)

abbrev pub is_free : Bpage → ℕ
is_free b = if b.refs == 0 then 1 else 0

-- The bpages with a zero reference count.
abbrev pub zeros : List Bpage → ℕ
zeros [] = 0
zeros (b ∷ ds) = is_free b + zeros ds

-- Those among the first `k`.
abbrev pub zeros_below : List Bpage → ℕ → ℕ
zeros_below [] k = 0
zeros_below (b ∷ ds) zero = 0
zeros_below (b ∷ ds) (suc k) = is_free b + zeros_below ds k

pub zeros-set :
    (ds : List Bpage) (i : ℕ) (b : Bpage)
    → i < length ds
    → zeros (set ds i b) + is_free (bpage_at ds i) ≡ zeros ds + is_free b
zeros-set [] i b h = absurd (omega arith)
zeros-set (d ∷ ds) zero b h = omega arith
zeros-set (d ∷ ds) (suc i) b h = omega (arith, zeros-set ds i b (omega arith))

pub zeros_below-suc :
    (ds : List Bpage) (k : ℕ) → zeros_below ds (suc k) ≡ zeros_below ds k + is_free (bpage_at ds k)
zeros_below-suc [] k = refl
zeros_below-suc (d ∷ []) zero = omega arith
zeros_below-suc (d ∷ e ∷ ds) zero = omega arith
zeros_below-suc (d ∷ ds) (suc k) = omega (arith, zeros_below-suc ds k)

pub zeros_below_zero : (ds : List Bpage) → zeros_below ds 0 ≡ 0
zeros_below_zero [] = refl
zeros_below_zero (d ∷ ds) = refl

pub zeros_below_le : (ds : List Bpage) (i j : ℕ) → i ≤ j → zeros_below ds i ≤ zeros_below ds j
zeros_below_le [] i j h = omega arith
zeros_below_le (d ∷ ds) zero j h = omega arith
zeros_below_le (d ∷ ds) (suc i) zero h = absurd (omega arith)
zeros_below_le (d ∷ ds) (suc i) (suc j) h = omega (arith, zeros_below_le ds i j (omega arith))

-- Beyond the first `k` there is room for `length ds - k` more.
pub zeros-le-zeros_below :
    (ds : List Bpage) (k : ℕ) → k ≤ length ds → zeros ds + k ≤ zeros_below ds k + length ds
zeros-le-zeros_below [] zero h = omega arith
zeros-le-zeros_below [] (suc k) h = absurd (omega arith)
zeros-le-zeros_below (d ∷ ds) zero h =
    ground (arith, zeros-le-zeros_below ds 0 (omega arith), zeros_below_zero ds)
zeros-le-zeros_below (d ∷ ds) (suc k) h = omega (arith, zeros-le-zeros_below ds k (omega arith))

pub zeros-le-length : (ds : List Bpage) → zeros ds ≤ length ds
zeros-le-length [] = omega arith
zeros-le-length (d ∷ ds) = ground (arith, zeros-le-length ds)

pub bpage_at_beyond : (ds : List Bpage) (i : ℕ) → length ds ≤ i → bpage_at ds i ≡ no_bpage
bpage_at_beyond [] i h = refl
bpage_at_beyond (d ∷ ds) zero h = absurd (omega arith)
bpage_at_beyond (d ∷ ds) (suc i) h = bpage_at_beyond ds i (omega arith)

pub get_or-set_self {ℓ} :
    {A : Type ℓ} (xs : List A) (i : ℕ) (v d : A) → i < length xs → get_or (set xs i v) i d ≡ v
get_or-set_self [] i v d h = absurd (omega arith)
get_or-set_self (x ∷ xs) zero v d h = refl
get_or-set_self (x ∷ xs) (suc i) v d h = get_or-set_self xs i v d (omega arith)

pub get_or-set_ne {ℓ} :
    {A : Type ℓ} (xs : List A) (i j : ℕ) (v d : A) → i ≢ j → get_or (set xs i v) j d ≡ get_or xs j d
get_or-set_ne [] i j v d h = refl
get_or-set_ne (x ∷ xs) zero zero v d h = absurd (h refl)
get_or-set_ne (x ∷ xs) zero (suc j) v d h = refl
get_or-set_ne (x ∷ xs) (suc i) zero v d h = refl
get_or-set_ne (x ∷ xs) (suc i) (suc j) v d h = get_or-set_ne xs i j v d (λ e. h (ap suc e))
