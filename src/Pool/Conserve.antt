-- ===== src/Pool/Conserve.antt =====
-- The account that homa_pool.c keeps of its bpages: reference counts, owners and `free_bpages`.
-- `uses` lists the bpage of each buffer that a message holds, once for each buffer.
use homa_module.Prelude.{
  ℕ, ◌+◌, ◌≤◌, ◌<◌, ◌≡◌, ◌≢◌, ◌⊎◌, inl, inr, refl, sym, ◌∙◌, Bool, true, false, Option, none, some,
  List, ◌++◌, arith, ltb, if◌then◌else◌, Bool-cases, length, set, ℕ_discrete,
}
use homa_module.Pool.{
  Bpage, Pool, Request, Scan, got, no_space, is_some, bpage_at, no_bpage, bpage_available, claimed,
  scan_fuel, start_scan, store_scan, finish, get_pages,
}
use homa_module.Pool.Counting.{count, count-append, zeros, get_or-set_self, get_or-set_ne}
use homa_module.Pool.Search.{OwnersCounted, Searched, scan-Searched}
use homa_module.Pool.Search.Ends.{cost-lt-scan_fuel, scan_ends}

abbrev pub owns : Bpage → ℕ
owns b = if is_some b.owner then 1 else 0

-- Each bpage's references are its buffers and its owner; `free_bpages` counts those without any.
pub record IsConsistent (p : Pool) (uses : List ℕ) : Type 0 where
  pub size : length p.descriptors ≡ p.num_bpages
  pub nonempty : 0 < p.num_bpages
  pub refs :
      (i : ℕ)
      → i < p.num_bpages
      → (bpage_at p.descriptors i).refs ≡ count i uses + owns (bpage_at p.descriptors i)
  pub free : zeros p.descriptors ≡ p.free_bpages
  pub within : (i : ℕ) → 0 < count i uses → i < p.num_bpages

-- Replacing bpage `i` by one whose references count its new uses.
pub set-refs :
    (ds : List Bpage) (n i : ℕ) (b : Bpage) (uses uses' : List ℕ)
    → i < length ds
    → ((j : ℕ) → j < n → (bpage_at ds j).refs ≡ count j uses + owns (bpage_at ds j))
    → ((j : ℕ) → j ≢ i → count j uses' ≡ count j uses)
    → b.refs ≡ count i uses' + owns b
    → (j : ℕ) → j < n
    → (bpage_at (set ds i b) j).refs ≡ count j uses' + owns (bpage_at (set ds i b) j)
set-refs ds n i b uses uses' hi before same now j h = elim (ℕ_discrete j i) [
  | yes e ↦ rw (e, get_or-set_self ds i b no_bpage hi) now
  | no ne ↦
      let ne' : i ≢ j = λ e. ne (sym e) in
      rw (get_or-set_ne ds i j b no_bpage ne', same j ne) (before j h)
]

-- What no allocation or release changes.
abbrev pub SameRegion : Pool → Pool → Type 0
SameRegion q p =
    (q.region ≡ p.region) × (q.num_bpages ≡ p.num_bpages) × (q.bpages_needed ≡ p.bpages_needed)

pub SameRegion-trans : (r q p : Pool) → SameRegion r q → SameRegion q p → SameRegion r p
SameRegion-trans r q p a b = (a.0 ∙ b.0, a.1 ∙ b.1, a.2 ∙ b.2)

-- What homa_pool_get_pages promises when it returns 0.
pub record Granted (p : Pool) (r : Request) (uses : List ℕ) (q : Pool) (pages : List ℕ)
    : Type 0 where
  pub consistent : IsConsistent q (pages ++ uses)
  pub number : length pages ≡ r.num_pages
  pub exclusive : (i : ℕ) → 0 < count i pages → (count i pages ≡ 1) × (count i uses ≡ 0)
  pub owner :
      (i : ℕ)
      → 0 < count i pages
      → (bpage_at q.descriptors i).owner ≡ (if r.set_owner then some r.core_num else none)
  pub others : (i : ℕ) → count i pages ≡ 0 → bpage_at q.descriptors i ≡ bpage_at p.descriptors i
  pub same : SameRegion q p
  pub fewer_free : p.free_bpages ≤ q.free_bpages + r.num_pages

finish-eq-got :
    (p : Pool) (c : ℕ) (o : Option Scan) {q : Pool} {pages : List ℕ}
    → finish p c o ≡ got q pages
    → (s : Scan) × (o ≡ some s) × (q ≡ store_scan p c s) × (pages ≡ s.pages)
finish-eq-got p c none e = cc
finish-eq-got p c (some s) e = (s, refl, cc, cc)

module _ (p : Pool) (r : Request) (uses : List ℕ) (v : IsConsistent p uses) where
  owners : OwnersCounted p.num_bpages p.descriptors
  owners i h o = ground (arith, v.refs i h)

  start-Searched :
      r.num_pages ≤ p.free_bpages → Searched p.num_bpages r p.descriptors (start_scan p r)
  unfolding start_scan
  start-Searched h = record {
    size = v.size;
    within = omega arith;
    free = omega (arith, v.free);
    spent = omega arith;
    limit_in = omega arith;
    limit_covers = inl refl;
    kept = λ i e. refl;
    taken = λ i e. absurd (omega arith);
    available = λ i e. absurd (omega arith);
    once = λ i. omega arith;
  }

  -- An available bpage is in use by no message.
  available_unused :
      (i : ℕ)
      → i < p.num_bpages
      → bpage_available (bpage_at p.descriptors i) r.now ≡ true
      → count i uses ≡ 0
  unfolding bpage_available
  available_unused i h a = ground (arith, v.refs i h)

  claimed_refs : (b : Bpage) → (claimed r b).refs ≡ 1 + owns (claimed r b)
  unfolding claimed
  claimed_refs b = ground arith

  claimed_owner :
      (b : Bpage) → (claimed r b).owner ≡ (if r.set_owner then some r.core_num else none)
  unfolding claimed
  claimed_owner b = ground arith

  module _ (s : Scan) (w : Searched p.num_bpages r p.descriptors s) where
    exclusive : (i : ℕ) → 0 < count i s.pages → (count i s.pages ≡ 1) × (count i uses ≡ 0)
    exclusive i h =
        (omega (arith, w.once i), available_unused i (w.available i h).0 (w.available i h).1)

    refs_after :
        (i : ℕ)
        → i < p.num_bpages
        → (bpage_at s.descriptors i).refs
          ≡ count i (s.pages ++ uses) + owns (bpage_at s.descriptors i)
    refs_after i h = elim (ℕ_discrete (count i s.pages) 0) [
      | yes e ↦ rw (w.kept i e) (omega (arith, v.refs i h, count-append i s.pages uses))
      | no ne ↦
          let pos : 0 < count i s.pages = omega arith in
          rw (w.taken i pos) (
            omega (
              arith,
              claimed_refs (bpage_at p.descriptors i),
              count-append i s.pages uses,
              exclusive i pos,
            ))
    ]

    within_after : (i : ℕ) → 0 < count i (s.pages ++ uses) → i < p.num_bpages
    within_after i h = elim (ℕ_discrete (count i s.pages) 0) [
      | yes e ↦ v.within i (omega (arith, count-append i s.pages uses))
      | no ne ↦ (w.available i (omega arith)).0
    ]

    store-Granted :
        length s.pages ≡ r.num_pages → Granted p r uses (store_scan p r.core_num s) s.pages
    unfolding store_scan
    store-Granted number = record {
      consistent = record {
        size = w.size;
        nonempty = v.nonempty;
        refs = refs_after;
        free = omega (arith, w.free);
        within = within_after;
      };
      number = number;
      exclusive = exclusive;
      owner = λ i h. rw (w.taken i h) (claimed_owner (bpage_at p.descriptors i));
      others = w.kept;
      same = (refl, refl, refl);
      fewer_free = omega (arith, w.free, w.spent, v.free);
    }

  -- Whenever homa_pool_get_pages returns 0, whatever bpage locks other cores held meanwhile, the pages
  -- are as many as asked for, distinct, in use by no message before, and owned as asked; the pool's
  -- account is right again with these pages in use, and all other bpages are as they were.
  pub get_pages-Granted :
      (contended : ℕ → Bool) {q : Pool} {pages : List ℕ}
      → get_pages p r contended ≡ got q pages
      → Granted p r uses q pages
  unfolding get_pages
  get_pages-Granted contended {q} {pages} e = elim (Bool-cases (ltb p.free_bpages r.num_pages)) [
    | inl few ↦ cc (rw few at e)
    | inr enough ↦
        let (s, ends, stored, listed) = finish-eq-got p r.core_num _ (rw enough at e) in
        let (w, number) =
          scan-Searched p.num_bpages r p.descriptors owners v.nonempty
            (scan_fuel p.num_bpages r.num_pages) contended (start_scan p r) s
            (start-Searched (ground arith)) ends in
        rw (stored, listed) (store-Granted s w number)
  ]

  -- homa_pool_get_pages returns -1 exactly when there are too few free bpages, and otherwise returns 0 if no other core
  -- holds a bpage lock: the search always finds the bpages that were counted as free.
  pub get_pages-ends :
      (contended : ℕ → Bool)
      → ((i : ℕ) → contended i ≡ false)
      → ((p.free_bpages < r.num_pages) × (get_pages p r contended ≡ no_space))
        ⊎ ((r.num_pages ≤ p.free_bpages)
            × (q : Pool) × (pages : List ℕ) × (get_pages p r contended ≡ got q pages))
  unfolding get_pages
  get_pages-ends contended free = elim (Bool-cases (ltb p.free_bpages r.num_pages)) [
    | inl few ↦ inl (ground arith, rw few)
    | inr enough ↦
        let w = start-Searched (ground arith) in
        let ends =
          scan_ends p.num_bpages r p.descriptors owners v.nonempty
            (scan_fuel p.num_bpages r.num_pages) contended (start_scan p r) free w
            (cost-lt-scan_fuel p.num_bpages r p.descriptors owners v.nonempty (start_scan p r) w) in
        inr (ground arith, store_scan p r.core_num ends.0, ends.0.pages, rw (enough, ends.1))
  ]
