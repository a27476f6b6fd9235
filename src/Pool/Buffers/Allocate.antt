-- ===== src/Pool/Buffers/Allocate.antt =====
-- homa_pool_alloc_msg keeps the account of the bpages, on each of its exits.
mod Steps
pub mod Ends
pub use Steps.*
use homa_module.Prelude.{
  ℕ, ◌+◌, ◌-◌, ◌*◌, ◌/◌, ◌%◌, ◌≤◌, ◌<◌, ◌≡◌, ◌≢◌, inl, inr, refl, ap, ◌∙◌, Bool, true, false, List,
  [], ◌∷◌, ◌++◌, map, arith, ltb, ◌==◌, if◌then◌else◌, Bool-cases, length, length-set, set,
  ℕ_discrete, length-append, length-map,
}
use homa_module.Pool.{
  Bpage, Pool, PoolCore, Pages, got, no_space, spinning, bpage_at, core_at, bpage_size, int_max,
  u32_mod,
}
use homa_module.Pool.Counting.{count, bpage_at_beyond, count-le-length, zeros, zeros-set}
use homa_module.Pool.Conserve.{
  IsConsistent, Granted, SameRegion, SameRegion-trans, owns, set-refs, get_pages-Granted,
  get_pages-ends,
}
use homa_module.Pool.Buffers.{
  Env, Alloc, allocated, out_of_space, no_region, stuck, has_region, request, place, place_new,
  new_page, use_current, disown, owned_by, alloc_partial, alloc_full, alloc_rest, alloc_msg,
  page_offset,
}
use homa_module.Pool.Buffers.Allocate.Ends.{is_stuck, alloc_msg-ends}
use homa_module.Pool.Buffers.Release.{valid_pages, release_buffers_lem}

-- One more message in the bpage that the core owns.
use_current-Keeps :
    (p : Pool) (env : Env) (core : PoolCore) (offsets uses : List ℕ) (pages partial : ℕ)
    → IsConsistent p (map page_of offsets ++ uses)
    → p.num_bpages ≤ 65536
    → length offsets + length uses < int_max
    → owns (bpage_at p.descriptors core.page_hint) ≡ 1
    → core.page_hint < p.num_bpages
    → core.allocated + partial ≤ bpage_size
    → 0 < partial
    → length offsets + 1 ≡ pages
    → AllocKeeps p uses pages (use_current p env core offsets partial)
unfolding use_current
use_current-Keeps p env core offsets uses pages partial v small few o hi fits pos e =
    place-Keeps p _ env.core_id core offsets uses pages partial
      (record {
        size = length-set p.descriptors hint _ ∙ v.size;
        nonempty = v.nonempty;
        refs =
            set-refs p.descriptors p.num_bpages hint _ before (hint ∷ before)
              (omega (arith, v.size)) v.refs (λ j h. ground arith) counted;
        free =
            zeros-set_busy p.descriptors hint _ (omega (arith, v.size))
              (omega (arith, v.refs hint hi)) (omega (arith, counted))
            ∙ v.free;
        within = λ j h. elim (ℕ_discrete j hint) [
          | yes same ↦ rw same hi
          | no other ↦ v.within j (ground arith)
        ];
      })
      small fits pos e (refl, refl, refl)
  where
    hint : ℕ
    hint = core.page_hint

    before : List ℕ
    before = map page_of offsets ++ uses

    counted :
        ((bpage_at p.descriptors hint).refs + 1) % u32_mod
        ≡ count hint (hint ∷ before) + owns (bpage_at p.descriptors hint)
    counted = ground (
      arith,
      v.refs hint hi,
      count-le-length hint before,
      length-append (map page_of offsets) uses,
      length-map offsets page_of,
    )

-- The last chunk of a message.
module _ (p : Pool) (env : Env) (offsets uses : List ℕ) (full partial : ℕ)
    (v : IsConsistent p (map page_of offsets ++ uses)) (small : p.num_bpages ≤ 65536)
    (region : has_region p ≡ true) (few : length offsets + length uses < int_max)
    (fits : partial < bpage_size) (e : length offsets ≡ full) where
  abbrev core : PoolCore
  core = core_at p env.core_id

  mine_inside :
      owned_by env.core_id (bpage_at p.descriptors core.page_hint).owner ≡ true
      → (core.page_hint < p.num_bpages) × (owns (bpage_at p.descriptors core.page_hint) ≡ 1)
  mine_inside = owned-inside p env.core_id core.page_hint (map page_of offsets ++ uses) v

  given_up :
      owned_by env.core_id (bpage_at p.descriptors core.page_hint).owner ≡ true
      → (bpage_at p.descriptors core.page_hint).refs ≢ 1
      → 0 < partial
      → AllocKeeps p uses (full + 1) (new_page (disown p core.page_hint) env offsets partial)
  given_up mine shared pos =
      let same = disown-same p core.page_hint in
      Keeps-trans p (disown p core.page_hint) uses (full + 1) _ same (
        new_page-Keeps (disown p core.page_hint) env offsets uses (full + 1) partial
          (disown-IsConsistent p core.page_hint (map page_of offsets ++ uses)
            (omega (arith, length-append (map page_of offsets) uses, length-map offsets page_of)) v
            (mine_inside mine).0 (mine_inside mine).1 shared)
          (rw same.1 small) (unfold disown in region) few (omega arith) pos (omega arith))

  alloc_partial-Keeps :
      AllocKeeps p uses
        (if partial == 0 then full else full + 1)
        (alloc_partial p env offsets partial)
  unfolding alloc_partial
  alloc_partial-Keeps = elim (Bool-cases (partial == 0)) [
    | inl z ↦ rw z (v, e, (refl, refl, refl))
    | inr nz ↦
        elim (Bool-cases (owned_by env.core_id (bpage_at p.descriptors core.page_hint).owner)) [
          | inr other ↦
              rw (nz, other)
                (new_page-Keeps p env offsets uses (full + 1) partial v small region few
                  (omega arith) (ground arith) (omega arith))
          | inl mine ↦ elim (Bool-cases (ltb bpage_size (core.allocated + partial))) [
            | inr room ↦
                rw (nz, mine, room)
                  (use_current-Keeps p env core offsets uses (full + 1) partial v small few
                    (mine_inside mine).1 (mine_inside mine).0 (ground arith) (ground arith)
                    (omega arith))
            | inl over ↦ elim (Bool-cases ((bpage_at p.descriptors core.page_hint).refs == 1)) [
              | inl alone ↦
                  rw (nz, mine, over, alone)
                    (use_current-Keeps p env (record core { allocated = 0 }) offsets uses (full + 1)
                      partial v small few (mine_inside mine).1 (mine_inside mine).0 (omega arith)
                      (ground arith) (omega arith))
              | inr shared ↦
                  rw (nz, mine, over, shared) (given_up mine (ground arith) (ground arith))
            ]
          ]
        ]
  ]

pub page_of-page_offset :
    (pages uses : List ℕ)
    → ((i : ℕ) → 0 < count i (pages ++ uses) → i < 65536)
    → map page_of (map page_offset pages) ≡ pages
page_of-page_offset [] uses h = refl
page_of-page_offset (i ∷ is) uses h =
    let inside = h i (ground arith) in
    let whole : page_of (page_offset i) ≡ i = omega arith in
    rw (whole, page_of-page_offset is uses (λ j k. h j (omega arith)))

pub has_region-same : (p q : Pool) → q.region ≡ p.region → has_region p ≡ true → has_region q ≡ true
has_region-same p q e h = ground arith

got-injective : (p q : Pool) (xs ys : List ℕ) → got p xs ≡ got q ys → (p ≡ q) × (xs ≡ ys)
got-injective p q xs ys e = (cc, cc)

-- What the search for the full bpages hands on.
pub record FullGranted (p : Pool) (uses : List ℕ) (full : ℕ) (q : Pool) (is : List ℕ) : Type 0 where
  pub consistent : IsConsistent q (is ++ uses)
  pub number : length is ≡ full
  pub same : SameRegion q p
  pub fewer_free : p.free_bpages ≤ q.free_bpages + full

module _ (p : Pool) (env : Env) (uses : List ℕ) (v : IsConsistent p uses) where
  pub full-Granted :
      (full : ℕ) {q : Pool} {is : List ℕ}
      → alloc_full p env full ≡ got q is
      → FullGranted p uses full q is
  unfolding alloc_full
  full-Granted full {q} {is} e = elim (Bool-cases (full == 0)) [
    | inl z ↦
        let (same, none_yet) = got-injective p q [] is (rw z at e) in
        rw (← same, ← none_yet)
          (record {
            consistent = v;
            number = ground arith;
            same = (refl, refl, refl);
            fewer_free = omega arith;
          })
    | inr nz ↦
        let g =
          get_pages-Granted p (request env 0 full false) uses v (env.contended 0) (rw nz at e) in
        record {
          consistent = g.consistent;
          number = g.number;
          same = g.same;
          fewer_free = g.fewer_free;
        }
  ]

  alloc_rest-Keeps :
      (full partial : ℕ) (a : Pages)
      → ((q : Pool) (is : List ℕ) → a ≡ got q is → FullGranted p uses full q is)
      → p.num_bpages ≤ 65536
      → has_region p ≡ true
      → full + length uses < int_max
      → partial < bpage_size
      → AllocKeeps p uses (if partial == 0 then full else full + 1) (alloc_rest p env partial a)
  unfolding alloc_rest
  alloc_rest-Keeps full partial (got q is) g small region few fits =
      let w = g q is refl in
      let back =
        page_of-page_offset is uses (λ i h. omega (arith, w.consistent.within i h, w.same.1)) in
      Keeps-trans p q uses _ _ w.same (
        alloc_partial-Keeps q env (map page_offset is) uses full partial (rw back w.consistent)
          (omega (arith, w.same.1)) (has_region-same p q w.same.0 region)
          (omega (arith, length-map is page_offset, w.number)) fits
          (length-map is page_offset ∙ w.number))
  alloc_rest-Keeps full partial no_space g small region few fits = (v, (refl, refl, refl))
  alloc_rest-Keeps full partial spinning g small region few fits = tt

-- The buffers that a message needs are as many as its full bpages, and one for the rest.
alloc_msg-AllocKeeps :
    (p : Pool) (env : Env) (uses : List ℕ) (len : ℕ)
    → IsConsistent p uses
    → p.num_bpages ≤ 65536
    → (len + bpage_size - 1) / bpage_size + length uses < int_max
    → AllocKeeps p uses ((len + bpage_size - 1) / bpage_size) (alloc_msg p env len)
unfolding alloc_msg
alloc_msg-AllocKeeps p env uses len v small few = elim (Bool-cases (has_region p)) [
  | inr bare ↦ rw bare bare
  | inl region ↦
      let needed : (len + bpage_size - 1) / bpage_size
          ≡ (if len % bpage_size == 0 then len / bpage_size else len / bpage_size + 1) =
        ground arith in
      rw (region, needed)
        (alloc_rest-Keeps p env uses v (len / bpage_size) (len % bpage_size) _
          (λ q is e. full-Granted p env uses v (len / bpage_size) e) small region (omega arith)
          (omega arith))
]

-- For a pool of at most 65536 bpages whose account is right, homa_pool_alloc_msg keeps the account on each
-- exit. Either a message of `len` bytes has got exactly ceil(len / HOMA_BPAGE_SIZE) buffers, whose bpages are in
-- use from then on; or it has none, and the bpages in use are those of before, also where the full bpages had
-- been had already; or the pool has no region. It gets to an exit if no other core holds a bpage lock: a search
-- that spins on locks that others hold has none. This supposes that the buffers needed and the uses of bpages
-- are fewer than 2 ^ 31 - 1.
pub alloc_msg-Keeps :
    (p : Pool) (env : Env) (uses : List ℕ) (len : ℕ)
    → IsConsistent p uses
    → p.num_bpages ≤ 65536
    → (len + bpage_size - 1) / bpage_size + length uses < int_max
    → AllocKeeps p uses ((len + bpage_size - 1) / bpage_size) (alloc_msg p env len)
      × (((k i : ℕ) → env.contended k i ≡ false) → is_stuck (alloc_msg p env len) ≡ false)
alloc_msg-Keeps p env uses len v small few = (
  alloc_msg-AllocKeeps p env uses len v small few,
  λ calm. alloc_msg-ends env calm p uses len v (omega (arith, few)),
)
