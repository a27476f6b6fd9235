-- ===== src/Pool/Buffers/Allocate/Steps.antt =====
-- The parts of homa_pool_alloc_msg (homa_pool.c) that place a buffer, and the bpages in use after them.
use homa_module.Prelude.{
  ℕ, ◌+◌, ◌*◌, ◌/◌, ◌%◌, ◌≤◌, ◌<◌, ◌≡◌, ◌≢◌, refl, ap, ◌∙◌, true, false, Bool-cases, inl, inr, ltb,
  List, [], ◌∷◌, ◌++◌, map, arith, length, length-set, set, length-append, length-map,
}
use homa_module.Pool.{
  Bpage, Pool, PoolCore, Pages, got, no_space, spinning, bpage_at, core_at, bpage_size, int_max,
  u32_mod,
}
use homa_module.Pool.Counting.{bpage_at_beyond, count, count-le-length, zeros, zeros-set}
use homa_module.Pool.Conserve.{
  IsConsistent, Granted, SameRegion, SameRegion-trans, owns, set-refs, get_pages-Granted,
}
use homa_module.Pool.Buffers.{
  owned_by, Env, Alloc, allocated, out_of_space, no_region, stuck, has_region, request, place,
  place_new, new_page, disown,
}
use homa_module.Pool.Buffers.Release.{valid_pages, release_buffers_lem}

-- The bpage of a buffer.
abbrev pub page_of : ℕ → ℕ
page_of offset = offset / bpage_size

-- Consistency depends on the uses as a multiset, and not on what the cores keep.
pub recount :
    (p q : Pool) (uses uses' : List ℕ)
    → IsConsistent p uses
    → ((i : ℕ) → count i uses' ≡ count i uses)
    → (q.descriptors ≡ p.descriptors)
      × (q.num_bpages ≡ p.num_bpages)
      × (q.free_bpages ≡ p.free_bpages)
    → IsConsistent q uses'
recount p q uses uses' v same (ed, en, ef) = record {
  size = rw (ed, en) v.size;
  nonempty = rw en v.nonempty;
  refs = rw (ed, en) (λ i h. rw (same i) (v.refs i h));
  free = rw (ed, ef) v.free;
  within = rw en (λ i h. v.within i (rw (same i) at h));
}

-- What each exit of homa_pool_alloc_msg leaves, for buffers that need `pages` bpages.
abbrev pub AllocKeeps : Pool → List ℕ → ℕ → Alloc → Type 0
AllocKeeps p uses pages (allocated q offsets) =
    IsConsistent q (map page_of offsets ++ uses) × (length offsets ≡ pages) × SameRegion q p
AllocKeeps p uses pages (out_of_space q) = IsConsistent q uses × SameRegion q p
AllocKeeps p uses pages no_region = has_region p ≡ false
AllocKeeps p uses pages stuck = Unit {0}

count-snoc :
    (i o : ℕ) (offsets uses : List ℕ)
    → count i (map page_of (offsets ++ (o ∷ [])) ++ uses)
      ≡ count i (page_of o ∷ (map page_of offsets ++ uses))
count-snoc i o [] uses = refl
count-snoc i o (x ∷ offsets) uses = omega (arith, count-snoc i o offsets uses)

-- The offset of a buffer inside bpage `h` does not wrap in a pool of at most 2 ^ 16 bpages.
page_of_placed :
    (a h : ℕ) → a < bpage_size → h < 65536 → page_of ((a + h * bpage_size) % u32_mod) ≡ h
page_of_placed a h ha hh = omega arith

pub place-Keeps :
    (p q : Pool) (c : ℕ) (core : PoolCore) (offsets uses : List ℕ) (pages partial : ℕ)
    → IsConsistent q (core.page_hint ∷ (map page_of offsets ++ uses))
    → q.num_bpages ≤ 65536
    → core.allocated + partial ≤ bpage_size
    → 0 < partial
    → length offsets + 1 ≡ pages
    → SameRegion q p
    → AllocKeeps p uses pages (place q c core offsets partial)
unfolding place
place-Keeps p q c core offsets uses pages partial v small fits pos e same = (
  recount q _ (core.page_hint ∷ (map page_of offsets ++ uses)) _ v (λ i. count-placed i)
      (refl, refl, refl),
  omega (
    arith,
    length-append offsets ((core.allocated + core.page_hint * bpage_size) % u32_mod ∷ []),
  ),
  same,
)
  where
    o : ℕ
    o = (core.allocated + core.page_hint * bpage_size) % u32_mod

    hinted : page_of o ≡ core.page_hint
    hinted =
        page_of_placed core.allocated core.page_hint (omega arith)
          (omega (arith, v.within core.page_hint (ground arith)))

    count-placed :
        (i : ℕ)
        → count i (map page_of (offsets ++ (o ∷ [])) ++ uses)
          ≡ count i (core.page_hint ∷ (map page_of offsets ++ uses))
    count-placed i =
        count-snoc i o offsets uses ∙ ap (λ h. count i (h ∷ (map page_of offsets ++ uses))) hinted

valid_pages-within :
    (n : ℕ) (offsets uses : List ℕ)
    → ((i : ℕ) → 0 < count i (map page_of offsets ++ uses) → i < n)
    → valid_pages n offsets ≡ map page_of offsets
valid_pages-within n [] uses h = refl
valid_pages-within n (o ∷ os) uses h =
    let ih = valid_pages-within n os uses (λ i k. h i (omega arith)) in
    let inside = h (page_of o) (ground arith) in ground arith

-- A pool whose region, size and consistency are those of a step in between.
pub Keeps-trans :
    (p q : Pool) (uses : List ℕ) (pages : ℕ) (a : Alloc)
    → SameRegion q p
    → AllocKeeps q uses pages a
    → AllocKeeps p uses pages a
Keeps-trans p q uses pages (allocated r offsets) same k =
    (k.0, k.1, SameRegion-trans r q p k.2 same)
Keeps-trans p q uses pages (out_of_space r) same k = (k.0, SameRegion-trans r q p k.1 same)
Keeps-trans p q uses pages no_region same k = rw (← same.0) k
Keeps-trans p q uses pages stuck same k = tt

-- `new_page:`, in a pool where the buffers of the full bpages are in use already.
module _ (p : Pool) (env : Env) (offsets uses : List ℕ) (pages partial : ℕ)
    (v : IsConsistent p (map page_of offsets ++ uses)) (small : p.num_bpages ≤ 65536)
    (region : has_region p ≡ true) (few : length offsets + length uses < int_max)
    (fits : partial ≤ bpage_size) (pos : 0 < partial) (e : length offsets + 1 ≡ pages) where
  place_new-Keeps :
      (a : Pages)
      → ((q : Pool) (is : List ℕ)
          → a ≡ got q is
          → Granted p (request env 2 1 true) (map page_of offsets ++ uses) q is)
      → AllocKeeps p uses pages (place_new p offsets env.core_id a partial)
  unfolding place_new
  place_new-Keeps (got q []) g = tt
  place_new-Keeps (got q (i ∷ [])) g =
      let w = g q (i ∷ []) refl in
      place-Keeps p q env.core_id (record (core_at q env.core_id) { page_hint = i; allocated = 0 })
        offsets uses pages partial w.consistent (omega (arith, w.same)) (omega arith) pos e w.same
  place_new-Keeps (got q (i ∷ j ∷ is)) g = absurd (omega (arith, (g q (i ∷ j ∷ is) refl).number))
  place_new-Keeps no_space g =
      let listed = valid_pages-within p.num_bpages offsets uses v.within in
      let back =
        release_buffers_lem p offsets uses region
          (rw listed
            (omega (arith, length-append (map page_of offsets) uses, length-map offsets page_of)))
          (rw listed v) in
      (back.0, back.3)
  place_new-Keeps spinning g = tt

  pub new_page-Keeps : AllocKeeps p uses pages (new_page p env offsets partial)
  unfolding new_page
  new_page-Keeps =
      place_new-Keeps _
        (λ q is e. get_pages-Granted p _ (map page_of offsets ++ uses) v (env.contended 2) e)

pub zeros-set_busy :
    (ds : List Bpage) (i : ℕ) (b : Bpage)
    → i < length ds
    → (bpage_at ds i).refs ≢ 0
    → b.refs ≢ 0
    → zeros (set ds i b) ≡ zeros ds
zeros-set_busy ds i b h old new = ground (arith, zeros-set ds i b)

-- Giving up a bpage that a message still uses.
pub disown-IsConsistent :
    (p : Pool) (i : ℕ) (uses : List ℕ)
    → length uses < int_max
    → IsConsistent p uses
    → i < p.num_bpages
    → owns (bpage_at p.descriptors i) ≡ 1
    → (bpage_at p.descriptors i).refs ≢ 1
    → IsConsistent (disown p i) uses
unfolding disown
disown-IsConsistent p i uses few v hi o ne = record {
  size = length-set p.descriptors i _ ∙ v.size;
  nonempty = v.nonempty;
  refs =
      set-refs p.descriptors p.num_bpages i _ uses uses (omega (arith, v.size)) v.refs (λ j h. refl)
        (omega (arith, v.refs i hi, count-le-length i uses));
  free =
      zeros-set_busy p.descriptors i _ (omega (arith, v.size)) (omega (arith, v.refs i hi))
        (omega (arith, v.refs i hi, count-le-length i uses))
      ∙ v.free;
  within = v.within;
}

pub disown-same : (p : Pool) (i : ℕ) → SameRegion (disown p i) p
unfolding disown
disown-same p i = (refl, refl, refl)

-- The bpage that a core owns lies in the pool.
pub owned-inside :
    (p : Pool) (c i : ℕ) (uses : List ℕ)
    → IsConsistent p uses
    → owned_by c (bpage_at p.descriptors i).owner ≡ true
    → (i < p.num_bpages) × (owns (bpage_at p.descriptors i) ≡ 1)
owned-inside p c i uses v mine = elim (Bool-cases (ltb i p.num_bpages)) [
  | inl inside ↦ ground arith
  | inr beyond ↦ ground (arith, v.size, bpage_at_beyond p.descriptors i (ground (arith, v.size)))
]
