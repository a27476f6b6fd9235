-- ===== src/Pool.antt =====
-- The receive buffer pool: homa_pool.h, and from homa_pool.c the search for free bpages.
-- A pool keeps its per-core data in `cores`, indexed by the core number. The per-page spinlock is
-- held only inside one iteration of the search; whether `spin_trylock_bh` fails in an iteration is
-- an argument (`contended`). Nothing else changes the pool while the search runs.
pub mod Buffers
pub mod Waiting
pub mod Counting
pub mod Search
pub mod Conserve
mod Tests
use homa_module.Prelude.{
  ℕ, zero, suc, ◌+◌, ◌-◌, ◌*◌, ◌/◌, ◌%◌, ◌^◌, Bool, true, false, not, ◌&&◌, ◌||◌, Option, none,
  some, List, [], ◌∷◌, ◌++◌, ltb, leb, ◌==◌, if◌then◌else◌, length, get_or, set,
}

-- HOMA_BPAGE_SHIFT is 16; `x >> 16` and `x & (2 ^ 16 - 1)` are `/` and `%` by this.
abbrev pub bpage_size : ℕ
bpage_size = 65536

abbrev pub int_max : ℕ
int_max = 2147483647

abbrev pub u32_mod : ℕ
u32_mod = 4294967296

abbrev pub u64_mod : ℕ
u64_mod = 18446744073709551616

-- `refs` is the bit pattern of an atomic_t. `owner` is `none` for a negative number.
pub record Bpage : Type 0 where
  pub refs : ℕ
  pub owner : Option ℕ
  pub expiration : ℕ

pub record PoolCore : Type 0 where
  pub page_hint : ℕ
  pub allocated : ℕ
  pub next_candidate : ℕ

-- `region` is `none` for NULL, a pool without a region. `in_kernel` is the field of the pool's socket
-- that homa_pool_set_region writes too.
pub record Pool : Type 0 where
  pub region : Option ℕ
  pub in_kernel : Bool
  pub num_bpages : ℕ
  pub descriptors : List Bpage
  pub free_bpages : ℕ
  pub bpages_needed : ℕ
  pub cores : List PoolCore

abbrev pub is_some : Option ℕ → Bool
is_some none = false
is_some (some c) = true

unfoldable pub bpage_available : Bpage → ℕ → Bool
bpage_available bpage now =
    bpage.refs == 0 || (bpage.refs == 1 && (is_some bpage.owner && leb bpage.expiration now))

-- What a read outside the arrays would give; the invariants rule such reads out.
abbrev pub no_bpage : Bpage
no_bpage = record { refs = 1; owner = none; expiration = 0 }

abbrev pub no_core : PoolCore
no_core = record { page_hint = 0; allocated = 0; next_candidate = 0 }

abbrev pub bpage_at : List Bpage → ℕ → Bpage
bpage_at ds i = get_or ds i no_bpage

-- The arguments of homa_pool_get_pages, with what it reads once: the core, the clock, the lease.
pub record Request : Type 0 where
  pub num_pages : ℕ
  pub set_owner : Bool
  pub core_num : ℕ
  pub now : ℕ
  pub lease_cycles : ℕ

-- The variables of its loop; `pages` holds the entries filled in so far.
pub record Scan : Type 0 where
  pub descriptors : List Bpage
  pub free_bpages : ℕ
  pub next_candidate : ℕ
  pub limit : ℕ
  pub pages : List ℕ

abbrev pub min_extra : ℕ
min_extra = 4

unfoldable pub scan_limit : ℕ → ℕ → ℕ
scan_limit num_bpages free =
    let used = num_bpages - free in
    let extra = used / 4 in
    let limit = used + (if ltb extra min_extra then min_extra else extra) in
    if ltb num_bpages limit then num_bpages else limit

-- The new contents of a bpage that is taken.
unfoldable pub claimed : Request → Bpage → Bpage
claimed r bpage =
    if r.set_owner
    then record {
      refs = 2;
      owner = some r.core_num;
      expiration = (r.now + r.lease_cycles) % u64_mod;
    }
    else record bpage { refs = 1; owner = none }

-- Taking candidate `cur`, which is available; a stolen bpage was not counted as free.
unfoldable pub claim : Request → Scan → ℕ → Scan
unfolding claimed
claim r s cur =
    let bpage = bpage_at s.descriptors cur in
    record s {
      free_bpages = if is_some bpage.owner then s.free_bpages + 1 else s.free_bpages;
      descriptors = set s.descriptors cur (claimed r bpage);
      pages = s.pages ++ (cur ∷ []);
    }

-- The limit that this iteration works with.
unfoldable pub current_limit : ℕ → Scan → ℕ
unfolding scan_limit
current_limit num_bpages s = if s.limit == 0 then scan_limit num_bpages s.free_bpages else s.limit

-- One iteration of the loop. `locked`: another core holds the candidate's lock.
unfoldable pub scan_step : ℕ → Request → Bool → Scan → Scan
unfolding current_limit claim bpage_available
scan_step num_bpages r locked s =
    let limit = current_limit num_bpages s in
    let cur = s.next_candidate in
    if leb limit cur
    then record s { next_candidate = 0; limit = 0 }
    else (let s' = record s { next_candidate = cur + 1; limit = limit } in
        if not (bpage_available (bpage_at s.descriptors cur) r.now)
        then s'
        else if locked
        then s'
        else claim r s' cur)

-- The loop; `none` when the fuel runs out.
unfoldable pub scan : ℕ → ℕ → Request → (ℕ → Bool) → Scan → Option Scan
scan zero num_bpages r contended s = none
scan (suc fuel) num_bpages r contended s =
    let rest = scan fuel num_bpages r contended (scan_step num_bpages r (contended fuel) s) in
    if length s.pages == r.num_pages then some s else rest

-- Enough for a search that meets no held lock (Search).
unfoldable pub scan_fuel : ℕ → ℕ → ℕ
scan_fuel num_bpages num_pages = (num_pages + 1) * (2 * num_bpages + 3) + 1

-- `got` is the return value 0 with the indices; `no_space` is -1; `spinning` is a search that has
-- not ended within the fuel.
pub data Pages : Type 0 where
  got : Pool → List ℕ → Pages
  no_space : Pages
  spinning : Pages

abbrev pub core_at : Pool → ℕ → PoolCore
core_at p c = get_or p.cores c no_core

-- The pool that a finished search leaves.
unfoldable pub store_scan : Pool → ℕ → Scan → Pool
store_scan p c s = record p {
  descriptors = s.descriptors;
  free_bpages = s.free_bpages;
  cores = set p.cores c (record (core_at p c) { next_candidate = s.next_candidate });
}

abbrev pub finish : Pool → ℕ → Option Scan → Pages
finish p c none = spinning
finish p c (some s) = got (store_scan p c s) s.pages

-- The pages are claimed in `free_bpages` first; if there are too few the claim is taken back.
unfoldable pub start_scan : Pool → Request → Scan
start_scan p r = record {
  descriptors = p.descriptors;
  free_bpages = p.free_bpages - r.num_pages;
  next_candidate = (core_at p r.core_num).next_candidate;
  limit = 0;
  pages = [];
}

unfoldable pub get_pages : Pool → Request → (ℕ → Bool) → Pages
unfolding scan scan_step scan_fuel store_scan start_scan
get_pages p r contended =
    if ltb p.free_bpages r.num_pages
    then no_space
    else finish p r.core_num
        (scan (scan_fuel p.num_bpages r.num_pages) p.num_bpages r contended (start_scan p r))
