-- ===== src/Pool/Buffers.antt =====
-- homa_pool.c: set_region, alloc_msg, get_buffer, release_buffers, avail_bytes.
-- `bpage_offsets` is the list of the first `num_bpages` entries of the array, so `num_bpages` is
-- its length. The socket's queue of waiting RPCs is in Waiting.
pub mod Release
pub mod Allocate
pub mod Address
use homa_module.Prelude.{
  ℕ, ◌+◌, ◌-◌, ◌*◌, ◌/◌, ◌%◌, Bool, true, false, ◌||◌, not, Option, none, some, List, [], ◌∷◌, ◌++◌,
  map, ltb, leb, ◌==◌, if◌then◌else◌, length, get_elem?, set, replicate,
}
use mathlib.Core.Option
use homa_module.Pool.{
  Bpage, PoolCore, Pool, Request, Pages, got, no_space, spinning, bpage_size, int_max, u32_mod,
  u64_mod, bpage_at, core_at, get_pages,
}

pub data Errno : Type 0 where
  einval enomem : Errno

abbrev pub page_size : ℕ
page_size = 4096

abbrev pub min_pool_size : ℕ
min_pool_size = 2

abbrev pub fresh_bpage : Bpage
fresh_bpage = record { refs = 0; owner = none; expiration = 0 }

abbrev pub fresh_core : PoolCore
fresh_core = record { page_hint = 0; allocated = 0; next_candidate = 0 }

abbrev pub fresh_pool : ℕ → ℕ → ℕ → Bool → Pool
fresh_pool region num_bpages num_cores from_kernel = record {
  region = if region == 0 then none else some region;
  in_kernel = from_kernel;
  num_bpages = num_bpages;
  descriptors = replicate num_bpages fresh_bpage;
  free_bpages = num_bpages;
  bpages_needed = int_max;
  cores = replicate num_cores fresh_core;
}

abbrev pub has_region : Pool → Bool
has_region p = elim p.region [ none ↦ false | some a ↦ true ]

-- homa_pool_set_region, with `none` for success. `num_bpages` is an int, so a quotient whose low 32
-- bits have the top one set is negative there. The last two arguments say whether the memory for
-- the descriptors and for the `num_cores` core records can be had.
unfoldable pub set_region : Pool → ℕ → ℕ → Bool → ℕ → Bool → Bool → Pool × Option Errno
set_region p region region_size from_kernel num_cores descriptors_ok cores_ok =
    let num_bpages = region_size / bpage_size % u32_mod in
    if not (region % page_size == 0)
    then (p, some einval)
    else if ltb num_bpages min_pool_size || ltb int_max num_bpages
    then (p, some einval)
    else if not descriptors_ok
    then (p, some enomem)
    else if not cores_ok
    then (p, some enomem)
    else if has_region p
    then (p, some einval)
    else (fresh_pool region num_bpages num_cores from_kernel, none)

-- One buffer goes back: the reference count is an atomic_t that wraps.
unfoldable pub drop_ref : Pool → ℕ → Pool
drop_ref p i =
    let bpage = bpage_at p.descriptors i in
    let refs = (bpage.refs + u32_mod - 1) % u32_mod in
    record p {
      descriptors = set p.descriptors i (record bpage { refs = refs });
      free_bpages = if refs == 0 then p.free_bpages + 1 else p.free_bpages;
    }

unfoldable pub release_loop : Pool → Option Errno → List ℕ → Pool × Option Errno
unfolding drop_ref
release_loop p result [] = (p, result)
release_loop p result (offset ∷ offsets) =
    let i = offset / bpage_size in
    if ltb i p.num_bpages
    then release_loop (drop_ref p i) result offsets
    else release_loop p (some einval) offsets

-- homa_pool_release_buffers
unfoldable pub release_buffers : Pool → List ℕ → Pool × Option Errno
unfolding release_loop
release_buffers p offsets = if has_region p then release_loop p none offsets else (p, none)

-- What a call of homa_pool_alloc_msg reads from outside: the core, the lease, the clock at its three
-- readings, and the lock attempts of its two searches.
pub record Env : Type 0 where
  pub core_id : ℕ
  pub lease_cycles : ℕ
  pub clock : ℕ → ℕ
  pub contended : ℕ → ℕ → Bool

abbrev pub request : Env → ℕ → ℕ → Bool → Request
request env k num_pages set_owner = record {
  num_pages = num_pages;
  set_owner = set_owner;
  core_num = env.core_id;
  now = env.clock k;
  lease_cycles = env.lease_cycles;
}

-- `allocated` has the new bpage_offsets; `out_of_space` is the label of that name, reached with the
-- message's bpage_offsets empty; `no_region` is -ENOMEM; `stuck` is a search that has not ended.
pub data Alloc : Type 0 where
  allocated : Pool → List ℕ → Alloc
  out_of_space : Pool → Alloc
  no_region : Alloc
  stuck : Alloc

-- `allocate_partial:`, with `core` the core's record so far.
unfoldable pub place : Pool → ℕ → PoolCore → List ℕ → ℕ → Alloc
place p c core offsets partial =
    allocated
      (record p { cores = set p.cores c (record core { allocated = core.allocated + partial }) })
      (offsets ++ ((core.allocated + core.page_hint * bpage_size) % u32_mod ∷ []))

-- `new_page:`
unfoldable pub place_new : Pool → List ℕ → ℕ → Pages → ℕ → Alloc
unfolding place release_buffers
place_new p offsets c (got q []) partial = stuck
place_new p offsets c (got q (i ∷ is)) partial =
    place q c (record (core_at q c) { page_hint = i; allocated = 0 }) offsets partial
place_new p offsets c no_space partial = out_of_space (release_buffers p offsets).0
place_new p offsets c spinning partial = stuck

unfoldable pub new_page : Pool → Env → List ℕ → ℕ → Alloc
unfolding place_new get_pages
new_page p env offsets partial =
    place_new p offsets env.core_id (get_pages p (request env 2 1 true) (env.contended 2)) partial

-- The bpage that the core owns takes one more message.
unfoldable pub use_current : Pool → Env → PoolCore → List ℕ → ℕ → Alloc
unfolding place
use_current p env core offsets partial =
    let bpage = bpage_at p.descriptors core.page_hint in
    place
      (record p {
        descriptors = set p.descriptors core.page_hint (record bpage {
          refs = (bpage.refs + 1) % u32_mod;
          expiration = (env.clock 1 + env.lease_cycles) % u64_mod;
        });
      })
      env.core_id core offsets partial

-- The core gives its bpage up, which other messages still use.
unfoldable pub disown : Pool → ℕ → Pool
disown p i =
    let bpage = bpage_at p.descriptors i in
    record p {
      descriptors =
          set p.descriptors i
            (record bpage { owner = none; refs = (bpage.refs + u32_mod - 1) % u32_mod });
    }

abbrev pub owned_by : ℕ → Option ℕ → Bool
owned_by c none = false
owned_by c (some d) = d == c

-- The last chunk of a message, which may be less than a bpage.
unfoldable pub alloc_partial : Pool → Env → List ℕ → ℕ → Alloc
unfolding new_page use_current disown
alloc_partial p env offsets partial =
    let core = core_at p env.core_id in
    let bpage = bpage_at p.descriptors core.page_hint in
    if partial == 0
    then allocated p offsets
    else if not (owned_by env.core_id bpage.owner)
    then new_page p env offsets partial
    else if not (ltb bpage_size (core.allocated + partial))
    then use_current p env core offsets partial
    else if bpage.refs == 1
    then use_current p env (record core { allocated = 0 }) offsets partial
    else new_page (disown p core.page_hint) env offsets partial

-- The full bpages of a message.
unfoldable pub alloc_full : Pool → Env → ℕ → Pages
unfolding get_pages
alloc_full p env full_pages =
    if full_pages == 0
    then got p []
    else get_pages p (request env 0 full_pages false) (env.contended 0)

abbrev pub page_offset : ℕ → ℕ
page_offset i = i * bpage_size % u32_mod

unfoldable pub alloc_rest : Pool → Env → ℕ → Pages → Alloc
unfolding alloc_partial
alloc_rest p env partial (got q pages) = alloc_partial q env (map page_offset pages) partial
alloc_rest p env partial no_space = out_of_space p
alloc_rest p env partial spinning = stuck

-- homa_pool_alloc_msg for a message of `len` bytes, up to its two exits.
unfoldable pub alloc_msg : Pool → Env → ℕ → Alloc
unfolding alloc_rest alloc_full
alloc_msg p env len =
    if has_region p
    then alloc_rest p env (len % bpage_size) (alloc_full p env (len / bpage_size))
    else no_region

-- homa_pool_get_buffer for a message of `len` bytes: the address (`none` is NULL) and `*available`.
unfoldable pub get_buffer : ℕ → ℕ → List ℕ → ℕ → Option ℕ × ℕ
get_buffer region len offsets offset =
    let bpage_index = offset / bpage_size in
    let bpage_offset = offset % bpage_size in
    if leb len offset then (none, 0) else (
      Option.map (λ o. region + o + bpage_offset) (get_elem? offsets bpage_index),
      if ltb (bpage_index + 1) (length offsets) then bpage_size - bpage_offset else len - offset,
    )

-- What is left in the bpages that the cores from number `cpu` on own.
unfoldable pub owned_bytes : List Bpage → ℕ → List PoolCore → ℕ
owned_bytes ds cpu [] = 0
owned_bytes ds cpu (core ∷ cores) =
    (if owned_by cpu (bpage_at ds core.page_hint).owner then bpage_size - core.allocated else 0)
    + owned_bytes ds (cpu + 1) cores

-- homa_pool_avail_bytes
unfoldable pub avail_bytes : Pool → ℕ
unfolding owned_bytes
avail_bytes p =
    if has_region p then p.free_bpages * bpage_size + owned_bytes p.descriptors 0 p.cores else 0
