-- ===== src/Pool/Buffers/Address.antt =====
-- homa_pool_get_buffer (homa_pool.c): where the bytes of a message go.
use homa_module.Prelude.{
  ℕ, zero, suc, ◌+◌, ◌-◌, ◌/◌, ◌%◌, ◌≤◌, ◌<◌, ◌≡◌, ◌⊎◌, refl, none, some, List, [], ◌∷◌, arith,
  length, get_elem?, get_or,
}
use homa_module.Pool.{bpage_size}
use homa_module.Pool.Buffers.{get_buffer}

pub get_elem?-get_or :
    (xs : List ℕ) (i d : ℕ) → i < length xs → get_elem? xs i ≡ some (get_or xs i d)
get_elem?-get_or [] i d h = absurd (omega arith)
get_elem?-get_or (x ∷ xs) zero d h = refl
get_elem?-get_or (x ∷ xs) (suc i) d h = get_elem?-get_or xs i d (omega arith)

-- Each byte of a message that has its buffers has an address, in the buffer for its bpage of the
-- message and at its place in that bpage, with at least one byte available there; the available bytes
-- end neither behind the message nor behind that bpage, and they do reach one of the two ends. An
-- offset at or past the end gives NULL and no bytes.
pub get_buffer_lem :
    (region len : ℕ) (offsets : List ℕ) (offset : ℕ)
    → length offsets ≡ (len + bpage_size - 1) / bpage_size
    → let (dst, available) = get_buffer region len offsets offset in
      ((len ≤ offset) × (dst ≡ none) × (available ≡ 0))
      ⊎ ((offset < len)
          × (dst ≡ some (region + get_or offsets (offset / bpage_size) 0 + offset % bpage_size))
          × (0 < available)
          × (offset % bpage_size + available ≤ bpage_size)
          × (offset + available ≤ len)
          × ((offset + available ≡ len) ⊎ (offset % bpage_size + available ≡ bpage_size)))
unfolding get_buffer
get_buffer_lem region len offsets offset e =
    ground (arith, get_elem?-get_or offsets (offset / bpage_size) 0)
