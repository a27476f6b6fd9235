-- ===== src/Delivery/Copy.antt =====
-- homa_copy_to_pool (homa_incoming.c): where the bytes of a packet are copied to.
use homa_module.Prelude.{
  ℕ, zero, suc, ◌+◌, ◌-◌, ◌/◌, ◌%◌, ◌≤◌, ◌<◌, ◌≡◌, ◌⊎◌, refl, inl, inr, false, Option, none, some,
  List, [], ◌∷◌, arith, leb, ◌==◌, Bool-cases, length, get_or,
}
use homa_module.Pool.{bpage_size}
use homa_module.Pool.Buffers.{get_buffer}
use homa_module.Pool.Buffers.Address.{get_buffer_lem}
use homa_module.Incoming.{Packet}
use homa_module.Delivery.{Chunk, Copied, chunks, fault, looping, chunk_then, copy_step, copy_chunks}

-- The address of byte `b` of a message.
abbrev pub address : ℕ → List ℕ → ℕ → ℕ
address region offsets b = region + get_or offsets (b / bpage_size) 0 + b % bpage_size

-- The copies take the bytes of the packet from `c` to `size` in order, without a break, and put each of
-- them at its address in the message's buffers.
abbrev pub Places : ℕ → List ℕ → ℕ → ℕ → ℕ → List Chunk → Type 0
Places region offsets start c size [] = c ≡ size
Places region offsets start c size (k ∷ ks) =
    (k.from ≡ c)
    × (0 < k.size)
    × ((i : ℕ) → i < k.size → k.dst + i ≡ address region offsets (start + c + i))
    × Places region offsets start (c + k.size) size ks

abbrev pub CopySpec : ℕ → List ℕ → ℕ → ℕ → ℕ → Copied → Type 0
CopySpec region offsets start c size (chunks ks) = Places region offsets start c size ks
CopySpec region offsets start c size fault = ⊥
CopySpec region offsets start c size looping = ⊥

chunk_then-CopySpec :
    (region : ℕ) (offsets : List ℕ) (start c size : ℕ) (k : Chunk) (r : Copied)
    → k.from ≡ c
    → 0 < k.size
    → ((i : ℕ) → i < k.size → k.dst + i ≡ address region offsets (start + c + i))
    → CopySpec region offsets start (c + k.size) size r
    → CopySpec region offsets start c size (chunk_then k r)
chunk_then-CopySpec region offsets start c size k (chunks ks) f p a s = (f, p, a, s)
chunk_then-CopySpec region offsets start c size k fault f p a s = s
chunk_then-CopySpec region offsets start c size k looping f p a s = s

same_page :
    (region : ℕ) (offsets : List ℕ) (o i d : ℕ)
    → d ≡ address region offsets o
    → o % bpage_size + i < bpage_size
    → d + i ≡ address region offsets (o + i)
same_page region offsets o i d e h =
    let page : (o + i) / bpage_size ≡ o / bpage_size = omega arith in rw (page, e) (omega arith)

nonzero : (a : ℕ) → 0 < a → (a == 0) ≡ false
nonzero a h = ground arith

copy_step-CopySpec :
    (region len : ℕ) (offsets : List ℕ) (start copied size : ℕ) (next : ℕ → Copied)
    → length offsets ≡ (len + bpage_size - 1) / bpage_size
    → start + size ≤ len
    → copied < size
    → ((k : ℕ)
        → 0 < k
        → copied + k ≤ size
        → CopySpec region offsets start (copied + k) size (next k))
    → CopySpec region offsets start copied size
        (copy_step copied (size - copied) (get_buffer region len offsets (start + copied)) next)
unfolding copy_step
copy_step-CopySpec region len offsets start copied size next n fits left rest =
    go (get_buffer region len offsets (start + copied))
      (get_buffer_lem region len offsets (start + copied) n)
  where
    go :
        (b : Option ℕ × ℕ)
        → ((len ≤ start + copied) × (b.0 ≡ none) × (b.1 ≡ 0))
          ⊎ ((start + copied < len)
              × (b.0 ≡ some (address region offsets (start + copied)))
              × (0 < b.1)
              × ((start + copied) % bpage_size + b.1 ≤ bpage_size)
              × (start + copied + b.1 ≤ len)
              × ((start + copied + b.1 ≡ len) ⊎ ((start + copied) % bpage_size + b.1 ≡ bpage_size)))
        → CopySpec region offsets start copied size (copy_step copied (size - copied) b next)
    go (none, a) (inl past) = absurd (omega arith)
    go (none, a) (inr at) = cc
    go (some d, a) (inl past) = absurd (omega arith)
    go (some d, a) (inr at) = rw (nonzero a at.2) (
        chunk_then-CopySpec region offsets start copied size _ (next _) refl (ground arith)
          (λ i h. same_page region offsets (start + copied) i d (cc) (ground arith))
          (rest _ (ground arith) (ground arith)))

-- A packet that lies within a message that has its buffers is copied whole: the loop ends, by copies of
-- at least a byte each that take the packet's bytes in order, and each byte goes to its own address.
-- It makes at most as many turns as the packet has bytes, and one more.
pub copy_chunks-CopySpec :
    (fuel region len : ℕ) (offsets : List ℕ) (p : Packet) (copied : ℕ)
    → length offsets ≡ (len + bpage_size - 1) / bpage_size
    → p.offset + p.size ≤ len
    → copied ≤ p.size
    → p.size < fuel + copied
    → CopySpec region offsets p.offset copied p.size (copy_chunks fuel region len offsets p copied)
unfolding copy_chunks
copy_chunks-CopySpec zero region len offsets p copied n fits le more = absurd (omega arith)
copy_chunks-CopySpec (suc fuel) region len offsets p copied n fits le more =
    elim (Bool-cases (leb p.size copied)) [
      | inl done ↦ rw done (ground arith)
      | inr left ↦ rw left (
          copy_step-CopySpec region len offsets p.offset copied p.size _ n fits (ground arith)
            (λ k pos below.
              copy_chunks-CopySpec fuel region len offsets p (copied + k) n fits below
                (omega arith)))
    ]
