-- ===== src/Outgoing/Geometry.antt =====
-- The sizes that homa_message_out_fill (homa_outgoing.c) computes for the packets of a message.
use native.Mathlib.Omega.{div_any}
use native.Mathlib.Nat.{mod-lt}
use homa_module.Prelude.{
  ℕ, zero, suc, ◌+◌, ◌-◌, ◌*◌, ◌/◌, ◌%◌, ◌≤◌, ◌<◌, ◌≡◌, refl, ◌⊎◌, inl, inr, Bool, true, false,
  arith, ◌==◌, if◌then◌else◌,
}
use homa_module.Pool.{u32_mod, u64_mod, int_max}
use homa_module.Outgoing.{data_hdr_size, seg_hdr_size, max_seg_data, segs_per_gso, max_gso_data}

-- The size of a GSO packet of so many segments, from the IP header on: without hijacking each segment but
-- the first brings its header.
abbrev pub gso_bytes : Bool → ℕ → ℕ → ℕ → ℕ
gso_bytes true ip_header seg_data segs = ip_header + data_hdr_size + segs * seg_data
gso_bytes false ip_header seg_data segs =
    ip_header + data_hdr_size + segs * seg_data + (segs - 1) * seg_hdr_size

pub record GeometrySpec (hijack : Bool) (mtu gso_size ip_header segs : ℕ) : Type 0 where
  pub packet : ip_header + data_hdr_size + max_seg_data mtu ip_header ≡ mtu
  pub some_data : 0 < max_seg_data mtu ip_header
  pub some_segs : 0 < segs
  pub whole :
      max_gso_data hijack gso_size ip_header (max_seg_data mtu ip_header)
      ≡ segs * max_seg_data mtu ip_header
  pub fits : (segs ≡ 1) ⊎ (gso_bytes hijack ip_header (max_seg_data mtu ip_header) segs ≤ gso_size)
  pub full : gso_size < gso_bytes hijack ip_header (max_seg_data mtu ip_header) (segs + 1)

quotient_bounds : (a b : ℕ) → 0 < b → (b * (a / b) ≤ a) × (a < b * (a / b) + b)
quotient_bounds a b h = (omega (arith, div_any a b), omega (arith, div_any a b, mod-lt a h))

max_seg_data_lem :
    (mtu ip_header : ℕ)
    → ip_header + data_hdr_size < mtu
    → mtu ≤ int_max
    → max_seg_data mtu ip_header ≡ mtu - (ip_header + data_hdr_size)
unfolding max_seg_data
max_seg_data_lem mtu ip_header h small = omega arith

segs_bounds :
    (seg_data room : ℕ) (header : ℕ)
    → 0 < seg_data
    → let q = (room + header) / (seg_data + header) in
      (seg_data * q + header * q ≤ room + header)
      × (room + header < seg_data * q + header * q + seg_data + header)
segs_bounds seg_data room header pos =
    let b = quotient_bounds (room + header) (seg_data + header) (omega arith) in
    (omega (arith, b.0), omega (arith, b.1))

abbrev at_least_one : ℕ → ℕ
at_least_one n = if n == 0 then 1 else n

-- From the number of segments as a quotient to the sizes.
fits_hijack :
    (d ip_header gso_size q : ℕ)
    → ip_header + data_hdr_size ≤ gso_size
    → d * q ≤ gso_size - (ip_header + data_hdr_size)
    → gso_size - (ip_header + data_hdr_size) < d * q + d
    → ((at_least_one q ≡ 1) ⊎ (gso_bytes true ip_header d (at_least_one q) ≤ gso_size))
      × (gso_size < gso_bytes true ip_header d (at_least_one q + 1))
fits_hijack d ip_header gso_size zero h lo hi = (inl refl, omega (arith, hi))
fits_hijack d ip_header gso_size (suc q) h lo hi =
    let pos : (suc q == 0) ≡ false = ground arith in
    rw pos (inr (omega (arith, lo)), omega (arith, hi))

fits_plain :
    (d ip_header gso_size q : ℕ)
    → ip_header + data_hdr_size ≤ gso_size
    → d * q + seg_hdr_size * q ≤ gso_size - (ip_header + data_hdr_size) + seg_hdr_size
    → gso_size - (ip_header + data_hdr_size) + seg_hdr_size
      < d * q + seg_hdr_size * q + d + seg_hdr_size
    → ((at_least_one q ≡ 1) ⊎ (gso_bytes false ip_header d (at_least_one q) ≤ gso_size))
      × (gso_size < gso_bytes false ip_header d (at_least_one q + 1))
fits_plain d ip_header gso_size zero h lo hi = (inl refl, omega (arith, hi))
fits_plain d ip_header gso_size (suc q) h lo hi =
    let pos : (suc q == 0) ≡ false = ground arith in
    rw pos (inr (omega (arith, lo)), omega (arith, hi))

whole_lem :
    (d q gso_size : ℕ)
    → d ≤ int_max
    → gso_size ≤ int_max
    → d * q ≤ gso_size + seg_hdr_size
    → at_least_one q * d % u32_mod ≡ at_least_one q * d
whole_lem d zero gso_size h k l = omega arith
whole_lem d (suc q) gso_size h k l =
    let pos : (suc q == 0) ≡ false = ground arith in rw pos (omega (arith, l))

positive_lem : (q : ℕ) → 0 < at_least_one q
positive_lem q = ground arith

geometry_at :
    (hijack : Bool) (mtu ip_header gso_size d : ℕ)
    → d ≡ mtu - (ip_header + data_hdr_size)
    → max_seg_data mtu ip_header ≡ d
    → ip_header + data_hdr_size < mtu
    → mtu ≤ int_max
    → ip_header + data_hdr_size ≤ gso_size
    → gso_size ≤ int_max
    → GeometrySpec hijack mtu gso_size ip_header
        (segs_per_gso hijack gso_size ip_header (max_seg_data mtu ip_header))
unfolding segs_per_gso max_gso_data
geometry_at true mtu ip_header gso_size d e same h small k large =
    let room = gso_size - (ip_header + data_hdr_size) in
    let word : (gso_size + u64_mod - (ip_header + data_hdr_size)) % u64_mod ≡ room = omega arith in
    let (lo, hi) = quotient_bounds room d (omega (arith, e)) in
    let (fit, more) = fits_hijack d ip_header gso_size (room / d) k lo hi in
    rw (same, word)
      (record {
        packet = omega (arith, same, e);
        some_data = omega (arith, same, e);
        some_segs = positive_lem (room / d);
        whole =
            rw (same, word)
              (whole_lem d (room / d) gso_size (omega (arith, e)) large (omega (arith, lo)));
        fits = rw same fit;
        full = rw same more;
      })
geometry_at false mtu ip_header gso_size d e same h small k large =
    let room = gso_size - (ip_header + data_hdr_size) in
    let word : (gso_size + u64_mod - (ip_header + data_hdr_size)) % u64_mod ≡ room = omega arith in
    let word' : (room + seg_hdr_size) % u64_mod ≡ room + seg_hdr_size = omega arith in
    let (lo, hi) = segs_bounds d room seg_hdr_size (omega (arith, e)) in
    let (fit, more) =
      fits_plain d ip_header gso_size ((room + seg_hdr_size) / (d + seg_hdr_size)) k lo hi in
    rw (same, word, word')
      (record {
        packet = omega (arith, same, e);
        some_data = omega (arith, same, e);
        some_segs = positive_lem ((room + seg_hdr_size) / (d + seg_hdr_size));
        whole =
            rw (same, word, word')
              (whole_lem d ((room + seg_hdr_size) / (d + seg_hdr_size)) gso_size (omega (arith, e))
                large (omega (arith, lo)));
        fits = rw same fit;
        full = rw same more;
      })

-- With an MTU and a GSO limit that are positive ints and have room for the headers, no size that
-- homa_message_out_fill computes overflows. A network packet with a full segment is as large as the MTU. The
-- packets before segmentation have as many full segments as possible: a packet with one more would be larger
-- than the GSO limit, and a packet of their size is not, but if the limit has no room for even one segment,
-- where they have one.
pub geometry_lem :
    (hijack : Bool) (mtu ip_header gso_size : ℕ)
    → ip_header + data_hdr_size < mtu
    → mtu ≤ int_max
    → ip_header + data_hdr_size ≤ gso_size
    → gso_size ≤ int_max
    → GeometrySpec hijack mtu gso_size ip_header
        (segs_per_gso hijack gso_size ip_header (max_seg_data mtu ip_header))
geometry_lem hijack mtu ip_header gso_size h small k large =
    geometry_at hijack mtu ip_header gso_size (mtu - (ip_header + data_hdr_size)) refl
      (max_seg_data_lem mtu ip_header h small) h small k large
