-- ===== src/Incoming/Gaps.antt =====
-- The gap list of homa_add_packet (homa_incoming.c): what the scan of the gaps does to it.
use homa_module.Prelude.{
  ℕ, ◌+◌, ◌-◌, ◌≤◌, ◌<◌, ◌≡◌, ◌⊎◌, inl, inr, refl, Bool, true, false, not, ◌&&◌, ◌||◌, Option, none,
  some, List, [], ◌∷◌, arith, ltb, leb, if◌then◌else◌, Bool-cases,
}
use homa_module.Incoming.{
  Gap, Fill, filled, refused, keep_gap, fill_gaps, DropReason, dup_frag, nomem, pkt_too_big,
}

abbrev pub between : ℕ → ℕ → ℕ → Bool
between start stop b = leb start b && ltb b stop

-- Byte `b` lies in a gap.
abbrev pub in_gaps : ℕ → List Gap → Bool
in_gaps b [] = false
in_gaps b (g ∷ gs) = between g.start g.end b || in_gaps b gs

abbrev pub gap_bytes : List Gap → ℕ
gap_bytes [] = 0
gap_bytes (g ∷ gs) = (g.end - g.start) + gap_bytes gs

-- Nonempty gaps from `lo` on, in order, each with a byte behind it that is in no gap, and that below `hi`.
abbrev pub GapsIn : ℕ → ℕ → List Gap → Type 0
GapsIn lo hi [] = lo ≤ hi
GapsIn lo hi (g ∷ gs) = (lo ≤ g.start) × (g.start < g.end) × GapsIn (g.end + 1) hi gs

pub GapsIn-weaken : (lo lo' hi : ℕ) (gs : List Gap) → lo' ≤ lo → GapsIn lo hi gs → GapsIn lo' hi gs
GapsIn-weaken lo lo' hi [] h w = omega arith
GapsIn-weaken lo lo' hi (g ∷ gs) h w = (omega arith, w.1, w.2)

pub GapsIn-le : (lo hi : ℕ) (gs : List Gap) → GapsIn lo hi gs → lo ≤ hi
GapsIn-le lo hi [] w = w
GapsIn-le lo hi (g ∷ gs) w = omega (arith, GapsIn-le (g.end + 1) hi gs w.2)

-- Gaps lie where they should.
pub in_gaps_above : (lo hi b : ℕ) (gs : List Gap) → GapsIn lo hi gs → b < lo → in_gaps b gs ≡ false
in_gaps_above lo hi b [] w h = refl
in_gaps_above lo hi b (g ∷ gs) w h = ground (arith, in_gaps_above (g.end + 1) hi b gs w.2)

pub in_gaps_below : (lo hi b : ℕ) (gs : List Gap) → GapsIn lo hi gs → hi ≤ b → in_gaps b gs ≡ false
in_gaps_below lo hi b [] w h = refl
in_gaps_below lo hi b (g ∷ gs) w h =
    ground (arith, in_gaps_below (g.end + 1) hi b gs w.2, GapsIn-le (g.end + 1) hi gs w.2)

-- What a scan that succeeds has done, for bytes `start` to `stop`.
pub record Filled (start stop lo hi : ℕ) (gs gs' : List Gap) : Type 0 where
  pub ordered : GapsIn lo hi gs'
  pub bytes : gap_bytes gs' + (stop - start) ≡ gap_bytes gs
  pub holes : (b : ℕ) → in_gaps b gs' ≡ (in_gaps b gs && not (between start stop b))
  pub missing : (b : ℕ) → between start stop b ≡ true → in_gaps b gs ≡ true

-- Why a scan refuses the bytes: none of them is missing; or some are, and some before `hi` are not; or a gap cannot
-- be split for want of memory.
abbrev pub Refused : ℕ → ℕ → Bool → ℕ → List Gap → Option DropReason → Type 0
Refused start stop memory hi gs none = (b : ℕ) → between start stop b ≡ true → in_gaps b gs ≡ false
Refused start stop memory hi gs (some pkt_too_big) = ⊥
Refused start stop memory hi gs (some nomem) = memory ≡ false
Refused start stop memory hi gs (some dup_frag) =
    (b : ℕ) × (c : ℕ) × (between start stop b ≡ true)
    × (in_gaps b gs ≡ true)
    × (between start stop c ≡ true)
    × (in_gaps c gs ≡ false)
    × (c < hi)

abbrev pub FillSpec : ℕ → ℕ → Bool → ℕ → ℕ → List Gap → Fill → Type 0
FillSpec start stop memory lo hi gs (filled gs') = Filled start stop lo hi gs gs'
FillSpec start stop memory lo hi gs (refused r) = Refused start stop memory hi gs r

-- A gap that the bytes do not touch.
skip-FillSpec :
    (start stop : ℕ) (memory : Bool) (lo hi : ℕ) (g : Gap) (gs : List Gap) (f : Fill)
    → GapsIn lo hi (g ∷ gs)
    → start < stop
    → (stop ≤ g.start) ⊎ (g.end ≤ start)
    → FillSpec start stop memory (g.end + 1) hi gs f
    → FillSpec start stop memory lo hi (g ∷ gs) (keep_gap g f)
skip-FillSpec start stop memory lo hi g gs (filled gs') w h apart s = record {
  ordered = (w.0, w.1, s.ordered);
  bytes = omega (arith, s.bytes);
  holes = λ b. ground (arith, s.holes b);
  missing = λ b e. ground (arith, s.missing b e);
}
skip-FillSpec start stop memory lo hi g gs (refused none) w h apart s = λ b e. ground (arith, s b e)
skip-FillSpec start stop memory lo hi g gs (refused (some pkt_too_big)) w h apart s = s
skip-FillSpec start stop memory lo hi g gs (refused (some nomem)) w h apart s = s
skip-FillSpec start stop memory lo hi g gs (refused (some dup_frag)) w h apart s =
    let (b, c, eb, ib, ec, ic, below) = s in (b, c, eb, ground arith, ec, ground arith, below)

fill_first :
    (start stop lo hi : ℕ) (memory : Bool) (g : Gap) (gs : List Gap)
    → GapsIn lo hi (g ∷ gs)
    → start < stop
    → start ≤ g.start
    → g.start < stop
    → FillSpec start stop memory lo hi (g ∷ gs) (
        if ltb start g.start
        then refused (some dup_frag)
        else if ltb g.end stop
        then refused (some dup_frag)
        else filled (if leb g.end stop then gs else record g { start = stop } ∷ gs))
fill_first start stop lo hi memory g gs w h le meets = elim (Bool-cases (ltb start g.start)) [
  | inl early ↦ rw early (
    g.start,
    start,
    ground arith,
    ground arith,
    ground arith,
    ground (arith, in_gaps_above (g.end + 1) hi start gs w.2),
    omega (arith, GapsIn-le (g.end + 1) hi gs w.2),
  )
  | inr exact ↦ elim (Bool-cases (ltb g.end stop)) [
    | inl over ↦
        rw (exact, over)
          (
            start,
            g.end,
            ground arith,
            ground arith,
            ground arith,
            ground (arith, in_gaps_above (g.end + 1) hi g.end gs w.2),
            omega (arith, GapsIn-le (g.end + 1) hi gs w.2),
          )
    | inr fits ↦ elim (Bool-cases (leb g.end stop)) [
      | inl whole ↦ rw (exact, fits, whole) (first_whole (ground arith) (ground arith))
      | inr part ↦ rw (exact, fits, part) (first_part (ground arith) (ground arith))
    ]
  ]
]
  where
    first_whole : g.start ≡ start → g.end ≡ stop → Filled start stop lo hi (g ∷ gs) gs
    first_whole es ee = record {
      ordered = GapsIn-weaken (g.end + 1) lo hi gs (omega arith) w.2;
      bytes = omega arith;
      holes = λ b. ground (arith, in_gaps_above (g.end + 1) hi b gs w.2);
      missing = λ b e. ground arith;
    }

    first_part :
        g.start ≡ start
        → stop < g.end
        → Filled start stop lo hi (g ∷ gs) (record g { start = stop } ∷ gs)
    first_part es lt = record {
      ordered = (omega arith, lt, w.2);
      bytes = omega arith;
      holes = λ b. ground (arith, in_gaps_above (g.end + 1) hi b gs w.2);
      missing = λ b e. ground arith;
    }

fill_last :
    (start stop lo hi : ℕ) (memory : Bool) (g : Gap) (gs : List Gap)
    → GapsIn lo hi (g ∷ gs)
    → g.start < start
    → start < g.end
    → g.end ≤ stop
    → FillSpec start stop memory lo hi
        (g ∷ gs)
        (if ltb g.end stop then refused (some dup_frag) else filled (record g { end = start } ∷ gs))
fill_last start stop lo hi memory g gs w h meets le = elim (Bool-cases (ltb g.end stop)) [
  | inl over ↦ rw over (
    start,
    g.end,
    ground arith,
    ground arith,
    ground arith,
    ground (arith, in_gaps_above (g.end + 1) hi g.end gs w.2),
    omega (arith, GapsIn-le (g.end + 1) hi gs w.2),
  )
  | inr fits ↦ rw fits (record {
    ordered = (w.0, h, GapsIn-weaken (g.end + 1) (start + 1) hi gs (omega arith) w.2);
    bytes = ground arith;
    holes = λ b. ground (arith, in_gaps_above (g.end + 1) hi b gs w.2);
    missing = λ b e. ground arith;
  })
]

fill_middle :
    (start stop lo hi : ℕ) (memory : Bool) (g : Gap) (gs : List Gap)
    → GapsIn lo hi (g ∷ gs)
    → g.start < start
    → start < stop
    → stop < g.end
    → FillSpec start stop memory lo hi (g ∷ gs) (
        if not memory
        then refused (some nomem)
        else filled (
            record { start = g.start; end = start; time = g.time }
            ∷ record g { start = stop }
            ∷ gs))
fill_middle start stop lo hi false g gs w h1 h2 h3 = refl
fill_middle start stop lo hi true g gs w h1 h2 h3 = record {
  ordered = (w.0, h1, (omega arith, h3, w.2));
  bytes = omega arith;
  holes = λ b. ground (arith, in_gaps_above (g.end + 1) hi b gs w.2);
  missing = λ b e. ground arith;
}

-- The scan either takes all the bytes, which were all missing, out of the gaps; or it refuses them.
pub fill_gaps-FillSpec :
    (start stop lo hi : ℕ) (memory : Bool) (gs : List Gap)
    → GapsIn lo hi gs
    → start < stop
    → FillSpec start stop memory lo hi gs (fill_gaps start stop memory gs)
unfolding fill_gaps
fill_gaps-FillSpec start stop lo hi memory [] w h = λ b e. refl
fill_gaps-FillSpec start stop lo hi memory (g ∷ gs) w h =
    let rest = fill_gaps-FillSpec start stop (g.end + 1) hi memory gs w.2 h in
    elim (Bool-cases (leb start g.start)) [
      | inl front ↦ elim (Bool-cases (leb stop g.start)) [
        | inl apart ↦
            rw (front, apart)
              (skip-FillSpec start stop memory lo hi g gs _ w h (inl (ground arith)) rest)
        | inr meets ↦
            rw (front, meets)
              (fill_first start stop lo hi memory g gs w h (ground arith) (ground arith))
      ]
      | inr inside ↦ elim (Bool-cases (leb g.end stop)) [
        | inl reaches ↦ elim (Bool-cases (leb g.end start)) [
          | inl apart ↦
              rw (inside, reaches, apart)
                (skip-FillSpec start stop memory lo hi g gs _ w h (inr (ground arith)) rest)
          | inr meets ↦
              rw (inside, reaches, meets)
                (fill_last start stop lo hi memory g gs w (ground arith) (ground arith)
                  (ground arith))
        ]
        | inr middle ↦
            rw (inside, middle)
              (fill_middle start stop lo hi memory g gs w (ground arith) h (ground arith))
      ]
    ]
