-- ===== src/Grant/Headroom.antt =====
-- What homa_grant_update_granted and homa_grant_update_incoming (homa_grant.c) grant, and its priority.
use homa_module.Prelude.{
  ℕ, ◌+◌, ◌-◌, ◌≤◌, ◌<◌, ◌≡◌, ◌⊎◌, inl, inr, refl, true, false, Option, none, some, arith, ltb, leb,
  if◌then◌else◌, ltb→lt, leb→le, Bool, Bool-cases,
}
use homa_module.Prelude.Int.{ℤ, pos, negsuc, pos_part, neg_part, ◌+ℤ◌, ◌-ℤ◌, ◌≤ℤ◌, ltb_ℤ, int_laws}
use homa_module.Grant.{
  GrantRpc, Grant, Granting, grant_priority, update_incoming, new_grant_offset, grant_up_to,
  grant_ranked, update_granted, note_stall, grant_fast,
}

-- The bytes of a message that have arrived.
abbrev pub received : GrantRpc → ℕ
received rpc = rpc.len - rpc.bytes_remaining

-- What a grant of `rpc` as `rpc'` may be, with its priority.
pub record Grants (g : Grant) (rpc rpc' : GrantRpc) (priority : ℕ) : Type 0 where
  pub more : rpc.granted < rpc'.granted
  pub within : rpc'.granted ≤ rpc.len
  pub in_window : rpc'.granted ≤ received rpc + g.window
  pub level : priority ≤ g.max_sched_prio

-- Why an RPC may get no grant.
pub data NoGrant (g : Grant) (rpc : GrantRpc) : Type 0 where
  silent : 1 < rpc.silent_ticks → NoGrant g rpc
  not_active : rpc.rank ≡ none → NoGrant g rpc
  all_granted : rpc.len ≤ rpc.granted → NoGrant g rpc
  window_full : received rpc + g.window ≤ rpc.granted → NoGrant g rpc
  no_headroom : pos g.max_incoming ≤ℤ g.total_incoming → NoGrant g rpc

abbrev pub Outcome : Grant → GrantRpc → Grant → GrantRpc → Option ℕ → Type 0
Outcome g rpc g' rpc' none = (rpc'.granted ≡ rpc.granted) × NoGrant g rpc
Outcome g rpc g' rpc' (some priority) =
    Grants g rpc rpc' priority
    × ((g'.total_incoming ≤ℤ pos g.max_incoming) ⊎ (g'.total_incoming ≡ g.total_incoming))

-- `rec_incoming` is what is granted and has not arrived, and `total_incoming` has changed with it.
pub record IsCounted (g : Grant) (rpc : GrantRpc) (g' : Grant) (rpc' : GrantRpc) : Type 0 where
  pub current : rpc'.rec_incoming ≡ rpc'.granted - received rpc'
  pub account :
      g'.total_incoming +ℤ pos rpc.rec_incoming ≡ g.total_incoming +ℤ pos rpc'.rec_incoming

abbrev pub GrantSpec : Grant → GrantRpc → Granting → Type 0
GrantSpec g rpc (g', rpc', priority) = IsCounted g rpc g' rpc' × Outcome g rpc g' rpc' priority

grant_priority-le : (g : Grant) (rank : ℕ) → grant_priority g rank ≤ g.max_sched_prio
unfolding grant_priority
grant_priority-le g rank = ground arith

ltb_false→le : (a b : ℕ) → ltb a b ≡ false → b ≤ a
ltb_false→le a b h = ground arith

leb_false→lt : (a b : ℕ) → leb a b ≡ false → b < a
leb_false→lt a b h = ground arith

-- An offset that may be granted.
record IsAllowed (g : Grant) (rpc : GrantRpc) (offset : ℤ) : Type 0 where
  within : offset ≤ℤ pos rpc.len
  in_window : offset ≤ℤ pos (received rpc + g.window)
  headroom : (g.total_incoming +ℤ offset) ≤ℤ pos (g.max_incoming + received rpc + rpc.rec_incoming)

-- Both ways to choose the offset, over the numbers they read.
offset_of_window :
    (len sum : ℕ)
    → ((if ltb len sum then len else sum) ≤ len) × ((if ltb len sum then len else sum) ≤ sum)
offset_of_window len sum = (ground arith, ground arith)

stalled-IsAllowed :
    (g : Grant) (rpc : GrantRpc) (offset : ℕ)
    → offset ≤ rpc.len
    → offset ≤ received rpc + g.window
    → ltb_ℤ
        (pos g.max_incoming -ℤ g.total_incoming)
        (pos offset -ℤ pos (received rpc) -ℤ pos rpc.rec_incoming)
      ≡ true
    → IsAllowed g rpc (
        pos offset
        -ℤ (pos offset
            -ℤ pos (received rpc)
            -ℤ pos rpc.rec_incoming
            -ℤ (pos g.max_incoming -ℤ g.total_incoming)))
stalled-IsAllowed g rpc offset h k e =
    let lt = ltb→lt _ _ e in
    record { within = omega int_laws; in_window = omega int_laws; headroom = omega int_laws }

free-IsAllowed :
    (g : Grant) (rpc : GrantRpc) (offset : ℕ)
    → offset ≤ rpc.len
    → offset ≤ received rpc + g.window
    → ltb_ℤ
        (pos g.max_incoming -ℤ g.total_incoming)
        (pos offset -ℤ pos (received rpc) -ℤ pos rpc.rec_incoming)
      ≡ false
    → IsAllowed g rpc (pos offset)
free-IsAllowed g rpc offset h k e =
    let le = ltb_false→le _ _ e in
    record { within = omega arith; in_window = omega arith; headroom = omega int_laws }

new_grant_offset-IsAllowed :
    (g : Grant) (rpc : GrantRpc) → IsAllowed g rpc (new_grant_offset g rpc).0
unfolding new_grant_offset
new_grant_offset-IsAllowed g rpc =
    let (in_len, in_window) = offset_of_window rpc.len (received rpc + g.window) in
    let offset =
      if ltb rpc.len (received rpc + g.window) then rpc.len else received rpc + g.window in
    elim (Bool-cases (
      ltb_ℤ (pos g.max_incoming -ℤ g.total_incoming)
        (pos offset -ℤ pos (received rpc) -ℤ pos rpc.rec_incoming))) [
          | inl e ↦ rw e (stalled-IsAllowed g rpc offset in_len in_window e)
          | inr e ↦ rw e (free-IsAllowed g rpc offset in_len in_window e)
        ]

note_stall-total :
    (g : Grant) (rank : ℕ) (stalls : Bool)
    → (note_stall g rank stalls).total_incoming ≡ g.total_incoming
unfolding note_stall
note_stall-total g rank true = ground arith
note_stall-total g rank false = refl

update_incoming-IsCounted :
    (g : Grant) (rpc : GrantRpc)
    → IsCounted g rpc (update_incoming g rpc).0 (update_incoming g rpc).1
unfolding update_incoming
update_incoming-IsCounted g rpc = record { current = refl; account = omega int_laws }

-- The rest of the path, where no grant has been made.
refused-GrantSpec :
    (g g' : Grant) (rpc : GrantRpc)
    → g'.total_incoming ≡ g.total_incoming
    → NoGrant g rpc
    → GrantSpec g rpc ((update_incoming g' rpc).0, (update_incoming g' rpc).1, none)
unfolding update_incoming
refused-GrantSpec g g' rpc same why =
    (record { current = refl; account = rw same (omega int_laws) }, (refl, why))

-- It, where one has.
granted-GrantSpec :
    (g g' : Grant) (rpc : GrantRpc) (offset : ℤ) (priority : ℕ)
    → g'.total_incoming ≡ g.total_incoming
    → rpc.rec_incoming ≡ rpc.granted - received rpc
    → IsAllowed g rpc offset
    → pos_part (pos rpc.granted) + neg_part offset < pos_part offset + neg_part (pos rpc.granted)
    → priority ≤ g.max_sched_prio
    → let rpc' = record rpc { granted = pos_part offset } in
      GrantSpec g rpc ((update_incoming g' rpc').0, (update_incoming g' rpc').1, some priority)
unfolding update_incoming
granted-GrantSpec g g' rpc (negsuc n) priority same cur ok more level = absurd (omega (arith, more))
granted-GrantSpec g g' rpc (pos offset) priority same cur ok more level = (
  record { current = refl; account = rw same (omega int_laws) },
  (
    record {
      more = omega (arith, more);
      within = omega (arith, ok.within);
      in_window = omega (arith, ok.in_window);
      level = level;
    },
    elim (Bool-cases (leb (received rpc) offset)) [
      | inl e ↦ inl (rw same (headroom (leb→le _ _ e)))
      | inr e ↦ inr (rw same (late (leb_false→lt _ _ e)))
    ],
  ),
)
  where
    headroom :
        received rpc ≤ offset
        → g.total_incoming +ℤ (pos (offset - received rpc) -ℤ pos rpc.rec_incoming)
          ≤ℤ pos g.max_incoming
    headroom le = omega (int_laws, ok.headroom)

    late :
        offset < received rpc
        → g.total_incoming +ℤ (pos (offset - received rpc) -ℤ pos rpc.rec_incoming)
          ≡ g.total_incoming
    late lt = omega (int_laws, cur, more)

chosen-GrantSpec :
    (g : Grant) (rpc : GrantRpc) (rank : ℕ) (choice : ℤ × Bool)
    → rpc.rec_incoming ≡ rpc.granted - received rpc
    → IsAllowed g rpc choice.0
    → (choice.0 ≤ℤ pos rpc.granted → NoGrant g rpc)
    → let (g', rpc', priority) = grant_up_to g rpc rank choice in
      GrantSpec g rpc ((update_incoming g' rpc').0, (update_incoming g' rpc').1, priority)
unfolding grant_up_to
chosen-GrantSpec g rpc rank (offset, stalls) cur ok why =
    elim (Bool-cases (ltb_ℤ (pos rpc.granted) offset)) [
      | inl e ↦ rw e (
          granted-GrantSpec g (note_stall g rank stalls) rpc offset (grant_priority g rank)
            (note_stall-total g rank stalls) cur ok (ltb→lt _ _ e) (grant_priority-le g rank))
      | inr e ↦ rw e (
          refused-GrantSpec g (note_stall g rank stalls) rpc (note_stall-total g rank stalls)
            (why (ltb_false→le _ _ e)))
    ]

stalled-NoGrant :
    (g : Grant) (rpc : GrantRpc) (offset : ℕ)
    → rpc.rec_incoming ≡ rpc.granted - received rpc
    → pos offset
        -ℤ (pos offset
            -ℤ pos (received rpc)
            -ℤ pos rpc.rec_incoming
            -ℤ (pos g.max_incoming -ℤ g.total_incoming))
      ≤ℤ pos rpc.granted
    → NoGrant g rpc
stalled-NoGrant g rpc offset cur le = no_headroom (omega (int_laws, cur, le))

full-NoGrant :
    (g : Grant) (rpc : GrantRpc)
    → (if ltb rpc.len (received rpc + g.window) then rpc.len else received rpc + g.window)
      ≤ rpc.granted
    → NoGrant g rpc
full-NoGrant g rpc le = elim (Bool-cases (ltb rpc.len (received rpc + g.window))) [
  | inl e ↦ all_granted (ground arith)
  | inr e ↦ window_full (ground arith)
]

-- Why there may be nothing to grant up to.
new_grant_offset-NoGrant :
    (g : Grant) (rpc : GrantRpc)
    → rpc.rec_incoming ≡ rpc.granted - received rpc
    → (new_grant_offset g rpc).0 ≤ℤ pos rpc.granted
    → NoGrant g rpc
unfolding new_grant_offset
new_grant_offset-NoGrant g rpc cur =
    let offset =
      if ltb rpc.len (received rpc + g.window) then rpc.len else received rpc + g.window in
    elim (Bool-cases (
      ltb_ℤ (pos g.max_incoming -ℤ g.total_incoming)
        (pos offset -ℤ pos (received rpc) -ℤ pos rpc.rec_incoming))) [
          | inl e ↦ rw e (λ le. stalled-NoGrant g rpc offset cur le)
          | inr e ↦ rw e (λ le. full-NoGrant g rpc (omega (arith, le)))
        ]

grant_ranked-GrantSpec :
    (g : Grant) (rpc : GrantRpc) (r : Option ℕ)
    → rpc.rec_incoming ≡ rpc.granted - received rpc
    → rpc.rank ≡ r
    → let (g', rpc', priority) = grant_ranked g rpc r in
      GrantSpec g rpc ((update_incoming g' rpc').0, (update_incoming g' rpc').1, priority)
unfolding grant_ranked
grant_ranked-GrantSpec g rpc none cur n = refused-GrantSpec g g rpc refl (not_active n)
grant_ranked-GrantSpec g rpc (some rank) cur r = elim (Bool-cases (leb rpc.len rpc.granted)) [
  | inl a ↦ rw a (refused-GrantSpec g g rpc refl (all_granted (leb→le _ _ a)))
  | inr a ↦ rw a (
      chosen-GrantSpec g rpc rank (new_grant_offset g rpc) cur (new_grant_offset-IsAllowed g rpc)
        (new_grant_offset-NoGrant g rpc cur))
]

-- For an RPC whose `rec_incoming` is what is granted to it and has not arrived, homa_grant_update_granted
-- and then homa_grant_update_incoming keep it so, with the same change of `total_incoming`. A grant adds
-- bytes, within the message and the window, at a priority that exists, and does not take
-- `total_incoming` above `max_incoming`: it stays as it was or ends up at most that. There is no grant
-- only for a silent peer, an RPC that is not active, a message that is granted whole, a full window, or
-- where `total_incoming` has reached `max_incoming` already.
pub grant_fast_lem :
    (g : Grant) (rpc : GrantRpc)
    → rpc.rec_incoming ≡ rpc.granted - received rpc
    → GrantSpec g rpc (grant_fast g rpc)
unfolding grant_fast update_granted
grant_fast_lem g rpc cur = elim (Bool-cases (ltb 1 rpc.silent_ticks)) [
  | inl e ↦ rw e (refused-GrantSpec g g rpc refl (silent (ltb→lt _ _ e)))
  | inr e ↦ rw e (grant_ranked-GrantSpec g rpc rpc.rank cur refl)
]
