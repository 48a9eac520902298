-- ===== src/Cpu/Replaced.antt =====
-- Which row `insertScheduledTLBRow` of cpu/src/MMU.c gives up.
use ronaldinh_os_sistemas_op.Common.{
  ℕ, suc, ◌-◌, ◌<◌, ◌≤◌, ◌≡◌, refl, ap, List, [], ◌∷◌, ◌++◌, some, arith, ltb, ltb→lt, length,
  length-append, set, drop, get_elem?, append_assoc, All, All-append, Bool-cases, inl, inr,
  append-nil,
}
use ronaldinh_os_sistemas_op.Cpu.Tlb.{
  TlbRow, fifo, lru, new_row, move_up, find_minimum_from, find_minimum, remove_at,
  insert_scheduled_tlb_row,
}

last_or : TlbRow → List TlbRow → TlbRow
last_or y [] = y
last_or y (r ∷ rows) = last_or r rows

set-append :
    (pre : List TlbRow) (y r : TlbRow) (rows : List TlbRow)
    → set (pre ++ y ∷ rows) (length pre) r ≡ pre ++ r ∷ rows
set-append [] y r rows = refl
set-append (p ∷ pre) y r rows = ap (◌∷◌ p) (set-append pre y r rows)

move_up-shift :
    (pre : List TlbRow) (y : TlbRow) (rows : List TlbRow)
    → move_up (suc (length pre)) rows (pre ++ y ∷ rows) ≡ pre ++ (rows ++ last_or y rows ∷ [])
unfolding move_up last_or
move_up-shift pre y [] = refl
move_up-shift pre y (r ∷ rows) =
    let longer : length (pre ++ r ∷ []) ≡ suc (length pre) =
      omega (arith, length-append pre (r ∷ [])) in
    let step = move_up-shift (pre ++ r ∷ []) r rows in
    rw (set-append pre y r (r ∷ rows)) (
      rw
        (
          longer,
          append_assoc pre (r ∷ []) (r ∷ rows),
          append_assoc pre (r ∷ []) (rows ++ last_or r rows ∷ []),
        )
        at step)

set_last : (xs : List TlbRow) (y r : TlbRow) → set (xs ++ y ∷ []) (length xs) r ≡ xs ++ r ∷ []
set_last xs y r = set-append xs y r []

-- In a full TLB, FIFO gives up the first row, moves the others up in their order, and puts the new
-- row last.
pub insert_scheduled_tlb_row-fifo :
    (entries now pid page frame : ℕ) (tlb : List TlbRow)
    → length tlb ≡ entries
    → 0 < entries
    → insert_scheduled_tlb_row entries now pid page frame fifo tlb
      ≡ some (drop 1 tlb ++ new_row now pid page frame ∷ [])
unfolding insert_scheduled_tlb_row move_up
insert_scheduled_tlb_row-fifo entries now pid page frame [] full pos = absurd (omega arith)
insert_scheduled_tlb_row-fifo entries now pid page frame (row ∷ rows) full pos =
    let at_end : entries - 1 ≡ length rows = omega arith in
    rw
      (
        move_up-shift [] row rows,
        at_end,
        set_last rows (last_or row rows) (new_row now pid page frame),
      )
      refl

-- A position whose row has the least time.
pub record Oldest (tlb : List TlbRow) (position : ℕ) : Type 0 where
  pub row : TlbRow
  pub there : get_elem? tlb position ≡ some row
  pub least : All (λ (r : TlbRow). row.last_used_time ≤ r.last_used_time) tlb

All-le :
    (a b : ℕ) (rows : List TlbRow)
    → a ≤ b
    → All (λ (r : TlbRow). b ≤ r.last_used_time) rows
    → All (λ (r : TlbRow). a ≤ r.last_used_time) rows
All-le a b [] h k = tt
All-le a b (r ∷ rows) h k = (omega (arith, k.0), All-le a b rows h k.1)

get_elem?-append :
    (pre : List TlbRow) (r : TlbRow) (rows : List TlbRow)
    → get_elem? (pre ++ r ∷ rows) (length pre) ≡ some r
get_elem?-append [] r rows = refl
get_elem?-append (p ∷ pre) r rows = get_elem?-append pre r rows

find_minimum_from-Oldest :
    (pre rest : List TlbRow) (at min_row : ℕ) (row : TlbRow)
    → at ≡ length pre
    → get_elem? (pre ++ rest) min_row ≡ some row
    → All (λ (r : TlbRow). row.last_used_time ≤ r.last_used_time) pre
    → Oldest (pre ++ rest) (find_minimum_from at row.last_used_time min_row rest)
unfolding find_minimum_from
find_minimum_from-Oldest pre [] at min_row row here there least = record {
  row = row;
  there = there;
  least = rw (append-nil pre) least;
}
find_minimum_from-Oldest pre (r ∷ rest) at min_row row here there least =
    let one_more : suc at ≡ length (pre ++ r ∷ []) = omega (arith, length-append pre (r ∷ [])) in
    let same = append_assoc pre (r ∷ []) rest in
    elim (Bool-cases (ltb r.last_used_time row.last_used_time)) [
      | inl less ↦
          let lower = ltb→lt _ _ less in
          rw less (
            rw same at (
              find_minimum_from-Oldest (pre ++ r ∷ []) rest (suc at) at r one_more
                (rw (same, here) (get_elem?-append pre r rest))
                (All-append _ pre (r ∷ []) (All-le _ _ pre (omega arith) least) (omega arith, tt))))
      | inr more ↦
          let not_lower : row.last_used_time ≤ r.last_used_time = ground arith in
          rw more (
            rw same at (
              find_minimum_from-Oldest (pre ++ r ∷ []) rest (suc at) min_row row one_more
                (rw same there) (All-append _ pre (r ∷ []) least (not_lower, tt))))
    ]

-- With a row to give up, LRU removes one whose last use is the oldest, keeps the order of the
-- others, and puts the new row last.
pub insert_scheduled_tlb_row-lru :
    (entries now pid page frame : ℕ) (tlb : List TlbRow)
    → 0 < length tlb
    → (position : ℕ) × Oldest tlb position
      × (insert_scheduled_tlb_row entries now pid page frame lru tlb
          ≡ some (remove_at position tlb ++ new_row now pid page frame ∷ []))
unfolding insert_scheduled_tlb_row find_minimum
insert_scheduled_tlb_row-lru entries now pid page frame [] some_rows = absurd (omega arith)
insert_scheduled_tlb_row-lru entries now pid page frame (row ∷ rows) some_rows = (
  find_minimum_from 1 row.last_used_time 0 rows,
  find_minimum_from-Oldest (row ∷ []) rows 1 0 row refl refl (omega arith, tt),
  refl,
)
