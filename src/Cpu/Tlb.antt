-- ===== src/Cpu/Tlb.antt =====
-- The TLB and the translation of logical addresses, cpu/src/MMU.c.
use ronaldinh_os_sistemas_op.Common.{
  ℕ, zero, suc, ◌+◌, ◌-◌, ◌*◌, ◌/◌, ◌%◌, List, [], ◌∷◌, ◌++◌, Bool, true, false, Option, none, some,
  ltb, ◌==◌, if◌then◌else◌, length, set, find, ◌&&◌, u32_mod,
}

-- `TLB_ROW`. A frame is the 32-bit number that the memory module answers.
pub record TlbRow : Type 0 where
  pub pid : ℕ
  pub page : ℕ
  pub frame : ℕ
  pub last_used_time : ℕ

-- `ALGORITMO_TLB`: another text than "FIFO" or "LRU" replaces nothing.
pub data Replacement : Type 0 where
  fifo lru other : Replacement

-- The answer -1, read as an unsigned number.
abbrev pub missing : ℕ
missing = u32_mod - 1

unfoldable pub has_the_row : ℕ → ℕ → TlbRow → Bool
has_the_row pid page row = (row.pid == pid) && (row.page == page)

-- The time of the row that was found is set.
unfoldable pub touch : ℕ → ℕ → ℕ → List TlbRow → List TlbRow
unfolding has_the_row
touch now pid page [] = []
touch now pid page (row ∷ rows) = elim (has_the_row pid page row) [
  | true ↦ record row { last_used_time = now } ∷ rows
  | false ↦ row ∷ touch now pid page rows
]

-- `hitOrMiss`, in a TLB of `entries` rows at the time `now`.
unfoldable pub hit_or_miss : ℕ → ℕ → ℕ → ℕ → List TlbRow → ℕ × List TlbRow
unfolding find touch has_the_row
hit_or_miss entries now pid page tlb =
    if entries == 0 then (missing, tlb) else elim (find (has_the_row pid page) tlb) [
      | some the_row ↦ (the_row.frame, touch now pid page tlb)
      | none ↦ (missing, tlb)
    ]

unfoldable pub is_there_room_in_tlb : ℕ → List TlbRow → Bool
is_there_room_in_tlb entries tlb = ltb (length tlb) entries

abbrev pub new_row : ℕ → ℕ → ℕ → ℕ → TlbRow
new_row now pid page frame = record { pid = pid; page = page; frame = frame; last_used_time = now }

unfoldable pub insert_tlb_row : ℕ → ℕ → ℕ → ℕ → List TlbRow → List TlbRow
insert_tlb_row now pid page frame tlb = tlb ++ new_row now pid page frame ∷ []

-- The loop of `moveUp`, with its counter and the rows that are still to be visited.
unfoldable pub move_up : ℕ → List TlbRow → List TlbRow → List TlbRow
move_up i [] tlb = tlb
move_up zero (row ∷ rows) tlb = move_up 1 rows tlb
move_up (suc i) (row ∷ rows) tlb = move_up (suc (suc i)) rows (set tlb i row)

-- `findMinimum`: the position of the row instead of a pointer to it. `at` counts the rows read.
unfoldable pub find_minimum_from : ℕ → ℕ → ℕ → List TlbRow → ℕ
find_minimum_from at min min_row [] = min_row
find_minimum_from at min min_row (row ∷ rows) =
    if ltb row.last_used_time min
    then find_minimum_from (suc at) row.last_used_time at rows
    else find_minimum_from (suc at) min min_row rows

unfoldable pub find_minimum : List TlbRow → Option ℕ
unfolding find_minimum_from
find_minimum [] = none
find_minimum (row ∷ rows) = some (find_minimum_from 1 row.last_used_time 0 rows)

unfoldable pub remove_at {ℓ} : {A : Type ℓ} → ℕ → List A → List A
remove_at i [] = []
remove_at zero (x ∷ xs) = xs
remove_at (suc i) (x ∷ xs) = x ∷ remove_at i xs

-- `insertScheduledTLBRow`; `none` is a crash, the read of an empty list's head.
unfoldable pub insert_scheduled_tlb_row :
    ℕ → ℕ → ℕ → ℕ → ℕ → Replacement → List TlbRow → Option (List TlbRow)
unfolding move_up find_minimum remove_at
insert_scheduled_tlb_row entries now pid page frame fifo tlb =
    some (set (move_up 0 tlb tlb) (entries - 1) (new_row now pid page frame))
insert_scheduled_tlb_row entries now pid page frame lru tlb = elim (find_minimum tlb) [
  | none ↦ none
  | some min_row ↦ some (remove_at min_row tlb ++ new_row now pid page frame ∷ [])
]
insert_scheduled_tlb_row entries now pid page frame other tlb = some tlb

module _ (frame_of : ℕ → ℕ → ℕ) (entries : ℕ) (algoritmo : Replacement) where
  -- `buscarFrameEnMemoria`; `frame_of` is the answer of the memory module.
  unfoldable pub buscar_frame_en_memoria : ℕ → ℕ → ℕ → List TlbRow → Option (ℕ × List TlbRow)
  unfolding is_there_room_in_tlb insert_tlb_row insert_scheduled_tlb_row
  buscar_frame_en_memoria now pid page tlb =
      let frame = frame_of pid page in
      if entries == 0
      then some (frame, tlb)
      else if is_there_room_in_tlb entries tlb
      then some (frame, insert_tlb_row now pid page frame tlb)
      else elim (insert_scheduled_tlb_row entries now pid page frame algoritmo tlb) [
        | none ↦ none
        | some tlb' ↦ some (frame, tlb')
      ]

  -- `logicalToPhysicalAddress`, once the page length is known.
  unfoldable pub logical_to_physical_address :
      ℕ → ℕ → ℕ → ℕ → List TlbRow → Option (ℕ × List TlbRow)
  unfolding hit_or_miss buscar_frame_en_memoria
  logical_to_physical_address pages_length now logical_address pid tlb =
      let n_page = logical_address / pages_length in
      let desplazamiento = logical_address - n_page * pages_length in
      let (frame, tlb') = hit_or_miss entries now pid n_page tlb in
      elim (frame == missing) [
        | true ↦ elim (buscar_frame_en_memoria now pid n_page tlb') [
          | none ↦ none
          | some (found, tlb'') ↦ some ((found * pages_length + desplazamiento) % u32_mod, tlb'')
        ]
        | false ↦ some ((frame * pages_length + desplazamiento) % u32_mod, tlb')
      ]
