-- ===== src/Cpu/Steady.antt =====
-- What stays as it is while the CPU translates an address and moves data: cpu/src/operations.c and
-- cpu/src/MMU.c.
use ronaldinh_os_sistemas_op.Common.{
  ℕ, ◌/◌, ◌<◌, ◌≤◌, ◌≡◌, refl, List, [], ◌∷◌, some, arith, ltb, ltb→lt, ◌==◌, length, length-append,
  length-drop, find, drop, Bool-cases, Option-cases, inl, inr, OnSome,
}
use ronaldinh_os_sistemas_op.Cpu.Tlb.{
  TlbRow, Replacement, fifo, lru, other, new_row, hit_or_miss, has_the_row, is_there_room_in_tlb,
  insert_tlb_row, insert_scheduled_tlb_row, buscar_frame_en_memoria, logical_to_physical_address,
  missing, remove_at,
}
use ronaldinh_os_sistemas_op.Cpu.Replaced.{
  insert_scheduled_tlb_row-fifo, insert_scheduled_tlb_row-lru,
}
use ronaldinh_os_sistemas_op.Cpu.Translation.{length-touch, length-remove_at, get_elem?-lt}

module _ (entries : ℕ) where
  -- A TLB within its size, beside a result.
  abbrev pub Fits : ℕ × List TlbRow → Type 0
  Fits (address, tlb) = length tlb ≤ entries

  length-hit_or_miss :
      (now pid page : ℕ) (tlb : List TlbRow)
      → length (hit_or_miss entries now pid page tlb).1 ≡ length tlb
  unfolding hit_or_miss
  length-hit_or_miss now pid page tlb = elim (Bool-cases (entries == 0)) [
    | inl e ↦ rw (hit_or_miss, e) refl
    | inr e ↦ elim (Option-cases (find (has_the_row pid page) tlb)) [
      | inl miss ↦ rw (hit_or_miss, e, miss) refl
      | inr (row, hit) ↦ rw (hit_or_miss, e, hit) (length-touch now pid page tlb)
    ]
  ]

  insert_scheduled_tlb_row-other :
      (now pid page frame : ℕ) (tlb : List TlbRow)
      → insert_scheduled_tlb_row entries now pid page frame other tlb ≡ some tlb
  unfolding insert_scheduled_tlb_row
  insert_scheduled_tlb_row-other now pid page frame tlb = refl

  scheduled-Fits :
      (algoritmo : Replacement) (now pid page frame : ℕ) (tlb : List TlbRow)
      → 0 < entries
      → length tlb ≡ entries
      → OnSome
          (λ (rows : List TlbRow). length rows ≤ entries)
          (insert_scheduled_tlb_row entries now pid page frame algoritmo tlb)
  scheduled-Fits fifo now pid page frame tlb pos full =
      rw (insert_scheduled_tlb_row-fifo entries now pid page frame tlb full pos) (
        omega
          (arith, length-append (drop 1 tlb) (new_row now pid page frame ∷ []), length-drop 1 tlb))
  scheduled-Fits lru now pid page frame tlb pos full =
      let (i, oldest, run) =
        insert_scheduled_tlb_row-lru entries now pid page frame tlb (omega arith) in
      rw run (
        omega (
          arith,
          length-append (remove_at i tlb) (new_row now pid page frame ∷ []),
          length-remove_at i tlb (get_elem?-lt tlb i oldest.row oldest.there),
        ))
  scheduled-Fits other now pid page frame tlb pos full =
      rw (insert_scheduled_tlb_row-other now pid page frame tlb) (omega arith)

  buscar-Fits :
      (frame_of : ℕ → ℕ → ℕ) (algoritmo : Replacement) (now pid page : ℕ) (tlb : List TlbRow)
      → length tlb ≤ entries
      → OnSome Fits (buscar_frame_en_memoria frame_of entries algoritmo now pid page tlb)
  unfolding buscar_frame_en_memoria is_there_room_in_tlb insert_tlb_row
  buscar-Fits frame_of algoritmo now pid page tlb h =
      let frame = frame_of pid page in
      elim (Bool-cases (entries == 0)) [
        | inl none_at_all ↦ rw (buscar_frame_en_memoria, none_at_all) h
        | inr sized ↦ elim (Bool-cases (ltb (length tlb) entries)) [
          | inl room ↦
              rw (buscar_frame_en_memoria, sized, is_there_room_in_tlb, room)
                (omega (
                  arith,
                  ltb→lt (length tlb) entries room,
                  length-append tlb (new_row now pid page frame ∷ []),
                ))
          | inr full ↦
              let exactly : length tlb ≡ entries =
                let g : entries ≤ length tlb = ground arith in omega arith in
              let some_rows : 0 < entries = ground arith in
              let s = scheduled-Fits algoritmo now pid page frame tlb some_rows exactly in
              elim (Option-cases
                (insert_scheduled_tlb_row entries now pid page frame algoritmo tlb)) [
                  | inl e ↦ rw (buscar_frame_en_memoria, sized, is_there_room_in_tlb, full, e) tt
                  | inr (rows, e) ↦
                      rw (buscar_frame_en_memoria, sized, is_there_room_in_tlb, full, e) (rw e at s)
                ]
        ]
      ]

  pub logical_to_physical_address-Fits :
      (frame_of : ℕ → ℕ → ℕ) (algoritmo : Replacement) (pages_length now logical_address pid : ℕ)
      (tlb : List TlbRow)
      → length tlb ≤ entries
      → OnSome Fits (
          logical_to_physical_address frame_of entries algoritmo pages_length now logical_address
            pid tlb)
  unfolding logical_to_physical_address
  logical_to_physical_address-Fits frame_of algoritmo l now logical pid tlb h =
      let page = logical / l in
      let looked = hit_or_miss entries now pid page tlb in
      let same = length-hit_or_miss now pid page tlb in
      let found = buscar-Fits frame_of algoritmo now pid page looked.1 (omega (arith, same)) in
      elim (Bool-cases (looked.0 == missing)) [
        | inl ask ↦
            elim (Option-cases
              (buscar_frame_en_memoria frame_of entries algoritmo now pid page looked.1)) [
                | inl e ↦ rw (logical_to_physical_address, ask, e) tt
                | inr ((frame, rows), e) ↦ rw (logical_to_physical_address, ask, e) (rw e at found)
              ]
        | inr hit ↦ rw (logical_to_physical_address, hit) (omega (arith, same))
      ]
