-- ===== src/Cpu/Translation.antt =====
-- `logicalToPhysicalAddress` of cpu/src/MMU.c against the translation that always asks the memory.
use ronaldinh_os_sistemas_op.Common.{
  ℕ, zero, suc, ◌+◌, ◌-◌, ◌*◌, ◌/◌, ◌%◌, ◌<◌, ◌≤◌, ◌≡◌, refl, List, [], ◌∷◌, ◌++◌, some, arith, ltb,
  ltb→lt, ◌==◌, length, length-append, drop, length-drop, get_elem?, All, All-append, Bool-cases,
  inl, inr, find, Option-cases, u32_mod, ◌⊎◌,
}
use ronaldinh_os_sistemas_op.Cpu.Tlb.{
  TlbRow, Replacement, fifo, lru, other, new_row, has_the_row, touch, hit_or_miss,
  is_there_room_in_tlb, insert_tlb_row, remove_at, insert_scheduled_tlb_row,
  buscar_frame_en_memoria, logical_to_physical_address, missing,
}
use ronaldinh_os_sistemas_op.Cpu.Replaced.{
  insert_scheduled_tlb_row-fifo, insert_scheduled_tlb_row-lru,
}

pub length-touch :
    (now pid page : ℕ) (tlb : List TlbRow) → length (touch now pid page tlb) ≡ length tlb
unfolding touch
length-touch now pid page [] = refl
length-touch now pid page (row ∷ rows) = ground (arith, length-touch now pid page rows)

pub length-remove_at :
    (i : ℕ) (tlb : List TlbRow) → i < length tlb → length (remove_at i tlb) + 1 ≡ length tlb
unfolding remove_at
length-remove_at i [] h = absurd (omega arith)
length-remove_at zero (row ∷ rows) h = omega arith
length-remove_at (suc i) (row ∷ rows) h = omega (arith, length-remove_at i rows (omega arith))

All-remove_at {ℓ} :
    (P : TlbRow → Type ℓ) (i : ℕ) (tlb : List TlbRow) → All P tlb → All P (remove_at i tlb)
unfolding remove_at
All-remove_at P i [] h = h
All-remove_at P zero (row ∷ rows) h = h.1
All-remove_at P (suc i) (row ∷ rows) h = (h.0, All-remove_at P i rows h.1)

All-drop_one {ℓ} : (P : TlbRow → Type ℓ) (tlb : List TlbRow) → All P tlb → All P (drop 1 tlb)
All-drop_one P [] h = h
All-drop_one P (row ∷ rows) h = h.1

pub get_elem?-lt :
    (tlb : List TlbRow) (i : ℕ) (row : TlbRow) → get_elem? tlb i ≡ some row → i < length tlb
get_elem?-lt [] i row e = cc
get_elem?-lt (r ∷ rows) zero row e = omega arith
get_elem?-lt (r ∷ rows) (suc i) row e = omega (arith, get_elem?-lt rows i row e)

module _ (frame_of : ℕ → ℕ → ℕ) where
  -- The row says what the memory module answers.
  unfoldable pub IsCurrent : TlbRow → Type 0
  IsCurrent row = row.frame ≡ frame_of row.pid row.page

  All-touch :
      (now pid page : ℕ) (tlb : List TlbRow)
      → All IsCurrent tlb
      → All IsCurrent (touch now pid page tlb)
  unfolding touch IsCurrent
  All-touch now pid page [] h = tt
  All-touch now pid page (row ∷ rows) h = elim (Bool-cases (has_the_row pid page row)) [
    | inl hit ↦ rw (touch, hit) h
    | inr miss ↦ rw (touch, miss) (h.0, All-touch now pid page rows h.1)
  ]

  find-IsCurrent :
      (pid page : ℕ) (tlb : List TlbRow) (row : TlbRow)
      → All IsCurrent tlb
      → find (has_the_row pid page) tlb ≡ some row
      → row.frame ≡ frame_of pid page
  unfolding find IsCurrent has_the_row
  find-IsCurrent pid page [] row h e = cc
  find-IsCurrent pid page (r ∷ rows) row h e =
      ground (arith, find-IsCurrent pid page rows row, h.0, h.1)

  -- What a translation keeps of the TLB.
  pub record Current (entries : ℕ) (tlb : List TlbRow) : Type 0 where
    pub fits : length tlb ≤ entries
    pub current : All IsCurrent tlb

  module _ (entries : ℕ) where
    -- `insertScheduledTLBRow` in a full TLB.
    record Scheduled (algoritmo : Replacement) (now pid page : ℕ) (tlb : List TlbRow) : Type 0 where
      pub after : List TlbRow
      pub run :
          insert_scheduled_tlb_row entries now pid page (frame_of pid page) algoritmo tlb
          ≡ some after
      pub keeps : Current entries after

    Scheduled-any :
        (algoritmo : Replacement) (now pid page : ℕ) (tlb : List TlbRow)
        → 0 < entries
        → length tlb ≡ entries
        → All IsCurrent tlb
        → Scheduled algoritmo now pid page tlb
    unfolding IsCurrent insert_scheduled_tlb_row
    Scheduled-any fifo now pid page tlb pos full h = record {
      after = drop 1 tlb ++ new_row now pid page (frame_of pid page) ∷ [];
      run = insert_scheduled_tlb_row-fifo entries now pid page (frame_of pid page) tlb full pos;
      keeps = record {
        fits = omega (
          arith,
          length-append (drop 1 tlb) (new_row now pid page (frame_of pid page) ∷ []),
          length-drop 1 tlb,
        );
        current = All-append IsCurrent (drop 1 tlb) _ (All-drop_one IsCurrent tlb h) (refl, tt);
      };
    }
    Scheduled-any lru now pid page tlb pos full h =
        let (i, oldest, run) =
          insert_scheduled_tlb_row-lru entries now pid page (frame_of pid page) tlb (omega arith) in
        record {
          after = remove_at i tlb ++ new_row now pid page (frame_of pid page) ∷ [];
          run = run;
          keeps = record {
            fits = omega (
              arith,
              length-append (remove_at i tlb) (new_row now pid page (frame_of pid page) ∷ []),
              length-remove_at i tlb (get_elem?-lt tlb i oldest.row oldest.there),
            );
            current =
                All-append IsCurrent (remove_at i tlb) _ (All-remove_at IsCurrent i tlb h)
                  (refl, tt);
          };
        }
    Scheduled-any other now pid page tlb pos full h = record {
      after = tlb;
      run = refl;
      keeps = record { fits = omega arith; current = h };
    }

  record Looked (entries now pid page : ℕ) (tlb : List TlbRow) : Type 0 where
    pub frame : ℕ
    pub after : List TlbRow
    pub run : hit_or_miss entries now pid page tlb ≡ (frame, after)
    pub answer : (frame ≡ missing) ⊎ (frame ≡ frame_of pid page)
    pub keeps : Current entries after

  hit_or_miss-Looked :
      (entries now pid page : ℕ) (tlb : List TlbRow)
      → Current entries tlb
      → Looked entries now pid page tlb
  unfolding hit_or_miss
  hit_or_miss-Looked entries now pid page tlb c = elim (Bool-cases (entries == 0)) [
    | inl none_at_all ↦ record {
      frame = missing;
      after = tlb;
      run = rw none_at_all refl;
      answer = inl refl;
      keeps = c;
    }
    | inr sized ↦ elim (Option-cases (find (has_the_row pid page) tlb)) [
      | inl miss ↦ record {
        frame = missing;
        after = tlb;
        run = rw (sized, miss) refl;
        answer = inl refl;
        keeps = c;
      }
      | inr (row, hit) ↦ record {
        frame = row.frame;
        after = touch now pid page tlb;
        run = rw (sized, hit) refl;
        answer = inr (find-IsCurrent pid page tlb row c.current hit);
        keeps = record {
          fits = omega (arith, length-touch now pid page tlb, c.fits);
          current = All-touch now pid page tlb c.current;
        };
      }
    ]
  ]

  record Asked (entries : ℕ) (algoritmo : Replacement) (now pid page : ℕ) (tlb : List TlbRow)
      : Type 0 where
    pub after : List TlbRow
    pub run :
        buscar_frame_en_memoria frame_of entries algoritmo now pid page tlb
        ≡ some (frame_of pid page, after)
    pub keeps : Current entries after

  buscar_frame_en_memoria-Asked :
      (entries : ℕ) (algoritmo : Replacement) (now pid page : ℕ) (tlb : List TlbRow)
      → Current entries tlb
      → Asked entries algoritmo now pid page tlb
  unfolding buscar_frame_en_memoria is_there_room_in_tlb insert_tlb_row IsCurrent
  buscar_frame_en_memoria-Asked entries algoritmo now pid page tlb c =
      elim (Bool-cases (entries == 0)) [
        | inl none_at_all ↦ record { after = tlb; run = rw none_at_all refl; keeps = c }
        | inr sized ↦ elim (Bool-cases (ltb (length tlb) entries)) [
          | inl room ↦ record {
            after = insert_tlb_row now pid page (frame_of pid page) tlb;
            run = rw (sized, room) refl;
            keeps = record {
              fits = omega (
                arith,
                ltb→lt (length tlb) entries room,
                length-append tlb (new_row now pid page (frame_of pid page) ∷ []),
              );
              current = All-append IsCurrent tlb _ c.current (refl, tt);
            };
          }
          | inr full ↦
              let exactly : length tlb ≡ entries =
                let f = c.fits in let g : entries ≤ length tlb = ground arith in omega arith in
              let some_rows : 0 < entries = ground arith in
              let s =
                Scheduled-any entries algoritmo now pid page tlb some_rows exactly c.current in
              record { after = s.after; run = rw (sized, full, s.run) refl; keeps = s.keeps }
        ]
      ]

  -- From a TLB within its size, whose rows say what the memory answers, a translation returns what
  -- asking the memory gives, for any replacement and any size, and leaves such a TLB.
  pub logical_to_physical_address-direct :
      (entries : ℕ) (algoritmo : Replacement) (pages_length now logical_address pid : ℕ)
      (tlb : List TlbRow)
      → Current entries tlb
      → (tlb' : List TlbRow) × (logical_to_physical_address frame_of entries algoritmo pages_length
            now logical_address pid tlb
          ≡ some (
            (frame_of pid (logical_address / pages_length) * pages_length
                  + (logical_address - logical_address / pages_length * pages_length))
                % u32_mod,
            tlb',
          ))
        × Current entries tlb'
  unfolding logical_to_physical_address
  logical_to_physical_address-direct entries algoritmo l now logical pid tlb c =
      let n_page = logical / l in
      let r = hit_or_miss-Looked entries now pid n_page tlb c in
      let s = buscar_frame_en_memoria-Asked entries algoritmo now pid n_page r.after r.keeps in
      elim (Bool-cases (r.frame == missing)) [
        | inl ask ↦
            (s.after, rw (logical_to_physical_address, r.run, ask, r.run, s.run) refl, s.keeps)
        | inr hit ↦
            let same : r.frame ≡ frame_of pid n_page = elim r.answer [
              | inl e ↦ absurd (ground arith)
              | inr e ↦ e
            ] in
            (r.after, rw (logical_to_physical_address, r.run, hit, r.run, same) refl, r.keeps)
      ]
