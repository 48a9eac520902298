-- ===== src/Memory/Resize.antt =====
-- `resize` and `playingGod` of memoria/src/paginacion.c.
use ronaldinh_os_sistemas_op.Common.{
  ℕ, zero, suc, ◌+◌, ◌-◌, ◌*◌, ◌%◌, ◌^◌, ◌&&◌, leb, u32_mod, List, [], ◌∷◌, ◌++◌, Option, none,
  some, ltb, ◌==◌, if◌then◌else◌, length, ◌>>=◌, replicate, init, get_last?, ceil_div,
}
use ronaldinh_os_sistemas_op.Common.Bits.{Bitarray}
use ronaldinh_os_sistemas_op.Memory.State.{
  Page, PageTable, Memory, get_page_table, update_table, is_there_room_in_your_page,
}
use ronaldinh_os_sistemas_op.Memory.Allocate.{pages_occupied_by_instructions}

pub data GodMode : Type 0 where
  destruction creation : GodMode

-- The byte `'*'`.
abbrev pub star : ℕ
star = 42

-- `list_get(pages, 0)` and the read of its id in `calculateLogicalAddress`.
unfoldable pub first_page : List Page → Option Page
first_page [] = none
first_page (p ∷ ps) = some p

-- The buffer that is filled with stars has no zero byte at its end, so `strlen` runs on over
-- `beyond`, the bytes that lie behind it.
unfoldable pub star_text : ℕ → List ℕ → List ℕ
star_text bytes beyond = replicate bytes star ++ beyond

-- `necessaryPages` for a process without a table, where it is not below 0.
unfoldable pub creation_pages : ℕ → ℕ → ℕ
unfolding ceil_div
creation_pages resize_size page_length =
    if ltb resize_size (2 ^ 31) then ceil_div resize_size page_length else 0

-- The 32 bits of `resizeSize - currentSize`; from 2^31 on they are a number below 0.
unfoldable pub size_difference : ℕ → ℕ → ℕ
size_difference resize_size current_size =
    (resize_size + (u32_mod - current_size % u32_mod)) % u32_mod

module _ {B : Type 0} ⦃ba : Bitarray B⦄ where
  -- The loop of `freePagesFromTheEnd`, for the rounds left. The last page must be there.
  unfoldable pub free_last_pages : ℕ → B → PageTable → Option (B × PageTable)
  unfolding init get_last?
  free_last_pages zero bits t = some (bits, t)
  free_last_pages (suc left) bits t = elim (get_last? t.pages) [
    | none ↦ none
    | some last_page ↦
        free_last_pages left (ba.clean_bit bits last_page.frame_ppal)
          (record t { last_used_page_id = t.last_used_page_id - 1; pages = init t.pages })
  ]

  -- `freePagesFromTheEnd`: `while (numberPages > 1)`.
  unfoldable pub free_pages_from_the_end : PageTable → ℕ → Memory B → Option (Memory B)
  unfolding free_last_pages update_table
  free_pages_from_the_end arthurs_table number_pages m =
      free_last_pages (number_pages - 1) m.bits arthurs_table >>= λ (bits', t').
      some (record m { bits = bits'; tables = update_table arthurs_table.pid (λ _. t') m.tables })

  -- `addPagesToPCB`.
  unfoldable pub add_pages_to_pcb : ℕ → List Page → Memory B → Memory B
  unfolding update_table
  add_pages_to_pcb pid new_pages m = record m {
    tables = update_table pid (λ u. record u { pages = u.pages ++ new_pages }) m.tables;
  }

  -- `createPageTable`, the pages and the counters that `playingGod` sets behind it.
  unfoldable pub create_page_table : ℕ → ℕ → List Page → Memory B → Memory B
  create_page_table pid size new_pages m = record m {
    tables =
        m.tables
        ++ record {
          pid = pid;
          instruction_size = size;
          last_used_page_id = length new_pages;
          pages = new_pages;
        }
          ∷ [];
    id_global = m.id_global - length new_pages;
  }

  -- `playingGod`. The first part of the result is what it returns; the mode DESTRUCTION returns
  -- nothing.
  unfoldable pub playing_god : List ℕ → ℕ → GodMode → ℕ → Memory B → Option (Option ℕ × Memory B)
  unfolding get_page_table free_pages_from_the_end is_there_room_in_your_page star_text first_page
      pages_occupied_by_instructions create_page_table
  playing_god beyond pid destruction number_pages m = elim (get_page_table pid m.tables) [
    | none ↦ none
    | some t ↦ free_pages_from_the_end t number_pages m >>= λ m'. some (none, m')
  ]
  playing_god beyond pid creation number_pages m =
      if is_there_room_in_your_page m number_pages
      then elim (get_page_table pid m.tables) [
        | some t ↦ some (some 0, m)
        | none ↦
            let bytes = number_pages * m.page_length in
            pages_occupied_by_instructions (star_text bytes beyond) pid m >>= λ (new_pages, m₁).
            first_page new_pages >>= λ _. some (some 1, create_page_table pid bytes new_pages m₁)
      ]
      else some (some 0, m)

  -- The branch of `resize` that adds pages.
  unfoldable pub enlarge : List ℕ → ℕ → ℕ → Memory B → Option (ℕ × Memory B)
  unfolding is_there_room_in_your_page star_text first_page pages_occupied_by_instructions
      add_pages_to_pcb
  enlarge beyond pid size_difference m =
      if is_there_room_in_your_page m (ceil_div size_difference m.page_length)
      then pages_occupied_by_instructions (star_text size_difference beyond) pid m
        >>= (λ (new_pages, m₁).
            first_page new_pages >>= λ _. some (1, add_pages_to_pcb pid new_pages m₁))
      else some (0, m)

  -- The branch of `resize` for a process without a table. A negative size that is a page or more below 0
  -- takes a negative number of pages, for which there is room, but no buffer.
  unfoldable pub create : List ℕ → ℕ → ℕ → Memory B → Option (ℕ × Memory B)
  unfolding playing_god creation_pages
  create beyond pid resize_size m =
      if leb (2 ^ 31) resize_size && leb m.page_length (u32_mod - resize_size)
      then none
      else playing_god beyond pid creation (creation_pages resize_size m.page_length) m
        >>= λ (_, m'). some (1, m')

  -- `resize`, of the 32 bits of its `int`; `beyond` is what lies behind the buffer that it allocates. A
  -- reduction by 2^31 bytes, whose `abs` is not defined, is one by more pages than there are.
  unfoldable pub resize : List ℕ → ℕ → ℕ → Memory B → Option (ℕ × Memory B)
  unfolding get_page_table create free_pages_from_the_end enlarge ceil_div size_difference
  resize beyond pid resize_size m = elim (get_page_table pid m.tables) [
    | none ↦ create beyond pid resize_size m
    | some t ↦
        let difference = size_difference resize_size (length t.pages * m.page_length) in
        if difference == 0
        then some (1, m)
        else if leb (2 ^ 31) difference
        then free_pages_from_the_end t (ceil_div (u32_mod - difference) m.page_length) m
          >>= (λ m'. some (1, m'))
        else enlarge beyond pid difference m
  ]
