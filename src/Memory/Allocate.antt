-- ===== src/Memory/Allocate.antt =====
-- Pages for new bytes: `saveInPage` and what it calls, in memoria/src/paginacion.c.
use ronaldinh_os_sistemas_op.Common.{
  ℕ, zero, suc, ◌+◌, ◌-◌, ◌*◌, List, [], ◌∷◌, ◌++◌, true, false, Option, none, some, leb, ◌>>=◌,
  length, take, drop, poke,
}
use ronaldinh_os_sistemas_op.Common.Bits.{Bitarray}
use ronaldinh_os_sistemas_op.Memory.State.{
  Page, Memory, get_page_table, update_table, find_free_frames, ocupy_frame,
}

-- `none` is a crash of the module: a null pointer is read, or a recursion does not end.
-- The fields that `pageCreate` sets the same way in every page.
unfoldable pub new_page : ℕ → ℕ → ℕ → Page
new_page id frame espacio_disp = record {
  id = id;
  frame_ppal = frame;
  tamanio_disponible = espacio_disp;
  frag_interna = 0;
  presencia = 1;
  modificado = 1;
  lock = 0;
  uso = 0;
  tiempo_uso = 1;
}

module _ {B : Type 0} where
  -- `ocupyPagingMemory`: the bytes go into the frame, from `offset` on.
  unfoldable pub ocupy_paging_memory : List ℕ → ℕ → ℕ → Memory B → Memory B
  ocupy_paging_memory algo id_frame offset m = record m {
    ram = poke m.ram (id_frame * m.page_length + offset) algo;
  }

  -- `pageCreate`: the id comes from the table of the process, if it has one, and else from
  -- `generarId`.
  unfoldable pub page_create : ℕ → ℕ → ℕ → Memory B → Page × Memory B
  unfolding get_page_table update_table new_page
  page_create frame espacio_disp pid m = elim (get_page_table pid m.tables) [
    | some t ↦ (
      new_page t.last_used_page_id frame espacio_disp,
      record m {
        tables =
            update_table pid (λ u. record u { last_used_page_id = u.last_used_page_id + 1 })
              m.tables;
      },
    )
    | none ↦ (new_page m.id_global frame espacio_disp, record m { id_global = m.id_global + 1 })
  ]

module _ {B : Type 0} ⦃ba : Bitarray B⦄ where
  -- `saveInPagingMemory`, and the page for its frame.
  unfoldable pub save_one : List ℕ → ℕ → ℕ → Memory B → List Page × Memory B
  unfolding ocupy_frame ocupy_paging_memory page_create
  save_one algo frame pid m =
      let saved = ocupy_paging_memory algo frame 0 (ocupy_frame frame m) in
      let (page, m') = page_create frame (m.page_length - length algo) pid saved in (page ∷ [], m')

  -- `saveInPage`: the recursion is on fuel, and `length algo + 1` rounds are enough.
  unfoldable pub save_in_page : ℕ → List ℕ → ℕ → Memory B → Option (List Page × Memory B)
  unfolding find_free_frames save_one
  save_in_page zero algo pid m = none
  save_in_page (suc fuel) algo pid m = elim (find_free_frames m) [
    | [] ↦ some ([], m)
    | frame ∷ _ ↦ elim (leb (length algo) m.page_length) [
      | true ↦ some (save_one algo frame pid m)
      | false ↦ save_in_page fuel (take m.page_length algo) pid m >>= λ (page, m₁).
          save_in_page fuel (drop m.page_length algo) pid m₁ >>= λ (page_remnant, m₂).
          some (page ++ page_remnant, m₂)
    ]
  ]

  -- `pagesOccupiedByInstructions`: `algo` is the text up to its first zero byte.
  unfoldable pub pages_occupied_by_instructions :
      List ℕ → ℕ → Memory B → Option (List Page × Memory B)
  unfolding save_in_page
  pages_occupied_by_instructions algo pid m = save_in_page (length algo + 1) algo pid m
