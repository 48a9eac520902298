-- ===== src/Memory/Access.antt =====
-- User-space accesses of memoria/src/paginacion.c: `getFrame`, `ocupyPhysicalAddress` and
-- `leer_a_partir_de_direccion`.
use ronaldinh_os_sistemas_op.Common.{
  ℕ, zero, suc, ◌+◌, ◌-◌, ◌*◌, ◌/◌, List, [], ◌∷◌, ◌++◌, true, false, Option, none, some, ltb, leb,
  ◌==◌, if◌then◌else◌, length, ◌>>=◌, take, drop, ceil_div, peek, poke, get_elem?,
}
use ronaldinh_os_sistemas_op.Memory.State.{Page, Memory, get_page_table}
use ronaldinh_os_sistemas_op.Memory.Resize.{first_page}

-- An address of the main memory is not negative. `none` is a crash: a null pointer is read, or
-- `memcpy` gets a negative count, which it takes for a huge one.
unfoldable pub obtener_numero_marco : ℕ → ℕ → ℕ
obtener_numero_marco page_length direccion_fisica = direccion_fisica / page_length

unfoldable pub obtener_desplazamiento_pagina : ℕ → ℕ → ℕ
unfolding obtener_numero_marco
obtener_desplazamiento_pagina page_length direccion_fisica =
    direccion_fisica - obtener_numero_marco page_length direccion_fisica * page_length

-- The loop of `obtener_pagsig_de_dirfisica`; the entry behind the last one is null.
unfoldable pub pagina_siguiente : ℕ → List Page → Option Page
unfolding first_page
pagina_siguiente marco_actual [] = none
pagina_siguiente marco_actual (pagina ∷ pages) =
    if marco_actual == pagina.frame_ppal
    then first_page pages
    else pagina_siguiente marco_actual pages

-- `recalcular_direccion_fisica`.
unfoldable pub recalcular_direccion_fisica : ℕ → Page → ℕ
recalcular_direccion_fisica page_length pagina = pagina.frame_ppal * page_length

module _ {B : Type 0} where
  -- `getFrame`: `none` stands for the answer -1.
  unfoldable pub get_frame : ℕ → ℕ → Memory B → Option ℕ
  unfolding get_page_table
  get_frame pid page_number m = get_page_table pid m.tables >>= λ arthurs_table.
      get_elem? arthurs_table.pages page_number >>= λ page. some page.frame_ppal

  -- `obtener_pagsig_de_dirfisica`, whose caller reads the page that it returns.
  unfoldable pub obtener_pagsig_de_dirfisica : ℕ → ℕ → Memory B → Option Page
  unfolding get_page_table obtener_numero_marco pagina_siguiente
  obtener_pagsig_de_dirfisica direccion_fisica pid m =
      get_page_table pid m.tables >>= λ arthurs_table.
      pagina_siguiente (obtener_numero_marco m.page_length direccion_fisica) arthurs_table.pages

  -- The next page's address, as the loops of the two accesses compute it.
  unfoldable pub direccion_siguiente : ℕ → ℕ → Memory B → Option ℕ
  unfolding obtener_pagsig_de_dirfisica recalcular_direccion_fisica
  direccion_siguiente direccion_fisica pid m =
      obtener_pagsig_de_dirfisica direccion_fisica pid m >>= λ pagina.
      some (recalcular_direccion_fisica m.page_length pagina)

  -- The loop of `ocupyPhysicalAddress` and the copy behind it, for the bytes that are left.
  unfoldable pub ocupy_pages : ℕ → List ℕ → ℕ → ℕ → Memory B → Option (Memory B)
  unfolding direccion_siguiente ceil_div
  ocupy_pages zero algo direccion pid m = none
  ocupy_pages (suc fuel) algo direccion pid m = direccion_siguiente direccion pid m >>= λ nueva.
      elim (ltb 1 (ceil_div (length algo) m.page_length)) [
        | true ↦
            ocupy_pages fuel (drop m.page_length algo) nueva pid
              (record m { ram = poke m.ram nueva (take m.page_length algo) })
        | false ↦ some (record m { ram = poke m.ram nueva algo })
      ]

  -- `ocupyPhysicalAddress`; its `size` is the number of bytes.
  unfoldable pub ocupy_physical_address : List ℕ → ℕ → ℕ → Memory B → Option (Memory B)
  unfolding obtener_desplazamiento_pagina ocupy_pages
  ocupy_physical_address algo address pid m =
      if leb (length algo) (m.page_length - obtener_desplazamiento_pagina m.page_length address)
      then some (record m { ram = poke m.ram address algo })
      else if ltb (length algo) m.page_length
      then none
      else ocupy_pages (length algo + 1) (drop m.page_length algo) address pid
          (record m { ram = poke m.ram address (take m.page_length algo) })

  -- The loop of `leer_a_partir_de_direccion` and the last copy, for the bytes that are left.
  unfoldable pub leer_pages : ℕ → ℕ → ℕ → ℕ → Memory B → Option (List ℕ)
  unfolding direccion_siguiente
  leer_pages zero bytes_restantes direccion pid m = none
  leer_pages (suc fuel) bytes_restantes direccion pid m = elim (bytes_restantes == 0) [
    | true ↦ some []
    | false ↦ direccion_siguiente direccion pid m >>= λ nueva.
        elim (leb m.page_length bytes_restantes) [
          | true ↦ leer_pages fuel (bytes_restantes - m.page_length) nueva pid m >>= λ resto.
              some (peek m.ram nueva m.page_length ++ resto)
          | false ↦ some (peek m.ram nueva bytes_restantes)
        ]
  ]

  -- `leer_a_partir_de_direccion`: the `op_size` bytes of the buffer that it returns, before the
  -- closing zero byte. A read that ends before its first page does has a number of bytes below 0 left: the
  -- copy of so many, or of a page that is not there, is a crash.
  unfoldable pub leer_a_partir_de_direccion : ℕ → ℕ → ℕ → Memory B → Option (List ℕ)
  unfolding obtener_desplazamiento_pagina leer_pages
  leer_a_partir_de_direccion pid op_size physical_address m =
      let desplazamiento = obtener_desplazamiento_pagina m.page_length physical_address in
      let bytes_usados = m.page_length - desplazamiento in
      if desplazamiento == 0
      then (if leb op_size m.page_length
          then some (peek m.ram physical_address op_size)
          else leer_pages (op_size + 1) (op_size - m.page_length) physical_address pid m
            >>= λ resto. some (peek m.ram physical_address m.page_length ++ resto))
      else if ltb op_size bytes_usados
      then none
      else leer_pages (op_size + 1) (op_size - bytes_usados) physical_address pid m >>= λ resto.
          some (peek m.ram physical_address bytes_usados ++ resto)
