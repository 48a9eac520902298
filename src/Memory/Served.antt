-- ===== src/Memory/Served.antt =====
-- What the memory answers behind other requests: memoria/src/memory.c.
use ronaldinh_os_sistemas_op.Common.{
  ℕ, ◌-◌, ◌%◌, ◌<◌, ◌≡◌, refl, ap, ◌∙◌, List, [], ◌∷◌, true, Option, some, arith, ◌>>=◌, leb,
  le→leb, get_elem?, peek, poke, peek-poke,
}
use ronaldinh_os_sistemas_op.Common.Bits.{Bitarray}
use ronaldinh_os_sistemas_op.Wire.Buffer.{c_string}
use ronaldinh_os_sistemas_op.Wire.Requests.{InstReqToMemory, NewProcess}
use ronaldinh_os_sistemas_op.Memory.State.{Memory, PageTable, get_page_table}
use ronaldinh_os_sistemas_op.Memory.Access.{
  obtener_desplazamiento_pagina, ocupy_physical_address, leer_a_partir_de_direccion,
}
use ronaldinh_os_sistemas_op.Memory.InstructionFile.{appetite_for_instruction}
use ronaldinh_os_sistemas_op.Memory.Server.{
  Server, Around, ServerRequest, new_process, request_instruction, moves_in, moves_out, Reply,
  number, text, cadena_a_numero, from_buffer, write_in_paging_memory, read_in_paging_memory,
  read_text, upload, line_at, give_instruction, serve,
}

-- A byte as a text is that number.
byte_text : (d : ℕ) → cadena_a_numero (c_string (d % 256 ∷ [])) ≡ d % 256
unfolding cadena_a_numero c_string
byte_text d = ground arith

module _ {B : Type 0} ⦃ba : Bitarray B⦄ where
  -- Requests, one after the other; the answer to the last.
  unfoldable pub serve_both :
      Around → ServerRequest → ServerRequest → Server B → Option (Reply × Server B)
  unfolding serve
  serve_both around first second s = serve around first s >>= λ (answer, s'). serve around second s'

  give_instruction-line :
      (req : InstReqToMemory) (s : Server B) (lines : List (List ℕ)) (line : List ℕ)
      → s.instructions ≡ some lines
      → get_elem? lines req.program_counter ≡ some line
      → give_instruction req s ≡ some (text line, s)
  unfolding give_instruction line_at
  give_instruction-line req s lines line file there =
      let at_line : line_at req lines s ≡ some (text line, s) = rw (line_at, there) refl in
      ap (λ (x : Option (List (List ℕ))). x >>= λ ls. line_at req ls s) file ∙ at_line

  -- Behind the instructions of a process, whatever pid asks for the line of a program counter gets the
  -- line of that process's file, where the file has it.
  pub serve-new_process :
      (around : Around) (p : NewProcess) (pid program_counter : ℕ) (s : Server B)
      (lines : List (List ℕ)) (line : List ℕ)
      → appetite_for_instruction (around.file_at p.path) ≡ some lines
      → get_elem? lines program_counter ≡ some line
      → serve_both around
          (new_process p)
          (request_instruction (record { pid = pid; program_counter = program_counter }))
          s
        ≡ some (text line, upload around p s)
  unfolding serve_both serve upload
  serve-new_process around p pid program_counter s lines line file there =
      give_instruction-line (record { pid = pid; program_counter = program_counter })
        (upload around p s) lines line file there

  -- One byte at the start of a page.
  write-byte :
      (pid address v : ℕ) (m : Memory B) (t : PageTable)
      → get_page_table pid m.tables ≡ some t
      → 0 < m.page_length
      → obtener_desplazamiento_pagina m.page_length address ≡ 0
      → write_in_paging_memory (v ∷ []) pid address m
        ≡ some (record m { ram = poke m.ram address (v ∷ []) })
  unfolding write_in_paging_memory ocupy_physical_address
  write-byte pid address v m t table sized start =
      let fits : leb 1 (m.page_length - 0) ≡ true = le→leb 1 (m.page_length - 0) (omega arith) in
      rw (write_in_paging_memory, table, ocupy_physical_address, start, fits) refl

  read-byte :
      (pid address : ℕ) (m : Memory B) (t : PageTable)
      → get_page_table pid m.tables ≡ some t
      → 0 < m.page_length
      → obtener_desplazamiento_pagina m.page_length address ≡ 0
      → read_text pid 1 address m ≡ some (c_string (peek m.ram address 1))
  unfolding read_text read_in_paging_memory leer_a_partir_de_direccion
  read-byte pid address m t table sized start =
      let fits : leb 1 m.page_length ≡ true = le→leb 1 m.page_length (omega arith) in
      rw (read_text, read_in_paging_memory, table, leer_a_partir_de_direccion, start, fits) refl

  -- From a process with a page table, a MOVE_OUT of one byte to the start of a page, and then a MOVE_IN of
  -- one byte from there, by the same process, is answered with the low byte of what was sent.
  pub serve-moves :
      (around : Around) (pid address value : ℕ) (s : Server B) (t : PageTable)
      → get_page_table pid s.memory.tables ≡ some t
      → 0 < s.memory.page_length
      → obtener_desplazamiento_pagina s.memory.page_length address ≡ 0
      → (s' : Server B) × (serve_both around
            (moves_out (record {
              pid = pid;
              length_to_write = 1;
              physical_adress = address;
              data_registro = value;
            }))
            (moves_in (record { pid = pid; physical_adress = address; length_to_read = 1 }))
            s
          ≡ some (number (value % 256), s'))
  unfolding serve_both serve from_buffer
  serve-moves around pid address value s t table sized start =
      let m = s.memory in
      let v = value % 256 in
      let m' = record m { ram = poke m.ram address (v ∷ []) } in
      let written = write-byte pid address v m t table sized start in
      let read = read-byte pid address m' t table sized start in
      let same = peek-poke m.ram address (v ∷ []) in
      (record s { memory = m' }, rw (serve, written) (rw (read, same, byte_text value) refl))
