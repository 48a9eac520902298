-- ===== src/Memory/Tests.antt =====
-- Runs of the memory module: a memory of 32 bytes with pages of 4, after memoria/src/paginacion.c.
use ronaldinh_os_sistemas_op.Common.{
  ℕ, ◌≡◌, refl, List, [], ◌∷◌, Bool, true, false, none, some, arith, ceil_div, ◌==◌, ◌/◌, ◌-◌, ◌+◌,
  ◌*◌, ◌++◌, if◌then◌else◌, count, find, peek, take,
}
use ronaldinh_os_sistemas_op.Common.Bits.{bit_fun}
use ronaldinh_os_sistemas_op.Memory.State.{
  PageTable, Memory, init_pagination, get_page_table, page_availability,
}
use ronaldinh_os_sistemas_op.Memory.Allocate.{new_page}
use ronaldinh_os_sistemas_op.Memory.Saved.{frames}
use ronaldinh_os_sistemas_op.Memory.Access.{ocupy_physical_address, leer_a_partir_de_direccion}
use ronaldinh_os_sistemas_op.Memory.Layout.{view, lay}
use ronaldinh_os_sistemas_op.Memory.Transfer.{Follows, IsConsistent-Follows}
use ronaldinh_os_sistemas_op.Memory.RoundTrip.{leer-ocupy, leer-unaligned, ocupy_isolated}
use ronaldinh_os_sistemas_op.Memory.Resize.{resize}
use ronaldinh_os_sistemas_op.Memory.Consistent.{owned, IsConsistent, init_pagination-IsConsistent}
use ronaldinh_os_sistemas_op.Memory.Resized.{Resized}
use ronaldinh_os_sistemas_op.Memory.Outcomes.{pages_of, resize-Resized}
use ronaldinh_os_sistemas_op.Memory.PageCount.{
  resize-creation, resize-enlargement, resize-reduction, resize-out_of_memory,
}
use ronaldinh_os_sistemas_op.Common.{List, none, ◌%◌}
use ronaldinh_os_sistemas_op.Wire.Requests.{NewProcess}
use ronaldinh_os_sistemas_op.Memory.Negative.{resize-negative}
use ronaldinh_os_sistemas_op.Common.{u32_mod, ◌⊎◌, ◌<◌, ◌≤◌, ◌-◌}
use ronaldinh_os_sistemas_op.Memory.InstructionFile.{
  appetite_for_instruction, max_line_length, joined, appetite_for_instruction-joined,
}
use ronaldinh_os_sistemas_op.Common.{All, length}
use ronaldinh_os_sistemas_op.Memory.Server.{
  Server, Around, new_process, request_instruction, moves_in, moves_out, number, text, upload,
}
use ronaldinh_os_sistemas_op.Memory.Access.{obtener_desplazamiento_pagina, obtener_numero_marco}
use ronaldinh_os_sistemas_op.Memory.Served.{serve_both, serve-new_process, serve-moves}

abbrev Mem : Type 0
Mem = Memory (ℕ → Bool)

abbrev no_bits : ℕ → Bool
no_bits f = false

abbrev empty_memory : Mem
empty_memory = record {
  page_length = 4;
  cant_frames = 8;
  bits = no_bits;
  ram = λ a. 0;
  tables = [];
  id_global = 0;
}

empty_memory-IsConsistent : IsConsistent empty_memory
unfolding init_pagination
empty_memory-IsConsistent =
    init_pagination-IsConsistent 32 4 no_bits (λ a. 0) (omega arith) (λ f. refl)

-- The process 1 asks for 9 bytes.
resize-creation_example :
    (m : Mem) × (resize [] 1 9 empty_memory ≡ some (1, m))
    × (pages_of (get_page_table 1 m.tables) ≡ ceil_div 9 4)
unfolding get_page_table page_availability ceil_div
resize-creation_example =
    resize-creation 1 9 empty_memory empty_memory-IsConsistent refl (omega arith) (omega arith)
      (omega arith)

-- The process 1 has two pages, in the frames 1 and 3.
abbrev table_of_1 : PageTable
table_of_1 = record {
  pid = 1;
  instruction_size = 8;
  last_used_page_id = 2;
  pages = new_page 0 1 0 ∷ new_page 1 3 0 ∷ [];
}

abbrev two_pages : Mem
two_pages = record empty_memory {
  bits = λ f. if f == 1 then true else f == 3;
  tables = table_of_1 ∷ [];
}

two_pages-IsConsistent : IsConsistent two_pages
unfolding count new_page owned
two_pages-IsConsistent = record {
  page_pos = omega arith;
  owned_once = λ f. ground arith;
  tables_numbered = (record { counter = refl; numbered = (refl, (refl, tt)) }, tt);
  id_zero = refl;
}

table_found : get_page_table 1 two_pages.tables ≡ some table_of_1
unfolding get_page_table find
table_found = refl

resize-Resized_example : Resized 1 two_pages two_pages
unfolding resize get_page_table
resize-Resized_example = resize-Resized [] 1 8 two_pages two_pages-IsConsistent refl

resize-enlargement_example :
    (m : Mem) × (resize [] 1 17 two_pages ≡ some (1, m))
    × (pages_of (get_page_table 1 m.tables) ≡ ceil_div 17 4)
unfolding page_availability ceil_div
resize-enlargement_example =
    resize-enlargement 1 17 two_pages table_of_1 two_pages-IsConsistent table_found (omega arith)
      (omega arith) (omega arith)

-- 4 bytes need one page, and two stay.
resize-reduction_example :
    (m : Mem) × (resize [] 1 4 two_pages ≡ some (1, m))
    × (pages_of (get_page_table 1 m.tables) ≡ 4 / 4 + 1)
resize-reduction_example =
    resize-reduction [] 1 4 two_pages table_of_1 two_pages-IsConsistent table_found (omega arith)
      (omega arith)

resize-out_of_memory_example : resize [] 1 33 two_pages ≡ some (0, two_pages)
unfolding page_availability ceil_div
resize-out_of_memory_example =
    resize-out_of_memory [] 1 33 two_pages table_of_1 two_pages-IsConsistent table_found
      (omega arith) (omega arith) (omega arith)

-- The size -1 leaves no page.
resize-negative_example :
    ((1 ≤ 4)
      × (m : Mem) × (resize [] 1 (u32_mod - 1) two_pages ≡ some (1, m))
      × (pages_of (get_page_table 1 m.tables) ≡ 0))
    ⊎ ((4 < 1) × (resize [] 1 (u32_mod - 1) two_pages ≡ none))
resize-negative_example =
    resize-negative [] 1 1 two_pages table_of_1 two_pages-IsConsistent table_found (omega arith)
      (omega arith)

chain : Follows 1 two_pages 1 (new_page 1 3 0 ∷ [])
unfolding new_page
chain =
    IsConsistent-Follows 1 two_pages-IsConsistent table_of_1 [] (new_page 0 1 0)
      (new_page 1 3 0 ∷ []) table_found refl

abbrev six_bytes : List ℕ
six_bytes = 1 ∷ 2 ∷ 3 ∷ 4 ∷ 5 ∷ 6 ∷ []

leer-ocupy_example :
    (m : Mem) × (ocupy_physical_address six_bytes (1 * 4) 1 two_pages ≡ some m)
    × (leer_a_partir_de_direccion 1 6 (1 * 4) m ≡ some six_bytes)
leer-ocupy_example =
    leer-ocupy 1 six_bytes 1 (new_page 1 3 0 ∷ []) two_pages (omega arith) (omega arith) chain

leer-unaligned_example :
    leer_a_partir_de_direccion 1 5 (1 * 4 + 2) two_pages
    ≡ some (
        peek two_pages.ram (1 * 4 + 2) (4 - 2)
        ++ take (5 - (4 - 2)) (view two_pages.ram 4 (frames (new_page 1 3 0 ∷ []))))
leer-unaligned_example =
    leer-unaligned 1 5 1 2 (new_page 1 3 0 ∷ []) two_pages (omega arith) (omega arith) (omega arith)
      (omega arith) chain

abbrev written : Mem
written = record two_pages { ram = lay two_pages.ram 4 (1 ∷ 3 ∷ []) six_bytes }

ocupy_isolated_example : peek written.ram (2 * 4) 4 ≡ peek two_pages.ram (2 * 4) 4
unfolding count new_page ocupy_physical_address lay
ocupy_isolated_example =
    ocupy_isolated 1 six_bytes 1 2 (new_page 1 3 0 ∷ []) two_pages (omega arith) (omega arith) chain
      refl refl

-- A server for process 1, and the file "A", whose one line is "EXIT".
abbrev serving : Server (ℕ → Bool)
serving = record { memory = two_pages; processes = []; instructions = none }

abbrev one_file : Around
one_file = record { file_at = λ path. some (69 ∷ 88 ∷ 73 ∷ 84 ∷ []); behind = λ a. 0; beyond = [] }

abbrev process_1 : NewProcess
process_1 = record { pid = 1; tamanio_proceso = 0; path = 65 ∷ [] }

serve-new_process_example :
    serve_both one_file
      (new_process process_1)
      (request_instruction (record { pid = 7; program_counter = 0 }))
      serving
    ≡ some (text (69 ∷ 88 ∷ 73 ∷ 84 ∷ []), upload one_file process_1 serving)
unfolding appetite_for_instruction
serve-new_process_example =
    serve-new_process one_file process_1 7 0 serving ((69 ∷ 88 ∷ 73 ∷ 84 ∷ []) ∷ [])
      (69 ∷ 88 ∷ 73 ∷ 84 ∷ []) refl refl

-- Two lines, the second without an end.
appetite_for_instruction-joined_example :
    (lines : List (List ℕ)) × (appetite_for_instruction (some (65 ∷ 10 ∷ 66 ∷ [])) ≡ some lines)
    × (joined lines ≡ 65 ∷ 10 ∷ 66 ∷ [])
    × All (λ line. length line < max_line_length) lines
appetite_for_instruction-joined_example =
    appetite_for_instruction-joined (65 ∷ 10 ∷ 66 ∷ [])
      (omega arith, (omega arith, (omega arith, tt)))

two_lines :
    appetite_for_instruction (some (65 ∷ 10 ∷ 66 ∷ [])) ≡ some ((65 ∷ 10 ∷ []) ∷ (66 ∷ []) ∷ [])
unfolding appetite_for_instruction
two_lines = refl

-- Frame 1 starts at 4.
serve-moves_example :
    (s' : Server (ℕ → Bool)) × (serve_both one_file
        (moves_out
          (record { pid = 1; length_to_write = 1; physical_adress = 4; data_registro = 300 }))
        (moves_in (record { pid = 1; physical_adress = 4; length_to_read = 1 }))
        serving
      ≡ some (number (300 % 256), s'))
unfolding obtener_desplazamiento_pagina obtener_numero_marco
serve-moves_example = serve-moves one_file 1 4 300 serving table_of_1 table_found (omega arith) refl
