-- ===== src/Cpu/Moves.antt =====
-- What the CPU and the memory send each other during an instruction, and MOV_IN and MOV_OUT, over one
-- page or two: cpu/src/operations.c.
use ronaldinh_os_sistemas_op.Common.{
  ℕ, ◌+◌, ◌-◌, ◌%◌, List, [], ◌∷◌, ◌++◌, Option, some, ◌>>=◌, if◌then◌else◌, u32_mod,
}
use ronaldinh_os_sistemas_op.Cpu.Tlb.{TlbRow, Replacement, logical_to_physical_address}
use ronaldinh_os_sistemas_op.Cpu.Registers.{
  Register, Registers, is_32_bits, get_register, set_register,
}
use ronaldinh_os_sistemas_op.Cpu.TwoPages.{
  pagina_dividida, bytes_primera, dato_reconstruido, valor_parte_1, valor_parte_2,
}
use ronaldinh_os_sistemas_op.Wire.ControlBlock.{ControlBlock}

-- The messages to the memory: RESIZE, MOVE_IN, MOVE_OUT and COPY_STRING, with what they hold.
pub data MemoryRequest : Type 0 where
  resizes : ℕ → ℕ → MemoryRequest
  moves_in : ℕ → ℕ → ℕ → MemoryRequest
  moves_out : ℕ → ℕ → ℕ → ℕ → MemoryRequest
  copies : ℕ → ℕ → ℕ → ℕ → MemoryRequest

-- What stands around the CPU: the clock, by its readings; the size and the algorithm of the TLB; the
-- memory's frames, by the requests before, and its answers to a request behind others.
pub record Surroundings : Type 0 where
  pub pages_length : ℕ
  pub clock : ℕ → ℕ
  pub entries : ℕ
  pub algoritmo : Replacement
  pub frame_of : List MemoryRequest → ℕ → ℕ → ℕ
  pub answer : List MemoryRequest → MemoryRequest → ℕ

-- CurrentPCB, the TLB, the times that the clock was read, and the requests that were sent.
pub record Cpu : Type 0 where
  pub block : ControlBlock
  pub tlb : List TlbRow
  pub readings : ℕ
  pub sent : List MemoryRequest

abbrev pub registers_of : Cpu → Registers
registers_of c = c.block.cpu_registers

abbrev pub with_registers : Registers → Cpu → Cpu
with_registers rs c = record c { block = record c.block { cpu_registers = rs } }

abbrev pub with_register : Register → ℕ → Cpu → Cpu
with_register r value c = with_registers (set_register r value (registers_of c)) c

-- A message without an answer, and one whose answer `recvInt` waits for.
abbrev pub tell : MemoryRequest → Cpu → Cpu
tell request c = record c { sent = c.sent ++ request ∷ [] }

abbrev pub ask : Surroundings → MemoryRequest → Cpu → ℕ × Cpu
ask s request c = (s.answer c.sent request, tell request c)

-- `logicalToPhysicalAddress` for the current process.
unfoldable pub translate : Surroundings → ℕ → Cpu → Option (ℕ × Cpu)
unfolding logical_to_physical_address
translate s logical_address c =
    logical_to_physical_address (s.frame_of c.sent) s.entries s.algoritmo s.pages_length
      (s.clock c.readings) logical_address c.block.pid c.tlb
    >>= λ (address, tlb). some (address, record c { tlb = tlb; readings = c.readings + 1 })

-- `leer_y_guardar_de_dos_paginas`.
unfoldable pub leer_de_dos_paginas : Surroundings → ℕ → Cpu → Option (ℕ × Cpu)
unfolding translate bytes_primera dato_reconstruido
leer_de_dos_paginas s dir_logica c =
    let bytes = bytes_primera s.pages_length dir_logica in
    translate s dir_logica c >>= λ (first, c1).
    let (primera, c2) = ask s (moves_in c1.block.pid bytes first) c1 in
    translate s ((dir_logica + bytes) % u32_mod) c2 >>= λ (second, c3).
    let (segunda, c4) = ask s (moves_in c3.block.pid (4 - bytes) second) c3 in
    some (dato_reconstruido primera segunda bytes (4 - bytes), c4)

-- One read of so many bytes.
unfoldable pub leer : Surroundings → ℕ → ℕ → Cpu → Option (ℕ × Cpu)
unfolding translate
leer s bytes dir_logica c = translate s dir_logica c >>= λ (address, c1).
    some (ask s (moves_in c1.block.pid bytes address) c1)

-- `MOV_IN`, with `ejecutar_mov_in_cuatro_bytes`.
unfoldable pub mov_in : Surroundings → Register → Register → Cpu → Option Cpu
unfolding is_32_bits get_register set_register leer leer_de_dos_paginas pagina_dividida
mov_in s register_data register_address c =
    let dl = get_register register_address (registers_of c) in
    (if is_32_bits register_data
      then (if pagina_dividida s.pages_length dl then leer_de_dos_paginas s dl c else leer s 4 dl c)
      else leer s 1 dl c)
    >>= λ (value, c'). some (with_register register_data value c')

-- One write of so many bytes.
unfoldable pub escribir : Surroundings → ℕ → ℕ → ℕ → Cpu → Option Cpu
unfolding translate
escribir s bytes dir_logica value c = translate s dir_logica c >>= λ (address, c1).
    some (tell (moves_out c1.block.pid bytes address value) c1)

-- `escribir_y_guardar_en_dos_paginas`.
unfoldable pub escribir_en_dos_paginas : Surroundings → ℕ → ℕ → Cpu → Option Cpu
unfolding escribir bytes_primera valor_parte_1 valor_parte_2
escribir_en_dos_paginas s dir_logica valor c =
    let bytes = bytes_primera s.pages_length dir_logica in
    escribir s bytes dir_logica (valor_parte_1 valor) c
    >>= escribir s (4 - bytes) ((dir_logica + bytes) % u32_mod) (valor_parte_2 valor)

-- `MOV_OUT`.
unfoldable pub mov_out : Surroundings → Register → Register → Cpu → Option Cpu
unfolding is_32_bits get_register escribir escribir_en_dos_paginas pagina_dividida
mov_out s register_address register_data c =
    let dl = get_register register_address (registers_of c) in
    let value = get_register register_data (registers_of c) in
    if is_32_bits register_data
    then (if pagina_dividida s.pages_length dl
        then escribir_en_dos_paginas s dl value c
        else escribir s 4 dl value c)
    else escribir s 1 dl value c
