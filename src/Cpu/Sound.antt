-- ===== src/Cpu/Sound.antt =====
-- What every instruction of cpu/src/operations.c keeps: registers within their widths, a TLB within its
-- size, and the process.
use ronaldinh_os_sistemas_op.Common.{
  ℕ, ◌+◌, ◌-◌, ◌%◌, ◌≤◌, ◌≡◌, Bool, true, false, Option, if◌then◌else◌, length, u32_mod, OnSome,
  >>=-OnSome,
}
use ronaldinh_os_sistemas_op.Wire.ControlBlock.{ControlBlock}
use ronaldinh_os_sistemas_op.Cpu.Tlb.{logical_to_physical_address}
use ronaldinh_os_sistemas_op.Cpu.Registers.{
  Register, Registers, is_32_bits, get_register, set_register,
}
use ronaldinh_os_sistemas_op.Cpu.Arithmetic.{InRange, set_register-InRange}
use ronaldinh_os_sistemas_op.Cpu.TwoPages.{
  pagina_dividida, bytes_primera, valor_parte_1, valor_parte_2,
}
use ronaldinh_os_sistemas_op.Cpu.Moves.{
  MemoryRequest, moves_in, moves_out, Surroundings, Cpu, registers_of, with_registers, tell,
  translate, leer, leer_de_dos_paginas, mov_in, escribir, escribir_en_dos_paginas, mov_out,
}
use ronaldinh_os_sistemas_op.Cpu.Steady.{Fits, logical_to_physical_address-Fits}

-- Of the process in a PCB: registers within their widths, a TLB within its size, and the PCB's pid,
-- quantum and state.
pub record Sound (entries : ℕ) (b : ControlBlock) (c : Cpu) : Type 0 where
  pub ranges : InRange (registers_of c)
  pub fits : length c.tlb ≤ entries
  pub pid : c.block.pid ≡ b.pid
  pub quantum : c.block.quantum ≡ b.quantum
  pub state : c.block.state ≡ b.state

module _ (s : Surroundings) (b : ControlBlock) where
  abbrev pub SoundResult : Option Cpu → Type 0
  SoundResult r = OnSome (Sound s.entries b) r

  abbrev pub SoundBeside {ℓ} : {A : Type ℓ} → Option (A × Cpu) → Type 0
  SoundBeside r = OnSome (λ (a, c). Sound s.entries b c) r

  pub translate-Sound :
      (logical : ℕ) (c : Cpu) → Sound s.entries b c → SoundBeside (translate s logical c)
  unfolding translate
  translate-Sound logical c h =
      >>=-OnSome (Fits s.entries) (λ (a, c'). Sound s.entries b c')
        (logical_to_physical_address (s.frame_of c.sent) s.entries s.algoritmo s.pages_length
          (s.clock c.readings) logical c.block.pid c.tlb)
        _
        (logical_to_physical_address-Fits s.entries (s.frame_of c.sent) s.algoritmo s.pages_length
          (s.clock c.readings) logical c.block.pid c.tlb h.fits)
        (λ (address, tlb) fits. record {
          ranges = h.ranges;
          fits = fits;
          pid = h.pid;
          quantum = h.quantum;
          state = h.state;
        })

  pub tell-Sound :
      (request : MemoryRequest) (c : Cpu) → Sound s.entries b c → Sound s.entries b (tell request c)
  tell-Sound request c h = record {
    ranges = h.ranges;
    fits = h.fits;
    pid = h.pid;
    quantum = h.quantum;
    state = h.state;
  }

  -- A change of the registers within their widths.
  pub with_registers-Sound :
      (rs : Registers) (c : Cpu)
      → InRange rs
      → Sound s.entries b c
      → Sound s.entries b (with_registers rs c)
  with_registers-Sound rs c ranges h = record {
    ranges = ranges;
    fits = h.fits;
    pid = h.pid;
    quantum = h.quantum;
    state = h.state;
  }

  leer-Sound :
      (bytes logical : ℕ) (c : Cpu) → Sound s.entries b c → SoundBeside (leer s bytes logical c)
  unfolding leer
  leer-Sound bytes logical c h =
      >>=-OnSome (λ (a, c1). Sound s.entries b c1) (λ (a, c1). Sound s.entries b c1)
        (translate s logical c) _ (translate-Sound logical c h)
        (λ (address, c1) h1. tell-Sound (moves_in c1.block.pid bytes address) c1 h1)

  leer_de_dos_paginas-Sound :
      (logical : ℕ) (c : Cpu) → Sound s.entries b c → SoundBeside (leer_de_dos_paginas s logical c)
  unfolding leer_de_dos_paginas
  leer_de_dos_paginas-Sound logical c h =
      let bytes = bytes_primera s.pages_length logical in
      let P : ℕ × Cpu → Type 0 = λ (a, c'). Sound s.entries b c' in
      >>=-OnSome P P (translate s logical c) _ (translate-Sound logical c h) (λ (first, c1) h1.
        let c2 = tell (moves_in c1.block.pid bytes first) c1 in
        let h2 = tell-Sound (moves_in c1.block.pid bytes first) c1 h1 in
        >>=-OnSome P P (translate s ((logical + bytes) % u32_mod) c2) _
          (translate-Sound ((logical + bytes) % u32_mod) c2 h2)
          (λ (second, c3) h3. tell-Sound (moves_in c3.block.pid (4 - bytes) second) c3 h3))

  if-SoundBeside {ℓ} :
      {A : Type ℓ} (t : Bool) (x y : Option (A × Cpu))
      → SoundBeside x
      → SoundBeside y
      → SoundBeside (if t then x else y)
  if-SoundBeside true x y hx hy = hx
  if-SoundBeside false x y hx hy = hy

  if-SoundResult :
      (t : Bool) (x y : Option Cpu)
      → SoundResult x
      → SoundResult y
      → SoundResult (if t then x else y)
  if-SoundResult true x y hx hy = hx
  if-SoundResult false x y hx hy = hy

  pub mov_in-Sound :
      (data_register address_register : Register) (c : Cpu)
      → Sound s.entries b c
      → SoundResult (mov_in s data_register address_register c)
  unfolding mov_in
  mov_in-Sound data_register address_register c h =
      let dl = get_register address_register (registers_of c) in
      let two = leer_de_dos_paginas-Sound dl c h in
      >>=-OnSome (λ (a, c'). Sound s.entries b c') (Sound s.entries b) _ _
        (if-SoundBeside (is_32_bits data_register) _ _
          (if-SoundBeside (pagina_dividida s.pages_length dl) _ _ two (leer-Sound 4 dl c h))
          (leer-Sound 1 dl c h))
        (λ (value, c') h'.
          with_registers-Sound (set_register data_register value (registers_of c')) c'
            (set_register-InRange data_register value (registers_of c') h'.ranges) h')

  escribir-Sound :
      (bytes logical value : ℕ) (c : Cpu)
      → Sound s.entries b c
      → SoundResult (escribir s bytes logical value c)
  unfolding escribir
  escribir-Sound bytes logical value c h =
      >>=-OnSome (λ (a, c1). Sound s.entries b c1) (Sound s.entries b) (translate s logical c) _
        (translate-Sound logical c h)
        (λ (address, c1) h1. tell-Sound (moves_out c1.block.pid bytes address value) c1 h1)

  pub mov_out-Sound :
      (address_register data_register : Register) (c : Cpu)
      → Sound s.entries b c
      → SoundResult (mov_out s address_register data_register c)
  unfolding mov_out escribir_en_dos_paginas
  mov_out-Sound address_register data_register c h =
      let dl = get_register address_register (registers_of c) in
      let value = get_register data_register (registers_of c) in
      let bytes = bytes_primera s.pages_length dl in
      let two =
        >>=-OnSome (Sound s.entries b) (Sound s.entries b)
          (escribir s bytes dl (valor_parte_1 value) c) _
          (escribir-Sound bytes dl (valor_parte_1 value) c h)
          (escribir-Sound (4 - bytes) ((dl + bytes) % u32_mod) (valor_parte_2 value)) in
      if-SoundResult (is_32_bits data_register) _ _
        (if-SoundResult (pagina_dividida s.pages_length dl) _ _ two (escribir-Sound 4 dl value c h))
        (escribir-Sound 1 dl value c h)
