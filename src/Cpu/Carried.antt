-- ===== src/Cpu/Carried.antt =====
-- What the instructions of cpu/src/operations.c that do not ask for an interface keep of a process.
use ronaldinh_os_sistemas_op.Common.{
  ℕ, inl, inr, [], Bool, true, false, Option, none, some, ◌>>=◌, if◌then◌else◌, ◌==◌, OnSome,
  >>=-OnSome, Option-cases,
}
use ronaldinh_os_sistemas_op.Utils.Words.{get_next_word}
use ronaldinh_os_sistemas_op.Kernel.State.{Text}
use ronaldinh_os_sistemas_op.Kernel.Resources.{Answer, continue, block, empty_instance, silence}
use ronaldinh_os_sistemas_op.Wire.ControlBlock.{ControlBlock}
use ronaldinh_os_sistemas_op.Cpu.Registers.{Register, di, si, Operation, get_register, execute}
use ronaldinh_os_sistemas_op.Cpu.Arithmetic.{execute-InRange}
use ronaldinh_os_sistemas_op.Cpu.Moves.{
  Surroundings, Cpu, resizes, copies, registers_of, translate, tell,
}
use ronaldinh_os_sistemas_op.Cpu.Sound.{Sound, translate-Sound, tell-Sound, with_registers-Sound}
use ronaldinh_os_sistemas_op.Cpu.Names.{
  wait_text, exit_text, error_text, io_text, out_of_memory_text,
}
use ronaldinh_os_sistemas_op.Cpu.IoTexts.{next_register, next_value}
use ronaldinh_os_sistemas_op.Cpu.Instructions.{
  Executed, executed, crashed, stuck, goes_on, with_context, leaves, operate_registers, run_move,
  copy_string, run_resize, waited, signalled, run_resource,
}

-- A step that does not crash, whatever it returns.
anything {ℓ} : {A : Type ℓ} (m : Option A) → OnSome {ℓ, 0} (λ (a : A). Unit) m
anything none = tt
anything (some a) = tt

module _ (s : Surroundings) (b : ControlBlock) where
  -- Where an instruction was executed, the CPU is as it should be.
  abbrev pub SoundExecuted : Executed → Type 0
  SoundExecuted (executed out c) = Sound s.entries b c
  SoundExecuted crashed = Unit
  SoundExecuted stuck = Unit

  -- A chain of steps that leave the CPU alone, before one that may not.
  pub reads-Sound {ℓ κ} :
      {A : Type ℓ} {C : Type κ} (P : C → Type 0) (m : Option A) (f : A → Option C)
      → ((a : A) → OnSome P (f a))
      → OnSome P (m >>= f)
  reads-Sound P m f h = >>=-OnSome {ℓ, κ, 0, 0} (λ a. Unit) P m f (anything m) (λ a u. h a)

  pub goes_on-Sound : (r : Option Cpu) → OnSome (Sound s.entries b) r → SoundExecuted (goes_on r)
  goes_on-Sound none h = tt
  goes_on-Sound (some c) h = h

  pub with_context-Sound :
      (reason info : Text) (c : Cpu)
      → Sound s.entries b c
      → Sound s.entries b (with_context reason info c)
  with_context-Sound reason info c h = record {
    ranges = h.ranges;
    fits = h.fits;
    pid = h.pid;
    quantum = h.quantum;
    state = h.state;
  }

  pub leaves-Sound :
      (r : Option (Text × Cpu))
      → OnSome (λ (info, c). Sound s.entries b c) r
      → SoundExecuted (leaves r)
  leaves-Sound none h = tt
  leaves-Sound (some (info, c)) h = with_context-Sound io_text info c h

  pub if-Sound :
      (t : Bool) (x y : Executed)
      → SoundExecuted x
      → SoundExecuted y
      → SoundExecuted (if t then x else y)
  if-Sound true x y hx hy = hx
  if-Sound false x y hx hy = hy

  pub operate_registers-Sound :
      (o : Option (Operation × ℕ)) (c : Cpu)
      → Sound s.entries b c
      → OnSome (Sound s.entries b) (operate_registers o c)
  unfolding operate_registers
  operate_registers-Sound none c h = tt
  operate_registers-Sound (some (operation, next)) c h =
      with_registers-Sound s b (execute operation (registers_of c)) c
        (execute-InRange operation (registers_of c) h.ranges) h

  pub run_move-Sound :
      (move : Register → Register → Cpu → Option Cpu) (operation : Text) (offset : ℕ) (c : Cpu)
      → ((first second : Register) → OnSome (Sound s.entries b) (move first second c))
      → OnSome (Sound s.entries b) (run_move move operation offset c)
  unfolding run_move
  run_move-Sound move operation offset c h =
      reads-Sound (Sound s.entries b) (next_register operation offset) _ (λ (first, next).
        reads-Sound (Sound s.entries b) (next_register operation next) _
          (λ (second, last). h first second))

  pub copy_string-Sound :
      (operation : Text) (offset : ℕ) (c : Cpu)
      → Sound s.entries b c
      → OnSome (Sound s.entries b) (copy_string s operation offset c)
  unfolding copy_string
  copy_string-Sound operation offset c h =
      let P : ℕ × Cpu → Type 0 = λ (a, c'). Sound s.entries b c' in
      let Q : Cpu → Type 0 = Sound s.entries b in
      let escribir = get_register di (registers_of c) in
      let leer = get_register si (registers_of c) in
      >>=-OnSome P Q (translate s escribir c) _ (translate-Sound s b escribir c h)
        (λ (destino, c1) h1.
          >>=-OnSome P Q (translate s leer c1) _ (translate-Sound s b leer c1 h1)
            (λ (origen, c2) h2. reads-Sound Q (next_value operation offset) _ (λ (tamanio, last).
              tell-Sound s b (copies c2.block.pid destino origen tamanio) c2 h2)))

  pub run_resize-Sound :
      (operation : Text) (offset : ℕ) (c : Cpu)
      → Sound s.entries b c
      → SoundExecuted (run_resize s operation offset c)
  unfolding run_resize
  run_resize-Sound operation offset c h = elim (Option-cases (next_value operation offset)) [
    | inl e ↦ rw (run_resize, e) tt
    | inr ((size, last), e) ↦
        let request = resizes c.block.pid size in
        let h' = tell-Sound s b request c h in
        rw (run_resize, e)
          (if-Sound (s.answer c.sent request == 0) _ _
            (with_context-Sound error_text out_of_memory_text (tell request c) h') h')
  ]

  pub run_resource-Sound :
      (run : Text → Cpu → Executed) (operation : Text) (offset : ℕ) (c : Cpu)
      → ((resource : Text) → SoundExecuted (run resource c))
      → SoundExecuted (run_resource run operation offset c)
  unfolding run_resource
  run_resource-Sound run operation offset c h =
      elim (Option-cases (get_next_word operation offset)) [
        | inl e ↦ rw (run_resource, e) tt
        | inr ((resource, last), e) ↦ rw (run_resource, e) (h resource)
      ]

  pub waited-Sound :
      (resource : Text) (a : Answer) (c : Cpu)
      → Sound s.entries b c
      → SoundExecuted (waited resource a c)
  unfolding waited
  waited-Sound resource continue c h = h
  waited-Sound resource block c h = with_context-Sound wait_text resource c h
  waited-Sound resource empty_instance c h = with_context-Sound exit_text [] c h
  waited-Sound resource silence c h = tt

  pub signalled-Sound : (a : Answer) (c : Cpu) → Sound s.entries b c → SoundExecuted (signalled a c)
  unfolding signalled
  signalled-Sound continue c h = h
  signalled-Sound block c h = h
  signalled-Sound empty_instance c h = with_context-Sound exit_text [] c h
  signalled-Sound silence c h = tt
