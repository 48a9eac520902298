-- ===== src/Cpu/Rounds.antt =====
-- What the CPU keeps of a process from the PCB that it receives to the one that it sends back:
-- cpu/src/operations.c and cpu/src/main.c.
use ronaldinh_os_sistemas_op.Common.{
  ℕ, zero, suc, ◌+◌, ◌≤◌, ◌≡◌, ◌⊎◌, inl, inr, refl, true, false, Option, length, OnSome, Bool-cases,
  Option-cases,
}
use ronaldinh_os_sistemas_op.Utils.Words.{get_next_word}
use ronaldinh_os_sistemas_op.Kernel.State.{Text, text_eq}
use ronaldinh_os_sistemas_op.Wire.ControlBlock.{ControlBlock}
use ronaldinh_os_sistemas_op.Cpu.Registers.{
  Register, pc, Operation, sums, subs, get_register, set_register,
}
use ronaldinh_os_sistemas_op.Cpu.Arithmetic.{InRange, set_register-InRange}
use ronaldinh_os_sistemas_op.Cpu.Moves.{
  Surroundings, Cpu, registers_of, with_register, mov_in, mov_out,
}
use ronaldinh_os_sistemas_op.Cpu.Sound.{Sound, with_registers-Sound, mov_in-Sound, mov_out-Sound}
use ronaldinh_os_sistemas_op.Cpu.Names.{
  set_text, mov_in_text, mov_out_text, sum_text, sub_text, jnz_text, resize_text, copy_string_text,
  wait_text, signal_text, quantum_text, console_text,
}
use ronaldinh_os_sistemas_op.Cpu.IoTexts.{Outside}
use ronaldinh_os_sistemas_op.Cpu.Instructions.{
  Executed, executed, crashed, stuck, read_set, read_pair, read_jnz, waited, signalled,
  execute_named, execute_operations,
}
use ronaldinh_os_sistemas_op.Cpu.Cycle.{
  Core, Round, continues, returns_pcb, crashes, stalls, interrupted, try_interrupt, then_round,
  after_instruction, execute_round, execute_instructions,
}
use ronaldinh_os_sistemas_op.Cpu.Carried.{
  SoundExecuted, goes_on-Sound, if-Sound, operate_registers-Sound, run_move-Sound,
  copy_string-Sound, run_resize-Sound, run_resource-Sound, waited-Sound, signalled-Sound,
}
use ronaldinh_os_sistemas_op.Cpu.Written.{execute_io-Sound}

module _ (s : Surroundings) (b : ControlBlock) where
  execute_named-Sound :
      (o : Outside) (name operation : Text) (offset : ℕ) (c : Cpu)
      → Sound s.entries b c
      → SoundExecuted s b (execute_named s o name operation offset c)
  unfolding execute_named
  execute_named-Sound o name operation offset c h =
      let registers =
        λ (r : Option (Operation × ℕ)). goes_on-Sound s b _ (operate_registers-Sound s b r c h) in
      let move =
        λ (m : Register → Register → Cpu → Option Cpu)
            (k : (x y : Register) → OnSome (Sound s.entries b) (m x y c)).
          goes_on-Sound s b _ (run_move-Sound s b m operation offset c k) in
      if-Sound s b (text_eq name set_text) _ _ (registers (read_set operation offset)) (
        if-Sound s b (text_eq name mov_in_text) _ _
          (move (mov_in s) (λ x y. mov_in-Sound s b x y c h))
          (if-Sound s b (text_eq name mov_out_text) _ _
            (move (mov_out s) (λ x y. mov_out-Sound s b x y c h))
            (if-Sound s b (text_eq name sum_text) _ _ (registers (read_pair sums operation offset))
              (if-Sound s b (text_eq name sub_text) _ _
                (registers (read_pair subs operation offset))
                (if-Sound s b (text_eq name jnz_text) _ _ (registers (read_jnz operation offset)) (
                  if-Sound s b (text_eq name resize_text) _ _
                    (run_resize-Sound s b operation offset c h)
                    (if-Sound s b (text_eq name copy_string_text) _ _
                      (goes_on-Sound s b _ (copy_string-Sound s b operation offset c h))
                      (if-Sound s b (text_eq name wait_text) _ _
                        (run_resource-Sound s b
                          (λ (resource : Text) (c' : Cpu).
                            waited resource (o.wait_answer resource c') c')
                          operation offset c
                          (λ resource. waited-Sound s b resource (o.wait_answer resource c) c h))
                        (if-Sound s b (text_eq name signal_text) _ _
                          (run_resource-Sound s b
                            (λ (resource : Text) (c' : Cpu).
                              signalled (o.signal_answer resource c') c')
                            operation offset c
                            (λ resource. signalled-Sound s b (o.signal_answer resource c) c h))
                          (execute_io-Sound s b o name operation offset c h))))))))))

  execute_operations-Sound :
      (o : Outside) (operation : Text) (c : Cpu)
      → Sound s.entries b c
      → SoundExecuted s b (execute_operations s o operation c)
  unfolding execute_operations
  execute_operations-Sound o operation c h = elim (Option-cases (get_next_word operation 0)) [
    | inl e ↦ rw (execute_operations, e) tt
    | inr ((name, offset), e) ↦
        rw (execute_operations, e) (execute_named-Sound o name operation offset c h)
  ]

  -- A PCB that goes back has its process's pid and state, and its quantum or 0; the registers are within
  -- their widths, and the TLB within its size.
  pub record Returned (c : Cpu) : Type 0 where
    pub ranges : InRange (registers_of c)
    pub fits : length c.tlb ≤ s.entries
    pub pid : c.block.pid ≡ b.pid
    pub quantum : (c.block.quantum ≡ b.quantum) ⊎ (c.block.quantum ≡ 0)
    pub state : c.block.state ≡ b.state

  -- Behind some rounds, the process goes on as it should be, or its PCB goes back.
  unfoldable pub SoundRound : Round → Type 0
  SoundRound (continues k) = Sound s.entries b k.cpu
  SoundRound (returns_pcb k) = Returned k.cpu
  SoundRound crashes = Unit
  SoundRound stalls = Unit

  Sound-Returned : (c : Cpu) → Sound s.entries b c → Returned c
  Sound-Returned c h = record {
    ranges = h.ranges;
    fits = h.fits;
    pid = h.pid;
    quantum = inl h.quantum;
    state = h.state;
  }

  interrupted-Returned :
      (reason : Text) (c : Cpu) → Sound s.entries b c → Returned (interrupted reason c)
  unfolding interrupted
  interrupted-Returned reason c h = elim (Bool-cases (text_eq reason quantum_text)) [
    | inl e ↦
        rw (interrupted, e)
          (record {
            ranges = h.ranges;
            fits = h.fits;
            pid = h.pid;
            quantum = inr refl;
            state = h.state;
          })
    | inr e₁ ↦ elim (Bool-cases (text_eq reason console_text)) [
      | inl e ↦
          rw (interrupted, e₁, e)
            (record {
              ranges = h.ranges;
              fits = h.fits;
              pid = h.pid;
              quantum = inl h.quantum;
              state = h.state;
            })
      | inr e ↦ rw (interrupted, e₁, e) (Sound-Returned c h)
    ]
  ]

  try_interrupt-Sound :
      (n : ℕ) (k : Core) → Sound s.entries b k.cpu → SoundRound (try_interrupt n k)
  unfolding try_interrupt SoundRound
  try_interrupt-Sound zero k h = h
  try_interrupt-Sound (suc n) k h = interrupted-Returned k.reason_for_interruption k.cpu h

  after_instruction-Sound :
      (e : Executed) (k : Core) → SoundExecuted s b e → SoundRound (after_instruction e k)
  unfolding after_instruction SoundRound
  after_instruction-Sound crashed k h = tt
  after_instruction-Sound stuck k h = tt
  after_instruction-Sound (executed true c) k h = Sound-Returned c h
  after_instruction-Sound (executed false c) k h =
      try_interrupt-Sound k.interrupts (record k { cpu = c }) h

  execute_round-Sound :
      (o : Outside) (instruction_at : ℕ → ℕ → Option Text) (k : Core)
      → Sound s.entries b k.cpu
      → SoundRound (execute_round s o instruction_at k)
  unfolding execute_round SoundRound
  execute_round-Sound o instruction_at k h =
      let program_counter = get_register pc (registers_of k.cpu) in
      elim (Option-cases (instruction_at k.cpu.block.pid program_counter)) [
        | inl e ↦ rw (execute_round, e) (Sound-Returned k.cpu h)
        | inr (instruction, e) ↦
            let c = with_register pc (program_counter + 1) k.cpu in
            let ranges =
              set_register-InRange pc (program_counter + 1) (registers_of k.cpu) h.ranges in
            let next =
              with_registers-Sound s b (set_register pc (program_counter + 1) (registers_of k.cpu))
                k.cpu ranges h in
            rw (execute_round, e)
              (after_instruction-Sound (execute_operations s o instruction c) k
                (execute_operations-Sound o instruction c next))
      ]

  then_round-Sound :
      (r : Round) (next : Core → Round)
      → ((k : Core) → Sound s.entries b k.cpu → SoundRound (next k))
      → SoundRound r
      → SoundRound (then_round r next)
  unfolding SoundRound
  then_round-Sound (continues k) next more h = more k h
  then_round-Sound (returns_pcb k) next more h = h
  then_round-Sound crashes next more h = tt
  then_round-Sound stalls next more h = tt

  -- Whatever the instructions of a process are, and whatever the memory and the kernel answer, after any
  -- number of rounds, from registers within their widths and a TLB within its size: where the process
  -- goes on, or its PCB goes back, they still are, and the PCB has the pid and the state it came with,
  -- and its quantum, or 0 where it goes back.
  pub execute_instructions-Sound :
      (n : ℕ) (o : Outside) (instruction_at : ℕ → ℕ → Option Text) (k : Core)
      → Sound s.entries b k.cpu
      → SoundRound (execute_instructions n s o instruction_at k)
  unfolding execute_instructions SoundRound
  execute_instructions-Sound zero o instruction_at k h = h
  execute_instructions-Sound (suc n) o instruction_at k h =
      then_round-Sound (execute_round s o instruction_at k)
        (execute_instructions n s o instruction_at) (execute_instructions-Sound n o instruction_at)
        (execute_round-Sound o instruction_at k h)
