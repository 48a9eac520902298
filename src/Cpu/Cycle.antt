-- ===== src/Cpu/Cycle.antt =====
-- The cycle of the CPU: `executeInstrucions`, `serverInterrupt` and the PCB that `operate` receives, of
-- cpu/src/main.c. Fetches, logs left aside, are answered by the memory.
use ronaldinh_os_sistemas_op.Common.{
  ℕ, zero, suc, ◌+◌, true, false, Option, none, some, if◌then◌else◌,
}
use ronaldinh_os_sistemas_op.Kernel.State.{Text, text_eq}
use ronaldinh_os_sistemas_op.Wire.ControlBlock.{ControlBlock}
use ronaldinh_os_sistemas_op.Cpu.Registers.{pc, get_register, set_register}
use ronaldinh_os_sistemas_op.Cpu.Moves.{Surroundings, Cpu, registers_of, with_register}
use ronaldinh_os_sistemas_op.Cpu.Names.{quantum_text, console_text}
use ronaldinh_os_sistemas_op.Cpu.IoTexts.{Outside}
use ronaldinh_os_sistemas_op.Cpu.Instructions.{
  Executed, executed, crashed, stuck, execute_operations,
}

-- The CPU with the count of the semaphore sInterrupt and `reasonForInterruption`.
pub record Core : Type 0 where
  pub cpu : Cpu
  pub interrupts : ℕ
  pub reason_for_interruption : Text

-- A round: the next one follows, or the PCB is sent to the kernel; or the CPU crashes, or waits without
-- an end.
pub data Round : Type 0 where
  continues returns_pcb : Core → Round
  crashes stalls : Round

-- An interrupt that arrives, and a PCB.
unfoldable pub receive_interrupt : Text → Core → Core
receive_interrupt reason k = record k {
  interrupts = k.interrupts + 1;
  reason_for_interruption = reason;
}

unfoldable pub receive_pcb : ControlBlock → Core → Core
receive_pcb block k = record k { cpu = record k.cpu { block = block } }

-- The reason of an interrupt in the PCB.
unfoldable pub interrupted : Text → Cpu → Cpu
unfolding text_eq
interrupted reason c =
    let b = c.block in
    if text_eq reason quantum_text
    then record c {
      block = record b { quantum = 0; context = record b.context { reason = quantum_text } };
    }
    else if text_eq reason console_text
    then record c { block = record b { context = record b.context { reason = console_text } } }
    else c

-- `sem_trywait` of sInterrupt behind an instruction.
unfoldable pub try_interrupt : ℕ → Core → Round
unfolding interrupted
try_interrupt zero k = continues k
try_interrupt (suc n) k =
    returns_pcb (record k { interrupts = n; cpu = interrupted k.reason_for_interruption k.cpu })

unfoldable pub after_instruction : Executed → Core → Round
unfolding try_interrupt
after_instruction crashed k = crashes
after_instruction stuck k = stalls
after_instruction (executed true c) k = returns_pcb (record k { cpu = c })
after_instruction (executed false c) k = try_interrupt k.interrupts (record k { cpu = c })

-- A round, with the instruction that the memory sends for a pid and a program counter.
unfoldable pub execute_round : Surroundings → Outside → (ℕ → ℕ → Option Text) → Core → Round
unfolding get_register set_register execute_operations after_instruction
execute_round s o instruction_at k =
    let program_counter = get_register pc (registers_of k.cpu) in
    elim (instruction_at k.cpu.block.pid program_counter) [
      | none ↦ returns_pcb k
      | some instruction ↦
          let c = with_register pc (program_counter + 1) k.cpu in
          after_instruction (execute_operations s o instruction c) k
    ]

-- The round that follows one behind which the process goes on.
abbrev pub then_round : Round → (Core → Round) → Round
then_round (continues k) next = next k
then_round (returns_pcb k) next = returns_pcb k
then_round crashes next = crashes
then_round stalls next = stalls

-- The inner loop: so many rounds at most. `continues` is a process that still runs.
unfoldable pub execute_instructions :
    ℕ → Surroundings → Outside → (ℕ → ℕ → Option Text) → Core → Round
unfolding execute_round
execute_instructions zero s o instruction_at k = continues k
execute_instructions (suc n) s o instruction_at k =
    then_round (execute_round s o instruction_at k) (execute_instructions n s o instruction_at)
