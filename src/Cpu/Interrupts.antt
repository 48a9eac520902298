-- ===== src/Cpu/Interrupts.antt =====
-- How soon an interrupt ends a process's stay at the CPU, `executeInstrucions` of cpu/src/main.c.
use ronaldinh_os_sistemas_op.Common.{
  ℕ, zero, suc, ◌+◌, ◌<◌, ◌≡◌, ◌≢◌, refl, true, false, Option, arith, Option-cases, inl, inr,
}
use ronaldinh_os_sistemas_op.Kernel.State.{Text}
use ronaldinh_os_sistemas_op.Cpu.Registers.{pc, get_register}
use ronaldinh_os_sistemas_op.Cpu.Moves.{Surroundings, registers_of, with_register}
use ronaldinh_os_sistemas_op.Cpu.IoTexts.{Outside}
use ronaldinh_os_sistemas_op.Cpu.Instructions.{
  Executed, executed, crashed, stuck, execute_operations,
}
use ronaldinh_os_sistemas_op.Cpu.Cycle.{
  Core, Round, continues, returns_pcb, crashes, stalls, interrupted, try_interrupt, then_round,
  after_instruction, execute_round, execute_instructions,
}

-- A round behind which the process does not go on.
unfoldable pub Ends : Round → Type 0
Ends r = (k : Core) → r ≢ continues k

returned-Ends : (k : Core) → Ends (returns_pcb k)
unfolding Ends
returned-Ends k k' e = cc

try_interrupt-Ends : (n : ℕ) (k : Core) → 0 < n → Ends (try_interrupt n k)
unfolding try_interrupt
try_interrupt-Ends zero k h = absurd (omega arith)
try_interrupt-Ends (suc n) k h =
    returned-Ends (record k { interrupts = n; cpu = interrupted k.reason_for_interruption k.cpu })

after_instruction-Ends : (e : Executed) (k : Core) → 0 < k.interrupts → Ends (after_instruction e k)
unfolding after_instruction Ends
after_instruction-Ends crashed k pending = λ k' e. cc
after_instruction-Ends stuck k pending = λ k' e. cc
after_instruction-Ends (executed true c) k pending = returned-Ends (record k { cpu = c })
after_instruction-Ends (executed false c) k pending =
    try_interrupt-Ends k.interrupts (record k { cpu = c }) pending

execute_round-Ends :
    (s : Surroundings) (o : Outside) (instruction_at : ℕ → ℕ → Option Text) (k : Core)
    → 0 < k.interrupts
    → Ends (execute_round s o instruction_at k)
unfolding execute_round
execute_round-Ends s o instruction_at k pending =
    let program_counter = get_register pc (registers_of k.cpu) in
    elim (Option-cases (instruction_at k.cpu.block.pid program_counter)) [
      | inl e ↦ rw (execute_round, e) (returned-Ends k)
      | inr (instruction, e) ↦
          let c = with_register pc (program_counter + 1) k.cpu in
          rw (execute_round, e)
            (after_instruction-Ends (execute_operations s o instruction c) k pending)
    ]

then_round-Ends : (r : Round) (next : Core → Round) → Ends r → then_round r next ≡ r
unfolding Ends
then_round-Ends (continues k) next h = absurd (h k refl)
then_round-Ends (returns_pcb k) next h = refl
then_round-Ends crashes next h = refl
then_round-Ends stalls next h = refl

-- With an interrupt pending, even one that came for the process before, a process stays at the CPU for
-- one round only: for any number of rounds above 0, what it ends with is what its first round does, and
-- that is not to go on.
pub execute_instructions-Ends :
    (n : ℕ) (s : Surroundings) (o : Outside) (instruction_at : ℕ → ℕ → Option Text) (k : Core)
    → 0 < k.interrupts
    → (execute_instructions (suc n) s o instruction_at k ≡ execute_round s o instruction_at k)
      × Ends (execute_round s o instruction_at k)
unfolding execute_instructions
execute_instructions-Ends n s o instruction_at k pending =
    let once = execute_round-Ends s o instruction_at k pending in
    (
      then_round-Ends (execute_round s o instruction_at k)
          (execute_instructions n s o instruction_at) once,
      once,
    )
