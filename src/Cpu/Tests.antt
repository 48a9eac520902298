-- ===== src/Cpu/Tests.antt =====
-- Runs of the CPU: a TLB of two rows, and some registers, after cpu/src/MMU.c and operations.c.
use ronaldinh_os_sistemas_op.Common.{
  ℕ, ◌+◌, ◌-◌, ◌*◌, ◌/◌, ◌%◌, ◌<◌, ◌≡◌, ◌≢◌, refl, inr, List, [], ◌∷◌, ◌++◌, Option, some, arith,
  drop, u32_mod,
}
use ronaldinh_os_sistemas_op.Cpu.Tlb.{
  TlbRow, fifo, lru, new_row, remove_at, insert_scheduled_tlb_row, logical_to_physical_address,
}
use ronaldinh_os_sistemas_op.Cpu.Replaced.{
  Oldest, insert_scheduled_tlb_row-fifo, insert_scheduled_tlb_row-lru,
}
use ronaldinh_os_sistemas_op.Cpu.Translation.{
  Current, IsCurrent, logical_to_physical_address-direct,
}
use ronaldinh_os_sistemas_op.Cpu.Registers.{
  ax, bx, Registers, is_32_bits, modulus, get_register, sum_register, sub_register,
}
use ronaldinh_os_sistemas_op.Cpu.Arithmetic.{InRange, sub-sum}
use ronaldinh_os_sistemas_op.Cpu.TwoPages.{
  pagina_dividida, bytes_primera, dato_reconstruido, valor_parte_1, valor_parte_2,
  pagina_dividida-bytes,
}
use ronaldinh_os_sistemas_op.Common.{false}
use ronaldinh_os_sistemas_op.Kernel.State.{Text}
use ronaldinh_os_sistemas_op.Kernel.Resources.{continue}
use ronaldinh_os_sistemas_op.Wire.ControlBlock.{ControlBlock}
use ronaldinh_os_sistemas_op.Cpu.Moves.{Surroundings}
use ronaldinh_os_sistemas_op.Cpu.IoTexts.{Outside}
use ronaldinh_os_sistemas_op.Cpu.Cycle.{Core, execute_round, execute_instructions}
use ronaldinh_os_sistemas_op.Cpu.Names.{quantum_text}
use ronaldinh_os_sistemas_op.Cpu.Sound.{Sound}
use ronaldinh_os_sistemas_op.Cpu.Rounds.{SoundRound, execute_instructions-Sound}
use ronaldinh_os_sistemas_op.Cpu.Interrupts.{Ends, execute_instructions-Ends}

abbrev frame_of : ℕ → ℕ → ℕ
frame_of pid page = 10 + page

abbrev two_rows : List TlbRow
two_rows = new_row 5 1 0 10 ∷ new_row 3 1 1 11 ∷ []

insert_scheduled_tlb_row-fifo_example :
    insert_scheduled_tlb_row 2 9 1 2 12 fifo two_rows
    ≡ some (drop 1 two_rows ++ new_row 9 1 2 12 ∷ [])
insert_scheduled_tlb_row-fifo_example =
    insert_scheduled_tlb_row-fifo 2 9 1 2 12 two_rows refl (omega arith)

insert_scheduled_tlb_row-lru_example :
    (position : ℕ) × Oldest two_rows position
    × (insert_scheduled_tlb_row 2 9 1 2 12 lru two_rows
        ≡ some (remove_at position two_rows ++ new_row 9 1 2 12 ∷ []))
insert_scheduled_tlb_row-lru_example =
    insert_scheduled_tlb_row-lru 2 9 1 2 12 two_rows (omega arith)

two_rows-Current : Current frame_of 2 two_rows
unfolding IsCurrent
two_rows-Current = record { fits = omega arith; current = (refl, (refl, tt)) }

logical_to_physical_address-direct_example :
    (tlb : List TlbRow) × (logical_to_physical_address frame_of 2 lru 32 9 70 1 two_rows
      ≡ some ((frame_of 1 (70 / 32) * 32 + (70 - 70 / 32 * 32)) % u32_mod, tlb))
    × Current frame_of 2 tlb
logical_to_physical_address-direct_example =
    logical_to_physical_address-direct frame_of 2 lru 32 9 70 1 two_rows two_rows-Current

abbrev some_registers : Registers
some_registers = record {
  ax_register = 250;
  bx_register = 10;
  cx_register = 0;
  dx_register = 0;
  eax_register = 3;
  ebx_register = 7;
  ecx_register = 0;
  edx_register = 0;
  si_register = 0;
  di_register = 0;
  pc_register = 1;
}

some_registers-InRange : InRange some_registers
unfolding InRange get_register modulus is_32_bits
some_registers-InRange r = ground arith

sub-sum_example :
    get_register ax (sub_register ax bx (sum_register ax bx some_registers))
    ≡ get_register ax some_registers
unfolding is_32_bits
sub-sum_example = sub-sum ax bx some_registers some_registers-InRange (λ e. cc) (inr refl)

pagina_dividida-bytes_example :
    (0 < bytes_primera 16 30) × (bytes_primera 16 30 < 4) × ((30 + bytes_primera 16 30) % 16 ≡ 0)
unfolding pagina_dividida
pagina_dividida-bytes_example = pagina_dividida-bytes 16 30 (omega arith) refl

-- With one byte on the first page the halves that are sent are not the value.
halves_apart : dato_reconstruido (valor_parte_1 67305985) (valor_parte_2 67305985) 1 3 ≢ 67305985
unfolding dato_reconstruido valor_parte_1 valor_parte_2
halves_apart e = absurd (omega arith)

-- A process at the CPU, with an interrupt pending, whose every instruction is "MOV_OUT EAX AX".
abbrev around : Surroundings
around = record {
  pages_length = 32;
  clock = λ readings. 9 + readings;
  entries = 2;
  algoritmo = lru;
  frame_of = λ sent pid page. 10 + page;
  answer = λ sent request. 1;
}

abbrev other_processes : Outside
other_processes = record {
  wait_answer = λ resource c. continue;
  signal_answer = λ resource c. continue;
  address_of = λ r. 4096;
  spells_three = λ r rs. false;
}

abbrev process : ControlBlock
process = record {
  pid = 1;
  quantum = 7;
  cpu_registers = some_registers;
  state = 2;
  context = record { reason = []; info = [] };
}

abbrev interrupted_core : Core
interrupted_core = record {
  cpu = record { block = process; tlb = two_rows; readings = 0; sent = [] };
  interrupts = 1;
  reason_for_interruption = quantum_text;
}

abbrev moves : ℕ → ℕ → Option Text
moves pid program_counter =
    some (77 ∷ 79 ∷ 86 ∷ 95 ∷ 79 ∷ 85 ∷ 84 ∷ 32 ∷ 69 ∷ 65 ∷ 88 ∷ 32 ∷ 65 ∷ 88 ∷ [])

process-Sound : Sound 2 process interrupted_core.cpu
process-Sound = record {
  ranges = some_registers-InRange;
  fits = omega arith;
  pid = refl;
  quantum = refl;
  state = refl;
}

execute_instructions-Sound_example :
    SoundRound around process (execute_instructions 3 around other_processes moves interrupted_core)
execute_instructions-Sound_example =
    execute_instructions-Sound around process 3 other_processes moves interrupted_core process-Sound

execute_instructions-Ends_example :
    (execute_instructions 3 around other_processes moves interrupted_core
      ≡ execute_round around other_processes moves interrupted_core)
    × Ends (execute_round around other_processes moves interrupted_core)
execute_instructions-Ends_example =
    execute_instructions-Ends 2 around other_processes moves interrupted_core (omega arith)
