-- ===== src/Cpu/Instructions.antt =====
-- Every instruction: `executeOperations` of cpu/src/operations.c. The buffers of the context are not
-- measured.
use ronaldinh_os_sistemas_op.Common.{
  ℕ, [], Bool, true, false, Option, none, some, ◌>>=◌, ◌==◌, if◌then◌else◌,
}
use ronaldinh_os_sistemas_op.Utils.Words.{get_next_word}
use ronaldinh_os_sistemas_op.Kernel.State.{Text, text_eq}
use ronaldinh_os_sistemas_op.Kernel.Resources.{Answer, continue, block, empty_instance, silence}
use ronaldinh_os_sistemas_op.Cpu.Registers.{
  Register, si, di, get_register, Operation, sets, sums, subs, jumps, execute,
}
use ronaldinh_os_sistemas_op.Cpu.Moves.{
  resizes, copies, Surroundings, Cpu, registers_of, with_registers, tell, ask, translate, mov_in,
  mov_out,
}
use ronaldinh_os_sistemas_op.Cpu.Names.{
  set_text, mov_in_text, mov_out_text, sum_text, sub_text, jnz_text, resize_text, copy_string_text,
  wait_text, signal_text, io_gen_sleep_text, io_stdin_read_text, io_stdout_write_text,
  io_fs_create_text, io_fs_delete_text, io_fs_truncate_text, io_fs_write_text, io_fs_read_text,
  exit_text, error_text, io_text, out_of_memory_text,
}
use ronaldinh_os_sistemas_op.Cpu.IoTexts.{
  Outside, next_register, next_value, gen_sleep_io, std_io, fs_truncate_io, fs_io,
}

-- An instruction that was executed, and whether the process leaves the CPU; `stuck` is a wait for the
-- kernel without an end.
pub data Executed : Type 0 where
  executed : Bool → Cpu → Executed
  crashed stuck : Executed

abbrev pub goes_on : Option Cpu → Executed
goes_on none = crashed
goes_on (some c) = executed false c

-- The reason and the information of the context are set.
abbrev pub with_context : Text → Text → Cpu → Cpu
with_context reason info c = record c {
  block = record c.block { context = record { reason = reason; info = info } };
}

abbrev pub leaves : Option (Text × Cpu) → Executed
leaves none = crashed
leaves (some (info, c)) = executed true (with_context io_text info c)

-- SET, SUM, SUB and JNZ.
unfoldable pub operate_registers : Option (Operation × ℕ) → Cpu → Option Cpu
unfolding execute
operate_registers o c =
    o >>= λ (operation, next). some (with_registers (execute operation (registers_of c)) c)

unfoldable pub read_set : Text → ℕ → Option (Operation × ℕ)
unfolding next_register next_value
read_set operation offset = next_register operation offset >>= λ (r, next).
    next_value operation next >>= λ (value, last). some (sets r value, last)

unfoldable pub read_pair : (Register → Register → Operation) → Text → ℕ → Option (Operation × ℕ)
unfolding next_register
read_pair make operation offset = next_register operation offset >>= λ (destiny, next).
    next_register operation next >>= λ (origin, last). some (make destiny origin, last)

unfoldable pub read_jnz : Text → ℕ → Option (Operation × ℕ)
unfolding next_register next_value
read_jnz operation offset = next_register operation offset >>= λ (r, next).
    next_value operation next >>= λ (value, last). some (jumps r value, last)

-- MOV_IN and MOV_OUT.
unfoldable pub run_move : (Register → Register → Cpu → Option Cpu) → Text → ℕ → Cpu → Option Cpu
unfolding next_register
run_move move operation offset c = next_register operation offset >>= λ (first, next).
    next_register operation next >>= λ (second, last). move first second c

-- COPY_STRING: from the address in SI to the one in DI, which is translated first.
unfoldable pub copy_string : Surroundings → Text → ℕ → Cpu → Option Cpu
unfolding get_register next_value translate
copy_string s operation offset c =
    let escribir = get_register di (registers_of c) in
    let leer = get_register si (registers_of c) in
    translate s escribir c >>= λ (destino, c1). translate s leer c1 >>= λ (origen, c2).
    next_value operation offset >>= λ (tamanio, last).
    some (tell (copies c2.block.pid destino origen tamanio) c2)

-- RESIZE: with the answer 0 the process leaves, out of memory.
unfoldable pub run_resize : Surroundings → Text → ℕ → Cpu → Executed
unfolding next_value
run_resize s operation offset c = elim (next_value operation offset) [
  | none ↦ crashed
  | some (size, last) ↦
      let (okey, c') = ask s (resizes c.block.pid size) c in
      if okey == 0
      then executed true (with_context error_text out_of_memory_text c')
      else executed false c'
]

-- WAIT and SIGNAL, with the kernel's answer.
unfoldable pub waited : Text → Answer → Cpu → Executed
waited resource continue c = executed false c
waited resource block c = executed true (with_context wait_text resource c)
waited resource empty_instance c = executed true (with_context exit_text [] c)
waited resource silence c = stuck

unfoldable pub signalled : Answer → Cpu → Executed
signalled continue c = executed false c
signalled block c = executed false c
signalled empty_instance c = executed true (with_context exit_text [] c)
signalled silence c = stuck

unfoldable pub run_resource : (Text → Cpu → Executed) → Text → ℕ → Cpu → Executed
unfolding get_next_word
run_resource run operation offset c = elim (get_next_word operation offset) [
  | none ↦ crashed
  | some (resource, last) ↦ run resource c
]

-- The instructions of the interfaces; IO_FS_CREATE and IO_FS_DELETE are passed on as they are.
unfoldable pub execute_io : Surroundings → Outside → Text → Text → ℕ → Cpu → Executed
unfolding text_eq gen_sleep_io std_io fs_truncate_io fs_io
execute_io s o name operation offset c =
    if text_eq name io_gen_sleep_text
    then leaves (gen_sleep_io operation offset c)
    else if text_eq name io_stdin_read_text
    then leaves (std_io s io_stdin_read_text operation offset c)
    else if text_eq name io_stdout_write_text
    then leaves (std_io s io_stdout_write_text operation offset c)
    else if text_eq name io_fs_create_text
    then leaves (some (operation, c))
    else if text_eq name io_fs_delete_text
    then leaves (some (operation, c))
    else if text_eq name io_fs_truncate_text
    then leaves (fs_truncate_io operation offset c)
    else if text_eq name io_fs_write_text
    then leaves (fs_io s o io_fs_write_text operation offset c)
    else if text_eq name io_fs_read_text
    then leaves (fs_io s o io_fs_read_text operation offset c)
    else if text_eq name exit_text
    then executed true (with_context exit_text [] c)
    else executed false c

-- The instruction of a name, with its words from the offset on. An unknown one does nothing.
unfoldable pub execute_named : Surroundings → Outside → Text → Text → ℕ → Cpu → Executed
unfolding text_eq operate_registers read_set read_pair read_jnz run_move mov_in mov_out run_resize
    copy_string run_resource waited signalled execute_io
execute_named s o name operation offset c =
    if text_eq name set_text
    then goes_on (operate_registers (read_set operation offset) c)
    else if text_eq name mov_in_text
    then goes_on (run_move (mov_in s) operation offset c)
    else if text_eq name mov_out_text
    then goes_on (run_move (mov_out s) operation offset c)
    else if text_eq name sum_text
    then goes_on (operate_registers (read_pair sums operation offset) c)
    else if text_eq name sub_text
    then goes_on (operate_registers (read_pair subs operation offset) c)
    else if text_eq name jnz_text
    then goes_on (operate_registers (read_jnz operation offset) c)
    else if text_eq name resize_text
    then run_resize s operation offset c
    else if text_eq name copy_string_text
    then goes_on (copy_string s operation offset c)
    else if text_eq name wait_text
    then run_resource (λ resource c'. waited resource (o.wait_answer resource c') c') operation
        offset c
    else if text_eq name signal_text
    then run_resource (λ resource c'. signalled (o.signal_answer resource c') c') operation offset c
    else execute_io s o name operation offset c

-- `executeOperations`.
unfoldable pub execute_operations : Surroundings → Outside → Text → Cpu → Executed
unfolding get_next_word execute_named
execute_operations s o operation c = elim (get_next_word operation 0) [
  | none ↦ crashed
  | some (name, offset) ↦ execute_named s o name operation offset c
]
