-- ===== src/Cpu/IoTexts.antt =====
-- The words of an instruction, and the texts for the kernel of those of the interfaces, in
-- cpu/src/operations.c. A message of the length of a buffer, or longer, is written past its end, which is
-- a crash.
use ronaldinh_os_sistemas_op.Common.{
  ℕ, ◌-◌, ◌^◌, ◌∷◌, ◌++◌, Bool, Option, none, some, ◌>>=◌, ◌||◌, ltb, if◌then◌else◌, length,
  u32_mod,
}
use ronaldinh_os_sistemas_op.Utils.Words.{get_next_word}
use ronaldinh_os_sistemas_op.Utils.Numbers.{get_value, int_to_char}
use ronaldinh_os_sistemas_op.Kernel.State.{Text}
use ronaldinh_os_sistemas_op.Kernel.Resources.{Answer}
use ronaldinh_os_sistemas_op.Cpu.Registers.{Register, Registers, is_32_bits, get_register}
use ronaldinh_os_sistemas_op.Cpu.Moves.{Surroundings, Cpu, registers_of, translate}
use ronaldinh_os_sistemas_op.Cpu.Names.{io_gen_sleep_text, io_fs_truncate_text, register_named}

-- What the kernel answers to a WAIT and to a SIGNAL, and where the heap has the registers: the low 32
-- bits of their addresses, and whether the bytes there spell a text of three letters.
pub record Outside : Type 0 where
  pub wait_answer : Text → Cpu → Answer
  pub signal_answer : Text → Cpu → Answer
  pub address_of : Register → ℕ
  pub spells_three : Register → Registers → Bool

-- The next words of an instruction, each with the offset behind it: a word, a register, a number.
unfoldable pub next_register : Text → ℕ → Option (Register × ℕ)
unfolding get_next_word register_named
next_register operation offset =
    get_next_word operation offset >>= λ (name, next). register_named name >>= λ r. some (r, next)

unfoldable pub next_value : Text → ℕ → Option (ℕ × ℕ)
unfolding get_next_word get_value
next_value operation offset =
    get_next_word operation offset >>= λ (word, next). some (get_value word, next)

-- The `%d` of a number of 32 bits.
unfoldable pub int_text : ℕ → Text
unfolding int_to_char
int_text n = if ltb n (2 ^ 31) then int_to_char n else 45 ∷ int_to_char (u32_mod - n)

-- A text in a buffer of so many bytes, for the information of the context.
unfoldable pub in_buffer : ℕ → Text → Cpu → Option (Text × Cpu)
in_buffer size text c = if ltb (length text) size then some (text, c) else none

-- IO_GEN_SLEEP: its words again.
unfoldable pub gen_sleep_io : Text → ℕ → Cpu → Option (Text × Cpu)
unfolding get_next_word in_buffer
gen_sleep_io operation offset c = get_next_word operation offset >>= λ (io_name, next).
    get_next_word operation next >>= λ (time_to_sleep, last).
    in_buffer 50 (io_gen_sleep_text ++ 32 ∷ io_name ++ 32 ∷ time_to_sleep) c

-- The texts for the kernel of IO_STDIN_READ and IO_STDOUT_WRITE, and of IO_FS_WRITE and IO_FS_READ.
unfoldable pub std_io_text : Text → Text → ℕ → ℕ → Text
unfolding int_text
std_io_text name interface_name address length =
    name ++ 32 ∷ (interface_name ++ 32 ∷ (int_text address ++ 32 ∷ int_text length))

unfoldable pub fs_io_text : Text → Text → Text → ℕ → ℕ → ℕ → Text
unfolding int_to_char
fs_io_text name interface_name file_name address length pointer =
    let numbers = int_to_char address ++ 32 ∷ (int_to_char length ++ 32 ∷ int_to_char pointer) in
    name ++ 32 ∷ (interface_name ++ 32 ∷ (file_name ++ 32 ∷ numbers))

-- IO_STDIN_READ and IO_STDOUT_WRITE: the physical address and the length are written.
unfoldable pub std_io : Surroundings → Text → Text → ℕ → Cpu → Option (Text × Cpu)
unfolding get_next_word next_register get_register translate in_buffer std_io_text
std_io s name operation offset c = get_next_word operation offset >>= λ (interface_name, n1).
    next_register operation n1 >>= λ (register_address, n2).
    next_register operation n2 >>= λ (register_length, n3).
    translate s (get_register register_address (registers_of c)) c >>= λ (address, c1).
    in_buffer 50
      (std_io_text name interface_name address (get_register register_length (registers_of c))) c1

-- IO_FS_TRUNCATE.
unfoldable pub fs_truncate_io : Text → ℕ → Cpu → Option (Text × Cpu)
unfolding get_next_word next_register get_register in_buffer int_to_char
fs_truncate_io operation offset c = get_next_word operation offset >>= λ (io_name, n1).
    get_next_word operation n1 >>= λ (file_name, n2). next_register operation n2 >>= λ (r, n3).
    in_buffer 50
      (io_fs_truncate_text
        ++ 32 ∷ io_name
        ++ 32 ∷ file_name
        ++ 32 ∷ int_to_char (get_register r (registers_of c)))
      c

-- The pointer of IO_FS_WRITE and IO_FS_READ: of a register of 32 bits, and of one whose bytes spell three
-- letters, it is the address of the register, not its number.
unfoldable pub file_pointer : Outside → Register → Registers → ℕ
unfolding is_32_bits get_register
file_pointer o r rs =
    if is_32_bits r || o.spells_three r rs then o.address_of r else get_register r rs

-- IO_FS_WRITE and IO_FS_READ.
unfoldable pub fs_io : Surroundings → Outside → Text → Text → ℕ → Cpu → Option (Text × Cpu)
unfolding get_next_word next_register get_register translate in_buffer fs_io_text file_pointer
fs_io s o name operation offset c = get_next_word operation offset >>= λ (interface_name, n1).
    get_next_word operation n1 >>= λ (file_name, n2).
    next_register operation n2 >>= λ (register_address, n3).
    next_register operation n3 >>= λ (register_length, n4).
    next_register operation n4 >>= λ (register_pointer, n5).
    translate s (get_register register_address (registers_of c)) c >>= λ (address, c1).
    in_buffer 100
      (fs_io_text name interface_name file_name address
        (get_register register_length (registers_of c))
        (file_pointer o register_pointer (registers_of c)))
      c1
