-- ===== src/Kernel/IoFunction.antt =====
-- What the kernel does with the instruction of a process that asks for an interface: `ioFunction` and
-- `isInterfaceConnected` of kernel/src/main.c.
use ronaldinh_os_sistemas_op.Common.{
  ℕ, List, Option, none, some, ◌>>=◌, ◌==◌, if◌then◌else◌, find, remove_first,
}
use ronaldinh_os_sistemas_op.Utils.Words.{get_next_word}
use ronaldinh_os_sistemas_op.Utils.Numbers.{get_value}
use ronaldinh_os_sistemas_op.Wire.Interfaces.{IoGenSleepParams, IoStdinRead, IoStdoutWrite}
use ronaldinh_os_sistemas_op.Wire.FsMessages.{
  IoFsCreateParams, IoFsDeleteParams, IoFsTruncateParams, IoFsWriteParams, IoFsReadParams,
}
use ronaldinh_os_sistemas_op.Kernel.State.{Text, text_eq, Kernel}
use ronaldinh_os_sistemas_op.Kernel.Queues.{delete_pcb}
use ronaldinh_os_sistemas_op.Kernel.Steps.{find_pcb_by_pid}
use ronaldinh_os_sistemas_op.Cpu.Names.{
  io_gen_sleep_text, io_stdin_read_text, io_stdout_write_text, io_fs_create_text, io_fs_delete_text,
  io_fs_truncate_text, io_fs_write_text, io_fs_read_text,
}

-- `io`: an interface that is connected, and the number of its socket.
pub record Io : Type 0 where
  pub name : Text
  pub socket : ℕ

-- `isInterfaceConnected`.
unfoldable pub is_interface_connected : List Io → Text → Option Io
unfolding find text_eq
is_interface_connected ios interface_name = find (λ (i : Io). text_eq i.name interface_name) ios

-- The messages to an interface.
pub data IoMessage : Type 0 where
  gen_sleep : IoGenSleepParams → IoMessage
  stdin_read : IoStdinRead → IoMessage
  stdout_write : IoStdoutWrite → IoMessage
  fs_create : IoFsCreateParams → IoMessage
  fs_delete : IoFsDeleteParams → IoMessage
  fs_truncate : IoFsTruncateParams → IoMessage
  fs_write : IoFsWriteParams → IoMessage
  fs_read : IoFsReadParams → IoMessage

-- How the thread ends: with a message to a socket, or with the process removed from the blocked ones;
-- an instruction that is none of the interfaces' does nothing.
pub data IoOutcome : Type 0 where
  sends : ℕ → IoMessage → IoOutcome
  removes : Kernel → IoOutcome
  nothing waits_to_plan crashes_io : IoOutcome

-- The next word, and the next number.
unfoldable pub next_number : Text → ℕ → Option (ℕ × ℕ)
unfolding get_next_word get_value
next_number operation offset =
    get_next_word operation offset >>= λ (word, next). some (get_value word, next)

-- What is read of an instruction behind its name: the interface and the message.
unfoldable pub read_address : (ℕ → ℕ → IoMessage) → Text → ℕ → Option (Text × IoMessage)
unfolding get_next_word next_number
read_address make operation offset = get_next_word operation offset >>= λ (interface, n1).
    next_number operation n1 >>= λ (physical_address, n2).
    next_number operation n2 >>= λ (length, n3). some (interface, make physical_address length)

unfoldable pub read_file : (Text → IoMessage) → Text → ℕ → Option (Text × IoMessage)
unfolding get_next_word
read_file make operation offset = get_next_word operation offset >>= λ (interface, n1).
    get_next_word operation n1 >>= λ (file_name, n2). some (interface, make file_name)

unfoldable pub read_time : (ℕ → IoMessage) → Text → ℕ → Option (Text × IoMessage)
unfolding get_next_word next_number
read_time make operation offset = get_next_word operation offset >>= λ (interface, n1).
    next_number operation n1 >>= λ (value, n2). some (interface, make value)

unfoldable pub read_truncate : (Text → ℕ → IoMessage) → Text → ℕ → Option (Text × IoMessage)
unfolding get_next_word next_number
read_truncate make operation offset = get_next_word operation offset >>= λ (interface, n1).
    get_next_word operation n1 >>= λ (file_name, n2).
    next_number operation n2 >>= λ (new_length, n3). some (interface, make file_name new_length)

unfoldable pub read_transfer : (Text → ℕ → ℕ → ℕ → IoMessage) → Text → ℕ → Option (Text × IoMessage)
unfolding get_next_word next_number
read_transfer make operation offset = get_next_word operation offset >>= λ (interface, n1).
    get_next_word operation n1 >>= λ (file_name, n2).
    next_number operation n2 >>= λ (physical_address, n3).
    next_number operation n3 >>= λ (length, n4). next_number operation n4 >>= λ (file_pointer, n5).
    some (interface, make file_name physical_address length file_pointer)

-- The branch of an instruction: `some none` is a name that no branch has.
unfoldable pub read_io : ℕ → Text → ℕ → Text → Option (Option (Text × IoMessage))
unfolding text_eq read_address read_file read_time read_truncate read_transfer
read_io pid name offset operation =
    let found = λ (r : Option (Text × IoMessage)). r >>= λ m. some (some m) in
    if text_eq name io_gen_sleep_text
    then found
        (read_time (λ t. gen_sleep (record { pid = pid; time_to_sleep = t })) operation offset)
    else if text_eq name io_stdin_read_text
    then found (
        read_address
          (λ a l.
            stdin_read (record { pid = pid; physical_adress = a; length_to_read_or_write = l }))
          operation offset)
    else if text_eq name io_stdout_write_text
    then found (
        read_address
          (λ a l.
            stdout_write (record { pid = pid; physical_adress = a; length_to_read_or_write = l }))
          operation offset)
    else if text_eq name io_fs_create_text
    then found (read_file (λ f. fs_create (record { pid = pid; file_name = f })) operation offset)
    else if text_eq name io_fs_delete_text
    then found (read_file (λ f. fs_delete (record { pid = pid; file_name = f })) operation offset)
    else if text_eq name io_fs_truncate_text
    then found (
        read_truncate (λ f n. fs_truncate (record { pid = pid; new_length = n; file_name = f }))
          operation offset)
    else if text_eq name io_fs_write_text
    then found (
        read_transfer
          (λ f a l p. fs_write (record {
            pid = pid;
            file_name = f;
            physical_adress = a;
            length_to_write = l;
            file_pointer = p;
          }))
          operation offset)
    else if text_eq name io_fs_read_text
    then found (
        read_transfer
          (λ f a l p. fs_read (record {
            pid = pid;
            file_name = f;
            physical_adress = a;
            length_to_read = l;
            file_pointer = p;
          }))
          operation offset)
    else some none

-- The process is taken from the blocked ones and deleted; its resources are not released.
unfoldable pub remove_blocked : ℕ → Kernel → IoOutcome
unfolding find remove_first find_pcb_by_pid delete_pcb
remove_blocked pid k = elim (find (find_pcb_by_pid pid) k.list_blockeds) [
  | none ↦ crashes_io
  | some pcb ↦ removes (
      delete_pcb pcb
        (record k { list_blockeds = remove_first (find_pcb_by_pid pid) k.list_blockeds }))
]

-- The message goes to its interface, or the process is removed.
unfoldable pub send_or_remove : List Io → ℕ → Text × IoMessage → Kernel → IoOutcome
unfolding is_interface_connected remove_blocked
send_or_remove ios pid (interface, message) k = elim (is_interface_connected ios interface) [
  | some interface_and_socket ↦ sends interface_and_socket.socket message
  | none ↦ remove_blocked pid k
]

-- `ioFunction`.
unfoldable pub io_function : List Io → ℕ → Text → Kernel → IoOutcome
unfolding get_next_word read_io send_or_remove
io_function ios pid operation k = elim (get_next_word operation 0) [
  | none ↦ crashes_io
  | some (name, offset) ↦
      if k.can_plan == 0 then waits_to_plan else elim (read_io pid name offset operation) [
        | none ↦ crashes_io
        | some none ↦ nothing
        | some (some read) ↦ send_or_remove ios pid read k
      ]
]
