-- ===== src/Cpu/Names.antt =====
-- The texts that cpu/src/operations.c compares and writes: the names of the instructions and of the
-- registers, and the reasons and errors of a context.
use ronaldinh_os_sistemas_op.Common.{[], ◌∷◌, Option, none, some, if◌then◌else◌}
use ronaldinh_os_sistemas_op.Kernel.State.{Text, text_eq}
use ronaldinh_os_sistemas_op.Cpu.Registers.{
  Register, ax, bx, cx, dx, eax, ebx, ecx, edx, si, di, pc,
}

abbrev pub set_text : Text
set_text = 83 ∷ 69 ∷ 84 ∷ []

abbrev pub mov_in_text : Text
mov_in_text = 77 ∷ 79 ∷ 86 ∷ 95 ∷ 73 ∷ 78 ∷ []

abbrev pub mov_out_text : Text
mov_out_text = 77 ∷ 79 ∷ 86 ∷ 95 ∷ 79 ∷ 85 ∷ 84 ∷ []

abbrev pub sum_text : Text
sum_text = 83 ∷ 85 ∷ 77 ∷ []

abbrev pub sub_text : Text
sub_text = 83 ∷ 85 ∷ 66 ∷ []

abbrev pub jnz_text : Text
jnz_text = 74 ∷ 78 ∷ 90 ∷ []

abbrev pub resize_text : Text
resize_text = 82 ∷ 69 ∷ 83 ∷ 73 ∷ 90 ∷ 69 ∷ []

abbrev pub copy_string_text : Text
copy_string_text = 67 ∷ 79 ∷ 80 ∷ 89 ∷ 95 ∷ 83 ∷ 84 ∷ 82 ∷ 73 ∷ 78 ∷ 71 ∷ []

abbrev pub wait_text : Text
wait_text = 87 ∷ 65 ∷ 73 ∷ 84 ∷ []

abbrev pub signal_text : Text
signal_text = 83 ∷ 73 ∷ 71 ∷ 78 ∷ 65 ∷ 76 ∷ []

abbrev pub io_gen_sleep_text : Text
io_gen_sleep_text = 73 ∷ 79 ∷ 95 ∷ 71 ∷ 69 ∷ 78 ∷ 95 ∷ 83 ∷ 76 ∷ 69 ∷ 69 ∷ 80 ∷ []

abbrev pub io_stdin_read_text : Text
io_stdin_read_text = 73 ∷ 79 ∷ 95 ∷ 83 ∷ 84 ∷ 68 ∷ 73 ∷ 78 ∷ 95 ∷ 82 ∷ 69 ∷ 65 ∷ 68 ∷ []

abbrev pub io_stdout_write_text : Text
io_stdout_write_text = 73 ∷ 79 ∷ 95 ∷ 83 ∷ 84 ∷ 68 ∷ 79 ∷ 85 ∷ 84 ∷ 95 ∷ 87 ∷ 82 ∷ 73 ∷ 84 ∷ 69 ∷ []

abbrev pub io_fs_create_text : Text
io_fs_create_text = 73 ∷ 79 ∷ 95 ∷ 70 ∷ 83 ∷ 95 ∷ 67 ∷ 82 ∷ 69 ∷ 65 ∷ 84 ∷ 69 ∷ []

abbrev pub io_fs_delete_text : Text
io_fs_delete_text = 73 ∷ 79 ∷ 95 ∷ 70 ∷ 83 ∷ 95 ∷ 68 ∷ 69 ∷ 76 ∷ 69 ∷ 84 ∷ 69 ∷ []

abbrev pub io_fs_truncate_text : Text
io_fs_truncate_text = 73 ∷ 79 ∷ 95 ∷ 70 ∷ 83 ∷ 95 ∷ 84 ∷ 82 ∷ 85 ∷ 78 ∷ 67 ∷ 65 ∷ 84 ∷ 69 ∷ []

abbrev pub io_fs_write_text : Text
io_fs_write_text = 73 ∷ 79 ∷ 95 ∷ 70 ∷ 83 ∷ 95 ∷ 87 ∷ 82 ∷ 73 ∷ 84 ∷ 69 ∷ []

abbrev pub io_fs_read_text : Text
io_fs_read_text = 73 ∷ 79 ∷ 95 ∷ 70 ∷ 83 ∷ 95 ∷ 82 ∷ 69 ∷ 65 ∷ 68 ∷ []

abbrev pub exit_text : Text
exit_text = 69 ∷ 88 ∷ 73 ∷ 84 ∷ []

abbrev pub error_text : Text
error_text = 69 ∷ 82 ∷ 82 ∷ 79 ∷ 82 ∷ []

abbrev pub io_text : Text
io_text = 73 ∷ 79 ∷ []

abbrev pub quantum_text : Text
quantum_text = 81 ∷ 85 ∷ 65 ∷ 78 ∷ 84 ∷ 85 ∷ 77 ∷ []

abbrev pub console_text : Text
console_text = 67 ∷ 79 ∷ 78 ∷ 83 ∷ 79 ∷ 76 ∷ 69 ∷ []

-- ERROR RESIZE: Out Of Memory.
abbrev pub out_of_memory_text : Text
out_of_memory_text =
    69 ∷ 82 ∷ 82 ∷ 79 ∷ 82 ∷ 32 ∷ 82 ∷ 69 ∷ 83 ∷ 73 ∷ 90 ∷ 69 ∷ 58 ∷ 32 ∷ 79 ∷ 117 ∷ 116 ∷ 32 ∷ 79
    ∷ 102 ∷ 32 ∷ 77 ∷ 101 ∷ 109 ∷ 111 ∷ 114 ∷ 121 ∷ []

-- The name of a register, as `getRegister` compares it. Another name has no register: the pointer that is
-- returned is any.
unfoldable pub register_named : Text → Option Register
unfolding text_eq
register_named name =
    if text_eq name (65 ∷ 88 ∷ [])
    then some ax
    else if text_eq name (66 ∷ 88 ∷ [])
    then some bx
    else if text_eq name (67 ∷ 88 ∷ [])
    then some cx
    else if text_eq name (68 ∷ 88 ∷ [])
    then some dx
    else if text_eq name (69 ∷ 65 ∷ 88 ∷ [])
    then some eax
    else if text_eq name (69 ∷ 66 ∷ 88 ∷ [])
    then some ebx
    else if text_eq name (69 ∷ 67 ∷ 88 ∷ [])
    then some ecx
    else if text_eq name (69 ∷ 68 ∷ 88 ∷ [])
    then some edx
    else if text_eq name (83 ∷ 73 ∷ [])
    then some si
    else if text_eq name (68 ∷ 73 ∷ [])
    then some di
    else if text_eq name (80 ∷ 67 ∷ [])
    then some pc
    else none
