-- ===== src/Wire/OpCodes.antt =====
-- `op_code` of utils/src/serialization.h.
use Prim.Native.Nat.{ℕ}

abbrev pub message : ℕ
message = 0

abbrev pub package_op : ℕ
package_op = 1

abbrev pub pcb_op : ℕ
pcb_op = 2

abbrev pub process_to_memory_op : ℕ
process_to_memory_op = 3

abbrev pub request_instructions : ℕ
request_instructions = 4

abbrev pub interrupt_by_quantum : ℕ
interrupt_by_quantum = 5

abbrev pub io_function : ℕ
io_function = 6

abbrev pub resize_op : ℕ
resize_op = 7

abbrev pub sleep : ℕ
sleep = 8

abbrev pub read_op : ℕ
read_op = 9

abbrev pub io_stdin_read_op : ℕ
io_stdin_read_op = 10

abbrev pub write_op : ℕ
write_op = 11

abbrev pub fs_create_op : ℕ
fs_create_op = 12

abbrev pub fs_delete_op : ℕ
fs_delete_op = 13

abbrev pub fs_truncate_op : ℕ
fs_truncate_op = 14

abbrev pub fs_write_op : ℕ
fs_write_op = 15

abbrev pub fs_read_op : ℕ
fs_read_op = 16

abbrev pub tamanio_pagina : ℕ
tamanio_pagina = 17

abbrev pub solicitud_frame : ℕ
solicitud_frame = 18

abbrev pub resource : ℕ
resource = 19

abbrev pub wait_op : ℕ
wait_op = 20

abbrev pub signal_op : ℕ
signal_op = 21

abbrev pub block : ℕ
block = 22

abbrev pub empty_instance : ℕ
empty_instance = 23

abbrev pub continue_op : ℕ
continue_op = 24

abbrev pub move_in_op : ℕ
move_in_op = 25

abbrev pub move_out_op : ℕ
move_out_op = 26

abbrev pub copy_string_op : ℕ
copy_string_op = 27

abbrev pub finished_io_op : ℕ
finished_io_op = 28

abbrev pub finished_io_error_op : ℕ
finished_io_error_op = 29
