-- ===== src/Wire/RoundTrip.antt =====
-- What is sent is what is received.
use ronaldinh_os_sistemas_op.Common.{ℕ, ◌-◌, ◌^◌, ◌<◌, ◌≡◌, ◌++◌, List, some, arith, All, Ram}
use ronaldinh_os_sistemas_op.Wire.Fields.{IsField}
use ronaldinh_os_sistemas_op.Wire.Format.{sent, send_package-sent}
use ronaldinh_os_sistemas_op.Wire.Messages.{
  Message, inst_req_to_memory, process_to_memory, solicitud_frame_memoria, resize_params, move_in,
  move_out, copy_string, io_gen_sleep, io_stdin_read, io_stdin_read_write_memory, io_stdout_write,
  io_fs_create, io_fs_delete, io_fs_truncate, io_fs_write, io_fs_read, io_fs_read_to_memory, pcb,
  operation_of, fields_of, size_of, send_message, receive_like, arrives,
}
use ronaldinh_os_sistemas_op.Wire.RequestsFormats.{
  inst_req_to_memory_format, process_to_memory_format, solicitud_frame_memoria_format,
  resize_params_format,
}
use ronaldinh_os_sistemas_op.Wire.MovesFormats.{move_in_format, move_out_format, copy_string_format}
use ronaldinh_os_sistemas_op.Wire.InterfacesFormats.{
  io_gen_sleep_format, io_stdin_read_format, io_stdin_read_write_memory_format,
  io_stdout_write_format,
}
use ronaldinh_os_sistemas_op.Wire.FsMessagesFormats.{
  io_fs_create_format, io_fs_delete_format, io_fs_truncate_format,
}
use ronaldinh_os_sistemas_op.Wire.FsTransfersFormats.{
  io_fs_write_format, io_fs_read_format, io_fs_read_to_memory_format,
}
use ronaldinh_os_sistemas_op.Wire.ControlBlockFormat.{pcb_format}

-- Every message with fields can be sent, without a write past its stream, and its bytes, before
-- whatever else waits at the socket, are received as its operation code and the same message, with
-- the rest left; where its numbers fit their fields, its texts have no zero byte and its stream is
-- shorter than 2^31 - 8 bytes.
pub receive_like-send_message :
    (m : Message) (garbage : Ram) (rest : List ℕ)
    → size_of m < 2 ^ 31 - 8
    → All IsField (fields_of m)
    → (bytes : List ℕ) × (send_message m garbage ≡ some bytes)
      × (receive_like m (bytes ++ rest) ≡ some (operation_of m, m, rest))
unfolding size_of fields_of send_message receive_like operation_of
receive_like-send_message (inst_req_to_memory m) garbage rest fits valid =
    let f = inst_req_to_memory_format in
    (
      sent f m garbage,
      send_package-sent f m garbage,
      arrives f inst_req_to_memory m garbage rest (omega arith) fits valid,
    )
receive_like-send_message (process_to_memory m) garbage rest fits valid =
    let f = process_to_memory_format in
    (
      sent f m garbage,
      send_package-sent f m garbage,
      arrives f process_to_memory m garbage rest (omega arith) fits valid,
    )
receive_like-send_message (solicitud_frame_memoria m) garbage rest fits valid =
    let f = solicitud_frame_memoria_format in
    (
      sent f m garbage,
      send_package-sent f m garbage,
      arrives f solicitud_frame_memoria m garbage rest (omega arith) fits valid,
    )
receive_like-send_message (resize_params m) garbage rest fits valid =
    let f = resize_params_format in
    (
      sent f m garbage,
      send_package-sent f m garbage,
      arrives f resize_params m garbage rest (omega arith) fits valid,
    )
receive_like-send_message (move_in m) garbage rest fits valid =
    let f = move_in_format in
    (
      sent f m garbage,
      send_package-sent f m garbage,
      arrives f move_in m garbage rest (omega arith) fits valid,
    )
receive_like-send_message (move_out m) garbage rest fits valid =
    let f = move_out_format in
    (
      sent f m garbage,
      send_package-sent f m garbage,
      arrives f move_out m garbage rest (omega arith) fits valid,
    )
receive_like-send_message (copy_string m) garbage rest fits valid =
    let f = copy_string_format in
    (
      sent f m garbage,
      send_package-sent f m garbage,
      arrives f copy_string m garbage rest (omega arith) fits valid,
    )
receive_like-send_message (io_gen_sleep m) garbage rest fits valid =
    let f = io_gen_sleep_format in
    (
      sent f m garbage,
      send_package-sent f m garbage,
      arrives f io_gen_sleep m garbage rest (omega arith) fits valid,
    )
receive_like-send_message (io_stdin_read m) garbage rest fits valid =
    let f = io_stdin_read_format in
    (
      sent f m garbage,
      send_package-sent f m garbage,
      arrives f io_stdin_read m garbage rest (omega arith) fits valid,
    )
receive_like-send_message (io_stdin_read_write_memory m) garbage rest fits valid =
    let f = io_stdin_read_write_memory_format in
    (
      sent f m garbage,
      send_package-sent f m garbage,
      arrives f io_stdin_read_write_memory m garbage rest (omega arith) fits valid,
    )
receive_like-send_message (io_stdout_write m) garbage rest fits valid =
    let f = io_stdout_write_format in
    (
      sent f m garbage,
      send_package-sent f m garbage,
      arrives f io_stdout_write m garbage rest (omega arith) fits valid,
    )
receive_like-send_message (io_fs_create m) garbage rest fits valid =
    let f = io_fs_create_format in
    (
      sent f m garbage,
      send_package-sent f m garbage,
      arrives f io_fs_create m garbage rest (omega arith) fits valid,
    )
receive_like-send_message (io_fs_delete m) garbage rest fits valid =
    let f = io_fs_delete_format in
    (
      sent f m garbage,
      send_package-sent f m garbage,
      arrives f io_fs_delete m garbage rest (omega arith) fits valid,
    )
receive_like-send_message (io_fs_truncate m) garbage rest fits valid =
    let f = io_fs_truncate_format in
    (
      sent f m garbage,
      send_package-sent f m garbage,
      arrives f io_fs_truncate m garbage rest (omega arith) fits valid,
    )
receive_like-send_message (io_fs_write m) garbage rest fits valid =
    let f = io_fs_write_format in
    (
      sent f m garbage,
      send_package-sent f m garbage,
      arrives f io_fs_write m garbage rest (omega arith) fits valid,
    )
receive_like-send_message (io_fs_read m) garbage rest fits valid =
    let f = io_fs_read_format in
    (
      sent f m garbage,
      send_package-sent f m garbage,
      arrives f io_fs_read m garbage rest (omega arith) fits valid,
    )
receive_like-send_message (io_fs_read_to_memory m) garbage rest fits valid =
    let f = io_fs_read_to_memory_format in
    (
      sent f m garbage,
      send_package-sent f m garbage,
      arrives f io_fs_read_to_memory m garbage rest (omega arith) fits valid,
    )
receive_like-send_message (pcb m) garbage rest fits valid =
    let f = pcb_format in
    (
      sent f m garbage,
      send_package-sent f m garbage,
      arrives f pcb m garbage rest (omega arith) fits valid,
    )
