-- ===== src/Wire/Messages.antt =====
-- All messages with fields of the four processes, and what becomes of one on its way.
use ronaldinh_os_sistemas_op.Common.{
  ℕ, ◌-◌, ◌^◌, ◌<◌, ◌≡◌, refl, ◌++◌, List, Option, some, ◌>>=◌, >>=-split, All, Ram,
}
use ronaldinh_os_sistemas_op.Wire.OpCodes.{
  copy_string_op, fs_create_op, fs_delete_op, fs_read_op, fs_truncate_op, fs_write_op,
  io_stdin_read_op, move_in_op, move_out_op, pcb_op, process_to_memory_op, read_op,
  request_instructions, resize_op, sleep, solicitud_frame, write_op,
}
use ronaldinh_os_sistemas_op.Wire.Buffer.{recv_operation, recv_with}
use ronaldinh_os_sistemas_op.Wire.Fields.{Field, IsField}
use ronaldinh_os_sistemas_op.Wire.Format.{Format, sent, receive, receive-sent}
use ronaldinh_os_sistemas_op.Wire.Requests.{
  InstReqToMemory, NewProcess, SolicitudFrameMemoria, ResizeParams, MoveInParams, MoveOutParams,
  CopyStringParams, send_inst_req_to_memory, send_process_to_memory, send_solicitud_frame_memoria,
  send_resize_params, send_move_in, send_move_out, send_copy_string, recv_inst_req_to_memory,
  recv_process_to_memory, recv_solicitud_frame_memoria, recv_resize_params, recv_move_in,
  recv_move_out, recv_copy_string, inst_req_to_memory_stream_size, process_to_memory_stream_size,
  solicitud_frame_memoria_stream_size, resize_params_stream_size, move_in_stream_size,
  move_out_stream_size, copy_string_stream_size,
}
use ronaldinh_os_sistemas_op.Wire.RequestsFormats.{
  inst_req_to_memory_fields, process_to_memory_fields, solicitud_frame_memoria_fields,
  resize_params_fields,
}
use ronaldinh_os_sistemas_op.Wire.MovesFormats.{move_in_fields, move_out_fields, copy_string_fields}
use ronaldinh_os_sistemas_op.Wire.Interfaces.{
  IoGenSleepParams, IoStdinRead, IoStdinReadWriteMemory, IoStdoutWrite, send_io_gen_sleep,
  send_io_stdin_read, send_io_stdin_read_write_memory, send_io_stdout_write, recv_io_gen_sleep,
  recv_io_stdin_read, recv_io_stdin_read_write_memory, recv_io_stdout_write,
  io_gen_sleep_stream_size, io_stdin_read_stream_size, io_stdin_read_write_memory_stream_size,
  io_stdout_write_stream_size,
}
use ronaldinh_os_sistemas_op.Wire.InterfacesFormats.{
  io_gen_sleep_fields, io_stdin_read_fields, io_stdin_read_write_memory_fields,
  io_stdout_write_fields,
}
use ronaldinh_os_sistemas_op.Wire.FsMessages.{
  IoFsCreateParams, IoFsDeleteParams, IoFsTruncateParams, IoFsWriteParams, IoFsReadParams,
  IoFsReadToMemoryParams, send_io_fs_create, send_io_fs_delete, send_io_fs_truncate,
  send_io_fs_write, send_io_fs_read, send_io_fs_read_to_memory, recv_io_fs_create,
  recv_io_fs_delete, recv_io_fs_truncate, recv_io_fs_write, recv_io_fs_read,
  recv_io_fs_read_to_memory, io_fs_create_stream_size, io_fs_delete_stream_size,
  io_fs_truncate_stream_size, io_fs_write_stream_size, io_fs_read_stream_size,
  io_fs_read_to_memory_stream_size,
}
use ronaldinh_os_sistemas_op.Wire.FsMessagesFormats.{
  io_fs_create_fields, io_fs_delete_fields, io_fs_truncate_fields,
}
use ronaldinh_os_sistemas_op.Wire.FsTransfersFormats.{
  io_fs_write_fields, io_fs_read_fields, io_fs_read_to_memory_fields,
}
use ronaldinh_os_sistemas_op.Wire.ControlBlock.{ControlBlock, send_pcb, recv_pcb, pcb_stream_size}
use ronaldinh_os_sistemas_op.Wire.ControlBlockFormat.{pcb_fields}

pub data Message : Type 0 where
  inst_req_to_memory : InstReqToMemory → Message
  process_to_memory : NewProcess → Message
  solicitud_frame_memoria : SolicitudFrameMemoria → Message
  resize_params : ResizeParams → Message
  move_in : MoveInParams → Message
  move_out : MoveOutParams → Message
  copy_string : CopyStringParams → Message
  io_gen_sleep : IoGenSleepParams → Message
  io_stdin_read : IoStdinRead → Message
  io_stdin_read_write_memory : IoStdinReadWriteMemory → Message
  io_stdout_write : IoStdoutWrite → Message
  io_fs_create : IoFsCreateParams → Message
  io_fs_delete : IoFsDeleteParams → Message
  io_fs_truncate : IoFsTruncateParams → Message
  io_fs_write : IoFsWriteParams → Message
  io_fs_read : IoFsReadParams → Message
  io_fs_read_to_memory : IoFsReadToMemoryParams → Message
  pcb : ControlBlock → Message

unfoldable pub operation_of : Message → ℕ
operation_of (inst_req_to_memory m) = request_instructions
operation_of (process_to_memory m) = process_to_memory_op
operation_of (solicitud_frame_memoria m) = solicitud_frame
operation_of (resize_params m) = resize_op
operation_of (move_in m) = move_in_op
operation_of (move_out m) = move_out_op
operation_of (copy_string m) = copy_string_op
operation_of (io_gen_sleep m) = sleep
operation_of (io_stdin_read m) = read_op
operation_of (io_stdin_read_write_memory m) = io_stdin_read_op
operation_of (io_stdout_write m) = write_op
operation_of (io_fs_create m) = fs_create_op
operation_of (io_fs_delete m) = fs_delete_op
operation_of (io_fs_truncate m) = fs_truncate_op
operation_of (io_fs_write m) = fs_write_op
operation_of (io_fs_read m) = fs_read_op
operation_of (io_fs_read_to_memory m) = fs_read_op
operation_of (pcb m) = pcb_op

unfoldable pub fields_of : Message → List Field
unfolding inst_req_to_memory_fields process_to_memory_fields solicitud_frame_memoria_fields
    resize_params_fields move_in_fields move_out_fields copy_string_fields io_gen_sleep_fields
    io_stdin_read_fields io_stdin_read_write_memory_fields io_stdout_write_fields
    io_fs_create_fields io_fs_delete_fields io_fs_truncate_fields io_fs_write_fields
    io_fs_read_fields io_fs_read_to_memory_fields pcb_fields
fields_of (inst_req_to_memory m) = inst_req_to_memory_fields m
fields_of (process_to_memory m) = process_to_memory_fields m
fields_of (solicitud_frame_memoria m) = solicitud_frame_memoria_fields m
fields_of (resize_params m) = resize_params_fields m
fields_of (move_in m) = move_in_fields m
fields_of (move_out m) = move_out_fields m
fields_of (copy_string m) = copy_string_fields m
fields_of (io_gen_sleep m) = io_gen_sleep_fields m
fields_of (io_stdin_read m) = io_stdin_read_fields m
fields_of (io_stdin_read_write_memory m) = io_stdin_read_write_memory_fields m
fields_of (io_stdout_write m) = io_stdout_write_fields m
fields_of (io_fs_create m) = io_fs_create_fields m
fields_of (io_fs_delete m) = io_fs_delete_fields m
fields_of (io_fs_truncate m) = io_fs_truncate_fields m
fields_of (io_fs_write m) = io_fs_write_fields m
fields_of (io_fs_read m) = io_fs_read_fields m
fields_of (io_fs_read_to_memory m) = io_fs_read_to_memory_fields m
fields_of (pcb m) = pcb_fields m

unfoldable pub size_of : Message → ℕ
unfolding inst_req_to_memory_stream_size process_to_memory_stream_size
    solicitud_frame_memoria_stream_size resize_params_stream_size move_in_stream_size
    move_out_stream_size copy_string_stream_size io_gen_sleep_stream_size io_stdin_read_stream_size
    io_stdin_read_write_memory_stream_size io_stdout_write_stream_size io_fs_create_stream_size
    io_fs_delete_stream_size io_fs_truncate_stream_size io_fs_write_stream_size
    io_fs_read_stream_size io_fs_read_to_memory_stream_size pcb_stream_size
size_of (inst_req_to_memory m) = inst_req_to_memory_stream_size m
size_of (process_to_memory m) = process_to_memory_stream_size m
size_of (solicitud_frame_memoria m) = solicitud_frame_memoria_stream_size m
size_of (resize_params m) = resize_params_stream_size m
size_of (move_in m) = move_in_stream_size m
size_of (move_out m) = move_out_stream_size m
size_of (copy_string m) = copy_string_stream_size m
size_of (io_gen_sleep m) = io_gen_sleep_stream_size m
size_of (io_stdin_read m) = io_stdin_read_stream_size m
size_of (io_stdin_read_write_memory m) = io_stdin_read_write_memory_stream_size m
size_of (io_stdout_write m) = io_stdout_write_stream_size m
size_of (io_fs_create m) = io_fs_create_stream_size m
size_of (io_fs_delete m) = io_fs_delete_stream_size m
size_of (io_fs_truncate m) = io_fs_truncate_stream_size m
size_of (io_fs_write m) = io_fs_write_stream_size m
size_of (io_fs_read m) = io_fs_read_stream_size m
size_of (io_fs_read_to_memory m) = io_fs_read_to_memory_stream_size m
size_of (pcb m) = pcb_stream_size m

-- A message goes out by its `send_…` function.
unfoldable pub send_message : Message → Ram → Option (List ℕ)
unfolding send_inst_req_to_memory send_process_to_memory send_solicitud_frame_memoria
    send_resize_params send_move_in send_move_out send_copy_string send_io_gen_sleep
    send_io_stdin_read send_io_stdin_read_write_memory send_io_stdout_write send_io_fs_create
    send_io_fs_delete send_io_fs_truncate send_io_fs_write send_io_fs_read send_io_fs_read_to_memory
    send_pcb
send_message (inst_req_to_memory m) garbage = send_inst_req_to_memory m garbage
send_message (process_to_memory m) garbage = send_process_to_memory m garbage
send_message (solicitud_frame_memoria m) garbage = send_solicitud_frame_memoria m garbage
send_message (resize_params m) garbage = send_resize_params m garbage
send_message (move_in m) garbage = send_move_in m garbage
send_message (move_out m) garbage = send_move_out m garbage
send_message (copy_string m) garbage = send_copy_string m garbage
send_message (io_gen_sleep m) garbage = send_io_gen_sleep m garbage
send_message (io_stdin_read m) garbage = send_io_stdin_read m garbage
send_message (io_stdin_read_write_memory m) garbage = send_io_stdin_read_write_memory m garbage
send_message (io_stdout_write m) garbage = send_io_stdout_write m garbage
send_message (io_fs_create m) garbage = send_io_fs_create m garbage
send_message (io_fs_delete m) garbage = send_io_fs_delete m garbage
send_message (io_fs_truncate m) garbage = send_io_fs_truncate m garbage
send_message (io_fs_write m) garbage = send_io_fs_write m garbage
send_message (io_fs_read m) garbage = send_io_fs_read m garbage
send_message (io_fs_read_to_memory m) garbage = send_io_fs_read_to_memory m garbage
send_message (pcb m) garbage = send_pcb m garbage

-- A round of a receiver: the operation code, and the message that a `recv_…` function returns.
unfoldable pub receive_as :
    {A : Type 0}
    → (A → Message)
    → (List ℕ → Option (A × List ℕ))
    → List ℕ
    → Option (ℕ × Message × List ℕ)
unfolding recv_operation
receive_as tag recv socket =
    recv_operation socket >>= λ (op, s). recv s >>= λ (m, s'). some (op, tag m, s')

-- A receiver that knows which message comes.
unfoldable pub receive_like : Message → List ℕ → Option (ℕ × Message × List ℕ)
unfolding receive_as recv_inst_req_to_memory recv_process_to_memory recv_solicitud_frame_memoria
    recv_resize_params recv_move_in recv_move_out recv_copy_string recv_io_gen_sleep
    recv_io_stdin_read recv_io_stdin_read_write_memory recv_io_stdout_write recv_io_fs_create
    recv_io_fs_delete recv_io_fs_truncate recv_io_fs_write recv_io_fs_read recv_io_fs_read_to_memory
    recv_pcb
receive_like (inst_req_to_memory m) socket =
    receive_as inst_req_to_memory recv_inst_req_to_memory socket
receive_like (process_to_memory m) socket =
    receive_as process_to_memory recv_process_to_memory socket
receive_like (solicitud_frame_memoria m) socket =
    receive_as solicitud_frame_memoria recv_solicitud_frame_memoria socket
receive_like (resize_params m) socket = receive_as resize_params recv_resize_params socket
receive_like (move_in m) socket = receive_as move_in recv_move_in socket
receive_like (move_out m) socket = receive_as move_out recv_move_out socket
receive_like (copy_string m) socket = receive_as copy_string recv_copy_string socket
receive_like (io_gen_sleep m) socket = receive_as io_gen_sleep recv_io_gen_sleep socket
receive_like (io_stdin_read m) socket = receive_as io_stdin_read recv_io_stdin_read socket
receive_like (io_stdin_read_write_memory m) socket =
    receive_as io_stdin_read_write_memory recv_io_stdin_read_write_memory socket
receive_like (io_stdout_write m) socket = receive_as io_stdout_write recv_io_stdout_write socket
receive_like (io_fs_create m) socket = receive_as io_fs_create recv_io_fs_create socket
receive_like (io_fs_delete m) socket = receive_as io_fs_delete recv_io_fs_delete socket
receive_like (io_fs_truncate m) socket = receive_as io_fs_truncate recv_io_fs_truncate socket
receive_like (io_fs_write m) socket = receive_as io_fs_write recv_io_fs_write socket
receive_like (io_fs_read m) socket = receive_as io_fs_read recv_io_fs_read socket
receive_like (io_fs_read_to_memory m) socket =
    receive_as io_fs_read_to_memory recv_io_fs_read_to_memory socket
receive_like (pcb m) socket = receive_as pcb recv_pcb socket

receive_as-receive :
    {A : Type 0} (f : Format A) (tag : A → Message) (socket : List ℕ)
    → receive_as tag (recv_with f.deserialize) socket
      ≡ (receive f socket >>= λ (op, m, s). some (op, tag m, s))
unfolding receive_as receive
receive_as-receive f tag socket =
    >>=-split (recv_operation socket) _ _ _
      (λ p. >>=-split (recv_with f.deserialize p.1) _ _ _ (λ q. refl))

pub arrives :
    {A : Type 0} (f : Format A) (tag : A → Message) (m : A) (garbage : Ram) (rest : List ℕ)
    → f.operation < 2 ^ 32
    → f.stream_size m < 2 ^ 31 - 8
    → All IsField (f.fields m)
    → receive_as tag (recv_with f.deserialize) (sent f m garbage ++ rest)
      ≡ some (f.operation, tag m, rest)
arrives f tag m garbage rest op fits valid =
    rw
      (
        receive_as-receive f tag (sent f m garbage ++ rest),
        receive-sent f m garbage rest op fits valid,
      )
      refl
