-- ===== src/Wire/Requests.antt =====
-- The requests to the memory and the processes sent to it, in utils/src/utils.c and
-- utils/src/processToMemory.c.
use ronaldinh_os_sistemas_op.Common.{ℕ, ◌+◌, List, Option, some, ◌>>=◌, length, Ram}
use ronaldinh_os_sistemas_op.Wire.OpCodes.{
  copy_string_op, move_in_op, move_out_op, process_to_memory_op, request_instructions, resize_op,
  solicitud_frame,
}
use ronaldinh_os_sistemas_op.Wire.Buffer.{
  Buffer, buffer_add_uint32, buffer_add_string, buffer_read_uint32, buffer_read_string,
  send_package, recv_with,
}

-- `instReqToMemory`.
pub record InstReqToMemory : Type 0 where
  pub pid : ℕ
  pub program_counter : ℕ

-- `instReqToMemorySize`.
unfoldable pub inst_req_to_memory_stream_size : InstReqToMemory → ℕ
inst_req_to_memory_stream_size m = 4 + 4

-- `instReqToMemorySerialize`.
unfoldable pub inst_req_to_memory_serialize : InstReqToMemory → Buffer → Option Buffer
inst_req_to_memory_serialize m b =
    buffer_add_uint32 m.pid b >>= λ b1. buffer_add_uint32 m.program_counter b1 >>= λ b2. some b2

-- `instReqToMemoryDeserialize`.
unfoldable pub inst_req_to_memory_deserialize : List ℕ → Option InstReqToMemory
inst_req_to_memory_deserialize stream = buffer_read_uint32 stream >>= λ (pid, s1).
    buffer_read_uint32 s1 >>= λ (program_counter, s2).
    some (record { pid = pid; program_counter = program_counter })

-- `askInstruction`.
unfoldable pub send_inst_req_to_memory : InstReqToMemory → Ram → Option (List ℕ)
unfolding send_package inst_req_to_memory_stream_size inst_req_to_memory_serialize
send_inst_req_to_memory m garbage =
    send_package request_instructions (inst_req_to_memory_stream_size m)
      (inst_req_to_memory_serialize m) garbage

-- `recvInstReqToMemory`.
unfoldable pub recv_inst_req_to_memory : List ℕ → Option (InstReqToMemory × List ℕ)
unfolding recv_with inst_req_to_memory_deserialize
recv_inst_req_to_memory socket = recv_with inst_req_to_memory_deserialize socket

-- `processToMemory`.
pub record NewProcess : Type 0 where
  pub pid : ℕ
  pub tamanio_proceso : ℕ
  pub path : List ℕ

-- `processToMemoryStreamSize`.
unfoldable pub process_to_memory_stream_size : NewProcess → ℕ
process_to_memory_stream_size m = 4 + 4 + 4 + (length m.path + 1)

-- `processToMemorySerialize`.
unfoldable pub process_to_memory_serialize : NewProcess → Buffer → Option Buffer
process_to_memory_serialize m b = buffer_add_uint32 m.pid b >>= λ b1.
    buffer_add_uint32 m.tamanio_proceso b1 >>= λ b2. buffer_add_string m.path b2 >>= λ b3. some b3

-- `memoryToProcessDeserialize`.
unfoldable pub process_to_memory_deserialize : List ℕ → Option NewProcess
process_to_memory_deserialize stream = buffer_read_uint32 stream >>= λ (pid, s1).
    buffer_read_uint32 s1 >>= λ (tamanio_proceso, s2). buffer_read_string s2 >>= λ (path, s3).
    some (record { pid = pid; tamanio_proceso = tamanio_proceso; path = path })

-- `sendProcessToMemory`.
unfoldable pub send_process_to_memory : NewProcess → Ram → Option (List ℕ)
unfolding send_package process_to_memory_stream_size process_to_memory_serialize
send_process_to_memory m garbage =
    send_package process_to_memory_op (process_to_memory_stream_size m)
      (process_to_memory_serialize m) garbage

-- `recvProcessToMemory`.
unfoldable pub recv_process_to_memory : List ℕ → Option (NewProcess × List ℕ)
unfolding recv_with process_to_memory_deserialize
recv_process_to_memory socket = recv_with process_to_memory_deserialize socket

-- `solicitudFrameMemoria`.
pub record SolicitudFrameMemoria : Type 0 where
  pub pid : ℕ
  pub paginas : ℕ

-- `SOLICITUD_FRAME_MEMORIA_StreamSize`.
unfoldable pub solicitud_frame_memoria_stream_size : SolicitudFrameMemoria → ℕ
solicitud_frame_memoria_stream_size m = 4 + 4

-- `SOLICITUD_FRAME_MEMORIA_Serialize`.
unfoldable pub solicitud_frame_memoria_serialize : SolicitudFrameMemoria → Buffer → Option Buffer
solicitud_frame_memoria_serialize m b =
    buffer_add_uint32 m.pid b >>= λ b1. buffer_add_uint32 m.paginas b1 >>= λ b2. some b2

-- `SOLICITUD_FRAME_MEMORIA_Deserialize`.
unfoldable pub solicitud_frame_memoria_deserialize : List ℕ → Option SolicitudFrameMemoria
solicitud_frame_memoria_deserialize stream = buffer_read_uint32 stream >>= λ (pid, s1).
    buffer_read_uint32 s1 >>= λ (paginas, s2). some (record { pid = pid; paginas = paginas })

-- `send_SOLICITUD_FRAME_MEMORIA`.
unfoldable pub send_solicitud_frame_memoria : SolicitudFrameMemoria → Ram → Option (List ℕ)
unfolding send_package solicitud_frame_memoria_stream_size solicitud_frame_memoria_serialize
send_solicitud_frame_memoria m garbage =
    send_package solicitud_frame (solicitud_frame_memoria_stream_size m)
      (solicitud_frame_memoria_serialize m) garbage

-- `recv_SOLICITUD_FRAME_MEMORIA`.
unfoldable pub recv_solicitud_frame_memoria : List ℕ → Option (SolicitudFrameMemoria × List ℕ)
unfolding recv_with solicitud_frame_memoria_deserialize
recv_solicitud_frame_memoria socket = recv_with solicitud_frame_memoria_deserialize socket

-- `RESIZE_params`.
pub record ResizeParams : Type 0 where
  pub pid : ℕ
  pub tamanio_proceso : ℕ

-- `RESIZE_StreamSize`.
unfoldable pub resize_params_stream_size : ResizeParams → ℕ
resize_params_stream_size m = 4 + 4

-- `RESIZE_Serialize`.
unfoldable pub resize_params_serialize : ResizeParams → Buffer → Option Buffer
resize_params_serialize m b =
    buffer_add_uint32 m.pid b >>= λ b1. buffer_add_uint32 m.tamanio_proceso b1 >>= λ b2. some b2

-- `RESIZE_Deserialize`.
unfoldable pub resize_params_deserialize : List ℕ → Option ResizeParams
resize_params_deserialize stream = buffer_read_uint32 stream >>= λ (pid, s1).
    buffer_read_uint32 s1 >>= λ (tamanio_proceso, s2).
    some (record { pid = pid; tamanio_proceso = tamanio_proceso })

-- `send_RESIZE`.
unfoldable pub send_resize_params : ResizeParams → Ram → Option (List ℕ)
unfolding send_package resize_params_stream_size resize_params_serialize
send_resize_params m garbage =
    send_package resize_op (resize_params_stream_size m) (resize_params_serialize m) garbage

-- `recv_RESIZE`.
unfoldable pub recv_resize_params : List ℕ → Option (ResizeParams × List ℕ)
unfolding recv_with resize_params_deserialize
recv_resize_params socket = recv_with resize_params_deserialize socket

-- `MOVE_IN_TO_MEMORY_params`.
pub record MoveInParams : Type 0 where
  pub pid : ℕ
  pub physical_adress : ℕ
  pub length_to_read : ℕ

-- `MOVE_IN_TO_MEMORY_StreamSize`.
unfoldable pub move_in_stream_size : MoveInParams → ℕ
move_in_stream_size m = 4 + 4 + 4

-- `MOVE_IN_TO_MEMORY_Serialize`.
unfoldable pub move_in_serialize : MoveInParams → Buffer → Option Buffer
move_in_serialize m b = buffer_add_uint32 m.pid b >>= λ b1.
    buffer_add_uint32 m.physical_adress b1 >>= λ b2.
    buffer_add_uint32 m.length_to_read b2 >>= λ b3. some b3

-- `MOVE_IN_TO_MEMORY_Deserialize`.
unfoldable pub move_in_deserialize : List ℕ → Option MoveInParams
move_in_deserialize stream = buffer_read_uint32 stream >>= λ (pid, s1).
    buffer_read_uint32 s1 >>= λ (physical_adress, s2).
    buffer_read_uint32 s2 >>= λ (length_to_read, s3).
    some (record { pid = pid; physical_adress = physical_adress; length_to_read = length_to_read })

-- `send_MOVE_IN_TO_MEMORY`.
unfoldable pub send_move_in : MoveInParams → Ram → Option (List ℕ)
unfolding send_package move_in_stream_size move_in_serialize
send_move_in m garbage =
    send_package move_in_op (move_in_stream_size m) (move_in_serialize m) garbage

-- `recv_MOVE_IN_TO_MEMORY`.
unfoldable pub recv_move_in : List ℕ → Option (MoveInParams × List ℕ)
unfolding recv_with move_in_deserialize
recv_move_in socket = recv_with move_in_deserialize socket

-- `MOVE_OUT_TO_MEMORY_params`.
pub record MoveOutParams : Type 0 where
  pub pid : ℕ
  pub length_to_write : ℕ
  pub physical_adress : ℕ
  pub data_registro : ℕ

-- `MOVE_OUT_TO_MEMORY_StreamSize`.
unfoldable pub move_out_stream_size : MoveOutParams → ℕ
move_out_stream_size m = 4 + 4 + 4 + 4

-- `MOVE_OUT_TO_MEMORY_Serialize`.
unfoldable pub move_out_serialize : MoveOutParams → Buffer → Option Buffer
move_out_serialize m b = buffer_add_uint32 m.pid b >>= λ b1.
    buffer_add_uint32 m.length_to_write b1 >>= λ b2.
    buffer_add_uint32 m.physical_adress b2 >>= λ b3.
    buffer_add_uint32 m.data_registro b3 >>= λ b4. some b4

-- `MOVE_OUT_TO_MEMORY_Deserialize`.
unfoldable pub move_out_deserialize : List ℕ → Option MoveOutParams
move_out_deserialize stream = buffer_read_uint32 stream >>= λ (pid, s1).
    buffer_read_uint32 s1 >>= λ (length_to_write, s2).
    buffer_read_uint32 s2 >>= λ (physical_adress, s3).
    buffer_read_uint32 s3 >>= λ (data_registro, s4). some (record {
      pid = pid;
      length_to_write = length_to_write;
      physical_adress = physical_adress;
      data_registro = data_registro;
    })

-- `send_MOVE_OUT_TO_MEMORY`.
unfoldable pub send_move_out : MoveOutParams → Ram → Option (List ℕ)
unfolding send_package move_out_stream_size move_out_serialize
send_move_out m garbage =
    send_package move_out_op (move_out_stream_size m) (move_out_serialize m) garbage

-- `recv_MOVE_OUT_TO_MEMORY`.
unfoldable pub recv_move_out : List ℕ → Option (MoveOutParams × List ℕ)
unfolding recv_with move_out_deserialize
recv_move_out socket = recv_with move_out_deserialize socket

-- `COPY_STRING_params`.
pub record CopyStringParams : Type 0 where
  pub pid : ℕ
  pub df_dest : ℕ
  pub df_orig : ℕ
  pub tam : ℕ

-- `COPY_STRING_StreamSize`.
unfoldable pub copy_string_stream_size : CopyStringParams → ℕ
copy_string_stream_size m = 4 + 4 + 4 + 4

-- `COPY_STRING_Serialize`.
unfoldable pub copy_string_serialize : CopyStringParams → Buffer → Option Buffer
copy_string_serialize m b = buffer_add_uint32 m.pid b >>= λ b1.
    buffer_add_uint32 m.df_dest b1 >>= λ b2.
    buffer_add_uint32 m.df_orig b2 >>= λ b3. buffer_add_uint32 m.tam b3 >>= λ b4. some b4

-- `COPY_STRING_Deserialize`.
unfoldable pub copy_string_deserialize : List ℕ → Option CopyStringParams
copy_string_deserialize stream = buffer_read_uint32 stream >>= λ (pid, s1).
    buffer_read_uint32 s1 >>= λ (df_dest, s2). buffer_read_uint32 s2 >>= λ (df_orig, s3).
    buffer_read_uint32 s3 >>= λ (tam, s4).
    some (record { pid = pid; df_dest = df_dest; df_orig = df_orig; tam = tam })

-- `send_COPY_STRING`.
unfoldable pub send_copy_string : CopyStringParams → Ram → Option (List ℕ)
unfolding send_package copy_string_stream_size copy_string_serialize
send_copy_string m garbage =
    send_package copy_string_op (copy_string_stream_size m) (copy_string_serialize m) garbage

-- `recv_COPY_STRING`.
unfoldable pub recv_copy_string : List ℕ → Option (CopyStringParams × List ℕ)
unfolding recv_with copy_string_deserialize
recv_copy_string socket = recv_with copy_string_deserialize socket
