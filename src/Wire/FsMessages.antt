-- ===== src/Wire/FsMessages.antt =====
-- The messages of the file system interface, in utils/src/IOFUNCTIONS.c.
use ronaldinh_os_sistemas_op.Common.{ℕ, ◌+◌, List, Option, some, ◌>>=◌, length, Ram}
use ronaldinh_os_sistemas_op.Wire.OpCodes.{
  fs_create_op, fs_delete_op, fs_read_op, fs_truncate_op, fs_write_op,
}
use ronaldinh_os_sistemas_op.Wire.Buffer.{
  Buffer, buffer_add_uint32, buffer_add_string, buffer_read_uint32, buffer_read_string,
  send_package, recv_with,
}

-- `IO_FS_CREATE_params`.
pub record IoFsCreateParams : Type 0 where
  pub pid : ℕ
  pub file_name : List ℕ

-- `IO_FS_CREATE_StreamSize`.
unfoldable pub io_fs_create_stream_size : IoFsCreateParams → ℕ
io_fs_create_stream_size m = 4 + 4 + (length m.file_name + 1)

-- `IO_FS_CREATE_Serialize`.
unfoldable pub io_fs_create_serialize : IoFsCreateParams → Buffer → Option Buffer
io_fs_create_serialize m b =
    buffer_add_uint32 m.pid b >>= λ b1. buffer_add_string m.file_name b1 >>= λ b2. some b2

-- `IO_FS_CREATE_Deserialize`.
unfoldable pub io_fs_create_deserialize : List ℕ → Option IoFsCreateParams
io_fs_create_deserialize stream = buffer_read_uint32 stream >>= λ (pid, s1).
    buffer_read_string s1 >>= λ (file_name, s2). some (record { pid = pid; file_name = file_name })

-- `send_FS_CREATE`.
unfoldable pub send_io_fs_create : IoFsCreateParams → Ram → Option (List ℕ)
unfolding send_package io_fs_create_stream_size io_fs_create_serialize
send_io_fs_create m garbage =
    send_package fs_create_op (io_fs_create_stream_size m) (io_fs_create_serialize m) garbage

-- `recv_IO_FS_CREATE`.
unfoldable pub recv_io_fs_create : List ℕ → Option (IoFsCreateParams × List ℕ)
unfolding recv_with io_fs_create_deserialize
recv_io_fs_create socket = recv_with io_fs_create_deserialize socket

-- `IO_FS_DELETE_params`.
pub record IoFsDeleteParams : Type 0 where
  pub pid : ℕ
  pub file_name : List ℕ

-- `IO_FS_DELETE_StreamSize`.
unfoldable pub io_fs_delete_stream_size : IoFsDeleteParams → ℕ
io_fs_delete_stream_size m = 4 + 4 + (length m.file_name + 1)

-- `IO_FS_DELETE_Serialize`.
unfoldable pub io_fs_delete_serialize : IoFsDeleteParams → Buffer → Option Buffer
io_fs_delete_serialize m b =
    buffer_add_uint32 m.pid b >>= λ b1. buffer_add_string m.file_name b1 >>= λ b2. some b2

-- `IO_FS_DELETE_Deserialize`.
unfoldable pub io_fs_delete_deserialize : List ℕ → Option IoFsDeleteParams
io_fs_delete_deserialize stream = buffer_read_uint32 stream >>= λ (pid, s1).
    buffer_read_string s1 >>= λ (file_name, s2). some (record { pid = pid; file_name = file_name })

-- `send_FS_DELETE`.
unfoldable pub send_io_fs_delete : IoFsDeleteParams → Ram → Option (List ℕ)
unfolding send_package io_fs_delete_stream_size io_fs_delete_serialize
send_io_fs_delete m garbage =
    send_package fs_delete_op (io_fs_delete_stream_size m) (io_fs_delete_serialize m) garbage

-- `recv_IO_FS_DELETE`.
unfoldable pub recv_io_fs_delete : List ℕ → Option (IoFsDeleteParams × List ℕ)
unfolding recv_with io_fs_delete_deserialize
recv_io_fs_delete socket = recv_with io_fs_delete_deserialize socket

-- `IO_FS_TRUNCATE_params`.
pub record IoFsTruncateParams : Type 0 where
  pub pid : ℕ
  pub new_length : ℕ
  pub file_name : List ℕ

-- `IO_FS_TRUNCATE_StreamSize`.
unfoldable pub io_fs_truncate_stream_size : IoFsTruncateParams → ℕ
io_fs_truncate_stream_size m = 4 + 4 + 4 + (length m.file_name + 1)

-- `IO_FS_TRUNCATE_Serialize`.
unfoldable pub io_fs_truncate_serialize : IoFsTruncateParams → Buffer → Option Buffer
io_fs_truncate_serialize m b = buffer_add_uint32 m.pid b >>= λ b1.
    buffer_add_uint32 m.new_length b1 >>= λ b2. buffer_add_string m.file_name b2 >>= λ b3. some b3

-- `IO_FS_TRUNCATE_Deserialize`.
unfoldable pub io_fs_truncate_deserialize : List ℕ → Option IoFsTruncateParams
io_fs_truncate_deserialize stream = buffer_read_uint32 stream >>= λ (pid, s1).
    buffer_read_uint32 s1 >>= λ (new_length, s2). buffer_read_string s2 >>= λ (file_name, s3).
    some (record { pid = pid; new_length = new_length; file_name = file_name })

-- `send_FS_TRUNCATE`.
unfoldable pub send_io_fs_truncate : IoFsTruncateParams → Ram → Option (List ℕ)
unfolding send_package io_fs_truncate_stream_size io_fs_truncate_serialize
send_io_fs_truncate m garbage =
    send_package fs_truncate_op (io_fs_truncate_stream_size m) (io_fs_truncate_serialize m) garbage

-- `recv_IO_FS_TRUNCATE`.
unfoldable pub recv_io_fs_truncate : List ℕ → Option (IoFsTruncateParams × List ℕ)
unfolding recv_with io_fs_truncate_deserialize
recv_io_fs_truncate socket = recv_with io_fs_truncate_deserialize socket

-- `IO_FS_WRITE_params`.
pub record IoFsWriteParams : Type 0 where
  pub pid : ℕ
  pub file_name : List ℕ
  pub physical_adress : ℕ
  pub length_to_write : ℕ
  pub file_pointer : ℕ

-- `IO_FS_WRITE_StreamSize`.
unfoldable pub io_fs_write_stream_size : IoFsWriteParams → ℕ
io_fs_write_stream_size m = 4 + 4 + 4 + (length m.file_name + 1) + 4 + 4

-- `IO_FS_WRITE_Serialize`.
unfoldable pub io_fs_write_serialize : IoFsWriteParams → Buffer → Option Buffer
io_fs_write_serialize m b = buffer_add_uint32 m.pid b >>= λ b1.
    buffer_add_string m.file_name b1 >>= λ b2. buffer_add_uint32 m.physical_adress b2 >>= λ b3.
    buffer_add_uint32 m.length_to_write b3 >>= λ b4.
    buffer_add_uint32 m.file_pointer b4 >>= λ b5. some b5

-- `IO_FS_WRITE_Deserialize`.
unfoldable pub io_fs_write_deserialize : List ℕ → Option IoFsWriteParams
io_fs_write_deserialize stream = buffer_read_uint32 stream >>= λ (pid, s1).
    buffer_read_string s1 >>= λ (file_name, s2). buffer_read_uint32 s2 >>= λ (physical_adress, s3).
    buffer_read_uint32 s3 >>= λ (length_to_write, s4).
    buffer_read_uint32 s4 >>= λ (file_pointer, s5). some (record {
      pid = pid;
      file_name = file_name;
      physical_adress = physical_adress;
      length_to_write = length_to_write;
      file_pointer = file_pointer;
    })

-- `send_FS_WRITE`.
unfoldable pub send_io_fs_write : IoFsWriteParams → Ram → Option (List ℕ)
unfolding send_package io_fs_write_stream_size io_fs_write_serialize
send_io_fs_write m garbage =
    send_package fs_write_op (io_fs_write_stream_size m) (io_fs_write_serialize m) garbage

-- `recv_IO_FS_WRITE`.
unfoldable pub recv_io_fs_write : List ℕ → Option (IoFsWriteParams × List ℕ)
unfolding recv_with io_fs_write_deserialize
recv_io_fs_write socket = recv_with io_fs_write_deserialize socket

-- `IO_FS_READ_params`.
pub record IoFsReadParams : Type 0 where
  pub pid : ℕ
  pub file_name : List ℕ
  pub physical_adress : ℕ
  pub length_to_read : ℕ
  pub file_pointer : ℕ

-- `IO_FS_READ_StreamSize`.
unfoldable pub io_fs_read_stream_size : IoFsReadParams → ℕ
io_fs_read_stream_size m = 4 + 4 + 4 + (length m.file_name + 1) + 4 + 4

-- `IO_FS_READ_Serialize`.
unfoldable pub io_fs_read_serialize : IoFsReadParams → Buffer → Option Buffer
io_fs_read_serialize m b = buffer_add_uint32 m.pid b >>= λ b1.
    buffer_add_string m.file_name b1 >>= λ b2. buffer_add_uint32 m.physical_adress b2 >>= λ b3.
    buffer_add_uint32 m.length_to_read b3 >>= λ b4.
    buffer_add_uint32 m.file_pointer b4 >>= λ b5. some b5

-- `IO_FS_READ_Deserialize`.
unfoldable pub io_fs_read_deserialize : List ℕ → Option IoFsReadParams
io_fs_read_deserialize stream = buffer_read_uint32 stream >>= λ (pid, s1).
    buffer_read_string s1 >>= λ (file_name, s2). buffer_read_uint32 s2 >>= λ (physical_adress, s3).
    buffer_read_uint32 s3 >>= λ (length_to_read, s4).
    buffer_read_uint32 s4 >>= λ (file_pointer, s5). some (record {
      pid = pid;
      file_name = file_name;
      physical_adress = physical_adress;
      length_to_read = length_to_read;
      file_pointer = file_pointer;
    })

-- `send_FS_READ`.
unfoldable pub send_io_fs_read : IoFsReadParams → Ram → Option (List ℕ)
unfolding send_package io_fs_read_stream_size io_fs_read_serialize
send_io_fs_read m garbage =
    send_package fs_read_op (io_fs_read_stream_size m) (io_fs_read_serialize m) garbage

-- `recv_IO_FS_READ`.
unfoldable pub recv_io_fs_read : List ℕ → Option (IoFsReadParams × List ℕ)
unfolding recv_with io_fs_read_deserialize
recv_io_fs_read socket = recv_with io_fs_read_deserialize socket

-- `IO_FS_READ_TO_MEMORY_params`.
pub record IoFsReadToMemoryParams : Type 0 where
  pub pid : ℕ
  pub length_to_read : ℕ
  pub physical_adress : ℕ
  pub word : List ℕ

-- `IO_FS_READ_TO_MEMORY_StreamSize`.
unfoldable pub io_fs_read_to_memory_stream_size : IoFsReadToMemoryParams → ℕ
io_fs_read_to_memory_stream_size m = 4 + 4 + 4 + 4 + (length m.word + 1)

-- `IO_FS_READ_TO_MEMORY_Serialize`.
unfoldable pub io_fs_read_to_memory_serialize : IoFsReadToMemoryParams → Buffer → Option Buffer
io_fs_read_to_memory_serialize m b = buffer_add_uint32 m.pid b >>= λ b1.
    buffer_add_uint32 m.length_to_read b1 >>= λ b2.
    buffer_add_uint32 m.physical_adress b2 >>= λ b3. buffer_add_string m.word b3 >>= λ b4. some b4

-- `IO_FS_READ_TO_MEMORY_Deserialize`.
unfoldable pub io_fs_read_to_memory_deserialize : List ℕ → Option IoFsReadToMemoryParams
io_fs_read_to_memory_deserialize stream = buffer_read_uint32 stream >>= λ (pid, s1).
    buffer_read_uint32 s1 >>= λ (length_to_read, s2).
    buffer_read_uint32 s2 >>= λ (physical_adress, s3). buffer_read_string s3 >>= λ (word, s4).
    some (record {
      pid = pid;
      length_to_read = length_to_read;
      physical_adress = physical_adress;
      word = word;
    })

-- `send_FS_READ_TO_MEMORY`.
unfoldable pub send_io_fs_read_to_memory : IoFsReadToMemoryParams → Ram → Option (List ℕ)
unfolding send_package io_fs_read_to_memory_stream_size io_fs_read_to_memory_serialize
send_io_fs_read_to_memory m garbage =
    send_package fs_read_op (io_fs_read_to_memory_stream_size m) (io_fs_read_to_memory_serialize m)
      garbage

-- `recv_IO_FS_READ_TO_MEMORY_`.
unfoldable pub recv_io_fs_read_to_memory : List ℕ → Option (IoFsReadToMemoryParams × List ℕ)
unfolding recv_with io_fs_read_to_memory_deserialize
recv_io_fs_read_to_memory socket = recv_with io_fs_read_to_memory_deserialize socket
