-- ===== src/Wire/Interfaces.antt =====
-- The messages of the generic, the STDIN and the STDOUT interfaces, in utils/src/IOFUNCTIONS.c.
use ronaldinh_os_sistemas_op.Common.{ℕ, ◌+◌, List, Option, some, ◌>>=◌, length, Ram}
use ronaldinh_os_sistemas_op.Wire.OpCodes.{io_stdin_read_op, read_op, sleep, write_op}
use ronaldinh_os_sistemas_op.Wire.Buffer.{
  Buffer, buffer_add_uint32, buffer_add_string, buffer_read_uint32, buffer_read_string,
  send_package, recv_with,
}

-- `IO_GEN_SLEEP_params`.
pub record IoGenSleepParams : Type 0 where
  pub pid : ℕ
  pub time_to_sleep : ℕ

-- `IO_GEN_SLEEP_StreamSize`.
unfoldable pub io_gen_sleep_stream_size : IoGenSleepParams → ℕ
io_gen_sleep_stream_size m = 4 + 4

-- `IO_GEN_SLEEP_Serialize`.
unfoldable pub io_gen_sleep_serialize : IoGenSleepParams → Buffer → Option Buffer
io_gen_sleep_serialize m b =
    buffer_add_uint32 m.pid b >>= λ b1. buffer_add_uint32 m.time_to_sleep b1 >>= λ b2. some b2

-- `IO_GEN_SLEEP_Deserialize`.
unfoldable pub io_gen_sleep_deserialize : List ℕ → Option IoGenSleepParams
io_gen_sleep_deserialize stream = buffer_read_uint32 stream >>= λ (pid, s1).
    buffer_read_uint32 s1 >>= λ (time_to_sleep, s2).
    some (record { pid = pid; time_to_sleep = time_to_sleep })

-- `send_IO_GEN_SLEEP`.
unfoldable pub send_io_gen_sleep : IoGenSleepParams → Ram → Option (List ℕ)
unfolding send_package io_gen_sleep_stream_size io_gen_sleep_serialize
send_io_gen_sleep m garbage =
    send_package sleep (io_gen_sleep_stream_size m) (io_gen_sleep_serialize m) garbage

-- `recv_IO_GEN_SLEEP`.
unfoldable pub recv_io_gen_sleep : List ℕ → Option (IoGenSleepParams × List ℕ)
unfolding recv_with io_gen_sleep_deserialize
recv_io_gen_sleep socket = recv_with io_gen_sleep_deserialize socket

-- `IO_STDIN_READ`.
pub record IoStdinRead : Type 0 where
  pub pid : ℕ
  pub physical_adress : ℕ
  pub length_to_read_or_write : ℕ

-- `NEW_IO_STDIN_READ_StreamSize`.
unfoldable pub io_stdin_read_stream_size : IoStdinRead → ℕ
io_stdin_read_stream_size m = 4 + 4 + 4

-- `IO_STDIN_READ_Serialize`.
unfoldable pub io_stdin_read_serialize : IoStdinRead → Buffer → Option Buffer
io_stdin_read_serialize m b = buffer_add_uint32 m.pid b >>= λ b1.
    buffer_add_uint32 m.physical_adress b1 >>= λ b2.
    buffer_add_uint32 m.length_to_read_or_write b2 >>= λ b3. some b3

-- `IO_STDIN_READ_Deserialize`.
unfoldable pub io_stdin_read_deserialize : List ℕ → Option IoStdinRead
io_stdin_read_deserialize stream = buffer_read_uint32 stream >>= λ (pid, s1).
    buffer_read_uint32 s1 >>= λ (physical_adress, s2).
    buffer_read_uint32 s2 >>= λ (length_to_read_or_write, s3). some (record {
      pid = pid;
      physical_adress = physical_adress;
      length_to_read_or_write = length_to_read_or_write;
    })

-- `send_IO_STDIN_READ`.
unfoldable pub send_io_stdin_read : IoStdinRead → Ram → Option (List ℕ)
unfolding send_package io_stdin_read_stream_size io_stdin_read_serialize
send_io_stdin_read m garbage =
    send_package read_op (io_stdin_read_stream_size m) (io_stdin_read_serialize m) garbage

-- `recv_IO_STDIN_READ`.
unfoldable pub recv_io_stdin_read : List ℕ → Option (IoStdinRead × List ℕ)
unfolding recv_with io_stdin_read_deserialize
recv_io_stdin_read socket = recv_with io_stdin_read_deserialize socket

-- `IO_STDIN_READ_WRITE_MEMORY`.
pub record IoStdinReadWriteMemory : Type 0 where
  pub physical_adress : ℕ
  pub text_to_memory : List ℕ
  pub pid : ℕ

-- `IO_STDIN_READ_WRITE_MEMORY_StreamSize`.
unfoldable pub io_stdin_read_write_memory_stream_size : IoStdinReadWriteMemory → ℕ
io_stdin_read_write_memory_stream_size m = 4 + 4 + 4 + (length m.text_to_memory + 1)

-- `IO_STDIN_READ_WRITE_MEMORY_Serialize`.
unfoldable pub io_stdin_read_write_memory_serialize :
    IoStdinReadWriteMemory → Buffer → Option Buffer
io_stdin_read_write_memory_serialize m b = buffer_add_uint32 m.physical_adress b >>= λ b1.
    buffer_add_string m.text_to_memory b1 >>= λ b2. buffer_add_uint32 m.pid b2 >>= λ b3. some b3

-- `IO_STDIN_READ_WRITE_MEMORY_Deserialize`.
unfoldable pub io_stdin_read_write_memory_deserialize : List ℕ → Option IoStdinReadWriteMemory
io_stdin_read_write_memory_deserialize stream =
    buffer_read_uint32 stream >>= λ (physical_adress, s1).
    buffer_read_string s1 >>= λ (text_to_memory, s2). buffer_read_uint32 s2 >>= λ (pid, s3).
    some (record { physical_adress = physical_adress; text_to_memory = text_to_memory; pid = pid })

-- `send_IO_STDIN_READ_WRITE_MEMORY`.
unfoldable pub send_io_stdin_read_write_memory : IoStdinReadWriteMemory → Ram → Option (List ℕ)
unfolding send_package io_stdin_read_write_memory_stream_size io_stdin_read_write_memory_serialize
send_io_stdin_read_write_memory m garbage =
    send_package io_stdin_read_op (io_stdin_read_write_memory_stream_size m)
      (io_stdin_read_write_memory_serialize m) garbage

-- `recv_IO_STDIN_READ_WRITE_MEMORY`.
unfoldable pub recv_io_stdin_read_write_memory : List ℕ → Option (IoStdinReadWriteMemory × List ℕ)
unfolding recv_with io_stdin_read_write_memory_deserialize
recv_io_stdin_read_write_memory socket = recv_with io_stdin_read_write_memory_deserialize socket

-- `IO_STDOUT_WRITE`.
pub record IoStdoutWrite : Type 0 where
  pub pid : ℕ
  pub physical_adress : ℕ
  pub length_to_read_or_write : ℕ

-- `NEW_IO_STDOUT_WRITE_StreamSize`.
unfoldable pub io_stdout_write_stream_size : IoStdoutWrite → ℕ
io_stdout_write_stream_size m = 4 + 4 + 4

-- `IO_STDOUT_WRITE_Serialize`.
unfoldable pub io_stdout_write_serialize : IoStdoutWrite → Buffer → Option Buffer
io_stdout_write_serialize m b = buffer_add_uint32 m.pid b >>= λ b1.
    buffer_add_uint32 m.physical_adress b1 >>= λ b2.
    buffer_add_uint32 m.length_to_read_or_write b2 >>= λ b3. some b3

-- `IO_STDOUT_WRITE_Deserialize`.
unfoldable pub io_stdout_write_deserialize : List ℕ → Option IoStdoutWrite
io_stdout_write_deserialize stream = buffer_read_uint32 stream >>= λ (pid, s1).
    buffer_read_uint32 s1 >>= λ (physical_adress, s2).
    buffer_read_uint32 s2 >>= λ (length_to_read_or_write, s3). some (record {
      pid = pid;
      physical_adress = physical_adress;
      length_to_read_or_write = length_to_read_or_write;
    })

-- `send_IO_STDOUT_WRITE`.
unfoldable pub send_io_stdout_write : IoStdoutWrite → Ram → Option (List ℕ)
unfolding send_package io_stdout_write_stream_size io_stdout_write_serialize
send_io_stdout_write m garbage =
    send_package write_op (io_stdout_write_stream_size m) (io_stdout_write_serialize m) garbage

-- `recv_IO_STDOUT_WRITE`.
unfoldable pub recv_io_stdout_write : List ℕ → Option (IoStdoutWrite × List ℕ)
unfolding recv_with io_stdout_write_deserialize
recv_io_stdout_write socket = recv_with io_stdout_write_deserialize socket
