-- ===== src/Wire/InterfacesFormats.antt =====
-- The formats of the messages in Interfaces.
use ronaldinh_os_sistemas_op.Common.{ℕ, ◌≤◌, ◌≡◌, refl, ◌++◌, List, [], ◌∷◌, some, arith, All}
use ronaldinh_os_sistemas_op.Wire.OpCodes.{io_stdin_read_op, read_op, sleep, write_op}
use ronaldinh_os_sistemas_op.Wire.Buffer.{Buffer, word_bytes}
use ronaldinh_os_sistemas_op.Wire.Fields.{
  Field, word, text, IsField, field_bytes, add_field, add_fields, encode, field_size, fields_size,
  read-word, read-text,
}
use ronaldinh_os_sistemas_op.Wire.Format.{Format}
use ronaldinh_os_sistemas_op.Wire.Interfaces.{
  IoGenSleepParams, io_gen_sleep_stream_size, io_gen_sleep_serialize, io_gen_sleep_deserialize,
  IoStdinRead, io_stdin_read_stream_size, io_stdin_read_serialize, io_stdin_read_deserialize,
  IoStdinReadWriteMemory, io_stdin_read_write_memory_stream_size,
  io_stdin_read_write_memory_serialize, io_stdin_read_write_memory_deserialize, IoStdoutWrite,
  io_stdout_write_stream_size, io_stdout_write_serialize, io_stdout_write_deserialize,
}

unfoldable pub io_gen_sleep_fields : IoGenSleepParams → List Field
io_gen_sleep_fields m = word m.pid ∷ word m.time_to_sleep ∷ []

pub io_gen_sleep_serialize-fields :
    (m : IoGenSleepParams) (b : Buffer)
    → io_gen_sleep_serialize m b ≡ add_fields (io_gen_sleep_fields m) b
unfolding io_gen_sleep_serialize io_gen_sleep_fields add_fields add_field
io_gen_sleep_serialize-fields m b = refl

pub io_gen_sleep_stream_size_fits :
    (m : IoGenSleepParams) → fields_size (io_gen_sleep_fields m) ≤ io_gen_sleep_stream_size m
unfolding io_gen_sleep_stream_size io_gen_sleep_fields fields_size field_size
io_gen_sleep_stream_size_fits m = omega arith

pub io_gen_sleep_deserialize-encode :
    (m : IoGenSleepParams) (rest : List ℕ)
    → All IsField (io_gen_sleep_fields m)
    → io_gen_sleep_deserialize (encode (io_gen_sleep_fields m) rest) ≡ some m
unfolding io_gen_sleep_deserialize io_gen_sleep_fields encode IsField
io_gen_sleep_deserialize-encode m rest h =
    rw
      (
        read-word m.pid (word_bytes m.time_to_sleep ++ rest) h.0,
        read-word m.time_to_sleep rest h.1.0,
      )
      refl

abbrev pub io_gen_sleep_format : Format IoGenSleepParams
io_gen_sleep_format = record {
  operation = sleep;
  stream_size = io_gen_sleep_stream_size;
  serialize = io_gen_sleep_serialize;
  deserialize = io_gen_sleep_deserialize;
  fields = io_gen_sleep_fields;
  serialize-fields = io_gen_sleep_serialize-fields;
  stream_size_fits = io_gen_sleep_stream_size_fits;
  deserialize-encode = io_gen_sleep_deserialize-encode;
}

unfoldable pub io_stdin_read_fields : IoStdinRead → List Field
io_stdin_read_fields m = word m.pid ∷ word m.physical_adress ∷ word m.length_to_read_or_write ∷ []

pub io_stdin_read_serialize-fields :
    (m : IoStdinRead) (b : Buffer)
    → io_stdin_read_serialize m b ≡ add_fields (io_stdin_read_fields m) b
unfolding io_stdin_read_serialize io_stdin_read_fields add_fields add_field
io_stdin_read_serialize-fields m b = refl

pub io_stdin_read_stream_size_fits :
    (m : IoStdinRead) → fields_size (io_stdin_read_fields m) ≤ io_stdin_read_stream_size m
unfolding io_stdin_read_stream_size io_stdin_read_fields fields_size field_size
io_stdin_read_stream_size_fits m = omega arith

pub io_stdin_read_deserialize-encode :
    (m : IoStdinRead) (rest : List ℕ)
    → All IsField (io_stdin_read_fields m)
    → io_stdin_read_deserialize (encode (io_stdin_read_fields m) rest) ≡ some m
unfolding io_stdin_read_deserialize io_stdin_read_fields encode IsField
io_stdin_read_deserialize-encode m rest h =
    rw
      (
        read-word m.pid
            (word_bytes m.physical_adress ++ (word_bytes m.length_to_read_or_write ++ rest)) h.0,
        read-word m.physical_adress (word_bytes m.length_to_read_or_write ++ rest) h.1.0,
        read-word m.length_to_read_or_write rest h.1.1.0,
      )
      refl

abbrev pub io_stdin_read_format : Format IoStdinRead
io_stdin_read_format = record {
  operation = read_op;
  stream_size = io_stdin_read_stream_size;
  serialize = io_stdin_read_serialize;
  deserialize = io_stdin_read_deserialize;
  fields = io_stdin_read_fields;
  serialize-fields = io_stdin_read_serialize-fields;
  stream_size_fits = io_stdin_read_stream_size_fits;
  deserialize-encode = io_stdin_read_deserialize-encode;
}

unfoldable pub io_stdin_read_write_memory_fields : IoStdinReadWriteMemory → List Field
io_stdin_read_write_memory_fields m =
    word m.physical_adress ∷ text m.text_to_memory ∷ word m.pid ∷ []

pub io_stdin_read_write_memory_serialize-fields :
    (m : IoStdinReadWriteMemory) (b : Buffer)
    → io_stdin_read_write_memory_serialize m b ≡ add_fields (io_stdin_read_write_memory_fields m) b
unfolding io_stdin_read_write_memory_serialize io_stdin_read_write_memory_fields add_fields
    add_field
io_stdin_read_write_memory_serialize-fields m b = refl

pub io_stdin_read_write_memory_stream_size_fits :
    (m : IoStdinReadWriteMemory)
    → fields_size (io_stdin_read_write_memory_fields m) ≤ io_stdin_read_write_memory_stream_size m
unfolding io_stdin_read_write_memory_stream_size io_stdin_read_write_memory_fields fields_size
    field_size
io_stdin_read_write_memory_stream_size_fits m = omega arith

pub io_stdin_read_write_memory_deserialize-encode :
    (m : IoStdinReadWriteMemory) (rest : List ℕ)
    → All IsField (io_stdin_read_write_memory_fields m)
    → io_stdin_read_write_memory_deserialize (encode (io_stdin_read_write_memory_fields m) rest)
      ≡ some m
unfolding io_stdin_read_write_memory_deserialize io_stdin_read_write_memory_fields encode IsField
io_stdin_read_write_memory_deserialize-encode m rest h =
    rw
      (
        read-word m.physical_adress
            (field_bytes (text m.text_to_memory) ++ (word_bytes m.pid ++ rest)) h.0,
        read-text m.text_to_memory (word_bytes m.pid ++ rest) h.1.0,
        read-word m.pid rest h.1.1.0,
      )
      refl

abbrev pub io_stdin_read_write_memory_format : Format IoStdinReadWriteMemory
io_stdin_read_write_memory_format = record {
  operation = io_stdin_read_op;
  stream_size = io_stdin_read_write_memory_stream_size;
  serialize = io_stdin_read_write_memory_serialize;
  deserialize = io_stdin_read_write_memory_deserialize;
  fields = io_stdin_read_write_memory_fields;
  serialize-fields = io_stdin_read_write_memory_serialize-fields;
  stream_size_fits = io_stdin_read_write_memory_stream_size_fits;
  deserialize-encode = io_stdin_read_write_memory_deserialize-encode;
}

unfoldable pub io_stdout_write_fields : IoStdoutWrite → List Field
io_stdout_write_fields m = word m.pid ∷ word m.physical_adress ∷ word m.length_to_read_or_write ∷ []

pub io_stdout_write_serialize-fields :
    (m : IoStdoutWrite) (b : Buffer)
    → io_stdout_write_serialize m b ≡ add_fields (io_stdout_write_fields m) b
unfolding io_stdout_write_serialize io_stdout_write_fields add_fields add_field
io_stdout_write_serialize-fields m b = refl

pub io_stdout_write_stream_size_fits :
    (m : IoStdoutWrite) → fields_size (io_stdout_write_fields m) ≤ io_stdout_write_stream_size m
unfolding io_stdout_write_stream_size io_stdout_write_fields fields_size field_size
io_stdout_write_stream_size_fits m = omega arith

pub io_stdout_write_deserialize-encode :
    (m : IoStdoutWrite) (rest : List ℕ)
    → All IsField (io_stdout_write_fields m)
    → io_stdout_write_deserialize (encode (io_stdout_write_fields m) rest) ≡ some m
unfolding io_stdout_write_deserialize io_stdout_write_fields encode IsField
io_stdout_write_deserialize-encode m rest h =
    rw
      (
        read-word m.pid
            (word_bytes m.physical_adress ++ (word_bytes m.length_to_read_or_write ++ rest)) h.0,
        read-word m.physical_adress (word_bytes m.length_to_read_or_write ++ rest) h.1.0,
        read-word m.length_to_read_or_write rest h.1.1.0,
      )
      refl

abbrev pub io_stdout_write_format : Format IoStdoutWrite
io_stdout_write_format = record {
  operation = write_op;
  stream_size = io_stdout_write_stream_size;
  serialize = io_stdout_write_serialize;
  deserialize = io_stdout_write_deserialize;
  fields = io_stdout_write_fields;
  serialize-fields = io_stdout_write_serialize-fields;
  stream_size_fits = io_stdout_write_stream_size_fits;
  deserialize-encode = io_stdout_write_deserialize-encode;
}
