-- ===== src/Wire/FsTransfersFormats.antt =====
-- The formats of the messages in FsMessages that write and read files.
use ronaldinh_os_sistemas_op.Common.{ℕ, ◌≤◌, ◌≡◌, refl, ◌++◌, List, [], ◌∷◌, some, arith, All}
use ronaldinh_os_sistemas_op.Wire.OpCodes.{fs_read_op, fs_write_op}
use ronaldinh_os_sistemas_op.Wire.Buffer.{Buffer, word_bytes}
use ronaldinh_os_sistemas_op.Wire.Fields.{
  Field, word, text, IsField, field_bytes, add_field, add_fields, encode, field_size, fields_size,
  read-word, read-text,
}
use ronaldinh_os_sistemas_op.Wire.Format.{Format}
use ronaldinh_os_sistemas_op.Wire.FsMessages.{
  IoFsWriteParams, io_fs_write_stream_size, io_fs_write_serialize, io_fs_write_deserialize,
  IoFsReadParams, io_fs_read_stream_size, io_fs_read_serialize, io_fs_read_deserialize,
  IoFsReadToMemoryParams, io_fs_read_to_memory_stream_size, io_fs_read_to_memory_serialize,
  io_fs_read_to_memory_deserialize,
}

unfoldable pub io_fs_write_fields : IoFsWriteParams → List Field
io_fs_write_fields m =
    word m.pid
    ∷ text m.file_name
    ∷ word m.physical_adress
    ∷ word m.length_to_write
    ∷ word m.file_pointer
    ∷ []

pub io_fs_write_serialize-fields :
    (m : IoFsWriteParams) (b : Buffer)
    → io_fs_write_serialize m b ≡ add_fields (io_fs_write_fields m) b
unfolding io_fs_write_serialize io_fs_write_fields add_fields add_field
io_fs_write_serialize-fields m b = refl

pub io_fs_write_stream_size_fits :
    (m : IoFsWriteParams) → fields_size (io_fs_write_fields m) ≤ io_fs_write_stream_size m
unfolding io_fs_write_stream_size io_fs_write_fields fields_size field_size
io_fs_write_stream_size_fits m = omega arith

pub io_fs_write_deserialize-encode :
    (m : IoFsWriteParams) (rest : List ℕ)
    → All IsField (io_fs_write_fields m)
    → io_fs_write_deserialize (encode (io_fs_write_fields m) rest) ≡ some m
unfolding io_fs_write_deserialize io_fs_write_fields encode IsField
io_fs_write_deserialize-encode m rest h =
    rw
      (
        read-word m.pid
            (field_bytes (text m.file_name)
              ++ (word_bytes m.physical_adress
                  ++ (word_bytes m.length_to_write ++ (word_bytes m.file_pointer ++ rest))))
            h.0,
        read-text m.file_name
            (word_bytes m.physical_adress
              ++ (word_bytes m.length_to_write ++ (word_bytes m.file_pointer ++ rest)))
            h.1.0,
        read-word m.physical_adress
            (word_bytes m.length_to_write ++ (word_bytes m.file_pointer ++ rest)) h.1.1.0,
        read-word m.length_to_write (word_bytes m.file_pointer ++ rest) h.1.1.1.0,
        read-word m.file_pointer rest h.1.1.1.1.0,
      )
      refl

abbrev pub io_fs_write_format : Format IoFsWriteParams
io_fs_write_format = record {
  operation = fs_write_op;
  stream_size = io_fs_write_stream_size;
  serialize = io_fs_write_serialize;
  deserialize = io_fs_write_deserialize;
  fields = io_fs_write_fields;
  serialize-fields = io_fs_write_serialize-fields;
  stream_size_fits = io_fs_write_stream_size_fits;
  deserialize-encode = io_fs_write_deserialize-encode;
}

unfoldable pub io_fs_read_fields : IoFsReadParams → List Field
io_fs_read_fields m =
    word m.pid
    ∷ text m.file_name
    ∷ word m.physical_adress
    ∷ word m.length_to_read
    ∷ word m.file_pointer
    ∷ []

pub io_fs_read_serialize-fields :
    (m : IoFsReadParams) (b : Buffer)
    → io_fs_read_serialize m b ≡ add_fields (io_fs_read_fields m) b
unfolding io_fs_read_serialize io_fs_read_fields add_fields add_field
io_fs_read_serialize-fields m b = refl

pub io_fs_read_stream_size_fits :
    (m : IoFsReadParams) → fields_size (io_fs_read_fields m) ≤ io_fs_read_stream_size m
unfolding io_fs_read_stream_size io_fs_read_fields fields_size field_size
io_fs_read_stream_size_fits m = omega arith

pub io_fs_read_deserialize-encode :
    (m : IoFsReadParams) (rest : List ℕ)
    → All IsField (io_fs_read_fields m)
    → io_fs_read_deserialize (encode (io_fs_read_fields m) rest) ≡ some m
unfolding io_fs_read_deserialize io_fs_read_fields encode IsField
io_fs_read_deserialize-encode m rest h =
    rw
      (
        read-word m.pid
            (field_bytes (text m.file_name)
              ++ (word_bytes m.physical_adress
                  ++ (word_bytes m.length_to_read ++ (word_bytes m.file_pointer ++ rest))))
            h.0,
        read-text m.file_name
            (word_bytes m.physical_adress
              ++ (word_bytes m.length_to_read ++ (word_bytes m.file_pointer ++ rest)))
            h.1.0,
        read-word m.physical_adress
            (word_bytes m.length_to_read ++ (word_bytes m.file_pointer ++ rest)) h.1.1.0,
        read-word m.length_to_read (word_bytes m.file_pointer ++ rest) h.1.1.1.0,
        read-word m.file_pointer rest h.1.1.1.1.0,
      )
      refl

abbrev pub io_fs_read_format : Format IoFsReadParams
io_fs_read_format = record {
  operation = fs_read_op;
  stream_size = io_fs_read_stream_size;
  serialize = io_fs_read_serialize;
  deserialize = io_fs_read_deserialize;
  fields = io_fs_read_fields;
  serialize-fields = io_fs_read_serialize-fields;
  stream_size_fits = io_fs_read_stream_size_fits;
  deserialize-encode = io_fs_read_deserialize-encode;
}

unfoldable pub io_fs_read_to_memory_fields : IoFsReadToMemoryParams → List Field
io_fs_read_to_memory_fields m =
    word m.pid ∷ word m.length_to_read ∷ word m.physical_adress ∷ text m.word ∷ []

pub io_fs_read_to_memory_serialize-fields :
    (m : IoFsReadToMemoryParams) (b : Buffer)
    → io_fs_read_to_memory_serialize m b ≡ add_fields (io_fs_read_to_memory_fields m) b
unfolding io_fs_read_to_memory_serialize io_fs_read_to_memory_fields add_fields add_field
io_fs_read_to_memory_serialize-fields m b = refl

pub io_fs_read_to_memory_stream_size_fits :
    (m : IoFsReadToMemoryParams)
    → fields_size (io_fs_read_to_memory_fields m) ≤ io_fs_read_to_memory_stream_size m
unfolding io_fs_read_to_memory_stream_size io_fs_read_to_memory_fields fields_size field_size
io_fs_read_to_memory_stream_size_fits m = omega arith

pub io_fs_read_to_memory_deserialize-encode :
    (m : IoFsReadToMemoryParams) (rest : List ℕ)
    → All IsField (io_fs_read_to_memory_fields m)
    → io_fs_read_to_memory_deserialize (encode (io_fs_read_to_memory_fields m) rest) ≡ some m
unfolding io_fs_read_to_memory_deserialize io_fs_read_to_memory_fields encode IsField
io_fs_read_to_memory_deserialize-encode m rest h =
    rw
      (
        read-word m.pid
            (word_bytes m.length_to_read
              ++ (word_bytes m.physical_adress ++ (field_bytes (text m.word) ++ rest)))
            h.0,
        read-word m.length_to_read
            (word_bytes m.physical_adress ++ (field_bytes (text m.word) ++ rest)) h.1.0,
        read-word m.physical_adress (field_bytes (text m.word) ++ rest) h.1.1.0,
        read-text m.word rest h.1.1.1.0,
      )
      refl

abbrev pub io_fs_read_to_memory_format : Format IoFsReadToMemoryParams
io_fs_read_to_memory_format = record {
  operation = fs_read_op;
  stream_size = io_fs_read_to_memory_stream_size;
  serialize = io_fs_read_to_memory_serialize;
  deserialize = io_fs_read_to_memory_deserialize;
  fields = io_fs_read_to_memory_fields;
  serialize-fields = io_fs_read_to_memory_serialize-fields;
  stream_size_fits = io_fs_read_to_memory_stream_size_fits;
  deserialize-encode = io_fs_read_to_memory_deserialize-encode;
}
