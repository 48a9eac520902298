-- ===== src/Wire/FsMessagesFormats.antt =====
-- The formats of the messages in FsMessages that create, delete and truncate files.
use ronaldinh_os_sistemas_op.Common.{ℕ, ◌≤◌, ◌≡◌, refl, ◌++◌, List, [], ◌∷◌, some, arith, All}
use ronaldinh_os_sistemas_op.Wire.OpCodes.{fs_create_op, fs_delete_op, fs_truncate_op}
use ronaldinh_os_sistemas_op.Wire.Buffer.{Buffer, word_bytes}
use ronaldinh_os_sistemas_op.Wire.Fields.{
  Field, word, text, IsField, field_bytes, add_field, add_fields, encode, field_size, fields_size,
  read-word, read-text,
}
use ronaldinh_os_sistemas_op.Wire.Format.{Format}
use ronaldinh_os_sistemas_op.Wire.FsMessages.{
  IoFsCreateParams, io_fs_create_stream_size, io_fs_create_serialize, io_fs_create_deserialize,
  IoFsDeleteParams, io_fs_delete_stream_size, io_fs_delete_serialize, io_fs_delete_deserialize,
  IoFsTruncateParams, io_fs_truncate_stream_size, io_fs_truncate_serialize,
  io_fs_truncate_deserialize,
}

unfoldable pub io_fs_create_fields : IoFsCreateParams → List Field
io_fs_create_fields m = word m.pid ∷ text m.file_name ∷ []

pub io_fs_create_serialize-fields :
    (m : IoFsCreateParams) (b : Buffer)
    → io_fs_create_serialize m b ≡ add_fields (io_fs_create_fields m) b
unfolding io_fs_create_serialize io_fs_create_fields add_fields add_field
io_fs_create_serialize-fields m b = refl

pub io_fs_create_stream_size_fits :
    (m : IoFsCreateParams) → fields_size (io_fs_create_fields m) ≤ io_fs_create_stream_size m
unfolding io_fs_create_stream_size io_fs_create_fields fields_size field_size
io_fs_create_stream_size_fits m = omega arith

pub io_fs_create_deserialize-encode :
    (m : IoFsCreateParams) (rest : List ℕ)
    → All IsField (io_fs_create_fields m)
    → io_fs_create_deserialize (encode (io_fs_create_fields m) rest) ≡ some m
unfolding io_fs_create_deserialize io_fs_create_fields encode IsField
io_fs_create_deserialize-encode m rest h =
    rw
      (
        read-word m.pid (field_bytes (text m.file_name) ++ rest) h.0,
        read-text m.file_name rest h.1.0,
      )
      refl

abbrev pub io_fs_create_format : Format IoFsCreateParams
io_fs_create_format = record {
  operation = fs_create_op;
  stream_size = io_fs_create_stream_size;
  serialize = io_fs_create_serialize;
  deserialize = io_fs_create_deserialize;
  fields = io_fs_create_fields;
  serialize-fields = io_fs_create_serialize-fields;
  stream_size_fits = io_fs_create_stream_size_fits;
  deserialize-encode = io_fs_create_deserialize-encode;
}

unfoldable pub io_fs_delete_fields : IoFsDeleteParams → List Field
io_fs_delete_fields m = word m.pid ∷ text m.file_name ∷ []

pub io_fs_delete_serialize-fields :
    (m : IoFsDeleteParams) (b : Buffer)
    → io_fs_delete_serialize m b ≡ add_fields (io_fs_delete_fields m) b
unfolding io_fs_delete_serialize io_fs_delete_fields add_fields add_field
io_fs_delete_serialize-fields m b = refl

pub io_fs_delete_stream_size_fits :
    (m : IoFsDeleteParams) → fields_size (io_fs_delete_fields m) ≤ io_fs_delete_stream_size m
unfolding io_fs_delete_stream_size io_fs_delete_fields fields_size field_size
io_fs_delete_stream_size_fits m = omega arith

pub io_fs_delete_deserialize-encode :
    (m : IoFsDeleteParams) (rest : List ℕ)
    → All IsField (io_fs_delete_fields m)
    → io_fs_delete_deserialize (encode (io_fs_delete_fields m) rest) ≡ some m
unfolding io_fs_delete_deserialize io_fs_delete_fields encode IsField
io_fs_delete_deserialize-encode m rest h =
    rw
      (
        read-word m.pid (field_bytes (text m.file_name) ++ rest) h.0,
        read-text m.file_name rest h.1.0,
      )
      refl

abbrev pub io_fs_delete_format : Format IoFsDeleteParams
io_fs_delete_format = record {
  operation = fs_delete_op;
  stream_size = io_fs_delete_stream_size;
  serialize = io_fs_delete_serialize;
  deserialize = io_fs_delete_deserialize;
  fields = io_fs_delete_fields;
  serialize-fields = io_fs_delete_serialize-fields;
  stream_size_fits = io_fs_delete_stream_size_fits;
  deserialize-encode = io_fs_delete_deserialize-encode;
}

unfoldable pub io_fs_truncate_fields : IoFsTruncateParams → List Field
io_fs_truncate_fields m = word m.pid ∷ word m.new_length ∷ text m.file_name ∷ []

pub io_fs_truncate_serialize-fields :
    (m : IoFsTruncateParams) (b : Buffer)
    → io_fs_truncate_serialize m b ≡ add_fields (io_fs_truncate_fields m) b
unfolding io_fs_truncate_serialize io_fs_truncate_fields add_fields add_field
io_fs_truncate_serialize-fields m b = refl

pub io_fs_truncate_stream_size_fits :
    (m : IoFsTruncateParams) → fields_size (io_fs_truncate_fields m) ≤ io_fs_truncate_stream_size m
unfolding io_fs_truncate_stream_size io_fs_truncate_fields fields_size field_size
io_fs_truncate_stream_size_fits m = omega arith

pub io_fs_truncate_deserialize-encode :
    (m : IoFsTruncateParams) (rest : List ℕ)
    → All IsField (io_fs_truncate_fields m)
    → io_fs_truncate_deserialize (encode (io_fs_truncate_fields m) rest) ≡ some m
unfolding io_fs_truncate_deserialize io_fs_truncate_fields encode IsField
io_fs_truncate_deserialize-encode m rest h =
    rw
      (
        read-word m.pid (word_bytes m.new_length ++ (field_bytes (text m.file_name) ++ rest)) h.0,
        read-word m.new_length (field_bytes (text m.file_name) ++ rest) h.1.0,
        read-text m.file_name rest h.1.1.0,
      )
      refl

abbrev pub io_fs_truncate_format : Format IoFsTruncateParams
io_fs_truncate_format = record {
  operation = fs_truncate_op;
  stream_size = io_fs_truncate_stream_size;
  serialize = io_fs_truncate_serialize;
  deserialize = io_fs_truncate_deserialize;
  fields = io_fs_truncate_fields;
  serialize-fields = io_fs_truncate_serialize-fields;
  stream_size_fits = io_fs_truncate_stream_size_fits;
  deserialize-encode = io_fs_truncate_deserialize-encode;
}
