-- ===== src/Wire/MovesFormats.antt =====
-- The formats of the messages in Requests that move bytes.
use ronaldinh_os_sistemas_op.Common.{ℕ, ◌≤◌, ◌≡◌, refl, ◌++◌, List, [], ◌∷◌, some, arith, All}
use ronaldinh_os_sistemas_op.Wire.OpCodes.{copy_string_op, move_in_op, move_out_op}
use ronaldinh_os_sistemas_op.Wire.Buffer.{Buffer, word_bytes}
use ronaldinh_os_sistemas_op.Wire.Fields.{
  Field, word, IsField, add_field, add_fields, encode, field_size, fields_size, read-word,
}
use ronaldinh_os_sistemas_op.Wire.Format.{Format}
use ronaldinh_os_sistemas_op.Wire.Requests.{
  MoveInParams, move_in_stream_size, move_in_serialize, move_in_deserialize, MoveOutParams,
  move_out_stream_size, move_out_serialize, move_out_deserialize, CopyStringParams,
  copy_string_stream_size, copy_string_serialize, copy_string_deserialize,
}

unfoldable pub move_in_fields : MoveInParams → List Field
move_in_fields m = word m.pid ∷ word m.physical_adress ∷ word m.length_to_read ∷ []

pub move_in_serialize-fields :
    (m : MoveInParams) (b : Buffer) → move_in_serialize m b ≡ add_fields (move_in_fields m) b
unfolding move_in_serialize move_in_fields add_fields add_field
move_in_serialize-fields m b = refl

pub move_in_stream_size_fits :
    (m : MoveInParams) → fields_size (move_in_fields m) ≤ move_in_stream_size m
unfolding move_in_stream_size move_in_fields fields_size field_size
move_in_stream_size_fits m = omega arith

pub move_in_deserialize-encode :
    (m : MoveInParams) (rest : List ℕ)
    → All IsField (move_in_fields m)
    → move_in_deserialize (encode (move_in_fields m) rest) ≡ some m
unfolding move_in_deserialize move_in_fields encode IsField
move_in_deserialize-encode m rest h =
    rw
      (
        read-word m.pid (word_bytes m.physical_adress ++ (word_bytes m.length_to_read ++ rest)) h.0,
        read-word m.physical_adress (word_bytes m.length_to_read ++ rest) h.1.0,
        read-word m.length_to_read rest h.1.1.0,
      )
      refl

abbrev pub move_in_format : Format MoveInParams
move_in_format = record {
  operation = move_in_op;
  stream_size = move_in_stream_size;
  serialize = move_in_serialize;
  deserialize = move_in_deserialize;
  fields = move_in_fields;
  serialize-fields = move_in_serialize-fields;
  stream_size_fits = move_in_stream_size_fits;
  deserialize-encode = move_in_deserialize-encode;
}

unfoldable pub move_out_fields : MoveOutParams → List Field
move_out_fields m =
    word m.pid ∷ word m.length_to_write ∷ word m.physical_adress ∷ word m.data_registro ∷ []

pub move_out_serialize-fields :
    (m : MoveOutParams) (b : Buffer) → move_out_serialize m b ≡ add_fields (move_out_fields m) b
unfolding move_out_serialize move_out_fields add_fields add_field
move_out_serialize-fields m b = refl

pub move_out_stream_size_fits :
    (m : MoveOutParams) → fields_size (move_out_fields m) ≤ move_out_stream_size m
unfolding move_out_stream_size move_out_fields fields_size field_size
move_out_stream_size_fits m = omega arith

pub move_out_deserialize-encode :
    (m : MoveOutParams) (rest : List ℕ)
    → All IsField (move_out_fields m)
    → move_out_deserialize (encode (move_out_fields m) rest) ≡ some m
unfolding move_out_deserialize move_out_fields encode IsField
move_out_deserialize-encode m rest h =
    rw
      (
        read-word m.pid
            (word_bytes m.length_to_write
              ++ (word_bytes m.physical_adress ++ (word_bytes m.data_registro ++ rest)))
            h.0,
        read-word m.length_to_write
            (word_bytes m.physical_adress ++ (word_bytes m.data_registro ++ rest)) h.1.0,
        read-word m.physical_adress (word_bytes m.data_registro ++ rest) h.1.1.0,
        read-word m.data_registro rest h.1.1.1.0,
      )
      refl

abbrev pub move_out_format : Format MoveOutParams
move_out_format = record {
  operation = move_out_op;
  stream_size = move_out_stream_size;
  serialize = move_out_serialize;
  deserialize = move_out_deserialize;
  fields = move_out_fields;
  serialize-fields = move_out_serialize-fields;
  stream_size_fits = move_out_stream_size_fits;
  deserialize-encode = move_out_deserialize-encode;
}

unfoldable pub copy_string_fields : CopyStringParams → List Field
copy_string_fields m = word m.pid ∷ word m.df_dest ∷ word m.df_orig ∷ word m.tam ∷ []

pub copy_string_serialize-fields :
    (m : CopyStringParams) (b : Buffer)
    → copy_string_serialize m b ≡ add_fields (copy_string_fields m) b
unfolding copy_string_serialize copy_string_fields add_fields add_field
copy_string_serialize-fields m b = refl

pub copy_string_stream_size_fits :
    (m : CopyStringParams) → fields_size (copy_string_fields m) ≤ copy_string_stream_size m
unfolding copy_string_stream_size copy_string_fields fields_size field_size
copy_string_stream_size_fits m = omega arith

pub copy_string_deserialize-encode :
    (m : CopyStringParams) (rest : List ℕ)
    → All IsField (copy_string_fields m)
    → copy_string_deserialize (encode (copy_string_fields m) rest) ≡ some m
unfolding copy_string_deserialize copy_string_fields encode IsField
copy_string_deserialize-encode m rest h =
    rw
      (
        read-word m.pid
            (word_bytes m.df_dest ++ (word_bytes m.df_orig ++ (word_bytes m.tam ++ rest))) h.0,
        read-word m.df_dest (word_bytes m.df_orig ++ (word_bytes m.tam ++ rest)) h.1.0,
        read-word m.df_orig (word_bytes m.tam ++ rest) h.1.1.0,
        read-word m.tam rest h.1.1.1.0,
      )
      refl

abbrev pub copy_string_format : Format CopyStringParams
copy_string_format = record {
  operation = copy_string_op;
  stream_size = copy_string_stream_size;
  serialize = copy_string_serialize;
  deserialize = copy_string_deserialize;
  fields = copy_string_fields;
  serialize-fields = copy_string_serialize-fields;
  stream_size_fits = copy_string_stream_size_fits;
  deserialize-encode = copy_string_deserialize-encode;
}
