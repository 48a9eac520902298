-- ===== src/Wire/RequestsFormats.antt =====
-- The formats of the messages in Requests but for those that move bytes.
use ronaldinh_os_sistemas_op.Common.{ℕ, ◌≤◌, ◌≡◌, refl, ◌++◌, List, [], ◌∷◌, some, arith, All}
use ronaldinh_os_sistemas_op.Wire.OpCodes.{
  process_to_memory_op, request_instructions, resize_op, solicitud_frame,
}
use ronaldinh_os_sistemas_op.Wire.Buffer.{Buffer, word_bytes}
use ronaldinh_os_sistemas_op.Wire.Fields.{
  Field, word, text, IsField, field_bytes, add_field, add_fields, encode, field_size, fields_size,
  read-word, read-text,
}
use ronaldinh_os_sistemas_op.Wire.Format.{Format}
use ronaldinh_os_sistemas_op.Wire.Requests.{
  InstReqToMemory, inst_req_to_memory_stream_size, inst_req_to_memory_serialize,
  inst_req_to_memory_deserialize, NewProcess, process_to_memory_stream_size,
  process_to_memory_serialize, process_to_memory_deserialize, SolicitudFrameMemoria,
  solicitud_frame_memoria_stream_size, solicitud_frame_memoria_serialize,
  solicitud_frame_memoria_deserialize, ResizeParams, resize_params_stream_size,
  resize_params_serialize, resize_params_deserialize,
}

unfoldable pub inst_req_to_memory_fields : InstReqToMemory → List Field
inst_req_to_memory_fields m = word m.pid ∷ word m.program_counter ∷ []

pub inst_req_to_memory_serialize-fields :
    (m : InstReqToMemory) (b : Buffer)
    → inst_req_to_memory_serialize m b ≡ add_fields (inst_req_to_memory_fields m) b
unfolding inst_req_to_memory_serialize inst_req_to_memory_fields add_fields add_field
inst_req_to_memory_serialize-fields m b = refl

pub inst_req_to_memory_stream_size_fits :
    (m : InstReqToMemory)
    → fields_size (inst_req_to_memory_fields m) ≤ inst_req_to_memory_stream_size m
unfolding inst_req_to_memory_stream_size inst_req_to_memory_fields fields_size field_size
inst_req_to_memory_stream_size_fits m = omega arith

pub inst_req_to_memory_deserialize-encode :
    (m : InstReqToMemory) (rest : List ℕ)
    → All IsField (inst_req_to_memory_fields m)
    → inst_req_to_memory_deserialize (encode (inst_req_to_memory_fields m) rest) ≡ some m
unfolding inst_req_to_memory_deserialize inst_req_to_memory_fields encode IsField
inst_req_to_memory_deserialize-encode m rest h =
    rw
      (
        read-word m.pid (word_bytes m.program_counter ++ rest) h.0,
        read-word m.program_counter rest h.1.0,
      )
      refl

abbrev pub inst_req_to_memory_format : Format InstReqToMemory
inst_req_to_memory_format = record {
  operation = request_instructions;
  stream_size = inst_req_to_memory_stream_size;
  serialize = inst_req_to_memory_serialize;
  deserialize = inst_req_to_memory_deserialize;
  fields = inst_req_to_memory_fields;
  serialize-fields = inst_req_to_memory_serialize-fields;
  stream_size_fits = inst_req_to_memory_stream_size_fits;
  deserialize-encode = inst_req_to_memory_deserialize-encode;
}

unfoldable pub process_to_memory_fields : NewProcess → List Field
process_to_memory_fields m = word m.pid ∷ word m.tamanio_proceso ∷ text m.path ∷ []

pub process_to_memory_serialize-fields :
    (m : NewProcess) (b : Buffer)
    → process_to_memory_serialize m b ≡ add_fields (process_to_memory_fields m) b
unfolding process_to_memory_serialize process_to_memory_fields add_fields add_field
process_to_memory_serialize-fields m b = refl

pub process_to_memory_stream_size_fits :
    (m : NewProcess) → fields_size (process_to_memory_fields m) ≤ process_to_memory_stream_size m
unfolding process_to_memory_stream_size process_to_memory_fields fields_size field_size
process_to_memory_stream_size_fits m = omega arith

pub process_to_memory_deserialize-encode :
    (m : NewProcess) (rest : List ℕ)
    → All IsField (process_to_memory_fields m)
    → process_to_memory_deserialize (encode (process_to_memory_fields m) rest) ≡ some m
unfolding process_to_memory_deserialize process_to_memory_fields encode IsField
process_to_memory_deserialize-encode m rest h =
    rw
      (
        read-word m.pid (word_bytes m.tamanio_proceso ++ (field_bytes (text m.path) ++ rest)) h.0,
        read-word m.tamanio_proceso (field_bytes (text m.path) ++ rest) h.1.0,
        read-text m.path rest h.1.1.0,
      )
      refl

abbrev pub process_to_memory_format : Format NewProcess
process_to_memory_format = record {
  operation = process_to_memory_op;
  stream_size = process_to_memory_stream_size;
  serialize = process_to_memory_serialize;
  deserialize = process_to_memory_deserialize;
  fields = process_to_memory_fields;
  serialize-fields = process_to_memory_serialize-fields;
  stream_size_fits = process_to_memory_stream_size_fits;
  deserialize-encode = process_to_memory_deserialize-encode;
}

unfoldable pub solicitud_frame_memoria_fields : SolicitudFrameMemoria → List Field
solicitud_frame_memoria_fields m = word m.pid ∷ word m.paginas ∷ []

pub solicitud_frame_memoria_serialize-fields :
    (m : SolicitudFrameMemoria) (b : Buffer)
    → solicitud_frame_memoria_serialize m b ≡ add_fields (solicitud_frame_memoria_fields m) b
unfolding solicitud_frame_memoria_serialize solicitud_frame_memoria_fields add_fields add_field
solicitud_frame_memoria_serialize-fields m b = refl

pub solicitud_frame_memoria_stream_size_fits :
    (m : SolicitudFrameMemoria)
    → fields_size (solicitud_frame_memoria_fields m) ≤ solicitud_frame_memoria_stream_size m
unfolding solicitud_frame_memoria_stream_size solicitud_frame_memoria_fields fields_size field_size
solicitud_frame_memoria_stream_size_fits m = omega arith

pub solicitud_frame_memoria_deserialize-encode :
    (m : SolicitudFrameMemoria) (rest : List ℕ)
    → All IsField (solicitud_frame_memoria_fields m)
    → solicitud_frame_memoria_deserialize (encode (solicitud_frame_memoria_fields m) rest) ≡ some m
unfolding solicitud_frame_memoria_deserialize solicitud_frame_memoria_fields encode IsField
solicitud_frame_memoria_deserialize-encode m rest h =
    rw (read-word m.pid (word_bytes m.paginas ++ rest) h.0, read-word m.paginas rest h.1.0) refl

abbrev pub solicitud_frame_memoria_format : Format SolicitudFrameMemoria
solicitud_frame_memoria_format = record {
  operation = solicitud_frame;
  stream_size = solicitud_frame_memoria_stream_size;
  serialize = solicitud_frame_memoria_serialize;
  deserialize = solicitud_frame_memoria_deserialize;
  fields = solicitud_frame_memoria_fields;
  serialize-fields = solicitud_frame_memoria_serialize-fields;
  stream_size_fits = solicitud_frame_memoria_stream_size_fits;
  deserialize-encode = solicitud_frame_memoria_deserialize-encode;
}

unfoldable pub resize_params_fields : ResizeParams → List Field
resize_params_fields m = word m.pid ∷ word m.tamanio_proceso ∷ []

pub resize_params_serialize-fields :
    (m : ResizeParams) (b : Buffer)
    → resize_params_serialize m b ≡ add_fields (resize_params_fields m) b
unfolding resize_params_serialize resize_params_fields add_fields add_field
resize_params_serialize-fields m b = refl

pub resize_params_stream_size_fits :
    (m : ResizeParams) → fields_size (resize_params_fields m) ≤ resize_params_stream_size m
unfolding resize_params_stream_size resize_params_fields fields_size field_size
resize_params_stream_size_fits m = omega arith

pub resize_params_deserialize-encode :
    (m : ResizeParams) (rest : List ℕ)
    → All IsField (resize_params_fields m)
    → resize_params_deserialize (encode (resize_params_fields m) rest) ≡ some m
unfolding resize_params_deserialize resize_params_fields encode IsField
resize_params_deserialize-encode m rest h =
    rw
      (
        read-word m.pid (word_bytes m.tamanio_proceso ++ rest) h.0,
        read-word m.tamanio_proceso rest h.1.0,
      )
      refl

abbrev pub resize_params_format : Format ResizeParams
resize_params_format = record {
  operation = resize_op;
  stream_size = resize_params_stream_size;
  serialize = resize_params_serialize;
  deserialize = resize_params_deserialize;
  fields = resize_params_fields;
  serialize-fields = resize_params_serialize-fields;
  stream_size_fits = resize_params_stream_size_fits;
  deserialize-encode = resize_params_deserialize-encode;
}
