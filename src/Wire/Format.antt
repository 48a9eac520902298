-- ===== src/Wire/Format.antt =====
-- What a message of utils/src/utils.c or utils/src/IOFUNCTIONS.c has in common with the others: its
-- size, its writer and its reader, and that they agree on its fields.
use ronaldinh_os_sistemas_op.Common.{
  ℕ, ◌+◌, ◌-◌, ◌^◌, ◌<◌, ◌≤◌, ◌≡◌, refl, ap, subst, List, [], ◌++◌, Option, some, arith, ◌>>=◌,
  lt→ltb, length, length-append, length-peek, All, Ram, peek, append_assoc,
}
use ronaldinh_os_sistemas_op.Wire.Buffer.{
  Buffer, word_bytes, buffer_create, send_package, recv_operation, recv_buffer, recv_with,
  take_bytes,
}
use ronaldinh_os_sistemas_op.Wire.Fields.{
  Field, IsField, add_fields, encode, fields_size, encode-append, length-encode, add_fields-fits,
  read-word, take_bytes-append,
}

pub record Format (A : Type 0) : Type 0 where
  pub operation : ℕ
  pub stream_size : A → ℕ
  pub serialize : A → Buffer → Option Buffer
  pub deserialize : List ℕ → Option A
  pub fields : A → List Field
  pub serialize-fields : (m : A) (b : Buffer) → serialize m b ≡ add_fields (fields m) b
  pub stream_size_fits : (m : A) → fields_size (fields m) ≤ stream_size m
  pub deserialize-encode :
      (m : A) (rest : List ℕ)
      → All IsField (fields m)
      → deserialize (encode (fields m) rest) ≡ some m

module _ {A : Type 0} (f : Format A) (m : A) (garbage : Ram) where
  -- The bytes of the stream, and of the package.
  stream : List ℕ
  stream =
      encode (f.fields m)
        (peek garbage (fields_size (f.fields m)) (f.stream_size m - fields_size (f.fields m)))

  length-stream : length stream ≡ f.stream_size m
  unfolding stream
  length-stream =
      let n = fields_size (f.fields m) in
      let g = peek garbage n (f.stream_size m - n) in
      let l = length-append (encode (f.fields m) []) g in
      let e = ap length (encode-append (f.fields m) g) in
      omega (
        arith,
        length-encode (f.fields m),
        length-peek garbage n (f.stream_size m - n),
        f.stream_size_fits m,
      )

  unfoldable pub sent : List ℕ
  unfolding stream
  sent = word_bytes f.operation ++ (word_bytes (f.stream_size m) ++ stream)

  pub send_package-sent :
      send_package f.operation (f.stream_size m) (f.serialize m) garbage ≡ some sent
  unfolding send_package sent stream buffer_create
  send_package-sent =
      let n = fields_size (f.fields m) in
      let fits : 0 + n ≤ f.stream_size m = omega (arith, f.stream_size_fits m) in
      rw
        (
          f.serialize-fields m (buffer_create (f.stream_size m)),
          add_fields-fits (f.fields m) (buffer_create (f.stream_size m)) fits,
          length-encode (f.fields m),
          encode-append (f.fields m) (peek garbage n (f.stream_size m - n)),
        )
        refl

module _ {A : Type 0} (f : Format A) where
  -- A round of the receiver: the operation code, and what its `recv_…` function returns.
  unfoldable pub receive : List ℕ → Option (ℕ × A × List ℕ)
  unfolding recv_operation recv_with
  receive socket = recv_operation socket >>= λ (op, s).
      recv_with f.deserialize s >>= λ (m', s'). some (op, m', s')

  pub receive-sent :
      (m : A) (garbage : Ram) (rest : List ℕ)
      → f.operation < 2 ^ 32
      → f.stream_size m < 2 ^ 31 - 8
      → All IsField (f.fields m)
      → receive (sent f m garbage ++ rest) ≡ some (f.operation, m, rest)
  unfolding receive recv_operation recv_with recv_buffer sent stream
  receive-sent m garbage rest op fits valid =
      let size = f.stream_size m in
      let body = stream f m garbage in
      let l = length-stream f m garbage in
      let n = fields_size (f.fields m) in
      let taken : take_bytes size (body ++ rest) ≡ some (body, rest) =
        subst (λ k. take_bytes k (body ++ rest) ≡ some (body, rest)) l
          (take_bytes-append body rest) in
      let back : f.deserialize body ≡ some m =
        f.deserialize-encode m (peek garbage n (size - n)) valid in
      rw
        (
          append_assoc (word_bytes f.operation) (word_bytes size ++ body) rest,
          append_assoc (word_bytes size) body rest,
          read-word f.operation (word_bytes size ++ (body ++ rest)) op,
          read-word size (body ++ rest) (omega arith),
          lt→ltb size (2 ^ 31) (omega arith),
        )
        (rw (taken, back) refl)
