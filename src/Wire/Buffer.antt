-- ===== src/Wire/Buffer.antt =====
-- The streams of utils/src/serialization.c, and the packages of utils/src/utils.c that carry them.
use ronaldinh_os_sistemas_op.Common.{
  ℕ, ◌+◌, ◌-◌, ◌*◌, ◌/◌, ◌%◌, List, [], ◌∷◌, ◌++◌, Option, none, some, ◌==◌, ◌>>=◌, if◌then◌else◌,
  leb, ltb, ◌^◌, length, take, drop, Ram, peek,
}

-- The bytes of a `uint32_t` or an `int`, the lowest first.
unfoldable pub word_bytes : ℕ → List ℕ
word_bytes v = (v % 256) ∷ (v / 256 % 256) ∷ (v / 65536 % 256) ∷ (v / 16777216 % 256) ∷ []

-- `t_buffer` with the offset of its writer: the size of the stream and the bytes written so far.
pub record Buffer : Type 0 where
  pub size : ℕ
  pub written : List ℕ

-- `bufferCreate`.
unfoldable pub buffer_create : ℕ → Buffer
buffer_create stream_size = record { size = stream_size; written = [] }

-- The `memcpy` into the stream; `none` is a write past its end.
unfoldable pub buffer_add : List ℕ → Buffer → Option Buffer
buffer_add bytes b =
    if leb (length b.written + length bytes) b.size
    then some (record b { written = b.written ++ bytes })
    else none

-- `bufferAddUint32`.
unfoldable pub buffer_add_uint32 : ℕ → Buffer → Option Buffer
unfolding buffer_add word_bytes
buffer_add_uint32 v b = buffer_add (word_bytes v) b

-- `bufferAddUint8`.
unfoldable pub buffer_add_uint8 : ℕ → Buffer → Option Buffer
unfolding buffer_add
buffer_add_uint8 v b = buffer_add ((v % 256) ∷ []) b

-- `bufferAddString`: the length with the zero byte, the text and the zero byte.
unfoldable pub buffer_add_string : List ℕ → Buffer → Option Buffer
unfolding buffer_add buffer_add_uint32
buffer_add_string text b =
    buffer_add_uint32 (length text + 1) b >>= λ b'. buffer_add (text ++ 0 ∷ []) b'

-- `bufferReadUint32`, on the stream from the offset on; `none` is a read past its end.
unfoldable pub buffer_read_uint32 : List ℕ → Option (ℕ × List ℕ)
buffer_read_uint32 [] = none
buffer_read_uint32 (a ∷ []) = none
buffer_read_uint32 (a ∷ b ∷ []) = none
buffer_read_uint32 (a ∷ b ∷ c ∷ []) = none
buffer_read_uint32 (a ∷ b ∷ c ∷ d ∷ rest) = some (a + b * 256 + c * 65536 + d * 16777216, rest)

-- `bufferReadUint8`.
unfoldable pub buffer_read_uint8 : List ℕ → Option (ℕ × List ℕ)
buffer_read_uint8 [] = none
buffer_read_uint8 (a ∷ rest) = some (a, rest)

-- The text that starts a block of memory: its bytes before the first zero byte.
unfoldable pub c_string : List ℕ → List ℕ
c_string [] = []
c_string (c ∷ cs) = if c == 0 then [] else c ∷ c_string cs

-- The `memcpy` of so many bytes out of a stream.
unfoldable pub take_bytes : ℕ → List ℕ → Option (List ℕ × List ℕ)
take_bytes n stream = if leb n (length stream) then some (take n stream, drop n stream) else none

-- `bufferReadString`.
unfoldable pub buffer_read_string : List ℕ → Option (List ℕ × List ℕ)
unfolding buffer_read_uint32 take_bytes c_string
buffer_read_string stream = buffer_read_uint32 stream >>= λ (string_length, rest).
    take_bytes string_length rest >>= λ (bytes, rest'). some (c_string bytes, rest')

-- `packageCeate`, a writer, and `serializePackage`: the bytes that `send` takes. What the writer leaves
-- of the stream is what `malloc` found there.
unfoldable pub send_package : ℕ → ℕ → (Buffer → Option Buffer) → Ram → Option (List ℕ)
unfolding buffer_create word_bytes
send_package operation_code stream_size serialize garbage =
    serialize (buffer_create stream_size) >>= λ b. some (
      word_bytes operation_code
      ++ (word_bytes b.size
          ++ (b.written ++ peek garbage (length b.written) (b.size - length b.written))))

-- `recvOperation`, on the bytes that wait at the socket; `none` waits for more.
unfoldable pub recv_operation : List ℕ → Option (ℕ × List ℕ)
unfolding buffer_read_uint32
recv_operation socket = buffer_read_uint32 socket

-- `recvBuffer`. The size is an `int`: from 2^31 on there is no buffer for it, which is a crash.
unfoldable pub recv_buffer : List ℕ → Option (List ℕ × List ℕ)
unfolding buffer_read_uint32 take_bytes
recv_buffer socket = buffer_read_uint32 socket >>= λ (size, rest).
    if ltb size (2 ^ 31) then take_bytes size rest else none

-- A `recv_…` function: a buffer, and what its stream says.
unfoldable pub recv_with {ℓ} : {A : Type ℓ} → (List ℕ → Option A) → List ℕ → Option (A × List ℕ)
unfolding recv_buffer
recv_with deserialize socket =
    recv_buffer socket >>= λ (stream, rest). deserialize stream >>= λ m. some (m, rest)
