-- ===== src/Wire/Texts.antt =====
-- The packages of utils/src/utils.c and utils/src/IOFUNCTIONS.c that carry one text or a list of
-- values, and the single `int`s.
use ronaldinh_os_sistemas_op.Common.{
  ℕ, zero, suc, ◌+◌, List, [], ◌∷◌, ◌++◌, Option, none, some, ◌>>=◌, length,
}
use ronaldinh_os_sistemas_op.Wire.OpCodes.{
  message, package_op, wait_op, signal_op, interrupt_by_quantum, io_function,
}
use ronaldinh_os_sistemas_op.Wire.Buffer.{
  word_bytes, buffer_read_uint32, take_bytes, c_string, recv_operation, recv_buffer,
}

-- What the senders of a text share: a stream with the text and its zero byte, serialized.
unfoldable pub send_text : ℕ → List ℕ → List ℕ
send_text operation text =
    word_bytes operation ++ (word_bytes (length text + 1) ++ (text ++ 0 ∷ []))

-- `sendMessage`.
unfoldable pub send_message_text : List ℕ → List ℕ
unfolding send_text
send_message_text text = send_text message text

-- `sendResourceWAIT`.
unfoldable pub send_resource_wait : List ℕ → List ℕ
unfolding send_text
send_resource_wait resource = send_text wait_op resource

-- `sendResourceSIGNAL`.
unfoldable pub send_resource_signal : List ℕ → List ℕ
unfolding send_text
send_resource_signal resource = send_text signal_op resource

-- `sendInterrupt`.
unfoldable pub send_interrupt : List ℕ → List ℕ
unfolding send_text
send_interrupt reason = send_text interrupt_by_quantum reason

-- `sendFunctionIo`.
unfoldable pub send_function_io : List ℕ → List ℕ
unfolding send_text
send_function_io function = send_text io_function function

-- `recvMessage`, `recvResourceWait`, `recvResourceSignal`, `recvIo` and `recvSTDOUT`: the text at the
-- start of the buffer.
unfoldable pub recv_text : List ℕ → Option (List ℕ × List ℕ)
recv_text socket = recv_buffer socket >>= λ (stream, rest). some (c_string stream, rest)

-- A round of a receiver that expects a text.
unfoldable pub receive_text : List ℕ → Option (ℕ × List ℕ × List ℕ)
unfolding recv_operation recv_text
receive_text socket =
    recv_operation socket >>= λ (op, s). recv_text s >>= λ (t, s'). some (op, t, s')

-- `sendInt`.
unfoldable pub send_int : ℕ → List ℕ
send_int value = word_bytes value

-- `recvInt`.
unfoldable pub recv_int : List ℕ → Option (ℕ × List ℕ)
recv_int socket = buffer_read_uint32 socket

-- `addPackage`, on the stream of a package that `newBuffer` left empty.
unfoldable pub add_package : List ℕ → List ℕ → List ℕ
add_package stream value = stream ++ (word_bytes (length value) ++ value)

-- The package of some values, added in their order.
unfoldable pub add_packages : List (List ℕ) → List ℕ → List ℕ
unfolding add_package
add_packages [] stream = stream
add_packages (v ∷ vs) stream = add_packages vs (add_package stream v)

-- `sendPackage`.
unfoldable pub send_values : List (List ℕ) → List ℕ
unfolding add_packages
send_values values =
    let stream = add_packages values [] in
    word_bytes package_op ++ (word_bytes (length stream) ++ stream)

-- The loop of `recvPack`, on fuel: each value takes four bytes or more of the stream. `none` is a read
-- past the stream or a run out of fuel.
unfoldable pub unpack : ℕ → List ℕ → Option (List (List ℕ))
unpack fuel [] = some []
unpack zero (x ∷ xs) = none
unpack (suc fuel) (x ∷ xs) = buffer_read_uint32 (x ∷ xs) >>= λ (tamanio, rest).
    take_bytes tamanio rest >>= λ (value, rest').
    unpack fuel rest' >>= λ values. some (value ∷ values)

-- `recvPack`.
unfoldable pub recv_pack : List ℕ → Option (List (List ℕ) × List ℕ)
unfolding unpack
recv_pack socket = recv_buffer socket >>= λ (stream, rest).
    unpack (length stream) stream >>= λ values. some (values, rest)

-- A round of a receiver that expects values.
unfoldable pub receive_pack : List ℕ → Option (ℕ × List (List ℕ) × List ℕ)
unfolding recv_operation recv_pack
receive_pack socket =
    recv_operation socket >>= λ (op, s). recv_pack s >>= λ (vs, s'). some (op, vs, s')
