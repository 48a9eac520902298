-- ===== src/Wire/TextsRoundTrip.antt =====
-- Texts, numbers and lists of values arrive as they were sent; after utils/src/utils.c.
use ronaldinh_os_sistemas_op.Common.{
  ℕ, zero, suc, ◌+◌, ◌^◌, ◌<◌, ◌≤◌, ◌≡◌, refl, sym, ap, subst, ◌∙◌, List, [], ◌∷◌, ◌++◌, some, ◌-◌,
  lt→ltb, arith, length, length-append, All, append_assoc, append-nil,
}
use ronaldinh_os_sistemas_op.Wire.OpCodes.{package_op}
use ronaldinh_os_sistemas_op.Wire.Buffer.{word_bytes, recv_buffer}
use ronaldinh_os_sistemas_op.Wire.Fields.{read-word, take_bytes-append, c_string-append}
use ronaldinh_os_sistemas_op.Wire.Texts.{
  send_text, add_package, add_packages, send_values, unpack, recv_pack, receive_text, receive_pack,
}

recv_buffer-sized :
    (stream rest : List ℕ)
    → length stream < 2 ^ 31
    → recv_buffer (word_bytes (length stream) ++ (stream ++ rest)) ≡ some (stream, rest)
unfolding recv_buffer
recv_buffer-sized stream rest h =
    rw
      (
        read-word (length stream) (stream ++ rest) (omega arith),
        lt→ltb (length stream) (2 ^ 31) h,
        take_bytes-append stream rest,
      )
      refl

-- A text with no zero byte.
unfoldable pub IsText : List ℕ → Type 0
IsText text = All (λ c. 0 < c) text × (length text + 1 < 2 ^ 31)

pub receive_text-send_text :
    (operation : ℕ) (text rest : List ℕ)
    → operation < 2 ^ 32
    → IsText text
    → receive_text (send_text operation text ++ rest) ≡ some (operation, text, rest)
unfolding receive_text send_text IsText
receive_text-send_text operation text rest op h =
    let body = text ++ 0 ∷ [] in
    let l = length-append text (0 ∷ []) in
    let sized : length text + 1 ≡ length body = omega arith in
    rw
      (
        append_assoc (word_bytes operation) (word_bytes (length text + 1) ++ body) rest,
        append_assoc (word_bytes (length text + 1)) body rest,
        read-word operation (word_bytes (length text + 1) ++ (body ++ rest)) op,
        sized,
        recv_buffer-sized body rest (omega arith),
        c_string-append text [] h.0,
      )
      refl

-- The stream of the values.
packed : List (List ℕ) → List ℕ
packed [] = []
packed (v ∷ vs) = word_bytes (length v) ++ (v ++ packed vs)

add_packages-packed :
    (vs : List (List ℕ)) (stream : List ℕ) → add_packages vs stream ≡ stream ++ packed vs
unfolding add_packages packed
add_packages-packed [] stream = sym (append-nil stream)
add_packages-packed (v ∷ vs) stream =
    add_packages-packed vs (add_package stream v)
    ∙ append_assoc stream (word_bytes (length v) ++ v) (packed vs)
    ∙ ap (◌++◌ stream) (append_assoc (word_bytes (length v)) v (packed vs))

unpack-packed :
    (vs : List (List ℕ)) (fuel : ℕ)
    → length (packed vs) ≤ fuel
    → length (packed vs) < 2 ^ 32
    → unpack fuel (packed vs) ≡ some vs
unfolding unpack packed word_bytes
unpack-packed [] fuel h k = refl
unpack-packed (v ∷ vs) zero h k = absurd (omega arith)
unpack-packed (v ∷ vs) (suc fuel) h k =
    let rest = packed vs in
    let l = length-append v rest in
    let tail : length rest ≤ fuel = omega arith in
    rw
      (
        read-word (length v) (v ++ rest) (omega arith),
        take_bytes-append v rest,
        unpack-packed vs fuel tail (omega arith),
      )
      refl

-- What a receiver makes of the values of a package is the values, in their order, and what waits
-- behind the package is left; where the stream is shorter than 2^31 - 8 bytes.
pub receive_pack-send_values :
    (values : List (List ℕ)) (rest : List ℕ)
    → length (add_packages values []) < 2 ^ 31 - 8
    → receive_pack (send_values values ++ rest) ≡ some (package_op, values, rest)
unfolding receive_pack recv_pack send_values
receive_pack-send_values values rest fits =
    let stream = add_packages values [] in
    let e : stream ≡ packed values = add_packages-packed values [] in
    let size = word_bytes (length stream) in
    let short : length (packed values) < 2 ^ 31 - 8 = subst (λ s. length s < 2 ^ 31 - 8) e fits in
    let back : unpack (length stream) stream ≡ some values =
      subst (λ s. unpack (length s) s ≡ some values) (sym e)
        (unpack-packed values (length (packed values)) (omega arith) (omega arith)) in
    rw
      (
        append_assoc (word_bytes package_op) (size ++ stream) rest,
        append_assoc size stream rest,
        read-word package_op (size ++ (stream ++ rest)) (omega arith),
        recv_buffer-sized stream rest (omega arith),
      )
      (rw back refl)
