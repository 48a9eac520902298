-- ===== src/Utils/Tests.antt =====
-- Runs of the text helpers, after utils/src/utils.c: "MOV AX 1", and a number in binary.
use ronaldinh_os_sistemas_op.Common.{ℕ, ◌%◌, ◌^◌, ◌≡◌, refl, List, [], ◌∷◌, some, arith}
use ronaldinh_os_sistemas_op.Utils.Words.{is_separator, read_words, join_words, read-join}
use ronaldinh_os_sistemas_op.Utils.Binary.{
  int_to_binary_8_bits, int_to_binary_32_bits, binary_to_int_8_bits, binary_to_int_32_bits,
  binary_to_int-int_to_binary,
}
use ronaldinh_os_sistemas_op.Utils.Numbers.{get_value, int_to_char, get_value-int_to_char}

abbrev three_words : List (List ℕ)
three_words = (77 ∷ 79 ∷ 86 ∷ []) ∷ (65 ∷ 88 ∷ []) ∷ (49 ∷ []) ∷ []

read-join_example : read_words 3 (join_words three_words) 0 ≡ some three_words
unfolding is_separator
read-join_example = read-join three_words (
  record { short = omega arith; solid = (refl, (refl, (refl, tt))) },
  (
    record { short = omega arith; solid = (refl, (refl, tt)) },
    (record { short = omega arith; solid = (refl, tt) }, tt),
  ),
)

binary_to_int-int_to_binary_example :
    (binary_to_int_32_bits (int_to_binary_32_bits 1000) ≡ some 1000)
    × (binary_to_int_8_bits (int_to_binary_8_bits 1000) ≡ some (1000 % 2 ^ 8))
binary_to_int-int_to_binary_example = binary_to_int-int_to_binary 1000 (omega arith)

get_value-int_to_char_example : get_value (int_to_char 2024) ≡ 2024
get_value-int_to_char_example = get_value-int_to_char 2024 (omega arith)
