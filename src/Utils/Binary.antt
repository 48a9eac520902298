-- ===== src/Utils/Binary.antt =====
-- The binary texts of utils/src/utils.c: `intToBinary8Bits`, `intToBinary32Bits` and their inverses.
use native.Mathlib.Nat.{div-add-mod', mod-lt, mod-eq_of_lt, mul-add-mod_self_right, pow-suc}
use ronaldinh_os_sistemas_op.Common.{
  ℕ, zero, suc, ◌+◌, ◌-◌, ◌*◌, ◌/◌, ◌%◌, ◌^◌, ◌<◌, ◌≡◌, refl, sym, ap, ◌∙◌, List, [], ◌∷◌, Option,
  none, some, arith, ◌==◌, if◌then◌else◌, length,
}

-- The loop over the bits of a number, from the highest of `width` bits on, as the digits '0' and '1'.
unfoldable pub to_digits : ℕ → ℕ → List ℕ
to_digits zero num = []
to_digits (suc i) num = (48 + num / 2 ^ i % 2) ∷ to_digits i num

-- `intToBinary8Bits` and `intToBinary32Bits`; a negative number is given by its 32 bits.
unfoldable pub int_to_binary_8_bits : ℕ → List ℕ
unfolding to_digits
int_to_binary_8_bits num = to_digits 8 (num % 2 ^ 8)

unfoldable pub int_to_binary_32_bits : ℕ → List ℕ
unfolding to_digits
int_to_binary_32_bits num = to_digits 32 num

-- The loop `result = (result << 1) | digit`.
unfoldable pub from_digits : ℕ → List ℕ → ℕ
from_digits result [] = result
from_digits result (d ∷ ds) = from_digits (result * 2 + (d - 48)) ds

-- `binaryToInt8Bits` and `binaryToInt32Bits`, read as unsigned; `none` is the answer -1.
unfoldable pub binary_to_int_8_bits : List ℕ → Option ℕ
unfolding from_digits
binary_to_int_8_bits ds = if length ds == 8 then some (from_digits 0 ds) else none

unfoldable pub binary_to_int_32_bits : List ℕ → Option ℕ
unfolding from_digits
binary_to_int_32_bits ds = if length ds == 32 then some (from_digits 0 ds) else none

pub length-to_digits : (width num : ℕ) → length (to_digits width num) ≡ width
unfolding to_digits
length-to_digits zero num = refl
length-to_digits (suc i) num = ap suc (length-to_digits i num)

two_pow-pos : (n : ℕ) → 0 < 2 ^ n
two_pow-pos zero = omega arith
two_pow-pos (suc n) = rw (pow-suc 2 n) (omega (arith, two_pow-pos n))

low_part : (b m r : ℕ) → b < 2 → r < m → b * m + r < m * 2
low_part zero m r h k = omega arith
low_part (suc zero) m r h k = omega arith
low_part (suc (suc b)) m r h k = absurd (omega arith)

-- The lowest `width + 1` bits are the highest of them and the others.
high_bit : (width num : ℕ) → num % 2 ^ suc width ≡ num / 2 ^ width % 2 * 2 ^ width + num % 2 ^ width
high_bit width num =
    let m = 2 ^ width in
    let q = num / m in
    let pos : 0 < m = two_pow-pos width in
    let parts : q * m + num % m ≡ num = div-add-mod' num m in
    let halves : q / 2 * 2 + q % 2 ≡ q = div-add-mod' q 2 in
    let wide : (q / 2 * 2 + q % 2) * m ≡ q * m = ap (λ (t : ℕ). t * m) halves in
    let split : q / 2 * (m * 2) + (q % 2 * m + num % m) ≡ num = omega arith in
    let low : q % 2 * m + num % m < m * 2 =
      low_part (q % 2) m (num % m) (mod-lt q (omega arith)) (mod-lt num pos) in
    rw (pow-suc 2 width) (
      ap (λ t. t % (m * 2)) (sym split)
      ∙ mul-add-mod_self_right (q / 2) (m * 2) (q % 2 * m + num % m)
      ∙ mod-eq_of_lt low)

from-to_digits :
    (width num result : ℕ)
    → from_digits result (to_digits width num) ≡ result * 2 ^ width + num % 2 ^ width
unfolding to_digits from_digits
from-to_digits zero num result = omega arith
from-to_digits (suc i) num result =
    let digit : 48 + num / 2 ^ i % 2 - 48 ≡ num / 2 ^ i % 2 = omega arith in
    let shift : 2 ^ suc i ≡ 2 ^ i * 2 = pow-suc 2 i in
    ap (λ d. from_digits (result * 2 + d) (to_digits i num)) digit
    ∙ from-to_digits i num (result * 2 + num / 2 ^ i % 2)
    ∙ rw (high_bit i num, shift) (omega arith)

-- A number of 32 bits is what its binary text of 32 digits is read as, and any number's text of 8
-- digits is read as its low byte.
pub binary_to_int-int_to_binary :
    (num : ℕ)
    → num < 2 ^ 32
    → (binary_to_int_32_bits (int_to_binary_32_bits num) ≡ some num)
      × (binary_to_int_8_bits (int_to_binary_8_bits num) ≡ some (num % 2 ^ 8))
unfolding binary_to_int_32_bits int_to_binary_32_bits binary_to_int_8_bits int_to_binary_8_bits
binary_to_int-int_to_binary num h = (
  rw (length-to_digits 32 num, from-to_digits 32 num 0, mod-eq_of_lt h) (ap some (omega arith)),
  rw (length-to_digits 8 (num % 2 ^ 8), from-to_digits 8 (num % 2 ^ 8) 0) (ap some (omega arith)),
)
