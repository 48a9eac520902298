-- ===== src/Utils/Numbers.antt =====
-- Numbers as texts: `getValue`, `intToChar` of utils/src/utils.c, and `uint32ToChar`
-- of entradasalida/src/utils_io.c.
use ronaldinh_os_sistemas_op.Common.{
  ℕ, zero, suc, ◌+◌, ◌-◌, ◌*◌, ◌/◌, ◌%◌, ◌^◌, ◌<◌, ◌≤◌, ◌≡◌, refl, ap, ◌∙◌, List, [], ◌∷◌, Bool,
  true, false, arith, ◌==◌, ◌&&◌, if◌then◌else◌, leb, ltb, Bool-cases, inl, inr, length,
}

-- `isdigit`.
unfoldable pub is_digit : ℕ → Bool
is_digit c = leb 48 c && leb c 57

unfoldable pub all_digits : List ℕ → Bool
unfolding is_digit
all_digits [] = true
all_digits (c ∷ cs) = is_digit c && all_digits cs

-- The value of some digits, behind others.
unfoldable pub parse_from : ℕ → List ℕ → ℕ
parse_from acc [] = acc
parse_from acc (c ∷ cs) = parse_from (acc * 10 + (c - 48)) cs

-- `strtol` of a text that starts with a digit or a sign, in 64 bits, and the `int` it is stored in, by
-- its 32 bits; 0 where the text is not a number to its end.
unfoldable pub strtol_int : Bool → List ℕ → ℕ
unfolding all_digits parse_from
strtol_int negative [] = 0
strtol_int negative (c ∷ cs) =
    let value = parse_from 0 (c ∷ cs) in
    if all_digits (c ∷ cs)
    then (if negative
        then (2 ^ 32 - (if leb value (2 ^ 63) then value else 2 ^ 63) % 2 ^ 32) % 2 ^ 32
        else (if ltb value (2 ^ 63) then value else 2 ^ 63 - 1) % 2 ^ 32)
    else 0

-- `getValue`.
unfoldable pub get_value : List ℕ → ℕ
unfolding strtol_int
get_value [] = 0
get_value (c ∷ cs) = if c == 45 then strtol_int true cs else strtol_int false (c ∷ cs)

-- The decimal digits of a number, before a text, on fuel.
unfoldable pub decimal_from : ℕ → ℕ → List ℕ → List ℕ
decimal_from zero n rest = rest
decimal_from (suc fuel) n rest =
    let more = decimal_from fuel (n / 10) ((48 + n % 10) ∷ rest) in
    if ltb n 10 then (48 + n) ∷ rest else more

-- `intToChar`, `uint32ToChar` and the `%u` and `%d` of `sprintf`, of a number that is not negative.
unfoldable pub int_to_char : ℕ → List ℕ
unfolding decimal_from
int_to_char n = decimal_from (n + 1) n []

parse-decimal_from :
    (fuel n : ℕ) (rest : List ℕ)
    → n < fuel
    → parse_from 0 (decimal_from fuel n rest) ≡ parse_from n rest
unfolding decimal_from parse_from
parse-decimal_from zero n rest h = absurd (omega arith)
parse-decimal_from (suc fuel) n rest h = elim (Bool-cases (ltb n 10)) [
  | inl small ↦
      rw small (let e : 0 * 10 + (48 + n - 48) ≡ n = omega arith in ap (λ v. parse_from v rest) e)
  | inr big ↦
      let ten : 10 ≤ n = ground arith in
      let e : n / 10 * 10 + (48 + n % 10 - 48) ≡ n = omega arith in
      rw big (
        parse-decimal_from fuel (n / 10) ((48 + n % 10) ∷ rest) (omega arith)
        ∙ ap (λ v. parse_from v rest) e)
]

is_digit-add : (d : ℕ) → d < 10 → is_digit (48 + d) ≡ true
unfolding is_digit
is_digit-add d h = ground arith

digits-decimal_from :
    (fuel n : ℕ) (rest : List ℕ)
    → all_digits rest ≡ true
    → all_digits (decimal_from fuel n rest) ≡ true
unfolding decimal_from all_digits
digits-decimal_from zero n rest h = h
digits-decimal_from (suc fuel) n rest h = elim (Bool-cases (ltb n 10)) [
  | inl small ↦ rw small (rw (is_digit-add n (ground arith)) h)
  | inr big ↦ rw big (
      digits-decimal_from fuel (n / 10) ((48 + n % 10) ∷ rest)
        (rw (is_digit-add (n % 10) (omega arith)) h))
]

digit-ne-minus : (c : ℕ) (b : Bool) → (is_digit c && b) ≡ true → (c == 45) ≡ false
unfolding is_digit
digit-ne-minus c b h = ground arith

get_value-digits :
    (t : List ℕ) → all_digits t ≡ true → parse_from 0 t < 2 ^ 32 → get_value t ≡ parse_from 0 t
unfolding get_value parse_from
get_value-digits [] h k = refl
get_value-digits (c ∷ cs) h k =
    let value = parse_from 0 (c ∷ cs) in
    let small : ltb value (2 ^ 63) ≡ true = ground arith in
    let e : value % 2 ^ 32 ≡ value = omega arith in
    rw (digit-ne-minus c (all_digits cs) h, strtol_int, h, small) e

-- The powers of ten, for the number of digits.
unfoldable pub ten_power : ℕ → ℕ
ten_power zero = 1
ten_power (suc k) = 10 * ten_power k

length-decimal_from :
    (fuel k n : ℕ) (rest : List ℕ)
    → n < 10 * ten_power k
    → length (decimal_from fuel n rest) ≤ suc k + length rest
unfolding decimal_from ten_power
length-decimal_from zero k n rest h = omega arith
length-decimal_from (suc fuel) zero n rest h =
    let small : ltb n 10 ≡ true = ground arith in rw small (omega arith)
length-decimal_from (suc fuel) (suc k) n rest h = elim (Bool-cases (ltb n 10)) [
  | inl small ↦ rw small (omega arith)
  | inr big ↦
      rw big
        (omega (arith, length-decimal_from fuel k (n / 10) ((48 + n % 10) ∷ rest) (omega arith)))
]

-- A number of 32 bits has at most ten digits.
pub length-int_to_char : (n : ℕ) → n < 2 ^ 32 → length (int_to_char n) ≤ 10
unfolding int_to_char ten_power
length-int_to_char n h = length-decimal_from (n + 1) 9 n [] (omega arith)

-- A text of digits behind a minus sign, by its 32 bits.
pub get_value-minus :
    (t : List ℕ)
    → all_digits t ≡ true
    → 0 < parse_from 0 t
    → parse_from 0 t < 2 ^ 32
    → get_value (45 ∷ t) ≡ 2 ^ 32 - parse_from 0 t
unfolding get_value strtol_int parse_from
get_value-minus [] digits pos small = absurd (omega arith)
get_value-minus (c ∷ cs) digits pos small =
    let low : leb (parse_from 0 (c ∷ cs)) (2 ^ 63) ≡ true = ground arith in
    rw (strtol_int, digits, low) (omega arith)

pub all_digits-int_to_char : (n : ℕ) → all_digits (int_to_char n) ≡ true
unfolding int_to_char all_digits
all_digits-int_to_char n = digits-decimal_from (n + 1) n [] refl

pub parse-int_to_char : (n : ℕ) → parse_from 0 (int_to_char n) ≡ n
unfolding int_to_char parse_from
parse-int_to_char n = parse-decimal_from (n + 1) n [] (omega arith)

-- The decimal text of a number below 2^32, as uint32ToChar writes it, and intToChar one below 2^31, is
-- read back by getValue as the same 32 bits.
pub get_value-int_to_char : (n : ℕ) → n < 2 ^ 32 → get_value (int_to_char n) ≡ n
get_value-int_to_char n h =
    let value = parse-int_to_char n in
    get_value-digits (int_to_char n) (all_digits-int_to_char n) (omega (arith, value)) ∙ value
