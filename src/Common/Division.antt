-- ===== src/Common/Division.antt =====
-- Rounding up: `ceil((double) n / unit)` for the sizes that the program divides.
use native.Mathlib.Nat.{zero-mod, zero-div, div-add-mod', mod-lt, div-mul-le_self, lt-div-mul-add}
use ronaldinh_os_sistemas_op.Common.{
  ℕ, ◌+◌, ◌-◌, ◌*◌, ◌/◌, ◌%◌, ◌<◌, ◌≤◌, ◌≡◌, refl, sym, ap, inl, inr, arith, ceil_div, dec_lt,
  Bool-cases, ◌==◌,
}

pub ceil_div-zero : (unit : ℕ) → ceil_div 0 unit ≡ 0
unfolding ceil_div
ceil_div-zero unit = rw (zero-mod unit, zero-div unit) refl

pub le-ceil_div : (n unit : ℕ) → 0 < unit → n ≤ ceil_div n unit * unit
unfolding ceil_div
le-ceil_div n unit h = elim (Bool-cases (n % unit == 0)) [
  | inl e ↦ rw e (let z : n % unit ≡ 0 = ground arith in omega (arith, div-add-mod' n unit))
  | inr e ↦ rw e (let w = mod-lt n h in grind (arith, div-add-mod' n unit))
]

pub ceil_div-lo : (n unit : ℕ) → 0 < unit → 0 < n → (ceil_div n unit - 1) * unit < n
unfolding ceil_div
ceil_div-lo n unit h pos = elim (Bool-cases (n % unit == 0)) [
  | inl e ↦ rw e (let z : n % unit ≡ 0 = ground arith in grind (arith, div-add-mod' n unit))
  | inr e ↦ rw e (let z : 0 < n % unit = ground arith in grind (arith, div-add-mod' n unit))
]

blocks-le : (a b unit n : ℕ) → (a - 1) * unit < n → n ≤ b * unit → a ≤ b
blocks-le a b unit n h k = elim (dec_lt b a) [
  | yes p ↦
      let q : b ≤ a - 1 = omega arith in
      let r : b * unit ≤ (a - 1) * unit = grind arith in absurd (omega arith)
  | no p ↦ omega arith
]

-- Only one number of blocks is just enough.
pub ceil_div_unique :
    (b n unit : ℕ) → 0 < unit → 0 < n → (b - 1) * unit < n → n ≤ b * unit → ceil_div n unit ≡ b
ceil_div_unique b n unit h pos lo hi = omega (
  arith,
  blocks-le (ceil_div n unit) b unit n (ceil_div-lo n unit h pos) hi,
  blocks-le b (ceil_div n unit) unit n lo (le-ceil_div n unit h),
)

pub ceil_div-pos : (n unit : ℕ) → 0 < unit → 0 < n → 0 < ceil_div n unit
ceil_div-pos n unit h pos =
    let hi = le-ceil_div n unit h in
    elim (dec_lt 0 (ceil_div n unit)) [
      | yes p ↦ p
      | no p ↦ let z : ceil_div n unit ≡ 0 = omega arith in absurd (grind arith)
    ]

-- What is missing to `n` behind `c` full blocks.
pub ceil_div-extend :
    (c n unit : ℕ) → 0 < unit → c * unit < n → c + ceil_div (n - c * unit) unit ≡ ceil_div n unit
ceil_div-extend c n unit h long =
    let d = n - c * unit in
    let pos : 0 < d = omega arith in
    let lo = ceil_div-lo d unit h pos in
    let hi = le-ceil_div d unit h in
    let some_more = ceil_div-pos d unit h pos in
    sym (
      ceil_div_unique (c + ceil_div d unit) n unit h (omega arith)
        (shift_lo c (ceil_div d unit) unit n some_more lo long)
        (shift_hi c (ceil_div d unit) unit n hi))
  where
    shift_lo : (c e u n : ℕ) → 0 < e → (e - 1) * u < n - c * u → c * u < n → (c + e - 1) * u < n
    shift_lo c e u n p l q = let w : c + e - 1 ≡ c + (e - 1) = omega arith in rw w (omega arith)

    shift_hi : (c e u n : ℕ) → n - c * u ≤ e * u → n ≤ (c + e) * u
    shift_hi c e u n l = grind arith

pub quotient-lt : (c q u n : ℕ) → q * u ≤ n → n < c * u → q < c
quotient-lt c q u n h k = elim (dec_lt q c) [
  | yes p ↦ p
  | no p ↦ let r : c * u ≤ q * u = grind arith in absurd (omega arith)
]

cut_lo : (c q u n : ℕ) → q < c → n < q * u + u → (c - q - 1) * u < c * u - n
cut_lo c q u n p h =
    let w : c ≡ q + 1 + (c - q - 1) = omega arith in
    let v : c * u ≡ (q + 1 + (c - q - 1)) * u = ap (λ (t : ℕ). t * u) w in omega arith

cut_hi : (c q u n : ℕ) → q < c → q * u ≤ n → c * u - n ≤ (c - q) * u
cut_hi c q u n p h =
    let w : c ≡ q + (c - q) = omega arith in
    let v : c * u ≡ (q + (c - q)) * u = ap (λ (t : ℕ). t * u) w in omega arith

-- The blocks in front of `n`, counted from the end of `c` blocks.
pub ceil_div-reduce :
    (c n unit : ℕ) → 0 < unit → n < c * unit → ceil_div (c * unit - n) unit ≡ c - n / unit
ceil_div-reduce c n unit h short =
    let lo = div-mul-le_self n unit in
    let hi : n < n / unit * unit + unit = lt-div-mul-add h in
    ceil_div_unique (c - n / unit) (c * unit - n) unit h (omega arith)
      (cut_lo c (n / unit) unit n (quotient-lt c (n / unit) unit n lo short) hi)
      (cut_hi c (n / unit) unit n (quotient-lt c (n / unit) unit n lo short) lo)
