-- ===== src/Cpu/Arithmetic.antt =====
-- What SET, SUM, SUB and JNZ of cpu/src/operations.c compute, and what they leave.
use native.Mathlib.Nat.{add-mod_right, mod-eq_of_lt, mod-lt, mod-add-mod}
use ronaldinh_os_sistemas_op.Common.{
  ℕ, ◌+◌, ◌-◌, ◌%◌, ◌<◌, ◌≤◌, ◌≡◌, ◌≢◌, ◌⊎◌, subst, refl, ◌∙◌, true, false, arith, u8_mod, u32_mod,
  Bool-cases, inl, inr,
}
use ronaldinh_os_sistemas_op.Cpu.Registers.{
  Register, pc, Registers, is_32_bits, modulus, get_register, write_register, set_register,
  sum_register, sub_register, jnz, Operation, sets, sums, subs, jumps, execute,
}

get_register-write_self :
    (r : Register) (v : ℕ) (rs : Registers) → get_register r (write_register r v rs) ≡ v
unfolding get_register write_register
get_register-write_self r v rs = ground arith

get_register-write_ne :
    (r q : Register) (v : ℕ) (rs : Registers)
    → r ≢ q
    → get_register q (write_register r v rs) ≡ get_register q rs
unfolding get_register write_register
get_register-write_ne r q v rs ne = ground arith

modulus-pos : (r : Register) → 0 < modulus r
unfolding modulus is_32_bits
modulus-pos r = ground arith

-- The register that an operation may write.
unfoldable pub target : Operation → Register
target (sets r value) = r
target (sums destiny origin) = destiny
target (subs destiny origin) = destiny
target (jumps r instruction) = pc

-- Every register holds a number of its width.
unfoldable pub InRange : Registers → Type 0
InRange rs = (r : Register) → get_register r rs < modulus r

get_register-set_ne :
    (r q : Register) (v : ℕ) (rs : Registers)
    → r ≢ q
    → get_register q (set_register r v rs) ≡ get_register q rs
unfolding set_register
get_register-set_ne r q v rs ne = get_register-write_ne r q (v % modulus r) rs ne

get_register-set_self :
    (r : Register) (v : ℕ) (rs : Registers) → get_register r (set_register r v rs) ≡ v % modulus r
unfolding set_register
get_register-set_self r v rs = get_register-write_self r (v % modulus r) rs

same_register : (r q : Register) → (r ≡ q) ⊎ (r ≢ q)
same_register r q = ground arith

pub set_register-InRange :
    (r : Register) (v : ℕ) (rs : Registers) → InRange rs → InRange (set_register r v rs)
unfolding InRange
set_register-InRange r v rs h q = elim (same_register r q) [
  | inl same ↦
      subst (λ p. get_register p (set_register r v rs) < modulus p) same
        (rw (get_register-set_self r v rs) (mod-lt v (modulus-pos r)))
  | inr ne ↦ rw (get_register-set_ne r q v rs ne) (h q)
]

-- Registers that hold numbers of their widths still do after any operation.
pub execute-InRange : (o : Operation) (rs : Registers) → InRange rs → InRange (execute o rs)
unfolding execute sum_register sub_register jnz
execute-InRange (sets r value) rs h = set_register-InRange r value rs h
execute-InRange (sums destiny origin) rs h =
    ground
      (arith, set_register-InRange destiny (get_register destiny rs + get_register origin rs) rs h)
execute-InRange (subs destiny origin) rs h = ground (
  arith,
  set_register-InRange destiny (get_register destiny rs + get_register origin rs) rs h,
  set_register-InRange destiny (get_register destiny rs + (u32_mod - get_register origin rs)) rs h,
  set_register-InRange destiny (get_register destiny rs + (u8_mod - get_register origin rs)) rs h,
)
execute-InRange (jumps r instruction) rs h =
    ground (arith, set_register-InRange pc instruction rs h)

-- An operation changes no register but its target: the destiny of SET, SUM and SUB, and PC of JNZ.
execute-others :
    (o : Operation) (rs : Registers) (q : Register)
    → target o ≢ q
    → get_register q (execute o rs) ≡ get_register q rs
unfolding execute target sum_register sub_register jnz
execute-others (sets r value) rs q ne = get_register-set_ne r q value rs ne
execute-others (sums destiny origin) rs q ne =
    ground
      (arith, get_register-set_ne destiny q (get_register destiny rs + get_register origin rs) rs)
execute-others (subs destiny origin) rs q ne = ground (
  arith,
  get_register-set_ne destiny q (get_register destiny rs + get_register origin rs) rs,
  get_register-set_ne destiny q (get_register destiny rs + (u32_mod - get_register origin rs)) rs,
  get_register-set_ne destiny q (get_register destiny rs + (u8_mod - get_register origin rs)) rs,
)
execute-others (jumps r instruction) rs q ne =
    ground (arith, get_register-set_ne pc q instruction rs)

back : (d o m : ℕ) → d < m → o ≤ m → ((d + o) % m + (m - o)) % m ≡ d
back d o m low h =
    mod-add-mod (d + o) m (m - o)
    ∙ (let all : d + o + (m - o) ≡ d + m = omega arith in
        rw (all, add-mod_right d m) (mod-eq_of_lt low))

-- Where the origin is no wider than the destiny, SUM adds and SUB subtracts, modulo the destiny.
sum_register-plain :
    (destiny origin : Register) (rs : Registers)
    → (is_32_bits destiny ≡ true) ⊎ (is_32_bits origin ≡ false)
    → sum_register destiny origin rs
      ≡ set_register destiny (get_register destiny rs + get_register origin rs) rs
unfolding sum_register
sum_register-plain destiny origin rs widths = elim (Bool-cases (is_32_bits destiny)) [
  | inl wide ↦ elim (Bool-cases (is_32_bits origin)) [
    | inl w ↦ rw (wide, w) refl
    | inr n ↦ rw (wide, n) refl
  ]
  | inr narrow ↦ elim widths [ inl wide ↦ cc | inr n ↦ rw (narrow, n) refl ]
]

sub_register-plain :
    (destiny origin : Register) (rs : Registers)
    → (is_32_bits destiny ≡ true) ⊎ (is_32_bits origin ≡ false)
    → sub_register destiny origin rs
      ≡ set_register destiny
          (get_register destiny rs + (modulus destiny - get_register origin rs))
          rs
unfolding sub_register modulus
sub_register-plain destiny origin rs widths = elim (Bool-cases (is_32_bits destiny)) [
  | inl wide ↦ elim (Bool-cases (is_32_bits origin)) [
    | inl w ↦ rw (wide, w) refl
    | inr n ↦ rw (wide, n) refl
  ]
  | inr narrow ↦ elim widths [ inl wide ↦ cc | inr n ↦ rw (narrow, n) refl ]
]

modulus-le :
    (destiny origin : Register)
    → (is_32_bits destiny ≡ true) ⊎ (is_32_bits origin ≡ false)
    → modulus origin ≤ modulus destiny
unfolding modulus
modulus-le destiny origin widths = ground arith

-- SUB takes back what SUM added to another register, for every pair of widths but an 8-bit destiny
-- with a 32-bit origin.
pub sub-sum :
    (destiny origin : Register) (rs : Registers)
    → InRange rs
    → destiny ≢ origin
    → (is_32_bits destiny ≡ true) ⊎ (is_32_bits origin ≡ false)
    → get_register destiny (sub_register destiny origin (sum_register destiny origin rs))
      ≡ get_register destiny rs
unfolding InRange
sub-sum destiny origin rs h ne widths =
    let d = get_register destiny rs in
    let o = get_register origin rs in
    let after = sum_register destiny origin rs in
    let sum = sum_register-plain destiny origin rs widths in
    let new : get_register destiny after ≡ (d + o) % modulus destiny =
      rw sum (get_register-set_self destiny (d + o) rs) in
    let same : get_register origin after ≡ o =
      rw sum (get_register-set_ne destiny origin (d + o) rs ne) in
    let fits : o ≤ modulus destiny = omega (arith, h origin, modulus-le destiny origin widths) in
    rw (sub_register-plain destiny origin after widths) (
      get_register-set_self destiny _ after
      ∙ rw (new, same) (back d o (modulus destiny) (h destiny) fits))

-- With an 8-bit destiny and a 32-bit origin SUB does what SUM does.
sub_register-adds :
    (destiny origin : Register) (rs : Registers)
    → is_32_bits destiny ≡ false
    → is_32_bits origin ≡ true
    → sub_register destiny origin rs ≡ sum_register destiny origin rs
unfolding sum_register sub_register
sub_register-adds destiny origin rs narrow wide = rw (narrow, wide) refl
