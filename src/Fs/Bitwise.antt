-- ===== src/Fs/Bitwise.antt =====
-- What `fsRead` finds behind `fsWrite`, in entradasalida/src/utils_io.c.
use native.Mathlib.Nat.{mod-eq_of_lt}
use ronaldinh_os_sistemas_op.Common.{
  ℕ, zero, suc, ◌+◌, ◌-◌, ◌*◌, ◌%◌, ◌^◌, ◌<◌, ◌≤◌, ◌≡◌, ◌⊎◌, refl, ap, subst, ◌∙◌, List, [], ◌∷◌,
  ◌++◌, some, arith, ◌==◌, if◌then◌else◌, length, All, inl, inr,
}
use ronaldinh_os_sistemas_op.Common.Bits.{Bitarray}
use ronaldinh_os_sistemas_op.Utils.Binary.{
  to_digits, length-to_digits, int_to_binary_8_bits, binary_to_int_8_bits,
  binary_to_int-int_to_binary,
}
use ronaldinh_os_sistemas_op.Fs.Blocks.{
  write_bits, write_data, read_bits, read_data, append_character,
}

-- A digit is '0' or '1'.
IsDigit : ℕ → Type 0
IsDigit d = (d ≡ 48) ⊎ (d ≡ 49)

to_digits-IsDigit : (width num : ℕ) → All IsDigit (to_digits width num)
unfolding to_digits IsDigit
to_digits-IsDigit zero num = tt
to_digits-IsDigit (suc i) num = (omega arith, to_digits-IsDigit i num)

length-byte : (c : ℕ) → length (int_to_binary_8_bits c) ≡ 8
unfolding int_to_binary_8_bits
length-byte c = length-to_digits 8 (c % 2 ^ 8)

byte-IsDigit : (c : ℕ) → All IsDigit (int_to_binary_8_bits c)
unfolding int_to_binary_8_bits
byte-IsDigit c = to_digits-IsDigit 8 (c % 2 ^ 8)

-- A byte of a text is not the zero byte that ends it.
unfoldable pub IsCharacter : ℕ → Type 0
IsCharacter c = (0 < c) × (c < 256)

byte-value : (c : ℕ) → IsCharacter c → binary_to_int_8_bits (int_to_binary_8_bits c) ≡ some c
unfolding IsCharacter
byte-value c h = (binary_to_int-int_to_binary c (omega arith)).1 ∙ ap some (mod-eq_of_lt (h.1))

append-IsCharacter :
    (c : ℕ) (rest : List ℕ) → IsCharacter c → append_character (some c) rest ≡ c ∷ rest
unfolding IsCharacter append_character
append-IsCharacter c rest h = ground arith

module _ {B : Type 0} ⦃ba : Bitarray B⦄ where
  -- One digit of `write_bits`.
  abbrev write_one : ℕ → ℕ → B → B
  write_one d dir blocks = if d - 48 == 0 then ba.clean_bit blocks dir else ba.set_bit blocks dir

  test_bit-write_one_ne :
      (d dir : ℕ) (blocks : B) (j : ℕ)
      → (j < dir) ⊎ (dir < j)
      → ba.test_bit (write_one d dir blocks) j ≡ ba.test_bit blocks j
  test_bit-write_one_ne d dir blocks j h =
      ground (arith, ba.test-set blocks dir j, ba.test-clean blocks dir j)

  digit-write_one :
      (d dir : ℕ) (blocks : B)
      → IsDigit d
      → 48 + (if ba.test_bit (write_one d dir blocks) dir then 1 else 0) ≡ d
  unfolding IsDigit
  digit-write_one d dir blocks h =
      ground (arith, ba.test-set blocks dir dir, ba.test-clean blocks dir dir)

  test_bit-write_bits :
      (ds : List ℕ) (dir : ℕ) (blocks : B) (j : ℕ)
      → (j < dir) ⊎ (dir + length ds ≤ j)
      → ba.test_bit (write_bits ds dir blocks) j ≡ ba.test_bit blocks j
  unfolding write_bits
  test_bit-write_bits [] dir blocks j h = refl
  test_bit-write_bits (d ∷ ds) dir blocks j h =
      test_bit-write_bits ds (dir + 1) (write_one d dir blocks) j (grind arith)
      ∙ test_bit-write_one_ne d dir blocks j (grind arith)

  read-write_bits :
      (ds : List ℕ) (dir : ℕ) (blocks : B)
      → All IsDigit ds
      → read_bits (length ds) dir (write_bits ds dir blocks) ≡ ds
  unfolding write_bits read_bits
  read-write_bits [] dir blocks h = refl
  read-write_bits (d ∷ ds) dir blocks h =
      let next = write_one d dir blocks in
      let kept = test_bit-write_bits ds (dir + 1) next dir (inl (omega arith)) in
      rw (kept, digit-write_one d dir blocks h.0)
        (ap (◌∷◌ d) (read-write_bits ds (dir + 1) next h.1))

  pub test_bit-write_data :
      (cs : List ℕ) (dir : ℕ) (blocks : B) (j : ℕ)
      → (j < dir) ⊎ (dir + 8 * length cs ≤ j)
      → ba.test_bit (write_data cs dir blocks) j ≡ ba.test_bit blocks j
  unfolding write_data
  test_bit-write_data [] dir blocks j h = refl
  test_bit-write_data (c ∷ cs) dir blocks j h =
      let l = length-byte c in
      test_bit-write_data cs (dir + 8) (write_bits (int_to_binary_8_bits c) dir blocks) j
        (grind arith)
      ∙ test_bit-write_bits (int_to_binary_8_bits c) dir blocks j (grind arith)

  -- A read depends on the bits that it reads.
  read_bits-same :
      (n dir : ℕ) (a b : B)
      → ((j : ℕ) → j < dir + n → ba.test_bit a j ≡ ba.test_bit b j)
      → read_bits n dir a ≡ read_bits n dir b
  unfolding read_bits
  read_bits-same zero dir a b h = refl
  read_bits-same (suc n) dir a b h = rw (h dir (omega arith)) (
      ap (◌∷◌ (48 + (if ba.test_bit b dir then 1 else 0)))
        (read_bits-same n (dir + 1) a b (λ j low. h j (omega arith))))

  read_bits-above :
      (n dir : ℕ) (a b : B)
      → ((j : ℕ) → dir ≤ j → ba.test_bit a j ≡ ba.test_bit b j)
      → read_bits n dir a ≡ read_bits n dir b
  unfolding read_bits
  read_bits-above zero dir a b h = refl
  read_bits-above (suc n) dir a b h = rw (h dir (omega arith)) (
      ap (◌∷◌ (48 + (if ba.test_bit b dir then 1 else 0)))
        (read_bits-above n (dir + 1) a b (λ j low. h j (omega arith))))

  read_data-above :
      (n dir : ℕ) (a b : B)
      → ((j : ℕ) → dir ≤ j → ba.test_bit a j ≡ ba.test_bit b j)
      → read_data n dir a ≡ read_data n dir b
  unfolding read_data
  read_data-above zero dir a b h = refl
  read_data-above (suc n) dir a b h =
      ap (λ ds. append_character (binary_to_int_8_bits ds) (read_data n (dir + 8) a))
        (read_bits-above 8 dir a b h)
      ∙ ap (append_character (binary_to_int_8_bits (read_bits 8 dir b)))
          (read_data-above n (dir + 8) a b (λ j low. h j (omega arith)))

  -- The byte that stands at its own place after the whole text is written.
  byte-write_data :
      (c : ℕ) (cs : List ℕ) (dir : ℕ) (blocks : B)
      → read_bits 8 dir (write_data (c ∷ cs) dir blocks) ≡ int_to_binary_8_bits c
  unfolding write_data
  byte-write_data c cs dir blocks =
      let next = write_bits (int_to_binary_8_bits c) dir blocks in
      read_bits-same 8 dir (write_data cs (dir + 8) next) next
        (λ j low. test_bit-write_data cs (dir + 8) next j (inl low))
      ∙ subst (λ k. read_bits k dir next ≡ int_to_binary_8_bits c) (length-byte c)
          (read-write_bits (int_to_binary_8_bits c) dir blocks (byte-IsDigit c))

  pub read-write_data :
      (cs : List ℕ) (n dir : ℕ) (blocks : B)
      → All IsCharacter cs
      → read_data (length cs + n) dir (write_data cs dir blocks)
        ≡ cs ++ read_data n (dir + 8 * length cs) blocks
  unfolding read_data write_data append_character
  read-write_data [] n dir blocks h =
      let left : 0 + n ≡ n = omega arith in
      let place : dir ≡ dir + 8 * 0 = omega arith in
      ap (λ k. read_data k dir blocks) left ∙ ap (λ d. read_data n d blocks) place
  read-write_data (c ∷ cs) n dir blocks h =
      let next = write_bits (int_to_binary_8_bits c) dir blocks in
      let final = write_data cs (dir + 8) next in
      let rest = read_data (length cs + n) (dir + 8) final in
      let place : dir + 8 + 8 * length cs ≡ dir + 8 * suc (length cs) = omega arith in
      let old = read_data-above n (dir + 8 + 8 * length cs) next blocks (λ j low.
        test_bit-write_bits (int_to_binary_8_bits c) dir blocks j
          (inr (rw (length-byte c) (omega arith)))) in
      let left : suc (length cs) + n ≡ suc (length cs + n) = omega arith in
      ap (λ k. read_data k dir final) left
      ∙ ap (λ ds. append_character (binary_to_int_8_bits ds) rest) (byte-write_data c cs dir blocks)
      ∙ ap (λ v. append_character v rest) (byte-value c h.0)
      ∙ append-IsCharacter c rest h.0
      ∙ ap (◌∷◌ c) (
          read-write_data cs n (dir + 8) next h.1
          ∙ ap (◌++◌ cs) (old ∙ ap (λ d. read_data n d blocks) place))
