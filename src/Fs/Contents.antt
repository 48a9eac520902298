-- ===== src/Fs/Contents.antt =====
-- What a file of the interfaces holds: `fsWrite` and `fsRead`, and the blocks that it takes.
use native.Mathlib.Nat.{mod-eq_of_lt, div-eq_of_lt, div-add-mod', mod-lt, suc-mul}
use ronaldinh_os_sistemas_op.Common.{
  ℕ, zero, suc, ◌+◌, ◌-◌, ◌*◌, ◌/◌, ◌%◌, ◌^◌, ◌<◌, ◌≤◌, ◌≡◌, ◌⊎◌, refl, sym, subst, ◌∙◌, List, ◌++◌,
  true, false, arith, ◌==◌, if◌then◌else◌, length, All, Bool-cases, inl, inr, ceil_div, ◌↔◌, dec_lt,
}
use ronaldinh_os_sistemas_op.Common.Bits.{Bitarray}
use ronaldinh_os_sistemas_op.Common.Division.{ceil_div_unique}
use ronaldinh_os_sistemas_op.Fs.Blocks.{
  blocks_per_bits, next_blocks_avaiable, fs_write, read_data, fs_read,
}
use ronaldinh_os_sistemas_op.Fs.Bitwise.{IsCharacter, read-write_data, test_bit-write_data}

one_less_mul : (q b : ℕ) → 0 < q → (q - 1) * b + b ≡ q * b
one_less_mul zero b h = absurd (omega arith)
one_less_mul (suc k) b h =
    let less : suc k - 1 ≡ k = omega arith in rw (less, suc-mul k b) (omega arith)

-- The number of blocks of a file that is not empty is its size in blocks, rounded up, when the sum
-- of the two sizes fits in 32 bits; an empty file has one block.
pub blocks_per_bits-ceil_div :
    (block_size bytes : ℕ)
    → 0 < block_size
    → bytes + block_size ≤ 2 ^ 32
    → blocks_per_bits block_size bytes ≡ (if bytes == 0 then 1 else ceil_div bytes block_size)
unfolding blocks_per_bits
blocks_per_bits-ceil_div block_size bytes pos fits =
    let small : bytes + block_size - 1 < 2 ^ 32 = omega arith in
    let total = bytes + block_size - 1 in
    let parts : total / block_size * block_size + total % block_size ≡ total =
      div-add-mod' total block_size in
    let low : total % block_size < block_size = mod-lt total pos in
    rw (mod-eq_of_lt small) (elim (dec_lt 0 bytes) [
      | yes some_bytes ↦
          let q = total / block_size in
          let q_pos : 0 < q = grind arith in
          let less : (q - 1) * block_size + block_size ≡ q * block_size =
            one_less_mul q block_size q_pos in
          let blocks : ceil_div bytes block_size ≡ q =
            ceil_div_unique q bytes block_size pos some_bytes (omega arith) (omega arith) in
          ground arith
      | no none_left ↦
          let q_zero : total / block_size ≡ 0 = div-eq_of_lt (omega arith) in
          rw q_zero (ground arith)
    ])

module _ {B : Type 0} ⦃ba : Bitarray B⦄ where
  -- The blocks behind a file are available when, and only when, the bitmap has none of them.
  pub next_blocks_avaiable-free :
      (bitmap : B) (start_index count : ℕ)
      → (next_blocks_avaiable bitmap start_index count ≡ true)
        ↔ ((i : ℕ) → start_index ≤ i → i < start_index + count → ba.test_bit bitmap i ≡ false)
  unfolding next_blocks_avaiable
  next_blocks_avaiable-free bitmap start_index zero = (λ h i lo hi. absurd (omega arith), λ h. refl)
  next_blocks_avaiable-free bitmap start_index (suc count) =
      let (into, back) = next_blocks_avaiable-free bitmap (start_index + 1) count in
      elim (Bool-cases (ba.test_bit bitmap start_index)) [
        | inl e ↦ rw e (
          λ h. absurd (ground arith),
          λ free. sym (free start_index (omega arith) (omega arith)) ∙ e,
        )
        | inr e ↦ rw e (
          λ h i lo hi. elim (dec_lt start_index i) [
            | yes p ↦ into h i (omega arith) (omega arith)
            | no p ↦
                let same : start_index ≡ i = omega arith in
                subst (λ j. ba.test_bit bitmap j ≡ false) same e
          ],
          λ free. back (λ i lo hi. free i (omega arith) (omega arith)),
        )
      ]

  -- A text that is written to a file is read back from the same place, when each of its characters is
  -- a byte other than 0. A read of as many bytes returns one byte more: after the text there comes
  -- what the blocks held behind it before, which is nothing when that byte was 0.
  pub fs_read-fs_write :
      (block_size initial_block pointer : ℕ) (text : List ℕ) (blocks : B)
      → All IsCharacter text
      → fs_read block_size initial_block pointer
          (length text)
          (fs_write block_size initial_block pointer text blocks)
        ≡ text
          ++ read_data 1
              ((initial_block * block_size * 8 + pointer) % 2 ^ 32 + 8 * length text)
              blocks
  unfolding fs_read fs_write
  fs_read-fs_write block_size initial_block pointer text blocks h =
      read-write_data text 1 ((initial_block * block_size * 8 + pointer) % 2 ^ 32) blocks h

  -- A write to a file changes no bit outside the bits of its text.
  pub test_bit-fs_write :
      (block_size initial_block pointer : ℕ) (text : List ℕ) (blocks : B) (j : ℕ)
      → (j < (initial_block * block_size * 8 + pointer) % 2 ^ 32)
        ⊎ ((initial_block * block_size * 8 + pointer) % 2 ^ 32 + 8 * length text ≤ j)
      → ba.test_bit (fs_write block_size initial_block pointer text blocks) j ≡ ba.test_bit blocks j
  unfolding fs_write
  test_bit-fs_write block_size initial_block pointer text blocks j h =
      test_bit-write_data text ((initial_block * block_size * 8 + pointer) % 2 ^ 32) blocks j h
