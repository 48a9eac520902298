-- ===== src/Fs/Relocate.antt =====
-- Where a file without a block goes: `canRelocate` of entradasalida/src/utils_io.c.
use ronaldinh_os_sistemas_op.Common.{
  ℕ, zero, suc, ◌+◌, Option, none, some, ◌==◌, ltb, if◌then◌else◌,
}
use ronaldinh_os_sistemas_op.Common.Bits.{Bitarray}

-- The place that a round tests: the blocks of the file itself are skipped.
unfoldable pub candidate : ℕ → ℕ → ℕ → ℕ
candidate initial_block file_blocks i =
    if i == initial_block then file_blocks + initial_block else i

module _ {B : Type 0} ⦃ba : Bitarray B⦄ where
  -- The inner loop, with the value of its `j` at the end: it tests the bit `i` in every round.
  unfoldable pub tested : B → ℕ → ℕ → ℕ
  tested bitmap i zero = 0
  tested bitmap i (suc left) =
      let rest = tested bitmap i left in if ba.test_bit bitmap i then 0 else 1 + rest

  -- The outer loop, on fuel. `none` is a run out of fuel, and `some none` the answer -1.
  unfoldable pub can_relocate_from : ℕ → B → ℕ → ℕ → ℕ → ℕ → ℕ → Option (Option ℕ)
  unfolding tested candidate
  can_relocate_from zero bitmap max_bit initial_block file_blocks necessary_blocks i = none
  can_relocate_from (suc fuel) bitmap max_bit initial_block file_blocks necessary_blocks i =
      let place = candidate initial_block file_blocks i in
      let j = tested bitmap place necessary_blocks in
      let rest =
        can_relocate_from fuel bitmap max_bit initial_block file_blocks necessary_blocks
          (place + (j + 1)) in
      if ltb i max_bit
      then (if j == necessary_blocks then some (some place) else rest)
      else some none

  -- `canRelocate`, for a bitmap of so many bits.
  unfoldable pub can_relocate : B → ℕ → ℕ → ℕ → ℕ → Option (Option ℕ)
  unfolding can_relocate_from
  can_relocate bitmap max_bit initial_block file_blocks necessary_blocks =
      can_relocate_from (max_bit + 1) bitmap max_bit initial_block file_blocks necessary_blocks 0
