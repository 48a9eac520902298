-- ===== src/Fs/Blocks.antt =====
-- The blocks file of entradasalida/src/utils_io.c: `fsWrite`, `fsRead`, and the bitmap's tests.
use ronaldinh_os_sistemas_op.Common.{
  ℕ, zero, suc, ◌+◌, ◌-◌, ◌*◌, ◌/◌, ◌%◌, ◌^◌, List, [], ◌∷◌, Bool, true, false, Option, none, some,
  ◌==◌, if◌then◌else◌,
}
use ronaldinh_os_sistemas_op.Common.Bits.{Bitarray}
use ronaldinh_os_sistemas_op.Utils.Binary.{int_to_binary_8_bits, binary_to_int_8_bits}

-- `blocksPerBits`: the blocks of a file of so many bytes, and one for an empty file.
unfoldable pub blocks_per_bits : ℕ → ℕ → ℕ
blocks_per_bits block_size bytes =
    let blocks = (bytes + block_size - 1) % 2 ^ 32 / block_size in if blocks == 0 then 1 else blocks

-- The character of a byte, before the rest of the text. A byte 0 adds nothing to the text, and eight
-- digits always have a value.
unfoldable pub append_character : Option ℕ → List ℕ → List ℕ
append_character none rest = rest
append_character (some character) rest = if character == 0 then rest else character ∷ rest

module _ {B : Type 0} ⦃ba : Bitarray B⦄ where
  -- `nextBlocksAvaiable`.
  unfoldable pub next_blocks_avaiable : B → ℕ → ℕ → Bool
  next_blocks_avaiable bitmap start_index zero = true
  next_blocks_avaiable bitmap start_index (suc count) =
      let rest = next_blocks_avaiable bitmap (start_index + 1) count in
      if ba.test_bit bitmap start_index then false else rest

  -- The inner loop of `fsWrite`, over the digits of a byte.
  unfoldable pub write_bits : List ℕ → ℕ → B → B
  write_bits [] dir blocks = blocks
  write_bits (d ∷ ds) dir blocks =
      write_bits ds (dir + 1)
        (if d - 48 == 0 then ba.clean_bit blocks dir else ba.set_bit blocks dir)

  -- The outer loop of `fsWrite`.
  unfoldable pub write_data : List ℕ → ℕ → B → B
  unfolding write_bits int_to_binary_8_bits
  write_data [] dir blocks = blocks
  write_data (c ∷ data_left) dir blocks =
      write_data data_left (dir + 8) (write_bits (int_to_binary_8_bits c) dir blocks)

  -- `fsWrite`, to a file that exists. The pointer counts bits.
  unfoldable pub fs_write : ℕ → ℕ → ℕ → List ℕ → B → B
  unfolding write_data
  fs_write block_size initial_block pointer text blocks =
      write_data text ((initial_block * block_size * 8 + pointer) % 2 ^ 32) blocks

  -- The inner loop of `fsRead`.
  unfoldable pub read_bits : ℕ → ℕ → B → List ℕ
  read_bits zero dir blocks = []
  read_bits (suc left) dir blocks =
      (48 + (if ba.test_bit blocks dir then 1 else 0)) ∷ read_bits left (dir + 1) blocks

  -- The outer loop of `fsRead`.
  unfoldable pub read_data : ℕ → ℕ → B → List ℕ
  unfolding read_bits binary_to_int_8_bits append_character
  read_data zero dir blocks = []
  read_data (suc left) dir blocks =
      let rest = read_data left (dir + 8) blocks in
      append_character (binary_to_int_8_bits (read_bits 8 dir blocks)) rest

  -- `fsRead`, from a file that exists: it reads one byte more than `data_size`.
  unfoldable pub fs_read : ℕ → ℕ → ℕ → ℕ → B → List ℕ
  unfolding read_data
  fs_read block_size initial_block pointer data_size blocks =
      read_data (data_size + 1) ((initial_block * block_size * 8 + pointer) % 2 ^ 32) blocks
