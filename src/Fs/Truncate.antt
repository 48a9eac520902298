-- ===== src/Fs/Truncate.antt =====
-- `fsTruncate` of entradasalida/src/utils_io.c, with `canRelocateAtTheEnd`, `realocate` and `compaction`.
use ronaldinh_os_sistemas_op.Common.{
  ℕ, zero, suc, ◌+◌, ◌-◌, List, [], ◌∷◌, Option, none, some, ◌==◌, ◌&&◌, ltb, leb, if◌then◌else◌,
}
use ronaldinh_os_sistemas_op.Common.Bits.{Bitarray}
use ronaldinh_os_sistemas_op.Kernel.State.{Text}
use ronaldinh_os_sistemas_op.Fs.Blocks.{blocks_per_bits, next_blocks_avaiable, fs_write, fs_read}
use ronaldinh_os_sistemas_op.Fs.Relocate.{can_relocate}
use ronaldinh_os_sistemas_op.Fs.Files.{
  Metadata, no_block, FileSystem, find_metadata, stored, modify_block, modify_size, assign_bits,
  deallocate_bits,
}

module _ {B : Type 0} ⦃ba : Bitarray B⦄ where
  -- The inner loop of `canRelocateAtTheEnd`: its `j` at the end, from the block before `i` down.
  unfoldable pub free_below : B → ℕ → ℕ → ℕ
  free_below bitmap i zero = 0
  free_below bitmap zero (suc n) = 0
  free_below bitmap (suc i) (suc n) =
      let rest = free_below bitmap i n in if ba.test_bit bitmap i then 0 else 1 + rest

  -- The outer loop, on fuel; `end` is `i + 1`, so that 0 is an `i` below 0. `none` is a run out of fuel,
  -- and `some none` the answer -1.
  unfoldable pub relocate_down : ℕ → B → ℕ → ℕ → ℕ → ℕ → Option (Option ℕ)
  unfolding free_below
  relocate_down zero bitmap initial_block file_blocks necessary_blocks end = none
  relocate_down (suc fuel) bitmap initial_block file_blocks necessary_blocks end =
      let j = free_below bitmap end necessary_blocks in
      let skip =
        relocate_down fuel bitmap initial_block file_blocks necessary_blocks initial_block in
      let down =
        relocate_down fuel bitmap initial_block file_blocks necessary_blocks (end - (j + 1)) in
      if end == 0
      then some none
      else if ltb initial_block end && leb end (initial_block + file_blocks)
      then skip
      else if j == necessary_blocks
      then some (some (end - necessary_blocks))
      else down

  -- `canRelocateAtTheEnd`.
  unfoldable pub can_relocate_at_the_end : B → ℕ → ℕ → ℕ → ℕ → Option (Option ℕ)
  unfolding relocate_down
  can_relocate_at_the_end bitmap max_bit initial_block file_blocks necessary_blocks =
      relocate_down (max_bit + 1) bitmap initial_block file_blocks necessary_blocks max_bit

  -- `realocate`. The loop that frees the old blocks compares with the block before the first, which
  -- wraps at block 0: there it frees none. `none` is a file that is not there, or one with no block,
  -- whose bits would be read before the mapping.
  unfoldable pub realocate : Text → ℕ → ℕ → FileSystem B → Option (FileSystem B)
  unfolding find_metadata fs_read fs_write assign_bits deallocate_bits blocks_per_bits modify_block
      modify_size
  realocate name new_initial_block new_size fs = elim (find_metadata name fs) [
    | none ↦ none
    | some m ↦
        let used = blocks_per_bits fs.block_size m.size in
        let text = fs_read fs.block_size m.block 0 m.size fs.blocks in
        let freed = if m.block == 0 then fs.bitmap else deallocate_bits m.block used fs.bitmap in
        if m.block == no_block
        then none
        else some (record fs {
          metadata = modify_size name new_size (modify_block name new_initial_block fs.metadata);
          bitmap = assign_bits new_initial_block (blocks_per_bits fs.block_size new_size) freed;
          blocks = fs_write fs.block_size (stored new_initial_block) 0 text fs.blocks;
        })
  ]

  -- The loop of `compaction`, over the files in the order of their blocks.
  unfoldable pub compact_from : List Metadata → ℕ → FileSystem B → Option (FileSystem B)
  unfolding realocate
  compact_from [] new_position fs = some fs
  compact_from (m ∷ ms) new_position fs =
      let next = new_position + blocks_per_bits fs.block_size m.size in
      if m.block == new_position
      then compact_from ms next fs
      else elim (realocate m.file_name new_position m.size fs) [
        | none ↦ none
        | some fs' ↦ compact_from ms next fs'
      ]

  -- `compaction`, with the order in which `listMetadata` and `list_sort` give the files.
  unfoldable pub compaction : (List Metadata → List Metadata) → FileSystem B → Option (FileSystem B)
  unfolding compact_from
  compaction sort fs = compact_from (sort fs.metadata) 0 fs

  -- `fsTruncate` behind a file that takes more blocks than it has, where those behind it are not free.
  unfoldable pub truncate_compacting :
      (List Metadata → List Metadata) → Text → ℕ → ℕ → FileSystem B → Option (ℕ × FileSystem B)
  unfolding can_relocate_at_the_end compaction find_metadata next_blocks_avaiable assign_bits
      blocks_per_bits
  truncate_compacting sort name used to_add fs = elim (find_metadata name fs) [
    | none ↦ none
    | some m ↦
        elim (can_relocate_at_the_end fs.bitmap fs.max_bit m.block
          (blocks_per_bits fs.block_size m.size) used) [
            | none ↦ none
            | some none ↦ some (1, fs)
            | some (some place) ↦ elim (realocate name place used fs) [
              | none ↦ none
              | some moved ↦ elim (compaction sort moved) [
                | none ↦ none
                | some compact ↦ elim (find_metadata name compact) [
                  | none ↦ none
                  | some c ↦
                      let new_used = blocks_per_bits compact.block_size c.size in
                      if next_blocks_avaiable compact.bitmap (c.block + new_used) to_add
                      then some (
                        1,
                        record compact {
                          bitmap = assign_bits c.block (new_used + to_add) compact.bitmap;
                        },
                      )
                      else some (0, compact)
                ]
              ]
            ]
          ]
  ]

  -- `fsTruncate` of a file with a block: its first block and its blocks before, and those it needs.
  unfoldable pub truncate_at :
      (List Metadata → List Metadata)
      → Text
      → ℕ
      → ℕ
      → ℕ
      → ℕ
      → FileSystem B
      → Option (ℕ × FileSystem B)
  unfolding truncate_compacting next_blocks_avaiable assign_bits deallocate_bits modify_size
  truncate_at sort name new_size initial used needed fs =
      if leb used needed
      then (if next_blocks_avaiable fs.bitmap (initial + used) (needed - used)
          then some (
            1,
            record fs {
              bitmap = assign_bits (initial + used) (needed - used) fs.bitmap;
              metadata = modify_size name new_size fs.metadata;
            },
          )
          else truncate_compacting sort name used (needed - used) fs)
      else some (
        1,
        record fs {
          bitmap = deallocate_bits (initial + needed) (used - needed) fs.bitmap;
          metadata = modify_size name new_size fs.metadata;
        },
      )

  -- `fsTruncate`: 0 or 1, or `none` where it crashes. A file without a block is given one first.
  unfoldable pub fs_truncate :
      (List Metadata → List Metadata) → Text → ℕ → FileSystem B → Option (ℕ × FileSystem B)
  unfolding find_metadata blocks_per_bits can_relocate truncate_at modify_block
  fs_truncate sort name new_size fs = elim (find_metadata name fs) [
    | none ↦ some (0, fs)
    | some m ↦
        let needed = blocks_per_bits fs.block_size new_size in
        let used = blocks_per_bits fs.block_size m.size in
        if m.block == no_block
        then elim (can_relocate fs.bitmap fs.max_bit no_block used needed) [
          | none ↦ none
          | some none ↦ some (0, fs)
          | some (some place) ↦ truncate_at sort name new_size place used needed (record fs {
            bitmap = ba.set_bit fs.bitmap place;
            metadata = modify_block name place fs.metadata;
          })
        ]
        else truncate_at sort name new_size m.block used needed fs
  ]
