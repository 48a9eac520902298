-- ===== src/Fs/Tests.antt =====
-- Runs of the interfaces' file system: blocks of 16 bytes, and the text "Hi" in block 2, after
-- entradasalida/src/utils_io.c.
use ronaldinh_os_sistemas_op.Common.{
  ℕ, ◌+◌, ◌*◌, ◌%◌, ◌^◌, ◌≡◌, refl, [], ◌∷◌, ◌++◌, Bool, false, arith, ◌==◌, ◌||◌, Option, none,
  some, suc, inr,
}
use ronaldinh_os_sistemas_op.Common.Bits.{bit_fun}
use ronaldinh_os_sistemas_op.Fs.Blocks.{
  blocks_per_bits, next_blocks_avaiable, fs_write, read_data, fs_read,
}
use ronaldinh_os_sistemas_op.Fs.Relocate.{can_relocate}
use ronaldinh_os_sistemas_op.Fs.FirstFree.{IsFirstFree, can_relocate-IsFirstFree}
use ronaldinh_os_sistemas_op.Fs.Bitwise.{IsCharacter}
use ronaldinh_os_sistemas_op.Fs.Contents.{fs_read-fs_write, test_bit-fs_write}
use ronaldinh_os_sistemas_op.Common.{List}
use ronaldinh_os_sistemas_op.Fs.Files.{
  Metadata, no_block, FileSystem, find_metadata, fs_create, modify_block, modify_size, assign_bits,
  stored,
}
use ronaldinh_os_sistemas_op.Kernel.State.{Text}
use ronaldinh_os_sistemas_op.Fs.Directory.{sizes, Distinct}
use ronaldinh_os_sistemas_op.Fs.Refined.{directory_behind, Leads-Refines}
use ronaldinh_os_sistemas_op.Fs.Truncate.{truncate_at, fs_truncate}
use ronaldinh_os_sistemas_op.Fs.Owned.{owners, IsConsistent}
use ronaldinh_os_sistemas_op.Fs.Life.{
  CanPlace, Leads, unchanged, followed_by, creates, places, Leads-IsConsistent,
}

abbrev clear : ℕ → Bool
clear i = false

-- The blocks after "Hello" was written to block 2.
abbrev after_hello : ℕ → Bool
after_hello = fs_write 16 2 0 (72 ∷ 101 ∷ 108 ∷ 108 ∷ 111 ∷ []) clear

-- "Hi" over "Hello", read back with two bytes, is "Hil".
one_byte_more : fs_read 16 2 0 2 (fs_write 16 2 0 (72 ∷ 105 ∷ []) after_hello) ≡ 72 ∷ 105 ∷ 108 ∷ []
unfolding fs_read fs_write
one_byte_more = refl

fs_read-fs_write_example :
    fs_read 16 2 0 2 (fs_write 16 2 0 (72 ∷ 105 ∷ []) after_hello)
    ≡ (72 ∷ 105 ∷ []) ++ read_data 1 ((2 * 16 * 8 + 0) % 2 ^ 32 + 8 * 2) after_hello
unfolding IsCharacter
fs_read-fs_write_example =
    fs_read-fs_write 16 2 0 (72 ∷ 105 ∷ []) after_hello
      ((omega arith, omega arith), ((omega arith, omega arith), tt))

test_bit-fs_write_example :
    bit_fun.test_bit (fs_write 16 2 0 (72 ∷ 105 ∷ []) after_hello) 272
    ≡ bit_fun.test_bit after_hello 272
test_bit-fs_write_example =
    test_bit-fs_write 16 2 0 (72 ∷ 105 ∷ []) after_hello 272 (inr (omega arith))

-- A bitmap of eight blocks in which 0 and 2 are taken.
abbrev two_taken : ℕ → Bool
two_taken i = (i == 0) || (i == 2)

-- Four blocks are not free from block 1 on.
one_block_only : can_relocate two_taken 8 20 1 4 ≡ some (some 1)
unfolding can_relocate
one_block_only = refl

can_relocate-IsFirstFree_example :
    (r : Option ℕ) × ((n : ℕ) → can_relocate two_taken 8 20 1 (suc n) ≡ some r)
    × IsFirstFree two_taken 8 20 1 0 r
can_relocate-IsFirstFree_example = can_relocate-IsFirstFree two_taken 8 20 1

-- A file system of eight blocks without files, one with the file "A", and one in which it was
-- truncated to 20 bytes, which takes two blocks.
abbrev formatted : FileSystem (ℕ → Bool)
formatted = record {
  block_size = 16;
  max_bit = 8;
  metadata = [];
  open_files = [];
  bitmap = clear;
  blocks = clear;
}

abbrev created : FileSystem (ℕ → Bool)
created = record formatted {
  metadata = record { file_name = 65 ∷ []; block = no_block; size = 0 } ∷ [];
  open_files = record { file_name = 65 ∷ []; pid = 1 } ∷ [];
}

abbrev same_order : List Metadata → List Metadata
same_order ms = ms

abbrev truncated : FileSystem (ℕ → Bool)
truncated = record created {
  metadata = record { file_name = 65 ∷ []; block = 0; size = 20 } ∷ [];
  bitmap = assign_bits 1 1 (bit_fun.set_bit clear 0);
}

formatted-IsConsistent : IsConsistent formatted
unfolding owners
formatted-IsConsistent = record { once = λ i low. refl }

truncation : fs_truncate same_order (65 ∷ []) 20 created ≡ some (1, truncated)
unfolding fs_truncate truncate_at find_metadata can_relocate blocks_per_bits next_blocks_avaiable
    modify_block modify_size stored
truncation = refl

creates-created : Leads same_order formatted created
unfolding fs_create
creates-created = followed_by unchanged (creates (65 ∷ []) 1 formatted)

Leads-truncated : Leads same_order formatted truncated
unfolding find_metadata CanPlace can_relocate blocks_per_bits next_blocks_avaiable
Leads-truncated =
    let a : Metadata = record { file_name = 65 ∷ []; block = no_block; size = 0 } in
    followed_by creates-created (
      places (65 ∷ []) 20 0 a refl (omega arith)
        (refl, refl, omega arith, omega arith, omega arith, refl, refl) truncation)

Leads-IsConsistent_example : IsConsistent truncated
Leads-IsConsistent_example = Leads-IsConsistent same_order Leads-truncated formatted-IsConsistent

Leads-Refines_example :
    ((q : Text)
      → sizes truncated.metadata q ≡ directory_behind Leads-truncated (sizes formatted.metadata) q)
    × Distinct truncated.metadata
unfolding Distinct
Leads-Refines_example = Leads-Refines same_order Leads-truncated tt

-- "A" is there with 20 bytes, and "B" is not.
sizes_truncated :
    (sizes truncated.metadata (65 ∷ []) ≡ some 20) × (sizes truncated.metadata (66 ∷ []) ≡ none)
unfolding sizes
sizes_truncated = (refl, refl)
