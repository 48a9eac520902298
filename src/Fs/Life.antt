-- ===== src/Fs/Life.antt =====
-- The life of the file system of entradasalida/src/utils_io.c: creations, deletions and truncations, one
-- after the other.
use ronaldinh_os_sistemas_op.Common.{
  ℕ, suc, ◌-◌, ◌^◌, ◌<◌, ◌≡◌, refl, subst, ◌∙◌, ap, List, false, Option, some, arith,
}
use ronaldinh_os_sistemas_op.Common.Bits.{Bitarray}
use ronaldinh_os_sistemas_op.Kernel.State.{Text}
use ronaldinh_os_sistemas_op.Fs.Blocks.{blocks_per_bits}
use ronaldinh_os_sistemas_op.Fs.Relocate.{can_relocate}
use ronaldinh_os_sistemas_op.Fs.FirstFree.{can_relocate-IsFirstFree, IsFirstFree}
use ronaldinh_os_sistemas_op.Fs.Files.{
  Metadata, no_block, FileSystem, stored, modify_block, find_metadata, fs_create, fs_delete,
}
use ronaldinh_os_sistemas_op.Fs.Truncate.{fs_truncate}
use ronaldinh_os_sistemas_op.Fs.Owned.{IsConsistent, find-modify_metadata}
use ronaldinh_os_sistemas_op.Fs.Kept.{
  stored_small, fs_create-IsConsistent, fs_delete-IsConsistent, truncate_at-IsConsistent,
  fs_truncate-IsConsistent, HasRoom, with_block, with_block-IsConsistent, Truncated,
}

blocks_per_bits-positive : (block_size bytes : ℕ) → 0 < blocks_per_bits block_size bytes
unfolding blocks_per_bits
blocks_per_bits-positive block_size bytes = ground arith

module _ {B : Type 0} ⦃ba : Bitarray B⦄ where
  -- The place that `canRelocate` finds for a file without a block.
  abbrev pub FindsPlace : ℕ → Metadata → FileSystem B → ℕ → Type 0
  FindsPlace new_size m fs place =
      can_relocate fs.bitmap fs.max_bit no_block (blocks_per_bits fs.block_size m.size)
        (blocks_per_bits fs.block_size new_size)
      ≡ some (some place)

  -- A truncation of an empty file without a block is given one, and finds room behind it.
  unfoldable pub CanPlace : Text → ℕ → ℕ → Metadata → FileSystem B → Type 0
  CanPlace name new_size place m fs =
      (m.block ≡ no_block)
      × (m.size ≡ 0)
      × (place < 10 ^ 9)
      × (0 < fs.block_size)
      × (fs.block_size < 2 ^ 32)
      × FindsPlace new_size m fs place
      × HasRoom new_size (record m { block = place }) (with_block name place fs)

  -- One operation: a truncation finds room behind the last block of its file.
  pub data Operates (sort : List Metadata → List Metadata)
      : FileSystem B → FileSystem B → Type 0 where
    creates : (name : Text) (pid : ℕ) (fs : FileSystem B) → Operates sort fs (fs_create name pid fs)
    deletes : (name : Text) (fs : FileSystem B) → Operates sort fs (fs_delete name fs)
    truncates :
        (name : Text) (new_size : ℕ) (m : Metadata) {fs fs' : FileSystem B}
        → find_metadata name fs ≡ some m
        → new_size < 10 ^ 9
        → (m.block < no_block) × HasRoom new_size m fs
        → fs_truncate sort name new_size fs ≡ some (1, fs')
        → Operates sort fs fs'
    places :
        (name : Text) (new_size place : ℕ) (m : Metadata) {fs fs' : FileSystem B}
        → find_metadata name fs ≡ some m
        → new_size < 10 ^ 9
        → CanPlace name new_size place m fs
        → fs_truncate sort name new_size fs ≡ some (1, fs')
        → Operates sort fs fs'

  pub data Leads (sort : List Metadata → List Metadata) (fs : FileSystem B)
      : FileSystem B → Type 0 where
    unchanged : Leads sort fs fs
    followed_by : {a b : FileSystem B} → Leads sort fs a → Operates sort a b → Leads sort fs b

  finds_free :
      (new_size : ℕ) (m : Metadata) (fs : FileSystem B) (place : ℕ)
      → FindsPlace new_size m fs place
      → ba.test_bit fs.bitmap place ≡ false
  unfolding IsFirstFree
  finds_free new_size m fs place h =
      let needed = blocks_per_bits fs.block_size new_size in
      let used = blocks_per_bits fs.block_size m.size in
      let some_block = blocks_per_bits-positive fs.block_size new_size in
      let (r, answer, first) = can_relocate-IsFirstFree fs.bitmap fs.max_bit no_block used in
      let count : suc (needed - 1) ≡ needed = omega arith in
      let found : r ≡ some place = cc (rw count at (answer (needed - 1)), h) in
      (rw found at first).0

  -- A truncation of an empty file without a block.
  pub fs_truncate-placed :
      (sort : List Metadata → List Metadata) (name : Text) (new_size place : ℕ) (fs : FileSystem B)
      (m : Metadata)
      → IsConsistent fs
      → find_metadata name fs ≡ some m
      → new_size < 10 ^ 9
      → CanPlace name new_size place m fs
      → Truncated name new_size (record m { block = place }) (fs_truncate sort name new_size fs)
  unfolding fs_truncate modify_block find_metadata CanPlace
  fs_truncate-placed sort name new_size place fs m h found small
        (eb, es, low, above, below, finds, room) =
      let change : Metadata → Metadata = λ (x : Metadata). record x { block = stored place } in
      let free = finds_free new_size m fs place finds in
      let kept = with_block-IsConsistent name place fs h found eb es low above below free in
      let named =
        find-modify_metadata name change fs.metadata (λ x. refl) found
        ∙ ap (λ v. some (record m { block = v })) (stored_small place low) in
      rw (fs_truncate, found, eb, finds)
        (truncate_at-IsConsistent sort name new_size (with_block name place fs)
          (record m { block = place }) kept named small room)

  Truncated-once :
      (name : Text) (new_size : ℕ) (m : Metadata) {r : Option (ℕ × FileSystem B)}
      {fs' : FileSystem B}
      → Truncated name new_size m r
      → r ≡ some (1, fs')
      → IsConsistent fs'
  unfolding Truncated
  Truncated-once name new_size m {fs' = fs'} (there, e, kept, named) runs =
      let same : there ≡ fs' = cc (e, runs) in subst (λ x. IsConsistent x) same kept

  operates-IsConsistent :
      (sort : List Metadata → List Metadata) {fs fs' : FileSystem B}
      → Operates sort fs fs'
      → IsConsistent fs
      → IsConsistent fs'
  operates-IsConsistent sort (creates name pid fs) h = fs_create-IsConsistent name pid fs h
  operates-IsConsistent sort (deletes name fs) h = fs_delete-IsConsistent name fs h
  operates-IsConsistent sort (truncates name new_size m {fs = fs} found small (placed, room) runs)
        h =
      Truncated-once name new_size _
        (fs_truncate-IsConsistent sort name new_size fs m h found placed small room) runs
  operates-IsConsistent sort (places name new_size place m {fs = fs} found small can runs) h =
      Truncated-once name new_size _
        (fs_truncate-placed sort name new_size place fs m h found small can) runs

  -- From a consistent bitmap, after any creations, deletions and truncations, in any order, each truncation
  -- to a size below 10^9 with room behind the file's last block, or behind the block that canRelocate
  -- finds for an empty file without one: the bitmap is consistent, which is that it marks the blocks that
  -- a file owns, and no two files own the same.
  pub Leads-IsConsistent :
      (sort : List Metadata → List Metadata) {fs fs' : FileSystem B}
      → Leads sort fs fs'
      → IsConsistent fs
      → IsConsistent fs'
  Leads-IsConsistent sort unchanged h = h
  Leads-IsConsistent sort (followed_by before last) h =
      operates-IsConsistent sort last (Leads-IsConsistent sort before h)
