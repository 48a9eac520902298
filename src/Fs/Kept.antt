-- ===== src/Fs/Kept.antt =====
-- What creation, deletion and truncation in place keep, in entradasalida/src/utils_io.c.
use ronaldinh_os_sistemas_op.Common.{
  ℕ, ◌+◌, ◌-◌, ◌^◌, ◌<◌, ◌≤◌, ◌≡◌, refl, ap, ◌∙◌, List, true, false, Option, some, arith, ◌==◌,
  le→leb, lt→not-leb, find, Option-cases, inl, inr, dec_lt,
}
use ronaldinh_os_sistemas_op.Common.Bits.{Bitarray}
use ronaldinh_os_sistemas_op.Kernel.State.{Text}
use ronaldinh_os_sistemas_op.Fs.Blocks.{blocks_per_bits, next_blocks_avaiable}
use ronaldinh_os_sistemas_op.Fs.Contents.{blocks_per_bits-ceil_div, next_blocks_avaiable-free}
use ronaldinh_os_sistemas_op.Fs.Files.{
  Metadata, no_block, FileSystem, has_name, stored, modify_block, modify_size, find_metadata,
  fs_create, fs_delete, assign_bits, deallocate_bits,
}
use ronaldinh_os_sistemas_op.Fs.Truncate.{truncate_at, fs_truncate}
use ronaldinh_os_sistemas_op.Fs.Owned.{
  IsConsistent, owners-modify_metadata, owners-remove_first, owners-append, find-modify_metadata,
  test_bit-assign_bits, test_bit-deallocate_bits,
}

pub stored_small : (v : ℕ) → v < 10 ^ 9 → stored v ≡ v
unfolding stored
stored_small v h = ground arith

module _ {B : Type 0} ⦃ba : Bitarray B⦄ where
  pub fs_create-IsConsistent :
      (name : Text) (pid : ℕ) (fs : FileSystem B)
      → IsConsistent fs
      → IsConsistent (fs_create name pid fs)
  unfolding fs_create
  fs_create-IsConsistent name pid fs h = elim (Option-cases (find_metadata name fs)) [
    | inr (m, e) ↦ rw (fs_create, e) (record { once = h.once })
    | inl e ↦
        let fresh : Metadata = record { file_name = name; block = no_block; size = 0 } in
        rw (fs_create, e)
          (record {
            once = λ i low.
                ground (arith, h.once i low, owners-append fs.block_size i fs.metadata fresh);
          })
  ]

  pub fs_delete-IsConsistent :
      (name : Text) (fs : FileSystem B) → IsConsistent fs → IsConsistent (fs_delete name fs)
  unfolding fs_delete find_metadata
  fs_delete-IsConsistent name fs h = elim (Option-cases (find_metadata name fs)) [
    | inl e ↦ rw (fs_delete, e) h
    | inr (m, e) ↦
        let n = blocks_per_bits fs.block_size m.size in
        rw (fs_delete, e)
          (record {
            once = λ i low. ground (
              arith,
              h.once i low,
              owners-remove_first fs.block_size i name fs.metadata e,
              test_bit-deallocate_bits m.block n fs.bitmap i,
            );
          })
  ]

  grown-IsConsistent :
      (name : Text) (new_size : ℕ) (fs : FileSystem B) {m : Metadata} (used needed : ℕ)
      → IsConsistent fs
      → find (has_name name) fs.metadata ≡ some m
      → new_size < 10 ^ 9
      → blocks_per_bits fs.block_size m.size ≡ used
      → blocks_per_bits fs.block_size new_size ≡ needed
      → used ≤ needed
      → next_blocks_avaiable fs.bitmap (m.block + used) (needed - used) ≡ true
      → IsConsistent (record fs {
        bitmap = assign_bits (m.block + used) (needed - used) fs.bitmap;
        metadata = modify_size name new_size fs.metadata;
      })
  unfolding modify_size
  grown-IsConsistent name new_size fs {m = m} used needed h found small eu en le avail =
      let change : Metadata → Metadata = λ (x : Metadata). record x { size = stored new_size } in
      let free = (next_blocks_avaiable-free fs.bitmap (m.block + used) (needed - used)).0 avail in
      record {
        once = λ i low.
            let owned = owners-modify_metadata fs.block_size i name change fs.metadata found in
            let exact = rw (stored_small new_size small, eu, en) at owned in
            let marked = test_bit-assign_bits (m.block + used) (needed - used) fs.bitmap i in
            elim (dec_lt i (m.block + used)) [
              | yes p ↦ ground (arith, h.once i low)
              | no p ↦ elim (dec_lt i (m.block + needed)) [
                | yes q ↦ ground (arith, h.once i low, free i (omega arith) (omega arith))
                | no q ↦ ground (arith, h.once i low)
              ]
            ];
      }

  shrunk-IsConsistent :
      (name : Text) (new_size : ℕ) (fs : FileSystem B) {m : Metadata} (used needed : ℕ)
      → IsConsistent fs
      → find (has_name name) fs.metadata ≡ some m
      → new_size < 10 ^ 9
      → blocks_per_bits fs.block_size m.size ≡ used
      → blocks_per_bits fs.block_size new_size ≡ needed
      → needed < used
      → IsConsistent (record fs {
        bitmap = deallocate_bits (m.block + needed) (used - needed) fs.bitmap;
        metadata = modify_size name new_size fs.metadata;
      })
  unfolding modify_size
  shrunk-IsConsistent name new_size fs {m = m} used needed h found small eu en lt =
      let change : Metadata → Metadata = λ (x : Metadata). record x { size = stored new_size } in
      record {
        once = λ i low.
            let owned = owners-modify_metadata fs.block_size i name change fs.metadata found in
            let exact = rw (stored_small new_size small, eu, en) at owned in
            let cleaned = test_bit-deallocate_bits (m.block + needed) (used - needed) fs.bitmap i in
            ground (arith, h.once i low);
      }

  -- The result of a truncation, as the metadata shows it.
  unfoldable pub Truncated : Text → ℕ → Metadata → Option (ℕ × FileSystem B) → Type 0
  unfolding find_metadata
  Truncated name new_size m r =
      (fs' : FileSystem B) × (r ≡ some (1, fs'))
      × IsConsistent fs'
      × (find_metadata name fs' ≡ some (record m { size = new_size }))

  -- In a consistent file system, the blocks that the truncation needs behind the file's last.
  abbrev pub HasRoom : ℕ → Metadata → FileSystem B → Type 0
  HasRoom new_size m fs =
      next_blocks_avaiable fs.bitmap (m.block + blocks_per_bits fs.block_size m.size)
        (blocks_per_bits fs.block_size new_size - blocks_per_bits fs.block_size m.size)
      ≡ true

  pub truncate_at-IsConsistent :
      (sort : List Metadata → List Metadata) (name : Text) (new_size : ℕ) (fs : FileSystem B)
      (m : Metadata)
      → IsConsistent fs
      → find_metadata name fs ≡ some m
      → new_size < 10 ^ 9
      → HasRoom new_size m fs
      → Truncated name new_size m (
          truncate_at sort name new_size m.block
            (blocks_per_bits fs.block_size m.size)
            (blocks_per_bits fs.block_size new_size)
            fs)
  unfolding Truncated truncate_at find_metadata modify_size
  truncate_at-IsConsistent sort name new_size fs m h found small avail =
      let used = blocks_per_bits fs.block_size m.size in
      let needed = blocks_per_bits fs.block_size new_size in
      let change : Metadata → Metadata = λ (x : Metadata). record x { size = stored new_size } in
      let named =
        find-modify_metadata name change fs.metadata (λ x. refl) found
        ∙ ap (λ v. some (record m { size = v })) (stored_small new_size small) in
      elim (dec_lt needed used) [
        | yes lt ↦ (
          _,
          rw (truncate_at, lt→not-leb used needed lt) refl,
          shrunk-IsConsistent name new_size fs used needed h found small refl refl lt,
          named,
        )
        | no ge ↦
            let le : used ≤ needed = omega arith in
            (
              _,
              rw (truncate_at, le→leb used needed le, avail) refl,
              grown-IsConsistent name new_size fs used needed h found small refl refl le avail,
              named,
            )
      ]

  -- From a consistent bitmap, a truncation of a file with a block, to a size below 10^9, where the blocks
  -- that it needs behind its last are available, returns 1 and records the new size; the bitmap is
  -- consistent again: it marks the blocks that a file owns, and no two files own the same.
  pub fs_truncate-IsConsistent :
      (sort : List Metadata → List Metadata) (name : Text) (new_size : ℕ) (fs : FileSystem B)
      (m : Metadata)
      → IsConsistent fs
      → find_metadata name fs ≡ some m
      → m.block < no_block
      → new_size < 10 ^ 9
      → HasRoom new_size m fs
      → Truncated name new_size m (fs_truncate sort name new_size fs)
  unfolding fs_truncate
  fs_truncate-IsConsistent sort name new_size fs m h found placed small avail =
      let has_block : (m.block == no_block) ≡ false = ground arith in
      rw (fs_truncate, found, has_block)
        (truncate_at-IsConsistent sort name new_size fs m h found small avail)

  -- The file system behind the first block of an empty file.
  abbrev pub with_block : Text → ℕ → FileSystem B → FileSystem B
  with_block name place fs = record fs {
    bitmap = ba.set_bit fs.bitmap place;
    metadata = modify_block name place fs.metadata;
  }

  pub with_block-IsConsistent :
      (name : Text) (place : ℕ) (fs : FileSystem B) {m : Metadata}
      → IsConsistent fs
      → find (has_name name) fs.metadata ≡ some m
      → m.block ≡ no_block
      → m.size ≡ 0
      → place < 10 ^ 9
      → 0 < fs.block_size
      → fs.block_size < 2 ^ 32
      → ba.test_bit fs.bitmap place ≡ false
      → IsConsistent (with_block name place fs)
  unfolding modify_block
  with_block-IsConsistent name place fs {m = m} h found eb es small above below free =
      let change : Metadata → Metadata = λ (x : Metadata). record x { block = stored place } in
      let one = blocks_per_bits-ceil_div fs.block_size 0 above (omega arith) in
      record {
        once = λ i low.
            let owned = owners-modify_metadata fs.block_size i name change fs.metadata found in
            let exact = rw (stored_small place small, eb, es, one) at owned in
            let marked = ba.test-set fs.bitmap place i in
            elim (dec_lt i place) [
              | yes p ↦ ground (arith, h.once i low)
              | no p ↦ elim (dec_lt place i) [
                | yes q ↦ ground (arith, h.once i low)
                | no q ↦
                    let same : place ≡ i = omega arith in
                    let bit = rw same at free in ground (arith, h.once i low)
              ]
            ];
      }
