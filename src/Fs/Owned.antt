-- ===== src/Fs/Owned.antt =====
-- Which files own a block, after entradasalida/src/utils_io.c, and how that changes.
use ronaldinh_os_sistemas_op.Common.{
  ℕ, zero, suc, ◌+◌, ◌<◌, ◌≡◌, ap, ◌∙◌, List, [], ◌∷◌, ◌++◌, Bool, true, false, some, arith, ◌&&◌,
  ltb, leb, if◌then◌else◌, find, remove_first, Bool-cases, inl, inr,
}
use ronaldinh_os_sistemas_op.Common.Bits.{Bitarray}
use ronaldinh_os_sistemas_op.Kernel.State.{Text}
use ronaldinh_os_sistemas_op.Fs.Blocks.{blocks_per_bits}
use ronaldinh_os_sistemas_op.Fs.Files.{
  Metadata, no_block, FileSystem, has_name, modify_metadata, assign_bits, deallocate_bits,
}

-- Whether a block is one of a range, and how many files own it.
abbrev pub in_range : ℕ → ℕ → ℕ → Bool
in_range start count i = leb start i && ltb i (start + count)

abbrev pub owns : ℕ → Metadata → ℕ → ℕ
owns block_size m i = if in_range m.block (blocks_per_bits block_size m.size) i then 1 else 0

unfoldable pub owners : ℕ → ℕ → List Metadata → ℕ
owners block_size i [] = 0
owners block_size i (m ∷ ms) = owns block_size m i + owners block_size i ms

-- The bitmap marks the blocks that a file owns, and no two files own the same.
pub record IsConsistent {B : Type 0} ⦃ba : Bitarray B⦄ (fs : FileSystem B) : Type 0 where
  pub once :
      (i : ℕ)
      → i < no_block
      → (if ba.test_bit fs.bitmap i then 1 else 0) ≡ owners fs.block_size i fs.metadata

pub owners-modify_metadata :
    (bs i : ℕ) (name : Text) (change : Metadata → Metadata) (ms : List Metadata) {m : Metadata}
    → find (has_name name) ms ≡ some m
    → owners bs i (modify_metadata name change ms) + owns bs m i
      ≡ owners bs i ms + owns bs (change m) i
unfolding owners modify_metadata find
owners-modify_metadata bs i name change [] h = cc
owners-modify_metadata bs i name change (x ∷ xs) {m = m} h = elim (Bool-cases (has_name name x)) [
  | inl e ↦ let same : x ≡ m = cc (rw (e, find) at h) in rw (e, same) (omega arith)
  | inr e ↦
      let ih = owners-modify_metadata bs i name change xs (rw (e, find) at h) in
      rw e (omega (arith, ih))
]

-- The file that a change of its metadata leaves, under the same name.
pub find-modify_metadata :
    (name : Text) (change : Metadata → Metadata) (ms : List Metadata) {m : Metadata}
    → ((x : Metadata) → has_name name (change x) ≡ has_name name x)
    → find (has_name name) ms ≡ some m
    → find (has_name name) (modify_metadata name change ms) ≡ some (change m)
unfolding modify_metadata find
find-modify_metadata name change [] keeps h = cc
find-modify_metadata name change (x ∷ xs) {m = m} keeps h = elim (Bool-cases (has_name name x)) [
  | inl e ↦
      let same : x ≡ m = cc (rw (e, find) at h) in
      let named : has_name name (change x) ≡ true = keeps x ∙ e in
      rw (e, find, named) (ap (λ y. some (change y)) same)
  | inr e ↦
      let ih = find-modify_metadata name change xs keeps (rw (e, find) at h) in rw (e, find, e) ih
]

pub owners-remove_first :
    (bs i : ℕ) (name : Text) (ms : List Metadata) {m : Metadata}
    → find (has_name name) ms ≡ some m
    → owners bs i (remove_first (has_name name) ms) + owns bs m i ≡ owners bs i ms
unfolding owners remove_first find
owners-remove_first bs i name [] h = cc
owners-remove_first bs i name (x ∷ xs) {m = m} h = elim (Bool-cases (has_name name x)) [
  | inl e ↦ let same : x ≡ m = cc (rw (e, find) at h) in rw (e, remove_first, same) (omega arith)
  | inr e ↦
      let ih = owners-remove_first bs i name xs (rw (e, find) at h) in
      rw (e, remove_first) (omega (arith, ih))
]

pub owners-append :
    (bs i : ℕ) (ms : List Metadata) (m : Metadata)
    → owners bs i (ms ++ m ∷ []) ≡ owners bs i ms + owns bs m i
unfolding owners
owners-append bs i [] m = omega arith
owners-append bs i (x ∷ xs) m = omega (arith, owners-append bs i xs m)

module _ {B : Type 0} ⦃ba : Bitarray B⦄ where
  pub test_bit-assign_bits :
      (start count : ℕ) (b : B) (i : ℕ)
      → ba.test_bit (assign_bits start count b) i
        ≡ (if in_range start count i then true else ba.test_bit b i)
  unfolding assign_bits
  test_bit-assign_bits start zero b i = ground arith
  test_bit-assign_bits start (suc count) b i =
      ground (
        arith,
        test_bit-assign_bits (start + 1) count (ba.set_bit b start) i,
        ba.test-set b start i,
      )

  pub test_bit-deallocate_bits :
      (start count : ℕ) (b : B) (i : ℕ)
      → ba.test_bit (deallocate_bits start count b) i
        ≡ (if in_range start count i then false else ba.test_bit b i)
  unfolding deallocate_bits
  test_bit-deallocate_bits start zero b i = ground arith
  test_bit-deallocate_bits start (suc count) b i = ground (
    arith,
    test_bit-deallocate_bits (start + 1) count (ba.clean_bit b start) i,
    ba.test-clean b start i,
  )
