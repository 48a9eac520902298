-- ===== src/Fs/Sized.antt =====
-- What the truncations of entradasalida/src/utils_io.c do to the sizes of the files.
use ronaldinh_os_sistemas_op.Common.{
  ℕ, ◌+◌, ◌-◌, ◌^◌, ◌<◌, ◌≤◌, ◌≡◌, refl, sym, ap, subst, ◌∙◌, List, Bool, true, false, Option, none,
  some, arith, ◌==◌, if◌then◌else◌, le→leb, lt→not-leb, dec_lt,
}
use ronaldinh_os_sistemas_op.Common.Bits.{Bitarray}
use ronaldinh_os_sistemas_op.Kernel.State.{Text, text_eq}
use ronaldinh_os_sistemas_op.Fs.Blocks.{blocks_per_bits}
use ronaldinh_os_sistemas_op.Fs.Files.{
  Metadata, no_block, FileSystem, stored, modify_block, modify_size, find_metadata, assign_bits,
  deallocate_bits,
}
use ronaldinh_os_sistemas_op.Fs.Truncate.{truncate_at, fs_truncate}
use ronaldinh_os_sistemas_op.Fs.Kept.{stored_small, HasRoom, with_block}
use ronaldinh_os_sistemas_op.Fs.Life.{CanPlace}
use ronaldinh_os_sistemas_op.Fs.Directory.{
  sizes, Command, makes, erases, sets_size, made, resized, perform, Distinct, sizes-modify_metadata,
}
use ronaldinh_os_sistemas_op.Fs.Names.{Distinct-modify_metadata}

-- The metadata behind an operation are those of a directory behind its command.
pub record Refines (ms ms' : List Metadata) (c : Command) : Type 0 where
  pub does : (q : Text) → sizes ms' q ≡ perform c (sizes ms) q
  pub distinct : Distinct ms'

resized-same : (b : Bool) (d : Option ℕ) → (if b then resized (λ n. n) d else d) ≡ d
resized-same true none = refl
resized-same true (some n) = refl
resized-same false d = refl

pub perform-pointwise :
    (c : Command) (d e : Text → Option ℕ) (q : Text) → d q ≡ e q → perform c d q ≡ perform c e q
unfolding perform
perform-pointwise (makes name) d e q h = ap (λ r. if text_eq name q then made r else r) h
perform-pointwise (erases name) d e q h = ap (λ r. if text_eq name q then none else r) h
perform-pointwise (sets_size name v) d e q h =
    ap (λ r. if text_eq name q then resized (λ n. v) r else r) h

modify_size-Refines :
    (name : Text) (new_size : ℕ) (ms : List Metadata)
    → new_size < 10 ^ 9
    → Distinct ms
    → Refines ms (modify_size name new_size ms) (sets_size name new_size)
unfolding modify_size perform
modify_size-Refines name new_size ms small d =
    let change : Metadata → Metadata = λ (x : Metadata). record x { size = stored new_size } in
    record {
      does = λ q.
          sizes-modify_metadata name (λ n. new_size) change ms q (λ x. refl)
            (λ x. stored_small new_size small);
      distinct = Distinct-modify_metadata name change ms (λ x. refl) d;
    }

module _ {B : Type 0} ⦃ba : Bitarray B⦄ where
  ran-metadata :
      (a b : FileSystem B) {x : Option (ℕ × FileSystem B)}
      → x ≡ some (1, a)
      → x ≡ some (1, b)
      → b.metadata ≡ a.metadata
  ran-metadata a b h k = let same : b ≡ a = cc (h, k) in ap (λ (f : FileSystem B). f.metadata) same

  -- What a truncation that finds room leaves of the metadata.
  truncate_at-metadata :
      (sort : List Metadata → List Metadata) (name : Text) (new_size : ℕ) (fs fs' : FileSystem B)
      (m : Metadata)
      → HasRoom new_size m fs
      → truncate_at sort name new_size m.block
          (blocks_per_bits fs.block_size m.size)
          (blocks_per_bits fs.block_size new_size)
          fs
        ≡ some (1, fs')
      → fs'.metadata ≡ modify_size name new_size fs.metadata
  unfolding truncate_at
  truncate_at-metadata sort name new_size fs fs' m room runs =
      let used = blocks_per_bits fs.block_size m.size in
      let needed = blocks_per_bits fs.block_size new_size in
      elim (dec_lt needed used) [
        | yes lt ↦
            let shrunk : FileSystem B = record fs {
              bitmap = deallocate_bits (m.block + needed) (used - needed) fs.bitmap;
              metadata = modify_size name new_size fs.metadata;
            } in
            ran-metadata shrunk fs' (rw (truncate_at, lt→not-leb used needed lt) refl) runs
        | no ge ↦
            let le : used ≤ needed = omega arith in
            let grown : FileSystem B = record fs {
              bitmap = assign_bits (m.block + used) (needed - used) fs.bitmap;
              metadata = modify_size name new_size fs.metadata;
            } in
            ran-metadata grown fs' (rw (truncate_at, le→leb used needed le, room) refl) runs
      ]

  truncates-Refines :
      (name : Text) (new_size : ℕ) (ms : List Metadata) (fs' : FileSystem B)
      → new_size < 10 ^ 9
      → fs'.metadata ≡ modify_size name new_size ms
      → Distinct ms
      → Refines ms fs'.metadata (sets_size name new_size)
  truncates-Refines name new_size ms fs' small e d =
      subst (λ ms'. Refines ms ms' (sets_size name new_size)) (sym e)
        (modify_size-Refines name new_size ms small d)

  -- A truncation of a file with a block, and of an empty file without one.
  pub fs_truncate-Refines :
      (sort : List Metadata → List Metadata) (name : Text) (new_size : ℕ) (fs fs' : FileSystem B)
      (m : Metadata)
      → find_metadata name fs ≡ some m
      → new_size < 10 ^ 9
      → m.block < no_block
      → HasRoom new_size m fs
      → fs_truncate sort name new_size fs ≡ some (1, fs')
      → Distinct fs.metadata
      → Refines fs.metadata fs'.metadata (sets_size name new_size)
  unfolding fs_truncate
  fs_truncate-Refines sort name new_size fs fs' m found small placed room runs d =
      let has_block : (m.block == no_block) ≡ false = ground arith in
      let ran = rw (fs_truncate, found, has_block) at runs in
      truncates-Refines name new_size fs.metadata fs' small
        (truncate_at-metadata sort name new_size fs fs' m room ran) d

  pub placed-Refines :
      (sort : List Metadata → List Metadata) (name : Text) (new_size place : ℕ)
      (fs fs' : FileSystem B) (m : Metadata)
      → find_metadata name fs ≡ some m
      → new_size < 10 ^ 9
      → CanPlace name new_size place m fs
      → fs_truncate sort name new_size fs ≡ some (1, fs')
      → Distinct fs.metadata
      → Refines fs.metadata fs'.metadata (sets_size name new_size)
  unfolding fs_truncate CanPlace modify_block
  placed-Refines sort name new_size place fs fs' m found small
        (eb, es, low, above, below, finds, room) runs d =
      let change : Metadata → Metadata = λ (x : Metadata). record x { block = stored place } in
      let moved = modify_block name place fs.metadata in
      let ran = rw (fs_truncate, found, eb, finds) at runs in
      let same : (q : Text) → sizes moved q ≡ sizes fs.metadata q = λ q.
        sizes-modify_metadata name (λ n. n) change fs.metadata q (λ x. refl) (λ x. refl)
        ∙ resized-same (text_eq name q) (sizes fs.metadata q) in
      let apart = Distinct-modify_metadata name change fs.metadata (λ x. refl) d in
      let step =
        truncates-Refines name new_size moved fs' small
          (truncate_at-metadata sort name new_size (with_block name place fs) fs'
            (record m { block = place }) room ran)
          apart in
      record {
        does = λ q.
            step.does q
            ∙ perform-pointwise (sets_size name new_size) (sizes moved) (sizes fs.metadata) q
                (same q);
        distinct = step.distinct;
      }
