-- ===== src/Fs/Files.antt =====
-- The files of the interfaces' file system, entradasalida/src/utils_io.c: their metadata, the list of
-- open files and the bitmap, creation and deletion.
use ronaldinh_os_sistemas_op.Common.{
  ℕ, zero, suc, ◌+◌, ◌-◌, ◌/◌, ◌^◌, List, [], ◌∷◌, ◌++◌, Bool, Option, none, some, ◌==◌, ltb,
  if◌then◌else◌, find, remove_first,
}
use ronaldinh_os_sistemas_op.Common.Bits.{Bitarray}
use ronaldinh_os_sistemas_op.Kernel.State.{Text, text_eq}
use ronaldinh_os_sistemas_op.Fs.Blocks.{blocks_per_bits}

-- A metadata file: its name, BLOQUE_INICIAL as a `uint32_t`, and TAMANIO_ARCHIVO. It is `Metadata` too.
pub record Metadata : Type 0 where
  pub file_name : Text
  pub block : ℕ
  pub size : ℕ

-- BLOQUE_INICIAL=-1.
abbrev pub no_block : ℕ
no_block = 2 ^ 32 - 1

-- `fcb`.
pub record Fcb : Type 0 where
  pub file_name : Text
  pub pid : ℕ

-- The globals, and the directory of the metadata.
pub record FileSystem (B : Type 0) : Type 0 where
  pub block_size : ℕ
  pub max_bit : ℕ
  pub metadata : List Metadata
  pub open_files : List Fcb
  pub bitmap : B
  pub blocks : B

unfoldable pub has_name : Text → Metadata → Bool
unfolding text_eq
has_name name m = text_eq m.file_name name

-- The number that `snprintf` leaves of one: at most nine digits.
unfoldable pub stored : ℕ → ℕ
stored v = if ltb v (10 ^ 9) then v else v / 10

-- `modifyMetadata`, at the first file of that name.
unfoldable pub modify_metadata : Text → (Metadata → Metadata) → List Metadata → List Metadata
unfolding has_name
modify_metadata name change [] = []
modify_metadata name change (m ∷ ms) =
    if has_name name m then change m ∷ ms else m ∷ modify_metadata name change ms

-- `modifyMetadata` of BLOQUE_INICIAL and of TAMANIO_ARCHIVO.
unfoldable pub modify_block : Text → ℕ → List Metadata → List Metadata
unfolding modify_metadata stored
modify_block name v ms = modify_metadata name (λ (m : Metadata). record m { block = stored v }) ms

unfoldable pub modify_size : Text → ℕ → List Metadata → List Metadata
unfolding modify_metadata stored
modify_size name v ms = modify_metadata name (λ (m : Metadata). record m { size = stored v }) ms

-- The loops of `assignBit` and of `deallocateBit` over neighbouring blocks.
module _ {B : Type 0} ⦃ba : Bitarray B⦄ where
  unfoldable pub assign_bits : ℕ → ℕ → B → B
  assign_bits start zero bitmap = bitmap
  assign_bits start (suc count) bitmap = assign_bits (start + 1) count (ba.set_bit bitmap start)

  unfoldable pub deallocate_bits : ℕ → ℕ → B → B
  deallocate_bits start zero bitmap = bitmap
  deallocate_bits start (suc count) bitmap =
      deallocate_bits (start + 1) count (ba.clean_bit bitmap start)

module _ {B : Type 0} where
  -- `getToMetadata` and `metadataExist`.
  unfoldable pub find_metadata : Text → FileSystem B → Option Metadata
  unfolding find has_name
  find_metadata name fs = find (has_name name) fs.metadata

  -- `fsCreate`, with `createMetadata` and `createFcb`.
  unfoldable pub fs_create : Text → ℕ → FileSystem B → FileSystem B
  unfolding find_metadata
  fs_create name pid fs =
      let opened : List Fcb = fs.open_files ++ record { file_name = name; pid = pid } ∷ [] in
      elim (find_metadata name fs) [
        | some m ↦ record fs { open_files = opened }
        | none ↦ record fs {
          metadata = fs.metadata ++ record { file_name = name; block = no_block; size = 0 } ∷ [];
          open_files = opened;
        }
      ]

unfoldable pub is_open_as : Text → Fcb → Bool
unfolding text_eq
is_open_as name f = text_eq f.file_name name

module _ {B : Type 0} ⦃ba : Bitarray B⦄ where
  -- `fsDelete`. A file with no block has none to clean: the loop's bound wraps to 0. The file is closed
  -- if it is open.
  unfoldable pub fs_delete : Text → FileSystem B → FileSystem B
  unfolding find_metadata has_name is_open_as deallocate_bits blocks_per_bits remove_first
  fs_delete name fs = elim (find_metadata name fs) [
    | none ↦ fs
    | some m ↦ record fs {
      metadata = remove_first (has_name name) fs.metadata;
      open_files = remove_first (is_open_as name) fs.open_files;
      bitmap =
          if m.block == no_block
          then fs.bitmap
          else deallocate_bits m.block (blocks_per_bits fs.block_size m.size) fs.bitmap;
    }
  ]
