-- ===== src/Memory/State.antt =====
-- The state of memoria/src/paginacion.c: page tables, the frame bitmap and the main memory.
-- The globals of the file are the fields of `Memory`. A page id and a frame are never negative on
-- the paths that the module server reaches.
use ronaldinh_os_sistemas_op.Common.{
  ℕ, zero, suc, ◌+◌, ◌/◌, List, [], ◌∷◌, Bool, Option, ◌==◌, if◌then◌else◌, find, Ram, leb,
}
use ronaldinh_os_sistemas_op.Common.Bits.{Bitarray}

-- `t_page`.
pub record Page : Type 0 where
  pub id : ℕ
  pub frame_ppal : ℕ
  pub tamanio_disponible : ℕ
  pub frag_interna : ℕ
  pub presencia : ℕ
  pub modificado : ℕ
  pub lock : ℕ
  pub uso : ℕ
  pub tiempo_uso : ℕ

-- `t_pageTable`, without `pcbAddr`, which nothing reads.
pub record PageTable : Type 0 where
  pub pid : ℕ
  pub instruction_size : ℕ
  pub last_used_page_id : ℕ
  pub pages : List Page

-- The globals: `pageLengthInt`, `cantFrames`, `bitArrayOcupiedFrames`, `mainMemory`, `pageTable`
-- and `idGlobal`.
pub record Memory (B : Type 0) : Type 0 where
  pub page_length : ℕ
  pub cant_frames : ℕ
  pub bits : B
  pub ram : Ram
  pub tables : List PageTable
  pub id_global : ℕ

-- `initPagination`, given a zeroed bit array and what `malloc` returned.
unfoldable pub init_pagination : {B : Type 0} → ℕ → ℕ → B → Ram → Memory B
init_pagination mem_length page_length zeroed ram = record {
  page_length = page_length;
  cant_frames = mem_length / page_length;
  bits = zeroed;
  ram = ram;
  tables = [];
  id_global = 0;
}

-- `getPageTable`: the first table of the process.
unfoldable pub get_page_table : ℕ → List PageTable → Option PageTable
unfolding find
get_page_table pid ts = find (λ (t : PageTable). t.pid == pid) ts

-- A write through the pointer that `getPageTable` returns.
unfoldable pub update_table : ℕ → (PageTable → PageTable) → List PageTable → List PageTable
update_table pid f [] = []
update_table pid f (t ∷ ts) = if t.pid == pid then f t ∷ ts else t ∷ update_table pid f ts

module _ {B : Type 0} ⦃ba : Bitarray B⦄ where
  -- The loop of `findFreeFrames`, from `base`, over the frames that are left.
  unfoldable pub free_from : B → ℕ → ℕ → List ℕ
  free_from bits base zero = []
  free_from bits base (suc left) =
      let rest = free_from bits (base + 1) left in
      if ba.test_bit bits base then rest else base ∷ rest

  unfoldable pub find_free_frames : Memory B → List ℕ
  unfolding free_from
  find_free_frames m = free_from m.bits 0 m.cant_frames

  -- The loop of `pageAvailability`.
  unfoldable pub count_free : B → ℕ → ℕ → ℕ → ℕ
  count_free bits offset zero free_spaces = free_spaces
  count_free bits offset (suc left) free_spaces =
      count_free bits (offset + 1) left
        (if ba.test_bit bits offset then free_spaces else free_spaces + 1)

  unfoldable pub page_availability : Memory B → ℕ
  unfolding count_free
  page_availability m = count_free m.bits 0 m.cant_frames 0

  unfoldable pub is_there_room_in_your_page : Memory B → ℕ → Bool
  unfolding page_availability
  is_there_room_in_your_page m necessary_pages = leb necessary_pages (page_availability m)

  -- `ocupyFrame` and `freeAFrame`.
  unfoldable pub ocupy_frame : ℕ → Memory B → Memory B
  ocupy_frame frame m = record m { bits = ba.set_bit m.bits frame }

  unfoldable pub free_a_frame : ℕ → Memory B → Memory B
  free_a_frame frame m = record m { bits = ba.clean_bit m.bits frame }
