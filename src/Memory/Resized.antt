-- ===== src/Memory/Resized.antt =====
-- `resize` of memoria/src/paginacion.c: every outcome keeps the invariant and spares the others.
use ronaldinh_os_sistemas_op.Common.{
  ℕ, ◌*◌, ◌≡◌, refl, ap, ◌∙◌, List, false, none, some, ◌==◌, peek,
}
use ronaldinh_os_sistemas_op.Common.Bits.{Bitarray}
use ronaldinh_os_sistemas_op.Memory.State.{Page, PageTable, Memory, get_page_table}
use ronaldinh_os_sistemas_op.Memory.Frames.{used}
use ronaldinh_os_sistemas_op.Memory.Tables.{
  update_table_absent, get_page_table-update_ne, get_page_table-append_ne, get_page_table-pid,
}
use ronaldinh_os_sistemas_op.Memory.Saved.{Saved}
use ronaldinh_os_sistemas_op.Memory.Resize.{add_pages_to_pcb, create_page_table}
use ronaldinh_os_sistemas_op.Memory.Consistent.{IsConsistent}
use ronaldinh_os_sistemas_op.Memory.Grown.{
  add_pages, enlarged-tables, enlarged-IsConsistent, created-IsConsistent,
}
use ronaldinh_os_sistemas_op.Memory.Reduced.{Reduced}

module _ {B : Type 0} ⦃ba : Bitarray B⦄ where
  -- What a resize of `pid` may do: the memory stays consistent, the tables of other processes stay
  -- as they are, and no frame that was in use is written.
  pub record Resized (pid : ℕ) (m m' : Memory B) : Type 0 where
    pub consistent : IsConsistent m'
    pub same_length : m'.page_length ≡ m.page_length
    pub same_frames : m'.cant_frames ≡ m.cant_frames
    pub others :
        (q : ℕ) → (pid == q) ≡ false → get_page_table q m'.tables ≡ get_page_table q m.tables
    pub kept :
        (f : ℕ)
        → used m f ≡ 1
        → peek m'.ram (f * m.page_length) m.page_length
          ≡ peek m.ram (f * m.page_length) m.page_length

  pub Resized-refl : (pid : ℕ) (m : Memory B) → IsConsistent m → Resized pid m m
  Resized-refl pid m c = record {
    consistent = c;
    same_length = refl;
    same_frames = refl;
    others = λ q ne. refl;
    kept = λ f busy. refl;
  }

  module _ (pid : ℕ) {m m₁ : Memory B} {ps : List Page} (c : IsConsistent m)
      (s : Saved pid m ps m₁) where
    pub enlarged-Resized :
        (t : PageTable)
        → get_page_table pid m.tables ≡ some t
        → Resized pid m (add_pages_to_pcb pid ps m₁)
    unfolding add_pages_to_pcb
    enlarged-Resized t e = record {
      consistent = enlarged-IsConsistent c s t e;
      same_length = s.same_length;
      same_frames = s.same_frames;
      others = λ q ne.
          ap (get_page_table q) (enlarged-tables c s t e)
          ∙ get_page_table-update_ne pid q (add_pages ps) m.tables (λ u h. h) ne;
      kept = s.kept;
    }

    pub created-Resized :
        (bytes : ℕ)
        → get_page_table pid m.tables ≡ none
        → Resized pid m (create_page_table pid bytes ps m₁)
    unfolding create_page_table
    created-Resized bytes e =
        let same : m₁.tables ≡ m.tables = s.tables ∙ update_table_absent pid _ m.tables e in
        record {
          consistent = created-IsConsistent c s e bytes;
          same_length = s.same_length;
          same_frames = s.same_frames;
          others = λ q ne. get_page_table-append_ne q m₁.tables _ ne ∙ ap (get_page_table q) same;
          kept = s.kept;
        }

  pub Reduced-Resized :
      (pid : ℕ) {m : Memory B} (c : IsConsistent m) (t : PageTable)
      (e : get_page_table pid m.tables ≡ some t) (n : ℕ) (r : Reduced pid c t e n)
      → Resized pid m r.after
  Reduced-Resized pid {m} c t e n r = record {
    consistent = r.consistent;
    same_length = r.same_length;
    same_frames = r.same_frames;
    others = λ q ne.
        ap (get_page_table q) r.tables
        ∙ get_page_table-update_ne pid q (λ _. r.table) m.tables
            (λ u h. r.same_pid ∙ get_page_table-pid pid m.tables t e) ne;
    kept = λ f busy. rw r.ram;
  }
