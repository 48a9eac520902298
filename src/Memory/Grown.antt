-- ===== src/Memory/Grown.antt =====
-- Pages that a process gets, in memoria/src/paginacion.c, keep the invariant.
use mathlib.Core.List.{map-append}
use ronaldinh_os_sistemas_op.Common.{
  ℕ, ◌+◌, ◌≡◌, refl, sym, ap, subst, ◌∙◌, List, [], ◌∷◌, ◌++◌, none, some, arith, length,
  length-append, count, count-append, All, All-append,
}
use ronaldinh_os_sistemas_op.Common.Bits.{Bitarray}
use ronaldinh_os_sistemas_op.Memory.State.{Page, PageTable, Memory, get_page_table, update_table}
use ronaldinh_os_sistemas_op.Memory.Frames.{used}
use ronaldinh_os_sistemas_op.Memory.Saved.{frames, Numbered, Numbered-append, Saved}
use ronaldinh_os_sistemas_op.Memory.Tables.{add_ids, update_table-update_table, update_table_absent}
use ronaldinh_os_sistemas_op.Memory.Resize.{add_pages_to_pcb, create_page_table}
use ronaldinh_os_sistemas_op.Memory.Consistent.{
  owned, IsNumbered, IsConsistent, owned-update_table, All-update_table, All-get_page_table,
  count-owned-append, count-owned-one,
}

-- What `resize` does to a table that gets the pages `ps`.
abbrev pub add_pages : List Page → PageTable → PageTable
add_pages ps u = record u {
  last_used_page_id = u.last_used_page_id + length ps;
  pages = u.pages ++ ps;
}

count-frames-append :
    (f : ℕ) (ps qs : List Page)
    → count f (frames (ps ++ qs)) ≡ count f (frames ps) + count f (frames qs)
count-frames-append f ps qs =
    rw (map-append (λ (p : Page). p.frame_ppal) ps qs) (count-append f (frames ps) (frames qs))

add_pages-IsNumbered :
    (t : PageTable) (ps : List Page)
    → IsNumbered t
    → Numbered t.last_used_page_id ps
    → IsNumbered (add_pages ps t)
add_pages-IsNumbered t ps h n = record {
  counter = omega (arith, h.counter, length-append t.pages ps);
  numbered =
      Numbered-append 0 t.pages ps h.numbered
        (let e : t.last_used_page_id ≡ 0 + length t.pages = omega (arith, h.counter) in rw e at n);
}

module _ {B : Type 0} ⦃ba : Bitarray B⦄ {pid : ℕ} {m m₁ : Memory B} {ps : List Page}
    (c : IsConsistent m) (s : Saved pid m ps m₁) where
  -- Pages that join the table of the process keep frames and tables in step.
  module _ (t : PageTable) (e : get_page_table pid m.tables ≡ some t) where
    pub enlarged-tables :
        (add_pages_to_pcb pid ps m₁).tables ≡ update_table pid (add_pages ps) m.tables
    unfolding add_pages_to_pcb
    enlarged-tables = rw s.tables (
        update_table-update_table pid (add_ids (length ps))
          (λ u. record u { pages = u.pages ++ ps }) m.tables (λ u. refl))

    enlarged-owned :
        (f : ℕ)
        → count f (owned (update_table pid (add_pages ps) m.tables))
          ≡ used (add_pages_to_pcb pid ps m₁) f
    unfolding add_pages_to_pcb
    enlarged-owned f = omega (
      arith,
      owned-update_table f pid (add_pages ps) m.tables t e,
      count-frames-append f t.pages ps,
      c.owned_once f,
      s.claimed f,
    )

    pub enlarged-IsConsistent : IsConsistent (add_pages_to_pcb pid ps m₁)
    unfolding add_pages_to_pcb
    enlarged-IsConsistent = record {
      page_pos = rw s.same_length c.page_pos;
      owned_once = λ f. ap (λ ts. count f (owned ts)) enlarged-tables ∙ enlarged-owned f;
      tables_numbered = subst (All IsNumbered) (sym enlarged-tables) (
          All-update_table IsNumbered pid (add_pages ps) m.tables t e c.tables_numbered (
            add_pages-IsNumbered t ps
              (All-get_page_table IsNumbered pid m.tables t e c.tables_numbered)
              (rw e at s.numbered)));
      id_zero = (rw e at s.ids) ∙ c.id_zero;
    }

  new_table : ℕ → PageTable
  new_table bytes = record {
    pid = pid;
    instruction_size = bytes;
    last_used_page_id = length ps;
    pages = ps;
  }

  -- So does a table for a process that had none.
  module _ (e : get_page_table pid m.tables ≡ none) where
    pub created-IsConsistent : (bytes : ℕ) → IsConsistent (create_page_table pid bytes ps m₁)
    unfolding create_page_table new_table
    created-IsConsistent bytes =
        let same : m₁.tables ≡ m.tables = s.tables ∙ update_table_absent pid _ m.tables e in
        let from_zero : Numbered m.id_global ps = rw e at s.numbered in
        let later : m₁.id_global ≡ m.id_global + length ps = rw e at s.ids in
        record {
          page_pos = rw s.same_length c.page_pos;
          owned_once = λ f. rw same (
              omega (
                arith,
                count-owned-append f m.tables (new_table bytes ∷ []),
                count-owned-one f (new_table bytes),
                c.owned_once f,
                s.claimed f,
              ));
          tables_numbered = rw same (
              All-append IsNumbered m.tables (new_table bytes ∷ []) c.tables_numbered
                (record { counter = refl; numbered = rw c.id_zero at from_zero }, tt));
          id_zero = omega (arith, later, c.id_zero);
        }
