-- ===== src/Memory/Negative.antt =====
-- A size below 0 in `resize` of memoria/src/paginacion.c.
use ronaldinh_os_sistemas_op.Common.{
  ℕ, ◌+◌, ◌-◌, ◌*◌, ◌^◌, u32_mod, ◌≤◌, ◌<◌, ◌≡◌, refl, ap, ◌>>=◌, dec_lt, ◌⊎◌, ◌∙◌, List, none,
  some, arith, length, ceil_div, inl, inr,
}
use ronaldinh_os_sistemas_op.Common.Bits.{Bitarray}
use ronaldinh_os_sistemas_op.Memory.State.{PageTable, Memory, get_page_table}
use ronaldinh_os_sistemas_op.Memory.Tables.{get_page_table-update_self, get_page_table-pid}
use ronaldinh_os_sistemas_op.Memory.Resize.{resize}
use ronaldinh_os_sistemas_op.Memory.Consistent.{IsConsistent}
use ronaldinh_os_sistemas_op.Memory.Outcomes.{pages_of}
use ronaldinh_os_sistemas_op.Memory.Reduced.{
  free_pages_from_the_end-none, free_pages_from_the_end-Reduced,
}
use ronaldinh_os_sistemas_op.Memory.Difference.{
  size_difference-negative, pages_below, near_below, far_below,
}
use ronaldinh_os_sistemas_op.Memory.PageCount.{resize-reduces}

module _ {B : Type 0} ⦃ba : Bitarray B⦄ where
  -- For a process with a table, a size below 0, by less than 2^31 with what its pages hold, which the
  -- request has as its 32 bits: at most a page below 0, resize returns 1 and no page is left; further
  -- below it crashes.
  pub resize-negative :
      (beyond : List ℕ) (pid below : ℕ) (m : Memory B) (t : PageTable)
      → IsConsistent m
      → get_page_table pid m.tables ≡ some t
      → 0 < below
      → length t.pages * m.page_length + below < 2 ^ 31
      → ((below ≤ m.page_length)
          × (m' : Memory B) × (resize beyond pid (u32_mod - below) m ≡ some (1, m'))
          × (pages_of (get_page_table pid m'.tables) ≡ 0))
        ⊎ ((m.page_length < below) × (resize beyond pid (u32_mod - below) m ≡ none))
  resize-negative beyond pid below m t c e negative low =
      let l = m.page_length in
      let all = length t.pages * l + below in
      let pages = pages_below (length t.pages) below l c.page_pos negative in
      let run =
        resize-reduces beyond pid (u32_mod - below) all m t e (omega arith) low
          (size_difference-negative below (length t.pages * l) negative low) in
      elim (dec_lt l below) [
        | yes far ↦
            let more = far_below below l c.page_pos far in
            let crash =
              free_pages_from_the_end-none t (ceil_div all l) m (omega (arith, pages, more)) in
            inr (far, run ∙ rw crash refl)
        | no near ↦
            let one_page = near_below below l c.page_pos negative (omega arith) in
            let r =
              free_pages_from_the_end-Reduced pid c t e (ceil_div all l)
                (omega (arith, pages, one_page)) in
            inl (
              omega arith,
              r.after,
              run ∙ ap (λ o. o >>= λ m'. some (1, m')) r.run,
              rw
                  (
                    r.tables,
                    get_page_table-update_self pid (λ _. r.table) m.tables t e
                        (r.same_pid ∙ get_page_table-pid pid m.tables t e),
                  )
                  (omega (arith, r.pages_left, pages, one_page)),
            )
      ]
