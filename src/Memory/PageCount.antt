-- ===== src/Memory/PageCount.antt =====
-- How many pages a process has behind `resize` of memoria/src/paginacion.c, and when it is refused.
use native.Mathlib.Nat.{div-mul-le_self}
use ronaldinh_os_sistemas_op.Common.{
  ℕ, zero, length-append, suc, ◌+◌, ◌-◌, ◌*◌, ◌/◌, ◌^◌, u32_mod, ◌≤◌, ◌<◌, ◌≡◌, refl, ap, Bool,
  false, Option, leb, ◌&&◌, if◌then◌else◌, ◌>>=◌, not-==, ◌∙◌, List, [], ◌∷◌, ◌++◌, true, none,
  some, arith, length, replicate, ceil_div, List-cases, inl, inr, le→leb, lt→not-leb,
  length-replicate, append-nil,
}
use ronaldinh_os_sistemas_op.Common.Bits.{Bitarray}
use ronaldinh_os_sistemas_op.Memory.State.{
  Page, PageTable, Memory, get_page_table, page_availability, is_there_room_in_your_page,
}
use ronaldinh_os_sistemas_op.Memory.Tables.{
  update_table_absent, get_page_table-update_self, get_page_table-append, get_page_table-pid,
}
use ronaldinh_os_sistemas_op.Memory.Allocate.{pages_occupied_by_instructions}
use ronaldinh_os_sistemas_op.Memory.Saving.{Runs, save_in_page-Runs}
use ronaldinh_os_sistemas_op.Memory.Resize.{
  star, first_page, star_text, creation, add_pages_to_pcb, create_page_table, playing_god, create,
  creation_pages, free_pages_from_the_end, enlarge, resize, size_difference,
}
use ronaldinh_os_sistemas_op.Memory.Consistent.{IsConsistent}
use ronaldinh_os_sistemas_op.Memory.Grown.{add_pages, enlarged-tables}
use ronaldinh_os_sistemas_op.Common.Division.{
  ceil_div-reduce, ceil_div-extend, ceil_div-pos, ceil_div-lo, le-ceil_div, quotient-lt,
}
use ronaldinh_os_sistemas_op.Memory.Outcomes.{pages_of, shrink}
use ronaldinh_os_sistemas_op.Memory.Difference.{
  creation_pages-positive, size_difference-above, back, size_difference-below,
}

blocks_before : (n l : ℕ) → 0 < n → 0 < l → (n - 1) * l < n * l
blocks_before zero l h k = absurd (omega arith)
blocks_before (suc n) l h k = let w : suc n - 1 ≡ n = omega arith in rw w (omega arith)

module _ {B : Type 0} ⦃ba : Bitarray B⦄ where
  stars-Runs :
      (n bytes pid : ℕ) (m : Memory B)
      → 0 < m.page_length
      → 0 < n
      → (n - 1) * m.page_length < bytes
      → bytes ≤ n * m.page_length
      → n ≤ page_availability m
      → Runs (length (star_text bytes []) + 1) (star_text bytes []) pid m n
  unfolding star_text
  stars-Runs zero bytes pid m pos some_pages lo hi room = absurd (omega arith)
  stars-Runs (suc k) bytes pid m pos some_pages lo hi room =
      let l : length (star_text bytes []) ≡ bytes =
        rw (append-nil (replicate bytes star)) (length-replicate bytes star) in
      let enough : k ≤ k * m.page_length = grind arith in
      let below : suc k - 1 ≡ k = omega arith in
      let lo' : k * m.page_length < bytes = rw below at lo in
      save_in_page-Runs k _ _ pid m (omega (arith, l, lo')) pos (inr (rw l lo')) (rw l hi)
        (omega arith)

  Runs-first :
      {fuel : ℕ} {algo : List ℕ} {pid : ℕ} {m : Memory B} {n : ℕ} (r : Runs fuel algo pid m n)
      → 0 < n
      → (p : Page) × (first_page r.pages ≡ some p)
  unfolding first_page
  Runs-first r h = elim (List-cases r.pages) [
    | inl e ↦ absurd (omega (arith, r.pages_taken, ap length e))
    | inr (p, rest, e) ↦ (p, rw e refl)
  ]

  is_there_room_in_your_page-true :
      (m : Memory B) (n : ℕ) → n ≤ page_availability m → is_there_room_in_your_page m n ≡ true
  unfolding is_there_room_in_your_page
  is_there_room_in_your_page-true m n h = le→leb n _ h

  create-positive :
      (beyond : List ℕ) (pid size : ℕ) (m : Memory B)
      → size < 2 ^ 31
      → create beyond pid size m ≡ (
          playing_god beyond pid creation (ceil_div size m.page_length) m >>= λ (_, m').
          some (1, m'))
  unfolding create
  create-positive beyond pid size m low =
      let answer : Bool → ℕ → Option (ℕ × Memory B) = λ below pages.
        if below
        then none
        else playing_god beyond pid creation pages m >>= λ (_, m'). some (1, m') in
      let above : (leb (2 ^ 31) size && leb m.page_length (u32_mod - size)) ≡ false =
        rw (lt→not-leb (2 ^ 31) size low) refl in
      ap (λ b. answer b (creation_pages size m.page_length)) above
      ∙ ap (answer false) (creation_pages-positive size m.page_length low)

  -- A difference below 0 frees the pages from the end.
  pub resize-reduces :
      (beyond : List ℕ) (pid size by : ℕ) (m : Memory B) (t : PageTable)
      → get_page_table pid m.tables ≡ some t
      → 0 < by
      → by < 2 ^ 31
      → size_difference size (length t.pages * m.page_length) ≡ u32_mod - by
      → resize beyond pid size m
        ≡ (free_pages_from_the_end t (ceil_div by m.page_length) m >>= λ m'. some (1, m'))
  unfolding resize
  resize-reduces beyond pid size by m t e some_bytes low d =
      rw
        (
          e,
          resize,
          d,
          not-== (u32_mod - by) 0 (inr (omega arith)),
          le→leb (2 ^ 31) (u32_mod - by) (omega arith),
          back by low,
        )
        refl

  -- For a process without a table, a size above 0 and below 2^31 and enough free frames, where a
  -- zero byte lies behind the buffer: resize returns 1 and the process has the pages its size needs, rounded up.
  pub resize-creation :
      (pid size : ℕ) (m : Memory B)
      → IsConsistent m
      → get_page_table pid m.tables ≡ none
      → 0 < size
      → size < 2 ^ 31
      → ceil_div size m.page_length ≤ page_availability m
      → (m' : Memory B) × (resize [] pid size m ≡ some (1, m'))
        × (pages_of (get_page_table pid m'.tables) ≡ ceil_div size m.page_length)
  unfolding resize playing_god create_page_table pages_occupied_by_instructions
  resize-creation pid size m c e pos low room =
      let n = ceil_div size m.page_length in
      let l = m.page_length in
      let some_pages = ceil_div-pos size l c.page_pos pos in
      let r =
        stars-Runs n (n * l) pid m c.page_pos some_pages (blocks_before n l some_pages c.page_pos)
          (omega arith) room in
      let (p, first) = Runs-first r some_pages in
      let there : r.after.tables ≡ m.tables =
        r.saved.tables ∙ update_table_absent pid _ m.tables e in
      let new : PageTable = record {
        pid = pid;
        instruction_size = n * l;
        last_used_page_id = length r.pages;
        pages = r.pages;
      } in
      let found : get_page_table pid (m.tables ++ new ∷ []) ≡ some new =
        get_page_table-append pid m.tables new e refl in
      (
        create_page_table pid (n * l) r.pages r.after,
        rw
            (
              e,
              resize,
              create-positive [] pid size m low,
              playing_god,
              is_there_room_in_your_page-true m n room,
              e,
              r.run,
              first,
            )
            refl,
        rw (there, found) r.pages_taken,
      )

  -- For a process with a table, a size above what its pages hold, below 2^31, and enough free frames,
  -- where a zero byte lies behind the buffer: resize returns 1 and the process has the pages its new size
  -- needs, rounded up.
  pub resize-enlargement :
      (pid size : ℕ) (m : Memory B) (t : PageTable)
      → IsConsistent m
      → get_page_table pid m.tables ≡ some t
      → length t.pages * m.page_length < size
      → size < 2 ^ 31
      → ceil_div size m.page_length - length t.pages ≤ page_availability m
      → (m' : Memory B) × (resize [] pid size m ≡ some (1, m'))
        × (pages_of (get_page_table pid m'.tables) ≡ ceil_div size m.page_length)
  unfolding resize enlarge pages_occupied_by_instructions
  resize-enlargement pid size m t c e long low room =
      let l = m.page_length in
      let d = size - length t.pages * l in
      let n = ceil_div d l in
      let total = ceil_div-extend (length t.pages) size l c.page_pos long in
      let missing : 0 < d = omega arith in
      let some_pages = ceil_div-pos d l c.page_pos missing in
      let enough : n ≤ page_availability m = omega arith in
      let r =
        stars-Runs n d pid m c.page_pos some_pages (ceil_div-lo d l c.page_pos missing)
          (le-ceil_div d l c.page_pos) enough in
      let (p, first) = Runs-first r some_pages in
      (
        add_pages_to_pcb pid r.pages r.after,
        rw
            (
              e,
              resize,
              size_difference-above size (length t.pages * l) long low,
              not-== d 0 (inr missing),
              lt→not-leb (2 ^ 31) d (omega arith),
              enlarge,
              is_there_room_in_your_page-true m n enough,
              r.run,
              first,
            )
            refl,
        rw
            (
              enlarged-tables c r.saved t e,
              get_page_table-update_self pid (add_pages r.pages) m.tables t e
                  (get_page_table-pid pid m.tables t e),
            )
            (omega (arith, length-append t.pages r.pages, r.pages_taken, total)),
      )

  -- For a process with a table and a size below what its pages hold, which is below 2^31: resize returns 1 and the
  -- process keeps size / page length + 1 pages, which is one more than needed where the page
  -- length divides the size.
  pub resize-reduction :
      (beyond : List ℕ) (pid size : ℕ) (m : Memory B) (t : PageTable)
      → IsConsistent m
      → get_page_table pid m.tables ≡ some t
      → size < length t.pages * m.page_length
      → length t.pages * m.page_length < 2 ^ 31
      → (m' : Memory B) × (resize beyond pid size m ≡ some (1, m'))
        × (pages_of (get_page_table pid m'.tables) ≡ size / m.page_length + 1)
  resize-reduction beyond pid size m t c e short low =
      let l = m.page_length in
      let r = shrink c t e size short in
      let freed = ceil_div-reduce (length t.pages) size l c.page_pos short in
      let kept : size / l < length t.pages =
        quotient-lt (length t.pages) (size / l) l size (div-mul-le_self size l) short in
      (
        r.after,
        resize-reduces beyond pid size (length t.pages * l - size) m t e (omega arith) (omega arith)
              (size_difference-below size (length t.pages * l) short low)
            ∙ rw r.run refl,
        rw
            (
              r.tables,
              get_page_table-update_self pid (λ _. r.table) m.tables t e
                  (r.same_pid ∙ get_page_table-pid pid m.tables t e),
            )
            (omega (arith, r.pages_left, freed)),
      )

  -- With too few free frames, a resize that would enlarge a process, to a size below 2^31, returns 0, the
  -- out of memory answer, and changes nothing.
  pub resize-out_of_memory :
      (beyond : List ℕ) (pid size : ℕ) (m : Memory B) (t : PageTable)
      → IsConsistent m
      → get_page_table pid m.tables ≡ some t
      → length t.pages * m.page_length < size
      → size < 2 ^ 31
      → page_availability m < ceil_div size m.page_length - length t.pages
      → resize beyond pid size m ≡ some (0, m)
  unfolding resize enlarge is_there_room_in_your_page
  resize-out_of_memory beyond pid size m t c e long low full =
      let l = m.page_length in
      let d = size - length t.pages * l in
      let total = ceil_div-extend (length t.pages) size l c.page_pos long in
      let missing : 0 < d = omega arith in
      let more : page_availability m < ceil_div d l = omega arith in
      rw
        (
          e,
          resize,
          size_difference-above size (length t.pages * l) long low,
          not-== d 0 (inr missing),
          lt→not-leb (2 ^ 31) d (omega arith),
          enlarge,
          is_there_room_in_your_page,
          lt→not-leb (ceil_div d l) (page_availability m) more,
        )
        refl
