-- ===== src/Memory/Outcomes.antt =====
-- What `resize` of memoria/src/paginacion.c returns, branch by branch.
use ronaldinh_os_sistemas_op.Common.{
  ℕ, ◌-◌, ◌*◌, ◌<◌, ◌≡◌, refl, List, [], ◌∷◌, Option, none, some, arith, ◌==◌, length, ceil_div,
  Bool-cases, Option-cases, inl, inr, ◌>>=◌, dec_lt, leb, ◌^◌, ◌&&◌, u32_mod,
}
use ronaldinh_os_sistemas_op.Common.Bits.{Bitarray}
use ronaldinh_os_sistemas_op.Memory.State.{
  Page, PageTable, Memory, get_page_table, is_there_room_in_your_page,
}
use ronaldinh_os_sistemas_op.Memory.Allocate.{pages_occupied_by_instructions}
use ronaldinh_os_sistemas_op.Memory.Saving.{save_in_page-Saved}
use ronaldinh_os_sistemas_op.Memory.Resize.{
  creation, first_page, free_pages_from_the_end, add_pages_to_pcb, create_page_table, playing_god,
  create, enlarge, resize, size_difference,
}
use ronaldinh_os_sistemas_op.Memory.Consistent.{IsConsistent}
use ronaldinh_os_sistemas_op.Memory.Reduced.{
  Reduced, free_pages_from_the_end-none, free_pages_from_the_end-Reduced,
}
use ronaldinh_os_sistemas_op.Common.Division.{ceil_div-reduce}
use ronaldinh_os_sistemas_op.Memory.Resized.{
  Resized, Resized-refl, enlarged-Resized, created-Resized, Reduced-Resized,
}

-- The pages of a process: none without a table.
abbrev pub pages_of : Option PageTable → ℕ
pages_of none = 0
pages_of (some t) = length t.pages

module _ {B : Type 0} ⦃ba : Bitarray B⦄ where
  abbrev ResizedBy {ℓ} : {A : Type ℓ} → ℕ → Memory B → Option (A × Memory B) → Type 0
  ResizedBy pid m none = Unit
  ResizedBy pid m (some (r, m')) = Resized pid m m'

  -- New pages, the read of the first of them, and what is then done with them.
  taken-ResizedBy {ℓ} :
      {A : Type ℓ} (pid : ℕ) {m : Memory B} (taken : Option (List Page × Memory B)) (r : A)
      (install : List Page → Memory B → Memory B)
      → ((ps : List Page) (m₁ : Memory B) → taken ≡ some (ps, m₁) → Resized pid m (install ps m₁))
      → ResizedBy pid m (taken >>= λ (ps, m₁). first_page ps >>= λ _. some (r, install ps m₁))
  unfolding first_page
  taken-ResizedBy pid none r install h = tt
  taken-ResizedBy pid (some ([], m₁)) r install h = tt
  taken-ResizedBy pid (some (p ∷ ps, m₁)) r install h = h _ _ refl

  playing_god-ResizedBy :
      (beyond : List ℕ) (pid n : ℕ) (m : Memory B)
      → IsConsistent m
      → get_page_table pid m.tables ≡ none
      → ResizedBy pid m (playing_god beyond pid creation n m)
  unfolding playing_god pages_occupied_by_instructions
  playing_god-ResizedBy beyond pid n m c e = elim (Bool-cases (is_there_room_in_your_page m n)) [
    | inr full ↦ rw (full, playing_god) (Resized-refl pid m c)
    | inl room ↦
        rw (room, e, playing_god)
          (taken-ResizedBy pid _ (some 1) (create_page_table pid (n * m.page_length))
            λ ps m₁ s. created-Resized pid c (save_in_page-Saved _ _ pid m s) (n * m.page_length) e)
  ]

  enlarge-ResizedBy :
      (beyond : List ℕ) (pid n : ℕ) (m : Memory B) (t : PageTable)
      → IsConsistent m
      → get_page_table pid m.tables ≡ some t
      → ResizedBy pid m (enlarge beyond pid n m)
  unfolding enlarge pages_occupied_by_instructions
  enlarge-ResizedBy beyond pid n m t c e =
      elim (Bool-cases (is_there_room_in_your_page m (ceil_div n m.page_length))) [
        | inr full ↦ rw (full, enlarge) (Resized-refl pid m c)
        | inl room ↦
            rw (room, enlarge)
              (taken-ResizedBy pid _ 1 (add_pages_to_pcb pid)
                λ ps m₁ s. enlarged-Resized pid c (save_in_page-Saved _ _ pid m s) t e)
      ]

  ResizedBy-map {ℓ} :
      {A : Type ℓ} (pid : ℕ) (m : Memory B) (o : Option (A × Memory B)) (r : ℕ)
      → ResizedBy pid m o
      → ResizedBy pid m (o >>= λ (_, m'). some (r, m'))
  ResizedBy-map pid m none r h = tt
  ResizedBy-map pid m (some (a, m')) r h = h

  -- The run of `freePagesFromTheEnd` that `resize` makes on `t`.
  pub shrink :
      {m : Memory B} {pid : ℕ} (c : IsConsistent m) (t : PageTable)
      (e : get_page_table pid m.tables ≡ some t) (size : ℕ)
      → size < length t.pages * m.page_length
      → Reduced pid c t e (ceil_div (length t.pages * m.page_length - size) m.page_length)
  shrink {m} {pid} c t e size less =
      let n = ceil_div-reduce (length t.pages) size m.page_length c.page_pos less in
      free_pages_from_the_end-Reduced pid c t e _ (omega (arith, n))

  shrunk :
      (pid : ℕ) {m : Memory B} (c : IsConsistent m) (t : PageTable)
      → get_page_table pid m.tables ≡ some t
      → (n : ℕ) → ResizedBy {A = ℕ} pid m (free_pages_from_the_end t n m >>= λ m'. some (1, m'))
  shrunk pid {m} c t e n = elim (dec_lt (length t.pages) (n - 1)) [
    | yes more ↦ rw (free_pages_from_the_end-none t n m more) tt
    | no enough ↦
        let r = free_pages_from_the_end-Reduced pid c t e n (omega arith) in
        rw r.run (Reduced-Resized pid c t e _ r)
  ]

  create-ResizedBy :
      (beyond : List ℕ) (pid size : ℕ) (m : Memory B)
      → IsConsistent m
      → get_page_table pid m.tables ≡ none
      → ResizedBy pid m (create beyond pid size m)
  unfolding create
  create-ResizedBy beyond pid size m c e =
      elim (Bool-cases (leb (2 ^ 31) size && leb m.page_length (u32_mod - size))) [
        | inl below ↦ rw (create, below) tt
        | inr above ↦
            rw (create, above) (ResizedBy-map pid m _ 1 (playing_god-ResizedBy beyond pid _ m c e))
      ]

  resize-ResizedBy :
      (beyond : List ℕ) (pid size : ℕ) (m : Memory B)
      → IsConsistent m
      → ResizedBy pid m (resize beyond pid size m)
  unfolding resize
  resize-ResizedBy beyond pid size m c = elim (Option-cases (get_page_table pid m.tables)) [
    | inl e ↦ rw (e, resize) (create-ResizedBy beyond pid size m c e)
    | inr (t, e) ↦
        let d = size_difference size (length t.pages * m.page_length) in
        elim (Bool-cases (d == 0)) [
          | inl same ↦ rw (e, resize, same) (Resized-refl pid m c)
          | inr other ↦ elim (Bool-cases (leb (2 ^ 31) d)) [
            | inl less ↦ rw (e, resize, other, less) (shrunk pid c t e _)
            | inr more ↦ rw (e, resize, other, more) (enlarge-ResizedBy beyond pid _ m t c e)
          ]
        ]
  ]

  -- From a consistent memory, whatever a resize of a process returns and whatever lies behind the
  -- buffer it allocates: the memory is consistent again (every marked frame belongs to exactly one
  -- page, pages are numbered from 0), has the same geometry, the tables of the other processes are
  -- as before, and every frame in use holds the bytes it held.
  pub resize-Resized :
      (beyond : List ℕ) (pid size : ℕ) (m : Memory B) {r : ℕ} {m' : Memory B}
      → IsConsistent m
      → resize beyond pid size m ≡ some (r, m')
      → Resized pid m m'
  resize-Resized beyond pid size m c e = rw e at (resize-ResizedBy beyond pid size m c)
