-- ===== src/Memory/RoundTrip.antt =====
-- `ocupyPhysicalAddress` and `leer_a_partir_de_direccion` of memoria/src/paginacion.c as a whole:
-- what a read returns, what a write leaves, and both in turn.
use native.Mathlib.Nat.{mul-div_cancel, mul-add-div_right, div-eq_of_lt}
use ronaldinh_os_sistemas_op.Common.{
  length-map, some-injective, ℕ, suc, ◌+◌, ◌-◌, ◌*◌, ◌/◌, ◌<◌, ◌≤◌, ◌≡◌, refl, sym, ap, ◌∙◌, List,
  ◌∷◌, ◌++◌, some, arith, length, take, drop, length-drop, not-==, peek, poke, Ram, count, inr,
  dec_lt, not-ltb, le→leb, lt→not-leb, take-append, length-peek, take-peek, take-append_short,
}
use ronaldinh_os_sistemas_op.Memory.State.{Page, Memory}
use ronaldinh_os_sistemas_op.Memory.Saved.{frames}
use ronaldinh_os_sistemas_op.Memory.Access.{
  obtener_numero_marco, obtener_desplazamiento_pagina, ocupy_physical_address,
  leer_a_partir_de_direccion,
}
use ronaldinh_os_sistemas_op.Memory.Layout.{
  view, lay, take_all, drop_all, lay-nil, peek-lay, view-lay,
}
use ronaldinh_os_sistemas_op.Memory.Transfer.{
  Follows, Follows-ram, Follows-Distinct, ocupy_pages-lay, leer_pages-view,
}

its_frame_number : (f l offset : ℕ) → 0 < l → offset < l → (f * l + offset) / l ≡ f
its_frame_number f l offset pos low =
    rw (mul-add-div_right pos f offset, div-eq_of_lt low) (omega arith)

its_offset :
    (f l offset : ℕ)
    → 0 < l
    → offset < l
    → obtener_desplazamiento_pagina l (f * l + offset) ≡ offset
unfolding obtener_desplazamiento_pagina obtener_numero_marco
its_offset f l offset pos low = rw (its_frame_number f l offset pos low) (omega arith)

offset_zero : (f l : ℕ) → 0 < l → obtener_desplazamiento_pagina l (f * l) ≡ 0
unfolding obtener_desplazamiento_pagina obtener_numero_marco
offset_zero f l pos = rw (mul-div_cancel f pos) (omega arith)

take-chunk :
    (n src k : ℕ) (ram : Ram) (xs : List ℕ)
    → k ≤ n
    → take n (peek ram src k ++ xs) ≡ peek ram src k ++ take (n - k) xs
take-chunk n src k ram xs h =
    let w = length-peek ram src k in
    take-append n (peek ram src k) xs (omega (arith, w)) ∙ rw w refl

module _ {B : Type 0} (pid : ℕ) where
  -- A write from the start of a page, into that page and the pages behind it, lays the bytes over
  -- their frames, and changes nothing else.
  write-lay :
      (algo : List ℕ) (f : ℕ) (qs : List Page) (m : Memory B)
      → 0 < m.page_length
      → length algo ≤ suc (length qs) * m.page_length
      → Follows pid m f qs
      → ocupy_physical_address algo (f * m.page_length) pid m
        ≡ some (record m { ram = lay m.ram m.page_length (f ∷ frames qs) algo })
  unfolding ocupy_physical_address lay
  write-lay algo f qs m pos room r =
      let l = m.page_length in
      let off = offset_zero f l pos in
      let whole : l - 0 ≡ l = omega arith in
      elim (dec_lt l (length algo)) [
        | yes long ↦
            rw (off, whole, lt→not-leb (length algo) l long, not-ltb (length algo) l (omega arith))
              (ocupy_pages-lay pid (length algo + 1) (drop l algo) (f * l) f qs _
                (omega (arith, length-drop l algo)) pos (omega (arith, length-drop l algo))
                (omega (arith, length-drop l algo)) (mul-div_cancel f pos)
                (Follows-ram pid {m = m} f qs r _))
        | no short ↦
            rw
              (
                off,
                whole,
                le→leb (length algo) l (omega arith),
                lay,
                take_all l algo (omega arith),
                drop_all l algo (omega arith),
                lay-nil (poke m.ram (f * l) algo) l (frames qs),
              )
              refl
      ]

  leer-aligned :
      (size f : ℕ) (qs : List Page) (m : Memory B)
      → 0 < m.page_length
      → size ≤ suc (length qs) * m.page_length
      → Follows pid m f qs
      → leer_a_partir_de_direccion pid size (f * m.page_length) m
        ≡ some (take size (view m.ram m.page_length (f ∷ frames qs)))
  unfolding leer_a_partir_de_direccion
  leer-aligned size f qs m pos room r =
      let l = m.page_length in
      elim (dec_lt l size) [
        | yes long ↦
            rw
              (
                offset_zero f l pos,
                lt→not-leb size l long,
                leer_pages-view pid (size + 1) (size - l) (f * l) f qs m (omega arith) pos
                    (omega arith) (mul-div_cancel f pos) r,
                take-chunk size (f * l) l m.ram (view m.ram l (frames qs)) (omega arith),
              )
              refl
        | no short ↦
            rw
              (
                offset_zero f l pos,
                le→leb size l (omega arith),
                take-append_short size (peek m.ram (f * l) l) (view m.ram l (frames qs))
                    (omega (arith, length-peek m.ram (f * l) l)),
                take-peek m.ram (f * l) size l (omega arith),
              )
              refl
      ]

  -- A read from inside a page, past its end or up to it, returns the bytes from there to the end
  -- of the page and then those of the pages behind it, in the order of the page table.
  pub leer-unaligned :
      (size f offset : ℕ) (qs : List Page) (m : Memory B)
      → 0 < offset
      → offset < m.page_length
      → m.page_length - offset ≤ size
      → size ≤ m.page_length - offset + length qs * m.page_length
      → Follows pid m f qs
      → leer_a_partir_de_direccion pid size (f * m.page_length + offset) m
        ≡ some (
            peek m.ram (f * m.page_length + offset) (m.page_length - offset)
            ++ take (size - (m.page_length - offset)) (view m.ram m.page_length (frames qs)))
  unfolding leer_a_partir_de_direccion
  leer-unaligned size f offset qs m inside low whole room r =
      let l = m.page_length in
      let pos : 0 < l = omega arith in
      rw
        (
          its_offset f l offset pos low,
          not-== offset 0 (inr inside),
          not-ltb size (l - offset) whole,
          leer_pages-view pid (size + 1) (size - (l - offset)) (f * l + offset) f qs m (omega arith)
              pos (omega arith) (its_frame_number f l offset pos low) r,
        )
        refl

  -- Bytes written from the start of a page of the process, over that page and the ones behind it,
  -- are what a read of as many bytes returns; the write succeeds.
  pub leer-ocupy :
      (algo : List ℕ) (f : ℕ) (qs : List Page) (m : Memory B)
      → 0 < m.page_length
      → length algo ≤ suc (length qs) * m.page_length
      → Follows pid m f qs
      → (m' : Memory B) × (ocupy_physical_address algo (f * m.page_length) pid m ≡ some m')
        × (leer_a_partir_de_direccion pid (length algo) (f * m.page_length) m' ≡ some algo)
  leer-ocupy algo f qs m pos room r =
      let ram' = lay m.ram m.page_length (f ∷ frames qs) algo in
      let here : length algo ≤ length (f ∷ frames qs) * m.page_length =
        rw (length-map qs (λ (p : Page). p.frame_ppal)) room in
      (
        record m { ram = ram' },
        write-lay algo f qs m pos room r,
        leer-aligned (length algo) f qs (record m { ram = ram' }) pos room
              (Follows-ram pid {m = m} f qs r ram')
            ∙ ap some (
                view-lay m.ram m.page_length (f ∷ frames qs) algo
                  (Follows-Distinct pid {m = m} f qs r) here),
      )

  -- A write from the start of a page, over that page and the ones behind it, leaves every frame
  -- that is neither the page's nor of a page behind it as it was.
  pub ocupy_isolated :
      (algo : List ℕ) (f g : ℕ) (qs : List Page) (m : Memory B) {m' : Memory B}
      → 0 < m.page_length
      → length algo ≤ suc (length qs) * m.page_length
      → Follows pid m f qs
      → count g (f ∷ frames qs) ≡ 0
      → ocupy_physical_address algo (f * m.page_length) pid m ≡ some m'
      → peek m'.ram (g * m.page_length) m.page_length ≡ peek m.ram (g * m.page_length) m.page_length
  ocupy_isolated algo f g qs m {m'} pos room r apart e =
      let l = m.page_length in
      let same : m' ≡ record m { ram = lay m.ram l (f ∷ frames qs) algo } =
        some-injective _ _ (sym e ∙ write-lay algo f qs m pos room r) in
      rw same (peek-lay m.ram l (f ∷ frames qs) algo g l apart (omega arith))
