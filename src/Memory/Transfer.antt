-- ===== src/Memory/Transfer.antt =====
-- The page chain that the loops of `ocupyPhysicalAddress` and `leer_a_partir_de_direccion` follow,
-- in memoria/src/paginacion.c.
use native.Mathlib.Nat.{mul-div_cancel}
use ronaldinh_os_sistemas_op.Common.{
  ℕ, zero, suc, ◌-◌, ◌*◌, ◌/◌, ◌<◌, ◌≤◌, ◌≡◌, ◌≢◌, refl, ap, List, [], ◌∷◌, ◌++◌, true, false, some,
  arith, ltb, ◌==◌, length, take, drop, length-drop, ceil_div, peek, poke, Ram, count, dec_lt,
  append_assoc, take-append_short, take-peek, length-peek, lt→ltb, not-ltb, le→leb, lt→not-leb,
}
use ronaldinh_os_sistemas_op.Common.Division.{ceil_div-zero, ceil_div-lo, le-ceil_div}
use ronaldinh_os_sistemas_op.Memory.State.{Page, PageTable, Memory, get_page_table}
use ronaldinh_os_sistemas_op.Memory.Resize.{first_page}
use ronaldinh_os_sistemas_op.Memory.Saved.{frames}
use ronaldinh_os_sistemas_op.Common.Bits.{Bitarray}
use ronaldinh_os_sistemas_op.Memory.Consistent.{IsConsistent, owned-update_table}
use ronaldinh_os_sistemas_op.Memory.Access.{
  pagina_siguiente, obtener_numero_marco, obtener_pagsig_de_dirfisica, recalcular_direccion_fisica,
  direccion_siguiente, ocupy_pages, leer_pages,
}
use ronaldinh_os_sistemas_op.Memory.Layout.{
  view, lay, Distinct, take_all, drop_all, lay-nil, Distinct-tail, Distinct-head, take-view,
}

Distinct-suffix :
    (before rest : List Page) → Distinct (frames (before ++ rest)) → Distinct (frames rest)
Distinct-suffix [] rest d = d
Distinct-suffix (b ∷ before) rest d = Distinct-suffix before rest (Distinct-tail b.frame_ppal _ d)

count-page :
    (f : ℕ) (before : List Page) (page : Page) (qs : List Page)
    → page.frame_ppal ≡ f
    → 0 < count f (frames (before ++ page ∷ qs))
unfolding count
count-page f [] page qs e = ground arith
count-page f (b ∷ before) page qs e = omega (arith, count-page f before page qs e)

next_page :
    (f : ℕ) (before : List Page) (page q : Page) (qs : List Page)
    → page.frame_ppal ≡ f
    → Distinct (frames (before ++ page ∷ q ∷ qs))
    → pagina_siguiente f (before ++ page ∷ q ∷ qs) ≡ some q
unfolding pagina_siguiente first_page
next_page f [] page q qs e d = ground arith
next_page f (b ∷ before) page q qs e d =
    let other : f ≢ b.frame_ppal = λ same. absurd (
      omega (
        arith,
        count-page f before page (q ∷ qs) e,
        Distinct-head b.frame_ppal (frames (before ++ page ∷ q ∷ qs)) d,
        ap (λ x. count x (frames (before ++ page ∷ q ∷ qs))) same,
      )) in
    ground (arith, other, next_page f before page q qs e (Distinct-tail b.frame_ppal _ d))

suc-not-zero : (n : ℕ) → (suc n == 0) ≡ false
suc-not-zero n = ground arith

more_pages : (n l : ℕ) → 0 < l → l < n → ltb 1 (ceil_div n l) ≡ true
more_pages n l pos h = lt→ltb 1 (ceil_div n l) (let w = le-ceil_div n l pos in grind arith)

last_page : (n l : ℕ) → 0 < l → n ≤ l → ltb 1 (ceil_div n l) ≡ false
last_page zero l pos h = rw (ceil_div-zero l) refl
last_page (suc n) l pos h =
    not-ltb 1 (ceil_div (suc n) l) (let w = ceil_div-lo (suc n) l pos (omega arith) in grind arith)

module _ {B : Type 0} (pid : ℕ) where
  -- In the pages of the process, the pages `qs` follow the frame `f`.
  pub record Follows (m : Memory B) (f : ℕ) (qs : List Page) : Type 0 where
    pub table : PageTable
    pub found : get_page_table pid m.tables ≡ some table
    pub before : List Page
    pub page : Page
    pub its_frame : page.frame_ppal ≡ f
    pub split : table.pages ≡ before ++ page ∷ qs
    pub once : Distinct (frames table.pages)

  module _ {m : Memory B} (pos : 0 < m.page_length) where
    direccion_siguiente-Follows :
        (a f : ℕ) (q : Page) (qs : List Page)
        → a / m.page_length ≡ f
        → Follows m f (q ∷ qs)
        → direccion_siguiente a pid m ≡ some (q.frame_ppal * m.page_length)
    unfolding direccion_siguiente obtener_pagsig_de_dirfisica recalcular_direccion_fisica
        obtener_numero_marco
    direccion_siguiente-Follows a f q qs e r =
        rw
          (r.found, e, r.split, next_page f r.before r.page q qs r.its_frame (rw r.split at r.once))
          refl

  pub Follows-ram :
      {m : Memory B} (f : ℕ) (qs : List Page)
      → Follows m f qs
      → (ram : Ram) → Follows (record m { ram = ram }) f qs
  Follows-ram f qs r ram = record {
    table = r.table;
    found = r.found;
    before = r.before;
    page = r.page;
    its_frame = r.its_frame;
    split = r.split;
    once = r.once;
  }

  Follows-next :
      {m : Memory B} (f : ℕ) (q : Page) (qs : List Page)
      → Follows m f (q ∷ qs)
      → (ram : Ram) → Follows (record m { ram = ram }) q.frame_ppal qs
  Follows-next f q qs r ram = record {
    table = r.table;
    found = r.found;
    before = r.before ++ r.page ∷ [];
    page = q;
    its_frame = refl;
    split = rw (append_assoc r.before (r.page ∷ []) (q ∷ qs)) r.split;
    once = r.once;
  }

  pub Follows-Distinct :
      {m : Memory B} (f : ℕ) (qs : List Page) → Follows m f qs → Distinct (f ∷ frames qs)
  Follows-Distinct f qs r =
      rw (← r.its_frame) (Distinct-suffix r.before (r.page ∷ qs) (rw r.split at r.once))

  -- The writes of `ocupy_pages` lay the bytes over the frames that follow.
  pub ocupy_pages-lay :
      (fuel : ℕ) (algo : List ℕ) (a f : ℕ) (qs : List Page) (m : Memory B)
      → length algo < fuel
      → 0 < m.page_length
      → 0 < length algo
      → length algo ≤ length qs * m.page_length
      → a / m.page_length ≡ f
      → Follows m f qs
      → ocupy_pages fuel algo a pid m
        ≡ some (record m { ram = lay m.ram m.page_length (frames qs) algo })
  unfolding ocupy_pages lay
  ocupy_pages-lay zero algo a f qs m enough pos some_bytes room e r = absurd (omega arith)
  ocupy_pages-lay (suc fuel) algo a f [] m enough pos some_bytes room e r = absurd (omega arith)
  ocupy_pages-lay (suc fuel) algo a f (q ∷ qs) m enough pos some_bytes room e r =
      let l = m.page_length in
      let next = direccion_siguiente-Follows {m = m} pos a f q qs e r in
      elim (dec_lt l (length algo)) [
        | yes long ↦
            rw (next, more_pages (length algo) l pos long)
              (ocupy_pages-lay fuel (drop l algo) (q.frame_ppal * l) q.frame_ppal qs _
                (omega (arith, length-drop l algo)) pos (omega (arith, length-drop l algo))
                (omega (arith, length-drop l algo)) (mul-div_cancel q.frame_ppal pos)
                (Follows-next {m = m} f q qs r _))
        | no short ↦
            rw
              (
                next,
                last_page (length algo) l pos (omega arith),
                lay,
                take_all l algo (omega arith),
                drop_all l algo (omega arith),
                lay-nil (poke m.ram (q.frame_ppal * l) algo) l (frames qs),
              )
              refl
      ]

  -- The reads of `leer_pages` return what the process sees in the frames that follow.
  pub leer_pages-view :
      (fuel n a f : ℕ) (qs : List Page) (m : Memory B)
      → n < fuel
      → 0 < m.page_length
      → n ≤ length qs * m.page_length
      → a / m.page_length ≡ f
      → Follows m f qs
      → leer_pages fuel n a pid m ≡ some (take n (view m.ram m.page_length (frames qs)))
  unfolding leer_pages
  leer_pages-view zero n a f qs m enough pos room e r = absurd (omega arith)
  leer_pages-view (suc fuel) zero a f qs m enough pos room e r = refl
  leer_pages-view (suc fuel) (suc n) a f [] m enough pos room e r = absurd (omega arith)
  leer_pages-view (suc fuel) (suc n) a f (q ∷ qs) m enough pos room e r =
      let l = m.page_length in
      let next = direccion_siguiente-Follows {m = m} pos a f q qs e r in
      elim (dec_lt (suc n) l) [
        | yes short ↦
            rw
              (
                leer_pages,
                suc-not-zero n,
                next,
                lt→not-leb l (suc n) short,
                take-append_short (suc n) (peek m.ram (q.frame_ppal * l) l)
                    (view m.ram l (frames qs))
                    (omega (arith, length-peek m.ram (q.frame_ppal * l) l)),
                take-peek m.ram (q.frame_ppal * l) (suc n) l (omega arith),
              )
              refl
        | no long ↦
            rw
              (
                leer_pages,
                suc-not-zero n,
                next,
                le→leb l (suc n) (omega arith),
                leer_pages-view fuel (suc n - l) (q.frame_ppal * l) q.frame_ppal qs m (omega arith)
                    pos (omega arith) (mul-div_cancel q.frame_ppal pos)
                    (Follows-next {m = m} f q qs r m.ram),
                take-view (suc n) l m.ram q.frame_ppal (frames qs) (omega arith),
              )
              refl
      ]

-- Every page of a table of a consistent memory begins such a chain.
pub IsConsistent-Follows :
    {B : Type 0} ⦃ba : Bitarray B⦄ (pid : ℕ) {m : Memory B}
    → IsConsistent m
    → (t : PageTable) (before : List Page) (page : Page) (qs : List Page)
    → get_page_table pid m.tables ≡ some t
    → t.pages ≡ before ++ page ∷ qs
    → Follows pid m page.frame_ppal qs
unfolding Distinct count
IsConsistent-Follows pid {m} c t before page qs e split = record {
  table = t;
  found = e;
  before = before;
  page = page;
  its_frame = refl;
  split = split;
  once = λ f.
      grind (
        arith,
        c.owned_once f,
        owned-update_table f pid (λ u. record u { pages = [] }) m.tables t e,
      );
}
