-- ===== src/Memory/Consistent.antt =====
-- The invariant of memoria/src/paginacion.c: frames and page tables agree.
use ronaldinh_os_sistemas_op.Common.{
  ℕ, ◌+◌, ◌<◌, ◌≡◌, refl, List, [], ◌∷◌, ◌++◌, false, some, arith, ◌==◌, length, count,
  count-append, All, Bool-cases, inl, inr,
}
use ronaldinh_os_sistemas_op.Common.Bits.{Bitarray}
use ronaldinh_os_sistemas_op.Memory.State.{
  PageTable, Memory, get_page_table, update_table, init_pagination,
}
use ronaldinh_os_sistemas_op.Memory.Frames.{used}
use ronaldinh_os_sistemas_op.Memory.Saved.{frames, Numbered}

-- Every frame that some page table names, as often as it is named.
unfoldable pub owned : List PageTable → List ℕ
owned [] = []
owned (t ∷ ts) = frames t.pages ++ owned ts

-- The pages of a table are numbered from 0, and its counter is their number.
pub record IsNumbered (t : PageTable) : Type 0 where
  pub counter : t.last_used_page_id ≡ length t.pages
  pub numbered : Numbered 0 t.pages

pub owned-update_table :
    (f pid : ℕ) (g : PageTable → PageTable) (ts : List PageTable) (t : PageTable)
    → get_page_table pid ts ≡ some t
    → count f (owned (update_table pid g ts)) + count f (frames t.pages)
      ≡ count f (owned ts) + count f (frames (g t).pages)
unfolding owned update_table get_page_table
owned-update_table f pid g [] t e = cc
owned-update_table f pid g (u ∷ ts) t e = ground (
  arith,
  owned-update_table f pid g ts t,
  count-append f (frames u.pages) (owned ts),
  count-append f (frames (g u).pages) (owned ts),
  count-append f (frames u.pages) (owned (update_table pid g ts)),
)

pub All-update_table :
    (P : PageTable → Type 0) (pid : ℕ) (g : PageTable → PageTable) (ts : List PageTable)
    (t : PageTable)
    → get_page_table pid ts ≡ some t
    → All P ts
    → P (g t)
    → All P (update_table pid g ts)
unfolding update_table get_page_table
All-update_table P pid g [] t e h k = tt
All-update_table P pid g (u ∷ ts) t e h k = elim (Bool-cases (u.pid == pid)) [
  | inl hit ↦ let same : u ≡ t = ground arith in rw hit (rw same k, h.1)
  | inr miss ↦ rw miss (h.0, All-update_table P pid g ts t (ground arith) h.1 k)
]

pub All-get_page_table :
    (P : PageTable → Type 0) (pid : ℕ) (ts : List PageTable) (t : PageTable)
    → get_page_table pid ts ≡ some t
    → All P ts
    → P t
unfolding get_page_table
All-get_page_table P pid [] t e h = cc
All-get_page_table P pid (u ∷ ts) t e h = elim (Bool-cases (u.pid == pid)) [
  | inl hit ↦ let same : u ≡ t = ground arith in rw (← same) h.0
  | inr miss ↦ All-get_page_table P pid ts t (ground arith) h.1
]

pub count-owned-append :
    (f : ℕ) (ts us : List PageTable)
    → count f (owned (ts ++ us)) ≡ count f (owned ts) + count f (owned us)
unfolding owned count
count-owned-append f [] us = omega arith
count-owned-append f (t ∷ ts) us = omega (
  arith,
  count-append f (frames t.pages) (owned ts),
  count-append f (frames t.pages) (owned (ts ++ us)),
  count-owned-append f ts us,
)

pub count-owned-one : (f : ℕ) (t : PageTable) → count f (owned (t ∷ [])) ≡ count f (frames t.pages)
unfolding owned count
count-owned-one f t = omega (arith, count-append f (frames t.pages) [])

module _ {B : Type 0} ⦃ba : Bitarray B⦄ where
  -- A frame is marked in the bitmap exactly if one page has it, and then only one has; pages are
  -- numbered from 0; no page without a table is numbered.
  pub record IsConsistent (m : Memory B) : Type 0 where
    pub page_pos : 0 < m.page_length
    pub owned_once : (f : ℕ) → count f (owned m.tables) ≡ used m f
    pub tables_numbered : All IsNumbered m.tables
    pub id_zero : m.id_global ≡ 0

  -- With a page length above 0 and a bit array whose bits are all 0, the memory that
  -- initPagination sets up is consistent.
  pub init_pagination-IsConsistent :
      (mem_length page_length : ℕ) (zeroed : B) (ram : ℕ → ℕ)
      → 0 < page_length
      → ((f : ℕ) → ba.test_bit zeroed f ≡ false)
      → IsConsistent (init_pagination mem_length page_length zeroed ram)
  unfolding init_pagination owned count
  init_pagination-IsConsistent mem_length page_length zeroed ram pos clear = record {
    page_pos = pos;
    owned_once = λ f. ground (arith, clear f);
    tables_numbered = tt;
    id_zero = refl;
  }
