-- ===== src/Memory/Reduced.antt =====
-- Pages that a process gives back: `freePagesFromTheEnd` of memoria/src/paginacion.c.
use ronaldinh_os_sistemas_op.Common.{
  ℕ, zero, suc, ◌+◌, ◌-◌, ◌<◌, ◌≤◌, ◌≡◌, none, refl, ap, ◌∙◌, List, [], ◌∷◌, some, arith, ltb, ◌==◌,
  if◌then◌else◌, length, count, init, length-init, get_last?,
}
use ronaldinh_os_sistemas_op.Common.Bits.{Bitarray}
use ronaldinh_os_sistemas_op.Memory.State.{Page, PageTable, Memory, get_page_table, update_table}
use ronaldinh_os_sistemas_op.Memory.Saved.{frames, Numbered}
use ronaldinh_os_sistemas_op.Memory.Tables.{get_page_table-pid}
use ronaldinh_os_sistemas_op.Memory.Resize.{free_last_pages, free_pages_from_the_end}
use ronaldinh_os_sistemas_op.Memory.Consistent.{
  owned, IsNumbered, IsConsistent, owned-update_table, All-update_table, All-get_page_table,
}

last_frame :
    (f : ℕ) (p : Page) (ps : List Page) (last : Page)
    → get_last? (p ∷ ps) ≡ some last
    → count f (frames (init (p ∷ ps))) + (if last.frame_ppal == f then 1 else 0)
      ≡ count f (frames (p ∷ ps))
unfolding get_last? init count
last_frame f p [] last e = ground arith
last_frame f p (q ∷ ps) last e = ground (arith, last_frame f q ps last)

Numbered-init : (k : ℕ) (ps : List Page) → Numbered k ps → Numbered k (init ps)
unfolding init
Numbered-init k [] h = tt
Numbered-init k (p ∷ []) h = tt
Numbered-init k (p ∷ q ∷ ps) h = (h.0, Numbered-init (k + 1) (q ∷ ps) h.1)

get_last?-cons : (p : Page) (ps : List Page) → (last : Page) × (get_last? (p ∷ ps) ≡ some last)
unfolding get_last?
get_last?-cons p [] = (p, refl)
get_last?-cons p (q ∷ ps) = get_last?-cons q ps

module _ {B : Type 0} ⦃ba : Bitarray B⦄ where
  -- The bitmap `bits` marks the frames of the pages and `others`, each once.
  abbrev Marks : ℕ → B → List Page → (ℕ → ℕ) → Type 0
  Marks cant bits ps others =
      (f : ℕ)
      → count f (frames ps) + others f
        ≡ (if ltb f cant then (if ba.test_bit bits f then 1 else 0) else 0)

  Marks-init :
      (cant : ℕ) (bits : B) (p : Page) (ps : List Page) (last : Page) (others : ℕ → ℕ)
      → get_last? (p ∷ ps) ≡ some last
      → Marks cant bits (p ∷ ps) others
      → Marks cant (ba.clean_bit bits last.frame_ppal) (init (p ∷ ps)) others
  Marks-init cant bits p ps last others e h f =
      ground (arith, last_frame f p ps last e, h f, ba.test-clean bits last.frame_ppal f)

  -- The run of `freePagesFromTheEnd`: it ends, `left` pages go from the end, and their frames are free.
  record Freed (left cant : ℕ) (bits : B) (t : PageTable) (others : ℕ → ℕ) : Type 0 where
    pub bits' : B
    pub table : PageTable
    pub run : free_last_pages left bits t ≡ some (bits', table)
    pub same_pid : table.pid ≡ t.pid
    pub pages_left : length table.pages ≡ length t.pages - left
    pub is_numbered : IsNumbered table
    pub marks : Marks cant bits' table.pages others

  free_last_pages-suc :
      (left : ℕ) (bits : B) (t : PageTable) (last : Page)
      → get_last? t.pages ≡ some last
      → free_last_pages (suc left) bits t
        ≡ free_last_pages left
            (ba.clean_bit bits last.frame_ppal)
            (record t { last_used_page_id = t.last_used_page_id - 1; pages = init t.pages })
  unfolding free_last_pages
  free_last_pages-suc left bits t last e = rw (e, free_last_pages)

  -- With fewer pages than it is told to free, it crashes.
  free_last_pages-none :
      (left : ℕ) (bits : B) (t : PageTable) (ps : List Page)
      → t.pages ≡ ps
      → length ps < left
      → free_last_pages left bits t ≡ none
  unfolding free_last_pages get_last?
  free_last_pages-none zero bits t ps e h = absurd (omega arith)
  free_last_pages-none (suc left) bits t [] e h = rw (free_last_pages, e, get_last?) refl
  free_last_pages-none (suc left) bits t (p ∷ ps) e h =
      let (last, is_last) = get_last?-cons p ps in
      free_last_pages-suc left bits t last (rw e is_last)
      ∙ free_last_pages-none left _ _ (init (p ∷ ps)) (ap init e)
          (omega (arith, h, length-init (p ∷ ps)))

  pub free_pages_from_the_end-none :
      (t : PageTable) (number_pages : ℕ) (m : Memory B)
      → length t.pages < number_pages - 1
      → free_pages_from_the_end t number_pages m ≡ none
  unfolding free_pages_from_the_end
  free_pages_from_the_end-none t number_pages m h =
      rw (free_last_pages-none (number_pages - 1) m.bits t t.pages refl h) refl

  free_last_pages-Freed :
      (left cant : ℕ) (bits : B) (t : PageTable) (ps : List Page) (others : ℕ → ℕ)
      → t.pages ≡ ps
      → left ≤ length ps
      → IsNumbered t
      → Marks cant bits ps others
      → Freed left cant bits t others
  unfolding free_last_pages
  free_last_pages-Freed zero cant bits t ps others e room n h = record {
    bits' = bits;
    table = t;
    run = refl;
    same_pid = refl;
    pages_left = omega arith;
    is_numbered = n;
    marks = rw e h;
  }
  free_last_pages-Freed (suc left) cant bits t [] others e room n h = absurd (omega arith)
  free_last_pages-Freed (suc left) cant bits t (p ∷ ps) others e room n h =
      let (last, is_last) = get_last?-cons p ps in
      let t' : PageTable = record t {
        last_used_page_id = t.last_used_page_id - 1;
        pages = init t.pages;
      } in
      let n' : IsNumbered t' = record {
        counter = omega (arith, n.counter, length-init t.pages);
        numbered = Numbered-init 0 t.pages n.numbered;
      } in
      let r =
        free_last_pages-Freed left cant (ba.clean_bit bits last.frame_ppal) t' (init (p ∷ ps))
          others (ap init e) (omega (arith, length-init (p ∷ ps))) n'
          (Marks-init cant bits p ps last others is_last h) in
      record {
        bits' = r.bits';
        table = r.table;
        run = free_last_pages-suc left bits t last (ap get_last? e ∙ is_last) ∙ r.run;
        same_pid = r.same_pid;
        pages_left = omega (arith, r.pages_left, length-init t.pages);
        is_numbered = r.is_numbered;
        marks = r.marks;
      }

  module _ (pid : ℕ) {m : Memory B} (c : IsConsistent m) (t : PageTable)
      (e : get_page_table pid m.tables ≡ some t) where
    -- The frames of the other tables.
    others : ℕ → ℕ
    others f = count f (owned m.tables) - count f (frames t.pages)

    rest_owned : (f : ℕ) → others f + count f (frames t.pages) ≡ count f (owned m.tables)
    unfolding others count
    rest_owned f =
        omega (arith, owned-update_table f pid (λ u. record u { pages = [] }) m.tables t e)

    table-Freed : (left : ℕ) → left ≤ length t.pages → Freed left m.cant_frames m.bits t others
    unfolding others
    table-Freed left room =
        free_last_pages-Freed left m.cant_frames m.bits t t.pages others refl room
          (All-get_page_table IsNumbered pid m.tables t e c.tables_numbered)
          λ f. omega (arith, c.owned_once f, rest_owned f)

    -- `freePagesFromTheEnd` frees one page less than its argument.
    pub record Reduced (number_pages : ℕ) : Type 0 where
      pub after : Memory B
      pub table : PageTable
      pub run : free_pages_from_the_end t number_pages m ≡ some after
      pub tables : after.tables ≡ update_table pid (λ _. table) m.tables
      pub same_pid : table.pid ≡ t.pid
      pub pages_left : length table.pages ≡ length t.pages - (number_pages - 1)
      pub ram : after.ram ≡ m.ram
      pub same_length : after.page_length ≡ m.page_length
      pub same_frames : after.cant_frames ≡ m.cant_frames
      pub consistent : IsConsistent after

    pub free_pages_from_the_end-Reduced :
        (number_pages : ℕ) → number_pages - 1 ≤ length t.pages → Reduced number_pages
    unfolding free_pages_from_the_end others
    free_pages_from_the_end-Reduced number_pages room =
        let r = table-Freed (number_pages - 1) room in
        let there : t.pid ≡ pid = get_page_table-pid pid m.tables t e in
        record {
          after = record m { bits = r.bits'; tables = update_table t.pid (λ _. r.table) m.tables };
          table = r.table;
          run = rw r.run;
          tables = rw there;
          same_pid = r.same_pid;
          pages_left = r.pages_left;
          ram = refl;
          same_length = refl;
          same_frames = refl;
          consistent = record {
            page_pos = c.page_pos;
            owned_once = λ f. rw there (
                omega (
                  arith,
                  r.marks f,
                  rest_owned f,
                  owned-update_table f pid (λ _. r.table) m.tables t e,
                ));
            tables_numbered = rw there (
                All-update_table IsNumbered pid (λ _. r.table) m.tables t e c.tables_numbered
                  r.is_numbered);
            id_zero = c.id_zero;
          };
        }
