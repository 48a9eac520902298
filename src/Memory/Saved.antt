-- ===== src/Memory/Saved.antt =====
-- What taking frames for new pages does to the memory, in memoria/src/paginacion.c.
use mathlib.Core.List.{map-append}
use ronaldinh_os_sistemas_op.Common.{
  ℕ, suc, ◌+◌, ◌*◌, ◌≤◌, ◌≡◌, refl, sym, ap, ◌∙◌, List, [], ◌∷◌, ◌++◌, map, Option, none, some,
  arith, length, length-append, count, count-append, peek, peek-poke_apart, inl, inr, ◌⊎◌, ◌≢◌,
  dec_lt, Option-cases,
}
use ronaldinh_os_sistemas_op.Common.Bits.{Bitarray}
use ronaldinh_os_sistemas_op.Memory.State.{
  Page, PageTable, Memory, get_page_table, update_table, find_free_frames, page_availability,
}
use ronaldinh_os_sistemas_op.Memory.Frames.{
  used, page_availability-length, find_free_frames-head, find_free_frames-set,
}
use ronaldinh_os_sistemas_op.Memory.Tables.{
  add_ids, add_ids-add_ids, update_table-update_table, update_table_absent, map_table,
  get_page_table-update_table,
}
use ronaldinh_os_sistemas_op.Memory.Allocate.{page_create, save_one}

abbrev pub frames : List Page → List ℕ
frames = map (λ (p : Page). p.frame_ppal)

-- The ids of the pages are `k`, `k + 1`, and so on.
abbrev pub Numbered : ℕ → List Page → Type 0
Numbered k [] = Unit {0}
Numbered k (p ∷ ps) = (p.id ≡ k) × Numbered (k + 1) ps

pub Numbered-append :
    (k : ℕ) (ps qs : List Page)
    → Numbered k ps
    → Numbered (k + length ps) qs
    → Numbered k (ps ++ qs)
Numbered-append k [] qs h h' = let e : k + 0 ≡ k = omega arith in rw e at h'
Numbered-append k (p ∷ ps) qs h h' =
    let e : k + suc (length ps) ≡ k + 1 + length ps = omega arith in
    (h.0, Numbered-append (k + 1) ps qs h.1 (rw e at h'))

-- The id that `pageCreate` gives next.
abbrev pub next_id_of : Option PageTable → ℕ → ℕ
next_id_of none id_global = id_global
next_id_of (some t) id_global = t.last_used_page_id

-- `idGlobal` after `n` pages: it moves only for a process without a table.
abbrev pub ids_after : Option PageTable → ℕ → ℕ → ℕ
ids_after none g n = g + n
ids_after (some t) g n = g

next_of :
    (o : Option PageTable) (g n : ℕ) {o₁ : Option PageTable} {g₁ : ℕ}
    → o₁ ≡ map_table (add_ids n) o
    → g₁ ≡ ids_after o g n
    → next_id_of o₁ g₁ ≡ next_id_of o g + n
next_of none g n e h = rw (e, h)
next_of (some t) g n e h = rw e

ids_of :
    (o : Option PageTable) (g n k : ℕ) {o₁ : Option PageTable} {g₁ g₂ nk : ℕ}
    → nk ≡ n + k
    → o₁ ≡ map_table (add_ids n) o
    → g₁ ≡ ids_after o g n
    → g₂ ≡ ids_after o₁ g₁ k
    → g₂ ≡ ids_after o g nk
ids_of none g n k {g₁} {g₂} l e h h₁ = let last : g₂ ≡ g₁ + k = rw e at h₁ in omega arith
ids_of (some t) g n k l e h h₁ = (rw e at h₁) ∙ h

pub frames_apart : (f g l n : ℕ) → f ≢ g → n ≤ l → (g * l + l ≤ f * l + 0) ⊎ (f * l + 0 + n ≤ g * l)
frames_apart f g l n ne h = elim (dec_lt f g) [
  | yes p ↦ inr (grind arith)
  | no p ↦ inl (grind arith)
]

module _ {B : Type 0} ⦃ba : Bitarray B⦄ where
  used-le-one : (m : Memory B) (g : ℕ) → used m g ≤ 1
  used-le-one m g = ground arith

  -- New pages `ps` take the memory from `m` to `m'`: their frames were free, the ids go on from
  -- those of the process, and no frame that was in use is written.
  pub record Saved (pid : ℕ) (m : Memory B) (ps : List Page) (m' : Memory B) : Type 0 where
    pub same_length : m'.page_length ≡ m.page_length
    pub same_frames : m'.cant_frames ≡ m.cant_frames
    pub claimed : (f : ℕ) → count f (frames ps) + used m f ≡ used m' f
    pub tables : m'.tables ≡ update_table pid (add_ids (length ps)) m.tables
    pub ids : m'.id_global ≡ ids_after (get_page_table pid m.tables) m.id_global (length ps)
    pub numbered : Numbered (next_id_of (get_page_table pid m.tables) m.id_global) ps
    pub room : page_availability m' + length ps ≡ page_availability m
    pub kept :
        (g : ℕ)
        → used m g ≡ 1
        → peek m'.ram (g * m.page_length) m.page_length
          ≡ peek m.ram (g * m.page_length) m.page_length

  module _ (pid : ℕ) (algo : List ℕ) (m : Memory B) (f : ℕ) (rest : List ℕ)
      (e : find_free_frames m ≡ f ∷ rest) where
    save_one-claimed :
        (g : ℕ) → let r = save_one algo f pid m in count g (frames r.0) + used m g ≡ used r.1 g
    unfolding save_one count
    save_one-claimed g = ground (
      arith,
      find_free_frames-head m f rest e,
      Option-cases (get_page_table pid m.tables),
      ba.test-set m.bits f g,
    )

    save_one-free : find_free_frames (save_one algo f pid m).1 ≡ rest
    unfolding save_one find_free_frames
    save_one-free =
        ground (arith, find_free_frames-set m f rest e, Option-cases (get_page_table pid m.tables))

    save_one-room :
        let r = save_one algo f pid m in page_availability r.1 + length r.0 ≡ page_availability m
    unfolding save_one
    save_one-room = omega (
      arith,
      page_availability-length m,
      page_availability-length (save_one algo f pid m).1,
      ap length save_one-free,
      ap length e,
    )

    save_one-kept :
        (g : ℕ)
        → length algo ≤ m.page_length
        → used m g ≡ 1
        → peek (save_one algo f pid m).1.ram (g * m.page_length) m.page_length
          ≡ peek m.ram (g * m.page_length) m.page_length
    unfolding save_one
    save_one-kept g fits busy =
        let ne : f ≢ g = ground (arith, find_free_frames-head m f rest e) in
        let apart =
          peek-poke_apart m.ram (f * m.page_length + 0) algo (g * m.page_length) m.page_length
            (frames_apart f g m.page_length (length algo) ne fits) in
        elim (Option-cases (get_page_table pid m.tables)) [
          | inl no_table ↦ rw (no_table, page_create) apart
          | inr (t, table) ↦ rw (table, page_create) apart
        ]

    pub save_one-Saved :
        length algo ≤ m.page_length
        → Saved pid m (save_one algo f pid m).0 (save_one algo f pid m).1
    unfolding save_one
    save_one-Saved fits = record {
      same_length = ground (arith, Option-cases (get_page_table pid m.tables));
      same_frames = ground (arith, Option-cases (get_page_table pid m.tables));
      claimed = save_one-claimed;
      tables = ground (
        arith,
        Option-cases (get_page_table pid m.tables),
        update_table_absent pid (add_ids 1) m.tables,
      );
      ids = ground (arith, Option-cases (get_page_table pid m.tables));
      numbered = ground (arith, Option-cases (get_page_table pid m.tables));
      room = save_one-room;
      kept = λ g. save_one-kept g fits;
    }

  module _ {pid : ℕ} {m m₁ m₂ : Memory B} {ps qs : List Page} (s : Saved pid m ps m₁)
      (t : Saved pid m₁ qs m₂) where
    Saved-claimed : (f : ℕ) → count f (frames (ps ++ qs)) + used m f ≡ used m₂ f
    Saved-claimed f =
        rw (map-append (λ (p : Page). p.frame_ppal) ps qs)
          (omega (arith, count-append f (frames ps) (frames qs), s.claimed f, t.claimed f))

    Saved-lookup :
        get_page_table pid m₁.tables ≡ map_table (add_ids (length ps)) (get_page_table pid m.tables)
    Saved-lookup =
        rw s.tables (get_page_table-update_table pid (add_ids (length ps)) m.tables (λ u. refl))

    Saved-next :
        next_id_of (get_page_table pid m₁.tables) m₁.id_global
        ≡ next_id_of (get_page_table pid m.tables) m.id_global + length ps
    Saved-next = next_of (get_page_table pid m.tables) m.id_global (length ps) Saved-lookup s.ids

    Saved-kept :
        (g : ℕ)
        → used m g ≡ 1
        → peek m₂.ram (g * m.page_length) m.page_length
          ≡ peek m.ram (g * m.page_length) m.page_length
    Saved-kept g busy =
        let still : used m₁ g ≡ 1 = omega (arith, s.claimed g, used-le-one m₁ g) in
        (rw s.same_length at (t.kept g still)) ∙ s.kept g busy

    Saved-ids :
        m₂.id_global ≡ ids_after (get_page_table pid m.tables) m.id_global (length (ps ++ qs))
    Saved-ids =
        ids_of (get_page_table pid m.tables) m.id_global (length ps) (length qs)
          (length-append ps qs) Saved-lookup s.ids t.ids

    pub Saved-append : Saved pid m (ps ++ qs) m₂
    Saved-append = record {
      same_length = t.same_length ∙ s.same_length;
      same_frames = t.same_frames ∙ s.same_frames;
      claimed = Saved-claimed;
      tables =
          t.tables
          ∙ ap (update_table pid (add_ids (length qs))) s.tables
          ∙ update_table-update_table pid (add_ids (length ps)) (add_ids (length qs)) m.tables
              (λ u. refl)
          ∙ add_ids-add_ids pid (length ps) (length qs) m.tables
          ∙ ap (λ n. update_table pid (add_ids n) m.tables) (sym (length-append ps qs));
      ids = Saved-ids;
      numbered = Numbered-append _ ps qs s.numbered (rw Saved-next at t.numbered);
      room = omega (arith, s.room, t.room, length-append ps qs);
      kept = Saved-kept;
    }
