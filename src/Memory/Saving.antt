-- ===== src/Memory/Saving.antt =====
-- `saveInPage` of memoria/src/paginacion.c: what it takes when there is room, and what any run leaves.
use ronaldinh_os_sistemas_op.Common.{
  ℕ, zero, suc, ◌-◌, ◌*◌, ◌≤◌, ◌<◌, ◌≡◌, refl, sym, ap, List, [], ◌∷◌, ◌++◌, Option, none, some,
  arith, leb, leb→le, le→leb, lt→not-leb, length, ◌>>=◌, List-cases, Bool-cases, length-append,
  take, drop, length-take, length-drop, count, inl, inr, ◌⊎◌, Option-cases,
}
use ronaldinh_os_sistemas_op.Common.Bits.{Bitarray}
use ronaldinh_os_sistemas_op.Memory.State.{
  Page, Memory, get_page_table, find_free_frames, page_availability,
}
use ronaldinh_os_sistemas_op.Memory.Frames.{page_availability-length}
use ronaldinh_os_sistemas_op.Memory.Tables.{update_table-zero}
use ronaldinh_os_sistemas_op.Memory.Allocate.{save_one, save_in_page}
use ronaldinh_os_sistemas_op.Memory.Saved.{Saved, save_one-Saved, Saved-append}

more_than_one : (k l n : ℕ) → (suc k ≡ 0) ⊎ (suc k * l < n) → l < n
more_than_one k l n h = grind arith

rest_low : (k l n : ℕ) → (suc k ≡ 0) ⊎ (suc k * l < n) → k * l < n - l
rest_low k l n h = grind arith

rest_high : (k l n : ℕ) → n ≤ suc (suc k) * l → n - l ≤ suc k * l
rest_high k l n h = grind arith

module _ {B : Type 0} ⦃ba : Bitarray B⦄ where
  first_free :
      (m : Memory B)
      → 0 < page_availability m
      → (f : ℕ) × (rest : List ℕ) × (find_free_frames m ≡ f ∷ rest)
  first_free m h = go (find_free_frames m) refl
    where
      go :
          (fs : List ℕ)
          → find_free_frames m ≡ fs
          → (f : ℕ) × (rest : List ℕ) × (find_free_frames m ≡ f ∷ rest)
      go [] e = absurd (omega (arith, page_availability-length m, ap length e))
      go (f ∷ rest) e = (f, rest, e)

  -- The run of `saveInPage` took `n` pages.
  pub record Runs (fuel : ℕ) (algo : List ℕ) (pid : ℕ) (m : Memory B) (n : ℕ) : Type 0 where
    pub pages : List Page
    pub after : Memory B
    pub run : save_in_page fuel algo pid m ≡ some (pages, after)
    pub saved : Saved pid m pages after
    pub pages_taken : length pages ≡ n

  save_in_page-one :
      (fuel : ℕ) (algo : List ℕ) (pid : ℕ) (m : Memory B)
      → length algo ≤ m.page_length
      → 0 < page_availability m
      → Runs (suc fuel) algo pid m 1
  unfolding save_in_page
  save_in_page-one fuel algo pid m fits room =
      let (f, rest, e) = first_free m room in
      record {
        pages = (save_one algo f pid m).0;
        after = (save_one algo f pid m).1;
        run = rw (e, save_in_page, le→leb (length algo) m.page_length fits);
        saved = save_one-Saved pid algo m f rest e fits;
        pages_taken = refl;
      }

  save_in_page-more :
      (fuel : ℕ) (algo : List ℕ) (pid : ℕ) (m : Memory B) (k : ℕ)
      → m.page_length < length algo
      → 0 < page_availability m
      → (r : Runs fuel (take m.page_length algo) pid m 1)
      → Runs fuel (drop m.page_length algo) pid r.after k
      → Runs (suc fuel) algo pid m (suc k)
  unfolding save_in_page
  save_in_page-more fuel algo pid m k long room r r' =
      let (f, rest, e) = first_free m room in
      record {
        pages = r.pages ++ r'.pages;
        after = r'.after;
        run = rw (e, save_in_page, lt→not-leb (length algo) m.page_length long, r.run, r'.run);
        saved = Saved-append r.saved r'.saved;
        pages_taken = omega (arith, length-append r.pages r'.pages, r.pages_taken, r'.pages_taken);
      }

  -- With room for `k + 1` pages, bytes that fill more than `k` of them take `k + 1`.
  pub save_in_page-Runs :
      (k fuel : ℕ) (algo : List ℕ) (pid : ℕ) (m : Memory B)
      → k < fuel
      → 0 < m.page_length
      → (k ≡ 0) ⊎ (k * m.page_length < length algo)
      → length algo ≤ suc k * m.page_length
      → k < page_availability m
      → Runs fuel algo pid m (suc k)
  save_in_page-Runs k zero algo pid m pos page lo hi room = elim pos [ ]
  save_in_page-Runs zero (suc fuel) algo pid m pos page lo hi room =
      save_in_page-one fuel algo pid m (grind arith) room
  save_in_page-Runs (suc k) (suc zero) algo pid m pos page lo hi room = absurd (omega arith)
  save_in_page-Runs (suc k) (suc (suc fuel)) algo pid m pos page lo hi room =
      let l = m.page_length in
      let first =
        save_in_page-one fuel (take l algo) pid m (omega (arith, length-take l algo))
          (omega arith) in
      let left = first.saved.same_length in
      save_in_page-more (suc fuel) algo pid m (suc k) (more_than_one k l (length algo) lo)
        (omega arith) first
        (save_in_page-Runs k (suc fuel) (drop l algo) pid first.after (omega arith) (rw left page)
          (rw (left, length-drop l algo) (inr (rest_low k l (length algo) lo)))
          (rw (left, length-drop l algo) (rest_high k l (length algo) hi))
          (omega (arith, first.saved.room, first.pages_taken)))

  Saved-nil : (pid : ℕ) (m : Memory B) → Saved pid m [] m
  unfolding count
  Saved-nil pid m = record {
    same_length = refl;
    same_frames = refl;
    claimed = λ f. omega arith;
    tables = sym (update_table-zero pid m.tables);
    ids = ground (arith, Option-cases (get_page_table pid m.tables));
    numbered = tt;
    room = omega arith;
    kept = λ g busy. refl;
  }

  -- What a run that ends leaves.
  abbrev SavedBy : ℕ → Memory B → Option (List Page × Memory B) → Type 0
  SavedBy pid m none = Unit
  SavedBy pid m (some (ps, m')) = Saved pid m ps m'

  SavedBy-bind :
      (pid : ℕ) (m : Memory B) (r : Option (List Page × Memory B))
      (k : List Page × Memory B → Option (List Page × Memory B))
      → SavedBy pid m r
      → ((ps : List Page) (m₁ : Memory B) → Saved pid m ps m₁ → SavedBy pid m (k (ps, m₁)))
      → SavedBy pid m (r >>= k)
  SavedBy-bind pid m none k s h = tt
  SavedBy-bind pid m (some (ps, m₁)) k s h = h ps m₁ s

  SavedBy-bind-append :
      {pid : ℕ} {m m₁ : Memory B} {ps : List Page} (r : Option (List Page × Memory B))
      → Saved pid m ps m₁
      → SavedBy pid m₁ r
      → SavedBy pid m (r >>= λ (qs, m₂). some (ps ++ qs, m₂))
  SavedBy-bind-append none s t = tt
  SavedBy-bind-append (some (qs, m₂)) s t = Saved-append s t

  save_in_page-SavedBy :
      (fuel : ℕ) (algo : List ℕ) (pid : ℕ) (m : Memory B)
      → SavedBy pid m (save_in_page fuel algo pid m)
  unfolding save_in_page
  save_in_page-SavedBy zero algo pid m = tt
  save_in_page-SavedBy (suc fuel) algo pid m = elim (List-cases (find_free_frames m)) [
    | inl full ↦ rw (full, save_in_page) (Saved-nil pid m)
    | inr (f, rest, e) ↦ elim (Bool-cases (leb (length algo) m.page_length)) [
      | inl fits ↦ rw (e, save_in_page, fits) (save_one-Saved pid algo m f rest e (leb→le _ _ fits))
      | inr long ↦
          rw (e, save_in_page, long)
            (SavedBy-bind pid m _ _ (save_in_page-SavedBy fuel (take m.page_length algo) pid m)
              λ ps m₁ s.
                SavedBy-bind-append _ s
                  (save_in_page-SavedBy fuel (drop m.page_length algo) pid m₁))
    ]
  ]

  -- Whatever `saveInPage` returns, also where the frames run out half way.
  pub save_in_page-Saved :
      (fuel : ℕ) (algo : List ℕ) (pid : ℕ) (m : Memory B) {ps : List Page} {m' : Memory B}
      → save_in_page fuel algo pid m ≡ some (ps, m')
      → Saved pid m ps m'
  save_in_page-Saved fuel algo pid m e = rw e at (save_in_page-SavedBy fuel algo pid m)
