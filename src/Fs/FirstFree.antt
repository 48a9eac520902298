-- ===== src/Fs/FirstFree.antt =====
-- Which block `canRelocate` of entradasalida/src/utils_io.c finds.
use ronaldinh_os_sistemas_op.Common.{
  ℕ, zero, suc, ◌+◌, ◌<◌, ◌≤◌, ◌≡◌, ◌⊎◌, refl, subst, ◌∙◌, true, false, Option, none, some, arith,
  ◌==◌, lt→ltb, not-ltb, Bool-cases, dec_lt, inl, inr,
}
use ronaldinh_os_sistemas_op.Common.Bits.{Bitarray}
use ronaldinh_os_sistemas_op.Fs.Relocate.{tested, candidate, can_relocate_from, can_relocate}

le-candidate : (initial_block file_blocks i : ℕ) → i ≤ candidate initial_block file_blocks i
unfolding candidate
le-candidate initial_block file_blocks i = ground arith

module _ {B : Type 0} ⦃ba : Bitarray B⦄ where
  tested-free : (bitmap : B) (i n : ℕ) → ba.test_bit bitmap i ≡ false → tested bitmap i n ≡ n
  unfolding tested
  tested-free bitmap i zero e = refl
  tested-free bitmap i (suc n) e = rw e (let ih = tested-free bitmap i n e in omega arith)

  tested-busy : (bitmap : B) (i n : ℕ) → ba.test_bit bitmap i ≡ true → tested bitmap i n ≡ 0
  unfolding tested
  tested-busy bitmap i zero e = refl
  tested-busy bitmap i (suc n) e = rw e refl

  -- The blocks from `low` up to `high` that are not the file's are taken.
  unfoldable pub AllTaken : B → ℕ → ℕ → ℕ → ℕ → Type 0
  AllTaken bitmap initial_block file_blocks low high =
      (k : ℕ)
      → low ≤ k
      → k < high
      → (k < initial_block) ⊎ (initial_block + file_blocks ≤ k)
      → ba.test_bit bitmap k ≡ true

  -- The answer of a search from `low` on: the first free block, or none at all below `max_bit`.
  unfoldable pub IsFirstFree : B → ℕ → ℕ → ℕ → ℕ → Option ℕ → Type 0
  unfolding AllTaken
  IsFirstFree bitmap max_bit initial_block file_blocks low none =
      AllTaken bitmap initial_block file_blocks low max_bit
  IsFirstFree bitmap max_bit initial_block file_blocks low (some place) =
      (ba.test_bit bitmap place ≡ false) × AllTaken bitmap initial_block file_blocks low place

  -- Behind a taken candidate the search goes on.
  taken-more :
      (bitmap : B) (initial_block file_blocks i high : ℕ)
      → ba.test_bit bitmap (candidate initial_block file_blocks i) ≡ true
      → AllTaken bitmap initial_block file_blocks (candidate initial_block file_blocks i + 1) high
      → AllTaken bitmap initial_block file_blocks i high
  unfolding AllTaken candidate
  taken-more bitmap initial_block file_blocks i high e h k lo hi out =
      let place = candidate initial_block file_blocks i in
      elim (dec_lt place k) [
        | yes above ↦ h k (omega arith) hi out
        | no p ↦
            let same : place ≡ k = ground arith in subst (λ j. ba.test_bit bitmap j ≡ true) same e
      ]

  IsFirstFree-more :
      (bitmap : B) (max_bit initial_block file_blocks i : ℕ) (r : Option ℕ)
      → ba.test_bit bitmap (candidate initial_block file_blocks i) ≡ true
      → IsFirstFree bitmap max_bit initial_block file_blocks
          (candidate initial_block file_blocks i + 1)
          r
      → IsFirstFree bitmap max_bit initial_block file_blocks i r
  unfolding IsFirstFree
  IsFirstFree-more bitmap max_bit initial_block file_blocks i none e h =
      taken-more bitmap initial_block file_blocks i max_bit e h
  IsFirstFree-more bitmap max_bit initial_block file_blocks i (some place) e h =
      (h.0, taken-more bitmap initial_block file_blocks i place e h.1)

  candidate-taken :
      (bitmap : B) (initial_block file_blocks i : ℕ)
      → AllTaken bitmap initial_block file_blocks i (candidate initial_block file_blocks i)
  unfolding AllTaken candidate
  candidate-taken bitmap initial_block file_blocks i k lo hi out = absurd (ground arith)

  -- A search that starts behind the bitmap answers -1.
  search-end :
      (fuel : ℕ) (bitmap : B) (max_bit initial_block file_blocks i : ℕ)
      → max_bit ≤ i
      → (r : Option ℕ) × ((n : ℕ)
          → can_relocate_from (suc fuel) bitmap max_bit initial_block file_blocks (suc n) i
            ≡ some r)
        × IsFirstFree bitmap max_bit initial_block file_blocks i r
  unfolding can_relocate_from IsFirstFree AllTaken
  search-end fuel bitmap max_bit initial_block file_blocks i h =
      (none, λ n. rw (not-ltb i max_bit h) refl, λ k lo hi out. absurd (omega arith))

  -- A taken candidate sends the search on, whatever number of blocks is asked for.
  search-busy :
      (fuel : ℕ) (bitmap : B) (max_bit initial_block file_blocks n i : ℕ)
      → i < max_bit
      → ba.test_bit bitmap (candidate initial_block file_blocks i) ≡ true
      → can_relocate_from (suc fuel) bitmap max_bit initial_block file_blocks (suc n) i
        ≡ can_relocate_from fuel bitmap max_bit initial_block file_blocks
            (suc n)
            (candidate initial_block file_blocks i + 1)
  unfolding can_relocate_from
  search-busy fuel bitmap max_bit initial_block file_blocks n i inside e =
      let place = candidate initial_block file_blocks i in
      let other : (0 == suc n) ≡ false = ground arith in
      rw (lt→ltb i max_bit inside, tested-busy bitmap place (suc n) e, other) refl

  search-free :
      (fuel : ℕ) (bitmap : B) (max_bit initial_block file_blocks n i : ℕ)
      → i < max_bit
      → ba.test_bit bitmap (candidate initial_block file_blocks i) ≡ false
      → can_relocate_from (suc fuel) bitmap max_bit initial_block file_blocks n i
        ≡ some (some (candidate initial_block file_blocks i))
  unfolding can_relocate_from
  search-free fuel bitmap max_bit initial_block file_blocks n i inside e =
      let place = candidate initial_block file_blocks i in
      let same : (n == n) ≡ true = ground arith in
      rw (lt→ltb i max_bit inside, tested-free bitmap place n e, same) refl

  search-IsFirstFree :
      (fuel : ℕ) (bitmap : B) (max_bit initial_block file_blocks i : ℕ)
      → max_bit ≤ i + fuel
      → (r : Option ℕ) × ((n : ℕ)
          → can_relocate_from (suc fuel) bitmap max_bit initial_block file_blocks (suc n) i
            ≡ some r)
        × IsFirstFree bitmap max_bit initial_block file_blocks i r
  unfolding IsFirstFree
  search-IsFirstFree zero bitmap max_bit initial_block file_blocks i h =
      search-end 0 bitmap max_bit initial_block file_blocks i (omega arith)
  search-IsFirstFree (suc fuel) bitmap max_bit initial_block file_blocks i h =
      let place = candidate initial_block file_blocks i in
      elim (dec_lt i max_bit) [
        | no p ↦ search-end (suc fuel) bitmap max_bit initial_block file_blocks i (omega arith)
        | yes inside ↦ elim (Bool-cases (ba.test_bit bitmap place)) [
          | inl e ↦
              let further = le-candidate initial_block file_blocks i in
              let (r, found, first) =
                search-IsFirstFree fuel bitmap max_bit initial_block file_blocks (place + 1)
                  (omega arith) in
              (
                r,
                λ n.
                    search-busy (suc fuel) bitmap max_bit initial_block file_blocks n i inside e
                    ∙ found n,
                IsFirstFree-more bitmap max_bit initial_block file_blocks i r e first,
              )
          | inr e ↦ (
            some place,
            λ n. search-free (suc fuel) bitmap max_bit initial_block file_blocks (suc n) i inside e,
            (e, candidate-taken bitmap initial_block file_blocks i),
          )
        ]
      ]

  -- canRelocate ends, with the same answer for any number of blocks above 0: -1 where every block of
  -- the bitmap that is not the file's is taken, or else a place whose bit is 0, below which every
  -- block that is not the file's is taken.
  pub can_relocate-IsFirstFree :
      (bitmap : B) (max_bit initial_block file_blocks : ℕ)
      → (r : Option ℕ) × ((n : ℕ)
          → can_relocate bitmap max_bit initial_block file_blocks (suc n) ≡ some r)
        × IsFirstFree bitmap max_bit initial_block file_blocks 0 r
  unfolding can_relocate
  can_relocate-IsFirstFree bitmap max_bit initial_block file_blocks =
      let (r, found, first) =
        search-IsFirstFree max_bit bitmap max_bit initial_block file_blocks 0 (omega arith) in
      let fuel : max_bit + 1 ≡ suc max_bit = omega arith in (r, λ n. rw fuel (found n), first)
