-- ===== src/Utils/Words.antt =====
-- `getNextWord` of utils/src/utils.c, with which the CPU and the interfaces cut an instruction.
use ronaldinh_os_sistemas_op.Common.{
  ℕ, zero, suc, ◌+◌, ◌<◌, ◌≡◌, refl, ap, ◌∙◌, List, [], ◌∷◌, ◌++◌, Bool, true, false, Option, none,
  some, arith, ◌==◌, ◌||◌, if◌then◌else◌, ltb, lt→ltb, not-ltb, length, length-append, drop, All,
  ◌>>=◌, append_assoc,
}

-- A text is its bytes before the zero byte. A space is 32 and a new line 10.
unfoldable pub is_separator : ℕ → Bool
is_separator c = (c == 32) || (c == 10)

-- The loop of `getNextWord`, from the byte at the offset on.
unfoldable pub take_word : List ℕ → List ℕ
unfolding is_separator
take_word [] = []
take_word (c ∷ cs) = elim (is_separator c) [ true ↦ [] | false ↦ c ∷ take_word cs ]

-- `getNextWord`: the word and the offset behind its separator. `none` is a read behind the zero byte,
-- or a word that does not fit in the buffer of 50 bytes.
unfoldable pub get_next_word : List ℕ → ℕ → Option (List ℕ × ℕ)
unfolding take_word
get_next_word operation offset =
    if ltb (length operation) offset
    then none
    else let word = take_word (drop offset operation) in
      if ltb (length word) 50 then some (word, offset + length word + 1) else none

-- The words that an instruction of `n` words is cut into.
unfoldable pub read_words : ℕ → List ℕ → ℕ → Option (List (List ℕ))
unfolding get_next_word
read_words zero operation offset = some []
read_words (suc n) operation offset = get_next_word operation offset >>= λ (word, next).
    read_words n operation next >>= λ words. some (word ∷ words)

-- An instruction written with one space between its words.
unfoldable pub join_words : List (List ℕ) → List ℕ
join_words [] = []
join_words (w ∷ []) = w
join_words (w ∷ v ∷ ws) = w ++ 32 ∷ join_words (v ∷ ws)

-- A word has fewer than 50 bytes and no separator in it.
pub record IsWord (w : List ℕ) : Type 0 where
  pub short : length w < 50
  pub solid : All (λ c. is_separator c ≡ false) w

drop-append : (pre xs : List ℕ) → drop (length pre) (pre ++ xs) ≡ xs
drop-append [] xs = refl
drop-append (p ∷ pre) xs = drop-append pre xs

take_word-solid :
    (w rest : List ℕ) → All (λ c. is_separator c ≡ false) w → take_word (w ++ 32 ∷ rest) ≡ w
unfolding take_word
take_word-solid [] rest h = refl
take_word-solid (c ∷ cs) rest h = rw (take_word, h.0) (ap (◌∷◌ c) (take_word-solid cs rest h.1))

take_word-last : (w : List ℕ) → All (λ c. is_separator c ≡ false) w → take_word w ≡ w
unfolding take_word
take_word-last [] h = refl
take_word-last (c ∷ cs) h = rw (take_word, h.0) (ap (◌∷◌ c) (take_word-last cs h.1))

get_next_word-at :
    (pre w rest : List ℕ)
    → take_word rest ≡ w
    → length w < 50
    → get_next_word (pre ++ rest) (length pre) ≡ some (w, length pre + length w + 1)
unfolding get_next_word
get_next_word-at pre w rest e short =
    rw
      (
        not-ltb (length (pre ++ rest)) (length pre) (omega (arith, length-append pre rest)),
        drop-append pre rest,
        e,
        lt→ltb (length w) 50 short,
      )
      refl

read_words-from :
    (pre : List ℕ) (ws : List (List ℕ))
    → All IsWord ws
    → read_words (length ws) (pre ++ join_words ws) (length pre) ≡ some ws
unfolding read_words join_words
read_words-from pre [] h = refl
read_words-from pre (w ∷ []) h =
    rw (get_next_word-at pre w w (take_word-last w h.0.solid) h.0.short) refl
read_words-from pre (w ∷ v ∷ ws) h =
    let rest = join_words (v ∷ ws) in
    let next =
      get_next_word-at pre w (w ++ 32 ∷ rest) (take_word-solid w rest h.0.solid) h.0.short in
    let longer : length (pre ++ (w ++ 32 ∷ [])) ≡ length pre + length w + 1 =
      omega (arith, length-append pre (w ++ 32 ∷ []), length-append w (32 ∷ [])) in
    let again : (pre ++ (w ++ 32 ∷ [])) ++ rest ≡ pre ++ (w ++ 32 ∷ rest) =
      append_assoc pre (w ++ 32 ∷ []) rest ∙ ap (λ xs. pre ++ xs) (append_assoc w (32 ∷ []) rest) in
    let others = read_words-from (pre ++ (w ++ 32 ∷ [])) (v ∷ ws) h.1 in
    rw (next, rw (longer, again) at others) refl

-- Words of fewer than 50 bytes without separators, written with one space between them, are what
-- getNextWord cuts the instruction into, one after the other.
pub read-join :
    (ws : List (List ℕ)) → All IsWord ws → read_words (length ws) (join_words ws) 0 ≡ some ws
read-join ws h = read_words-from [] ws h
