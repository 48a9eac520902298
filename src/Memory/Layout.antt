-- ===== src/Memory/Layout.antt =====
-- Bytes laid out over frames, and the view of a process on its frames, for memoria/src/paginacion.c.
use ronaldinh_os_sistemas_op.Common.{
  subst, ℕ, zero, suc, ◌+◌, ◌-◌, ◌*◌, ◌≤◌, ◌≡◌, ◌≢◌, refl, ap, ◌∙◌, List, [], ◌∷◌, ◌++◌, arith,
  length, take, drop, length-take, length-drop, take-append-drop, peek, poke, Ram, count, inl, inr,
  peek-poke, peek-poke_apart, dec_lt, ◌⊎◌, take-append, take-append_short, take-peek, length-peek,
}

-- The bytes that a process sees in a list of frames.
abbrev pub view : Ram → ℕ → List ℕ → List ℕ
view ram l [] = []
view ram l (f ∷ fs) = peek ram (f * l) l ++ view ram l fs

-- Bytes laid out over a list of frames, a frame at a time.
unfoldable pub lay : Ram → ℕ → List ℕ → List ℕ → Ram
lay ram l [] algo = ram
lay ram l (f ∷ fs) algo = lay (poke ram (f * l) (take l algo)) l fs (drop l algo)

-- Each frame stands once in the list.
unfoldable pub Distinct : List ℕ → Type 0
Distinct fs = (f : ℕ) → count f fs ≤ 1

pub Distinct-tail : (f : ℕ) (fs : List ℕ) → Distinct (f ∷ fs) → Distinct fs
unfolding Distinct count
Distinct-tail f fs d g = omega (arith, d g)

pub Distinct-head : (f : ℕ) (fs : List ℕ) → Distinct (f ∷ fs) → count f fs ≡ 0
unfolding Distinct count
Distinct-head f fs d = ground (arith, d f)

pub take_all : (n : ℕ) (xs : List ℕ) → length xs ≤ n → take n xs ≡ xs
take_all zero [] h = refl
take_all zero (x ∷ xs) h = absurd (omega arith)
take_all (suc n) [] h = refl
take_all (suc n) (x ∷ xs) h = ap (◌∷◌ x) (take_all n xs (omega arith))

pub drop_all : (n : ℕ) (xs : List ℕ) → length xs ≤ n → drop n xs ≡ []
drop_all zero [] h = refl
drop_all zero (x ∷ xs) h = absurd (omega arith)
drop_all (suc n) [] h = refl
drop_all (suc n) (x ∷ xs) h = drop_all n xs (omega arith)

pub lay-nil : (ram : Ram) (l : ℕ) (fs : List ℕ) → lay ram l fs [] ≡ ram
unfolding lay poke
lay-nil ram l [] = refl
lay-nil ram zero (f ∷ fs) = lay-nil ram zero fs
lay-nil ram (suc l) (f ∷ fs) = lay-nil ram (suc l) fs

-- A frame that is not in the list keeps its bytes.
pub peek-lay :
    (ram : Ram) (l : ℕ) (fs : List ℕ) (algo : List ℕ) (g n : ℕ)
    → count g fs ≡ 0
    → n ≤ l
    → peek (lay ram l fs algo) (g * l) n ≡ peek ram (g * l) n
unfolding lay count
peek-lay ram l [] algo g n c h = refl
peek-lay ram l (f ∷ fs) algo g n c h =
    peek-lay (poke ram (f * l) (take l algo)) l fs (drop l algo) g n (ground arith) h
    ∙ peek-poke_apart ram (f * l) (take l algo) (g * l) n
        (apart f g l n (length (take l algo)) (ground arith) h (omega (arith, length-take l algo)))
  where
    apart : (f g l n k : ℕ) → f ≢ g → n ≤ l → k ≤ l → (g * l + n ≤ f * l) ⊎ (f * l + k ≤ g * l)
    apart f g l n k ne h h' = elim (dec_lt f g) [
      | yes p ↦ inr (grind arith)
      | no p ↦ inl (grind arith)
    ]

pub take-view :
    (n l : ℕ) (ram : Ram) (f : ℕ) (fs : List ℕ)
    → l ≤ n
    → take n (view ram l (f ∷ fs)) ≡ peek ram (f * l) l ++ take (n - l) (view ram l fs)
take-view n l ram f fs h =
    let k = length-peek ram (f * l) l in
    take-append n (peek ram (f * l) l) (view ram l fs) (omega (arith, k)) ∙ rw k refl

-- What was laid out over distinct frames is what they show.
pub view-lay :
    (ram : Ram) (l : ℕ) (fs : List ℕ) (algo : List ℕ)
    → Distinct fs
    → length algo ≤ length fs * l
    → take (length algo) (view (lay ram l fs algo) l fs) ≡ algo
unfolding lay
view-lay ram l [] [] d room = refl
view-lay ram l [] (b ∷ bs) d room = absurd (omega arith)
view-lay ram l (f ∷ fs) algo d room =
    let ram' = poke ram (f * l) (take l algo) in
    let after = lay ram' l fs (drop l algo) in
    let here : (n : ℕ) → n ≤ l → peek after (f * l) n ≡ peek ram' (f * l) n =
      λ n h. peek-lay ram' l fs (drop l algo) f n (Distinct-head f fs d) h in
    elim (dec_lt (length algo) l) [
      | yes short ↦
          let whole = take_all l algo (omega arith) in
          take-append_short (length algo) (peek after (f * l) l) (view after l fs)
            (omega (arith, length-peek after (f * l) l))
          ∙ take-peek after (f * l) (length algo) l (omega arith)
          ∙ here (length algo) (omega arith)
          ∙ rw whole (peek-poke ram (f * l) algo)
      | no long ↦
          let full : length (take l algo) ≡ l = omega (arith, length-take l algo) in
          let first : peek after (f * l) l ≡ take l algo =
            here l (omega arith)
            ∙ subst (λ k. peek ram' (f * l) k ≡ take l algo) full
                (peek-poke ram (f * l) (take l algo)) in
          let rest : take (length algo - l) (view after l fs) ≡ drop l algo =
            rw (length-drop l algo) at (
              view-lay ram' l fs (drop l algo) (Distinct-tail f fs d)
                (omega (arith, length-drop l algo))) in
          take-view (length algo) l after f fs (omega arith)
          ∙ rw (first, rest) (take-append-drop l algo)
    ]
