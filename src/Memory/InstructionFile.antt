-- ===== src/Memory/InstructionFile.antt =====
-- `appetiteForInstruction` of memoria/src/utils_memory.c: the lines of a file of instructions.
use ronaldinh_os_sistemas_op.Common.{
  ℕ, zero, suc, ◌+◌, ◌-◌, ◌<◌, ◌≤◌, ◌≡◌, refl, ap, ◌∙◌, List, [], ◌∷◌, ◌++◌, false, Option, none,
  some, arith, ◌==◌, if◌then◌else◌, length, length-append, not-==, subst, sym, All, Bool-cases, inl,
  inr,
}
use ronaldinh_os_sistemas_op.Wire.Buffer.{c_string}

abbrev pub max_line_length : ℕ
max_line_length = 200

-- `fgets` of so many bytes at most: up to the end of the line, which it keeps; and the rest of the file.
unfoldable pub read_line : ℕ → List ℕ → List ℕ × List ℕ
read_line zero text = ([], text)
read_line (suc n) [] = ([], [])
read_line (suc n) (c ∷ cs) =
    let (line, rest) = read_line n cs in if c == 10 then (c ∷ [], cs) else (c ∷ line, rest)

-- The loop over the lines, on fuel; what `strcpy` keeps of each ends at a zero byte.
unfoldable pub lines_from : ℕ → List ℕ → List (List ℕ)
unfolding read_line c_string
lines_from zero text = []
lines_from (suc fuel) [] = []
lines_from (suc fuel) (c ∷ cs) =
    let (line, rest) = read_line (max_line_length - 1) (c ∷ cs) in
    c_string line ∷ lines_from fuel rest

-- `appetiteForInstruction`, of the bytes of the file, if it is there. Each line takes a byte or more, so
-- that the bytes are fuel enough.
unfoldable pub appetite_for_instruction : Option (List ℕ) → Option (List (List ℕ))
unfolding lines_from
appetite_for_instruction none = none
appetite_for_instruction (some text) = some (lines_from (length text) text)

-- A line and the rest are the text; and what a line takes.
read_line-append : (n : ℕ) (text : List ℕ) → (read_line n text).0 ++ (read_line n text).1 ≡ text
unfolding read_line
read_line-append zero text = refl
read_line-append (suc n) [] = refl
read_line-append (suc n) (c ∷ cs) = elim (Bool-cases (c == 10)) [
  | inl e ↦ rw (read_line, e) refl
  | inr e ↦ rw (read_line, e) (ap (λ r. c ∷ r) (read_line-append n cs))
]

length-read_line : (n : ℕ) (text : List ℕ) → length (read_line n text).0 ≤ n
unfolding read_line
length-read_line zero text = omega arith
length-read_line (suc n) [] = omega arith
length-read_line (suc n) (c ∷ cs) = elim (Bool-cases (c == 10)) [
  | inl e ↦ rw (read_line, e) (omega arith)
  | inr e ↦ rw (read_line, e) (omega (arith, length-read_line n cs))
]

length-rest : (n c : ℕ) (cs : List ℕ) → length (read_line (suc n) (c ∷ cs)).1 ≤ length cs
unfolding read_line
length-rest n c cs =
    let all = ap length (read_line-append n cs) in
    let parts = length-append (read_line n cs).0 (read_line n cs).1 in
    elim (Bool-cases (c == 10)) [
      | inl e ↦ rw (read_line, e) (omega arith)
      | inr e ↦ rw (read_line, e) (omega (arith, all, parts))
    ]

All-both :
    (xs ys : List ℕ) → All (λ c. 0 < c) (xs ++ ys) → All (λ c. 0 < c) xs × All (λ c. 0 < c) ys
All-both [] ys h = (tt, h)
All-both (x ∷ xs) ys (first, h) = let (left, right) = All-both xs ys h in ((first, left), right)

c_string-same : (xs : List ℕ) → All (λ c. 0 < c) xs → c_string xs ≡ xs
unfolding c_string
c_string-same [] h = refl
c_string-same (x ∷ xs) (first, h) =
    let some_byte : (x == 0) ≡ false = not-== x 0 (inr first) in
    rw (c_string, some_byte) (ap (λ r. x ∷ r) (c_string-same xs h))

-- The lines, one after the other.
unfoldable pub joined : List (List ℕ) → List ℕ
joined [] = []
joined (line ∷ lines) = line ++ joined lines

fuel_left : (rest text fuel : ℕ) → rest ≤ text → text + 1 ≤ fuel + 1 → rest ≤ fuel
fuel_left rest text fuel h k = omega arith

kept_short : (kept line : List ℕ) → kept ≡ line → length line ≤ 199 → length kept < max_line_length
kept_short kept line e h = rw e (omega arith)

length-cons :
    (c : ℕ) (cs : List ℕ) (fuel : ℕ) → length (c ∷ cs) ≤ suc fuel → length cs + 1 ≤ fuel + 1
length-cons c cs fuel h = omega arith

lines_from-joined :
    (fuel : ℕ) (text : List ℕ)
    → length text ≤ fuel
    → All (λ c. 0 < c) text
    → (joined (lines_from fuel text) ≡ text)
      × All (λ line. length line < max_line_length) (lines_from fuel text)
unfolding lines_from joined
lines_from-joined zero [] h solid = (refl, tt)
lines_from-joined zero (c ∷ cs) h solid = absurd (omega arith)
lines_from-joined (suc fuel) [] h solid = (refl, tt)
lines_from-joined (suc fuel) (c ∷ cs) h solid =
    let n : ℕ = 199 in
    let line = (read_line n (c ∷ cs)).0 in
    let rest = (read_line n (c ∷ cs)).1 in
    let whole = read_line-append n (c ∷ cs) in
    let short = length-read_line n (c ∷ cs) in
    let less = length-rest 198 c cs in
    let (solid_line, solid_rest) =
      All-both line rest (subst (All (λ x. 0 < x)) (sym whole) solid) in
    let same = c_string-same line solid_line in
    let (others, all_short) =
      lines_from-joined fuel rest
        (fuel_left (length rest) (length cs) fuel less (length-cons c cs fuel h)) solid_rest in
    (
      ap (λ l. l ++ joined (lines_from fuel rest)) same ∙ ap (λ r. line ++ r) others ∙ whole,
      (kept_short (c_string line) line same short, all_short),
    )

-- The lines of a file without a zero byte are, one after the other, the bytes of the file, and each has
-- fewer bytes than the buffer of a line.
pub appetite_for_instruction-joined :
    (text : List ℕ)
    → All (λ c. 0 < c) text
    → (lines : List (List ℕ)) × (appetite_for_instruction (some text) ≡ some lines)
      × (joined lines ≡ text)
      × All (λ line. length line < max_line_length) lines
unfolding appetite_for_instruction
appetite_for_instruction-joined text solid =
    let (same, short) = lines_from-joined (length text) text (omega arith) solid in
    (lines_from (length text) text, refl, same, short)
