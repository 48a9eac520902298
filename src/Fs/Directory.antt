-- ===== src/Fs/Directory.antt =====
-- The file system of entradasalida/src/utils_io.c as a directory: the size of each file that is there.
use ronaldinh_os_sistemas_op.Common.{
  ℕ, ◌≡◌, ◌≢◌, ◌⊎◌, inl, inr, refl, sym, ap, subst, ◌∙◌, List, [], ◌∷◌, ◌++◌, true, false, Option,
  none, some, arith, ◌==◌, if◌then◌else◌, find, remove_first, Bool-cases,
}
use ronaldinh_os_sistemas_op.Kernel.State.{Text, text_eq}
use ronaldinh_os_sistemas_op.Fs.Files.{Metadata, has_name, modify_metadata}

-- The size of a file, if it is there.
unfoldable pub size_of : Option Metadata → Option ℕ
size_of none = none
size_of (some m) = some m.size

unfoldable pub sizes : List Metadata → Text → Option ℕ
unfolding size_of find has_name
sizes ms q = size_of (find (has_name q) ms)

-- What a directory promises: a file is made empty where there is none, it is erased, or its size is set.
pub data Command : Type 0 where
  makes erases : Text → Command
  sets_size : Text → ℕ → Command

abbrev pub made : Option ℕ → Option ℕ
made none = some 0
made (some n) = some n

abbrev pub resized : (ℕ → ℕ) → Option ℕ → Option ℕ
resized f none = none
resized f (some n) = some (f n)

unfoldable pub perform : Command → (Text → Option ℕ) → Text → Option ℕ
unfolding text_eq
perform (makes name) d q = if text_eq name q then made (d q) else d q
perform (erases name) d q = if text_eq name q then none else d q
perform (sets_size name v) d q = if text_eq name q then resized (λ n. v) (d q) else d q

pub text_eq-cases :
    (a b : Text) → ((a ≡ b) × (text_eq a b ≡ true)) ⊎ ((a ≢ b) × (text_eq a b ≡ false))
unfolding text_eq
text_eq-cases [] [] = inl (refl, refl)
text_eq-cases [] (b ∷ bs) = inr (λ e. cc, refl)
text_eq-cases (a ∷ rest) [] = inr (λ e. cc, refl)
text_eq-cases (a ∷ rest) (b ∷ bs) = elim (Bool-cases (a == b)) [
  | inl e ↦
      let same : a ≡ b = ground arith in
      elim (text_eq-cases rest bs) [
        | inl (p, t) ↦ inl (cc, rw (e, t) refl)
        | inr (n, t) ↦ inr (λ p. n cc, rw (e, t) refl)
      ]
  | inr e ↦ let other : a ≢ b = λ p. ground arith in inr (λ p. other cc, rw e refl)
]

pub text_eq-same : (a b : Text) → a ≡ b → text_eq a b ≡ true
text_eq-same a b e = elim (text_eq-cases a b) [ inl (p, t) ↦ t | inr (n, t) ↦ absurd (n e) ]

pub text_eq-other : (a b : Text) → a ≢ b → text_eq a b ≡ false
text_eq-other a b n = elim (text_eq-cases a b) [ inl (p, t) ↦ absurd (n p) | inr (m, t) ↦ t ]

-- The names of the files differ.
unfoldable pub Distinct : List Metadata → Type 0
unfolding find has_name
Distinct [] = Unit
Distinct (m ∷ ms) = (find (has_name m.file_name) ms ≡ none) × Distinct ms

pub sizes-cons :
    (x : Metadata) (xs : List Metadata) (q : Text)
    → sizes (x ∷ xs) q ≡ (if text_eq x.file_name q then some x.size else sizes xs q)
unfolding sizes size_of find has_name
sizes-cons x xs q = elim (text_eq-cases x.file_name q) [
  | inl (p, t) ↦ rw (sizes, find, t) refl
  | inr (n, t) ↦ rw (sizes, find, t) refl
]

sizes-nil : (q : Text) → sizes [] q ≡ none
unfolding sizes size_of find
sizes-nil q = refl

pub sizes-absent : (ms : List Metadata) (q : Text) → find (has_name q) ms ≡ none → sizes ms q ≡ none
unfolding sizes size_of
sizes-absent ms q h = ap size_of h

-- A new file behind the others.
pub sizes-append :
    (ms : List Metadata) (m : Metadata) (q : Text)
    → m.size ≡ 0
    → sizes (ms ++ m ∷ []) q ≡ perform (makes m.file_name) (sizes ms) q
unfolding perform
sizes-append [] m q zero_size = elim (text_eq-cases m.file_name q) [
  | inl (p, t) ↦ simp (sizes-cons m [] q, t, sizes-nil q, zero_size) refl
  | inr (n, t) ↦ simp (sizes-cons m [] q, t) refl
]
sizes-append (x ∷ xs) m q zero_size =
    let others = sizes-append xs m q zero_size in
    let first = sizes-cons x xs q in
    let all = sizes-cons x (xs ++ m ∷ []) q in
    elim (text_eq-cases x.file_name q) [
      | inl (p, t) ↦ elim (text_eq-cases m.file_name q) [
        | inl (p', t') ↦ rw (all, first, t, t') refl
        | inr (n', t') ↦ rw (all, first, t, t') refl
      ]
      | inr (n, t) ↦ rw (all, first, t) others
    ]

-- A file that is removed, where names differ.
pub sizes-remove_first :
    (name : Text) (ms : List Metadata) (q : Text)
    → Distinct ms
    → sizes (remove_first (has_name name) ms) q ≡ perform (erases name) (sizes ms) q
unfolding perform has_name remove_first Distinct
sizes-remove_first name [] q h = elim (text_eq-cases name q) [
  | inl (p, t) ↦ rw (perform, t) (sizes-nil q)
  | inr (n, t) ↦ rw (perform, t) refl
]
sizes-remove_first name (x ∷ xs) q (alone, h) =
    let others = sizes-remove_first name xs q h in
    let first = sizes-cons x xs q in
    let all = sizes-cons x (remove_first (has_name name) xs) q in
    elim (text_eq-cases x.file_name name) [
      | inl (p, t) ↦ elim (text_eq-cases name q) [
        | inl (p', t') ↦
            rw (perform, remove_first, t, t')
              (sizes-absent xs q (subst (λ n. find (has_name n) xs ≡ none) (p ∙ p') alone))
        | inr (n', t') ↦
            let apart = text_eq-other x.file_name q (λ e. n' (sym p ∙ e)) in
            rw (perform, remove_first, t, t', first, apart) refl
      ]
      | inr (n, t) ↦ elim (text_eq-cases x.file_name q) [
        | inl (p', t') ↦
            let apart = text_eq-other name q (λ e. n (p' ∙ sym e)) in
            rw (perform, remove_first, t, all, first, t', apart) refl
        | inr (n', t') ↦ rw (perform, remove_first, t, all, first, t') others
      ]
    ]

-- A file whose metadata changes, and its size as that says.
pub sizes-modify_metadata :
    (name : Text) (f : ℕ → ℕ) (change : Metadata → Metadata) (ms : List Metadata) (q : Text)
    → ((x : Metadata) → (change x).file_name ≡ x.file_name)
    → ((x : Metadata) → (change x).size ≡ f x.size)
    → sizes (modify_metadata name change ms) q
      ≡ (if text_eq name q then resized f (sizes ms q) else sizes ms q)
unfolding has_name modify_metadata
sizes-modify_metadata name f change [] q names sets = elim (text_eq-cases name q) [
  | inl (p, t) ↦ simp (t, sizes-nil q) refl
  | inr (n, t) ↦ simp (t) refl
]
sizes-modify_metadata name f change (x ∷ xs) q names sets =
    let others = sizes-modify_metadata name f change xs q names sets in
    let first = sizes-cons x xs q in
    let changed = sizes-cons (change x) xs q in
    let all = sizes-cons x (modify_metadata name change xs) q in
    elim (text_eq-cases x.file_name name) [
      | inl (p, t) ↦ elim (text_eq-cases name q) [
        | inl (p', t') ↦
            let same = text_eq-same x.file_name q (p ∙ p') in
            simp (t, t', changed, first, names x, sets x, same) refl
        | inr (n', t') ↦
            let apart = text_eq-other x.file_name q (λ e. n' (sym p ∙ e)) in
            simp (t, t', changed, first, names x, apart) refl
      ]
      | inr (n, t) ↦ elim (text_eq-cases x.file_name q) [
        | inl (p', t') ↦
            let apart = text_eq-other name q (λ e. n (p' ∙ sym e)) in
            rw (t, all, first, t', apart) refl
        | inr (n', t') ↦ rw (t, all, first, t') others
      ]
    ]
