-- ===== src/Fs/Names.antt =====
-- The names of the files of entradasalida/src/utils_io.c stay apart.
use ronaldinh_os_sistemas_op.Common.{
  ◌≡◌, inl, inr, refl, sym, ap, subst, ◌∙◌, List, [], ◌∷◌, ◌++◌, false, none, find, remove_first,
}
use ronaldinh_os_sistemas_op.Kernel.State.{Text, text_eq}
use ronaldinh_os_sistemas_op.Fs.Files.{Metadata, has_name, modify_metadata}
use ronaldinh_os_sistemas_op.Fs.Directory.{text_eq-cases, text_eq-same, text_eq-other, Distinct}

-- The names of the others behind an operation.
absent_first :
    (x : Metadata) (xs : List Metadata) (q : Text)
    → find (has_name q) (x ∷ xs) ≡ none
    → (text_eq x.file_name q ≡ false) × (find (has_name q) xs ≡ none)
unfolding find has_name
absent_first x xs q h = elim (text_eq-cases x.file_name q) [
  | inl (p, t) ↦ absurd (let e = rw (t, find) at h in cc)
  | inr (n, t) ↦ (t, rw (t, find) at h)
]

absent_both :
    (x : Metadata) (xs : List Metadata) (q : Text)
    → text_eq x.file_name q ≡ false
    → find (has_name q) xs ≡ none
    → find (has_name q) (x ∷ xs) ≡ none
unfolding find has_name
absent_both x xs q t h = rw (t, find) h

absent-append :
    (ms : List Metadata) (m : Metadata) (q : Text)
    → text_eq m.file_name q ≡ false
    → find (has_name q) ms ≡ none
    → find (has_name q) (ms ++ m ∷ []) ≡ none
absent-append [] m q t h = absent_both m [] q t h
absent-append (x ∷ xs) m q t h =
    let (other, rest) = absent_first x xs q h in
    absent_both x (xs ++ m ∷ []) q other (absent-append xs m q t rest)

pub Distinct-append :
    (ms : List Metadata) (m : Metadata)
    → find (has_name m.file_name) ms ≡ none
    → Distinct ms
    → Distinct (ms ++ m ∷ [])
unfolding Distinct find
Distinct-append [] m h d = (refl, tt)
Distinct-append (x ∷ xs) m h (alone, d) =
    let (other, rest) = absent_first x xs m.file_name h in
    let apart =
      text_eq-other m.file_name x.file_name
        (λ e. let s = text_eq-same x.file_name m.file_name (sym e) in cc (s, other)) in
    (absent-append xs m x.file_name apart alone, Distinct-append xs m rest d)

absent-remove_first :
    (name : Text) (ms : List Metadata) (q : Text)
    → find (has_name q) ms ≡ none
    → find (has_name q) (remove_first (has_name name) ms) ≡ none
unfolding remove_first has_name
absent-remove_first name [] q h = h
absent-remove_first name (x ∷ xs) q h =
    let (other, rest) = absent_first x xs q h in
    elim (text_eq-cases x.file_name name) [
      | inl (p, t) ↦ rw (remove_first, t) rest
      | inr (n, t) ↦
          rw (remove_first, t)
            (absent_both x (remove_first (has_name name) xs) q other
              (absent-remove_first name xs q rest))
    ]

pub Distinct-remove_first :
    (name : Text) (ms : List Metadata) → Distinct ms → Distinct (remove_first (has_name name) ms)
unfolding Distinct remove_first has_name
Distinct-remove_first name [] d = d
Distinct-remove_first name (x ∷ xs) (alone, d) = elim (text_eq-cases x.file_name name) [
  | inl (p, t) ↦ rw (remove_first, t) d
  | inr (n, t) ↦
      rw (remove_first, t)
        (absent-remove_first name xs x.file_name alone, Distinct-remove_first name xs d)
]

absent-modify_metadata :
    (name : Text) (change : Metadata → Metadata) (ms : List Metadata) (q : Text)
    → ((x : Metadata) → (change x).file_name ≡ x.file_name)
    → find (has_name q) ms ≡ none
    → find (has_name q) (modify_metadata name change ms) ≡ none
unfolding modify_metadata has_name
absent-modify_metadata name change [] q names h = h
absent-modify_metadata name change (x ∷ xs) q names h =
    let (other, rest) = absent_first x xs q h in
    elim (text_eq-cases x.file_name name) [
      | inl (p, t) ↦
          rw t (absent_both (change x) xs q (ap (λ n. text_eq n q) (names x) ∙ other) rest)
      | inr (n, t) ↦ rw t (
          absent_both x (modify_metadata name change xs) q other
            (absent-modify_metadata name change xs q names rest))
    ]

pub Distinct-modify_metadata :
    (name : Text) (change : Metadata → Metadata) (ms : List Metadata)
    → ((x : Metadata) → (change x).file_name ≡ x.file_name)
    → Distinct ms
    → Distinct (modify_metadata name change ms)
unfolding Distinct modify_metadata has_name
Distinct-modify_metadata name change [] names d = d
Distinct-modify_metadata name change (x ∷ xs) names (alone, d) =
    elim (text_eq-cases x.file_name name) [
      | inl (p, t) ↦ rw t (subst (λ n. find (has_name n) xs ≡ none) (sym (names x)) alone, d)
      | inr (n, t) ↦ rw t (
        absent-modify_metadata name change xs x.file_name names alone,
        Distinct-modify_metadata name change xs names d,
      )
    ]
