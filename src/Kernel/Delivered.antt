-- ===== src/Kernel/Delivered.antt =====
-- What the CPU writes for an interface, cpu/src/operations.c, is what the kernel sends it,
-- kernel/src/main.c.
use ronaldinh_os_sistemas_op.Common.{
  ℕ, suc, ◌-◌, ◌^◌, ◌<◌, ◌≤◌, ◌≡◌, refl, ◌∙◌, List, [], ◌∷◌, true, false, some, arith, ◌==◌, ltb,
  All, Bool-cases, inl, inr, bind-eq-some, u32_mod,
}
use ronaldinh_os_sistemas_op.Utils.Words.{
  is_separator, get_next_word, read_words, join_words, IsWord, read-join,
}
use ronaldinh_os_sistemas_op.Utils.Numbers.{
  is_digit, all_digits, get_value, int_to_char, get_value-int_to_char, get_value-minus,
  all_digits-int_to_char, parse-int_to_char, length-int_to_char,
}
use ronaldinh_os_sistemas_op.Kernel.State.{Text, text_eq, Kernel}
use ronaldinh_os_sistemas_op.Kernel.IoFunction.{
  Io, IoMessage, stdin_read, fs_write, sends, is_interface_connected, next_number, read_address,
  read_transfer, read_io, send_or_remove, io_function,
}
use ronaldinh_os_sistemas_op.Cpu.Names.{io_stdin_read_text, io_fs_write_text}
use ronaldinh_os_sistemas_op.Cpu.IoTexts.{int_text, std_io_text, fs_io_text}

-- The number that is read of the text of another, with or without a sign.
get_value-int_text : (n : ℕ) → n < 2 ^ 32 → get_value (int_text n) ≡ n
unfolding int_text
get_value-int_text n h = elim (Bool-cases (ltb n (2 ^ 31))) [
  | inl e ↦ rw e (get_value-int_to_char n h)
  | inr e ↦
      let v = u32_mod - n in
      let value = parse-int_to_char v in
      let big : 2 ^ 31 ≤ n = ground arith in
      rw e (
        get_value-minus (int_to_char v) (all_digits-int_to_char v) (omega (arith, value))
          (omega (arith, value))
        ∙ omega (arith, value))
]

digit-solid : (c : ℕ) → is_digit c ≡ true → is_separator c ≡ false
unfolding is_digit is_separator
digit-solid c h = ground arith

digits-solid : (t : List ℕ) → all_digits t ≡ true → All (λ c. is_separator c ≡ false) t
unfolding all_digits
digits-solid [] h = tt
digits-solid (c ∷ cs) h =
    let first : is_digit c ≡ true = ground arith in
    let rest : all_digits cs ≡ true = ground arith in (digit-solid c first, digits-solid cs rest)

-- The first word of those that are read.
first_word :
    (n : ℕ) (operation : Text) (offset : ℕ) (w : List ℕ) (ws : List (List ℕ))
    → read_words (suc n) operation offset ≡ some (w ∷ ws)
    → (next : ℕ) × (get_next_word operation offset ≡ some (w, next))
      × (read_words n operation next ≡ some ws)
unfolding read_words
first_word n operation offset w ws h =
    let ((word, next), e, r) = bind-eq-some (get_next_word operation offset) _ h in
    let (words, e', r') = bind-eq-some (read_words n operation next) _ r in
    (next, cc (e, r'), cc (e', r'))

read_address-words :
    (make : ℕ → ℕ → IoMessage) (operation : Text) (offset : ℕ) (w a l : List ℕ)
    → read_words 3 operation offset ≡ some (w ∷ a ∷ l ∷ [])
    → read_address make operation offset ≡ some (w, make (get_value a) (get_value l))
unfolding read_address next_number
read_address-words make operation offset w a l h =
    let (n1, e1, r1) = first_word 2 operation offset w (a ∷ l ∷ []) h in
    let (n2, e2, r2) = first_word 1 operation n1 a (l ∷ []) r1 in
    let (n3, e3, r3) = first_word 0 operation n2 l [] r2 in
    rw (read_address, e1, next_number, e2, e3) refl

read_transfer-words :
    (make : Text → ℕ → ℕ → ℕ → IoMessage) (operation : Text) (offset : ℕ) (w f a l p : List ℕ)
    → read_words 5 operation offset ≡ some (w ∷ f ∷ a ∷ l ∷ p ∷ [])
    → read_transfer make operation offset
      ≡ some (w, make f (get_value a) (get_value l) (get_value p))
unfolding read_transfer next_number
read_transfer-words make operation offset w f a l p h =
    let (n1, e1, r1) = first_word 4 operation offset w (f ∷ a ∷ l ∷ p ∷ []) h in
    let (n2, e2, r2) = first_word 3 operation n1 f (a ∷ l ∷ p ∷ []) r1 in
    let (n3, e3, r3) = first_word 2 operation n2 a (l ∷ p ∷ []) r2 in
    let (n4, e4, r4) = first_word 1 operation n3 l (p ∷ []) r3 in
    let (n5, e5, r5) = first_word 0 operation n4 p [] r4 in
    rw (read_transfer, e1, e2, next_number, e3, e4, e5) refl

int_to_char-IsWord : (n : ℕ) → n < 2 ^ 32 → IsWord (int_to_char n)
int_to_char-IsWord n h = record {
  short = omega (arith, length-int_to_char n h);
  solid = digits-solid (int_to_char n) (all_digits-int_to_char n);
}

int_text-IsWord : (n : ℕ) → n < 2 ^ 32 → IsWord (int_text n)
unfolding int_text is_separator
int_text-IsWord n h = elim (Bool-cases (ltb n (2 ^ 31))) [
  | inl e ↦ rw e (int_to_char-IsWord n h)
  | inr e ↦
      let v = u32_mod - n in
      let big : 2 ^ 31 ≤ n = ground arith in
      let small : v < 2 ^ 32 = omega arith in
      rw e (record {
        short = omega (arith, length-int_to_char v small);
        solid = (refl, digits-solid (int_to_char v) (all_digits-int_to_char v));
      })
]

stdin_read-IsWord : IsWord io_stdin_read_text
unfolding is_separator
stdin_read-IsWord = record {
  short = omega arith;
  solid = (
    refl,
    (
      refl,
      (refl, (refl, (refl, (refl, (refl, (refl, (refl, (refl, (refl, (refl, (refl, tt))))))))))),
    ),
  );
}

fs_write-IsWord : IsWord io_fs_write_text
unfolding is_separator
fs_write-IsWord = record {
  short = omega arith;
  solid =
      (refl, (refl, (refl, (refl, (refl, (refl, (refl, (refl, (refl, (refl, (refl, tt)))))))))));
}

-- While the planner runs, the text that the CPU writes for an IO_STDIN_READ, of an interface whose name is
-- a word and an address and a length of 32 bits, makes the kernel send the interface of that name,
-- where it is connected, that address and that length for the process.
pub io_function-stdin_read :
    (ios : List Io) (pid : ℕ) (k : Kernel) (w : Text) (a l : ℕ) (i : Io)
    → IsWord w
    → a < 2 ^ 32
    → l < 2 ^ 32
    → 0 < k.can_plan
    → is_interface_connected ios w ≡ some i
    → io_function ios pid (std_io_text io_stdin_read_text w a l) k
      ≡ sends i.socket
          (stdin_read (record { pid = pid; physical_adress = a; length_to_read_or_write = l }))
unfolding io_function std_io_text read_io text_eq send_or_remove join_words
io_function-stdin_read ios pid k w a l i word ha hl plans connected =
    let rest = w ∷ int_text a ∷ int_text l ∷ [] in
    let words =
      read-join (io_stdin_read_text ∷ rest)
        (stdin_read-IsWord, (word, (int_text-IsWord a ha, (int_text-IsWord l hl, tt)))) in
    let text = std_io_text io_stdin_read_text w a l in
    let (n1, e1, r1) = first_word 3 text 0 io_stdin_read_text rest words in
    let can : (k.can_plan == 0) ≡ false = ground arith in
    let make : ℕ → ℕ → IoMessage =
      λ x y. stdin_read (record { pid = pid; physical_adress = x; length_to_read_or_write = y }) in
    let read = read_address-words make text n1 w (int_text a) (int_text l) r1 in
    rw
      (
        io_function,
        e1,
        can,
        read,
        send_or_remove,
        connected,
        get_value-int_text a ha,
        get_value-int_text l hl,
      )
      refl

-- While the planner runs, the text that the CPU writes for an IO_FS_WRITE, of words for the interface and
-- the file and three numbers of 32 bits, makes the kernel send the interface of that name, where it is
-- connected, that file name, address, length and pointer for the process.
pub io_function-fs_write :
    (ios : List Io) (pid : ℕ) (k : Kernel) (w f : Text) (a l p : ℕ) (i : Io)
    → IsWord w
    → IsWord f
    → (a < 2 ^ 32) × (l < 2 ^ 32) × (p < 2 ^ 32)
    → 0 < k.can_plan
    → is_interface_connected ios w ≡ some i
    → io_function ios pid (fs_io_text io_fs_write_text w f a l p) k
      ≡ sends i.socket (
          fs_write (record {
            pid = pid;
            file_name = f;
            physical_adress = a;
            length_to_write = l;
            file_pointer = p;
          }))
unfolding io_function fs_io_text read_io text_eq send_or_remove join_words
io_function-fs_write ios pid k w f a l p i word name (ha, hl, hp) plans connected =
    let rest = w ∷ f ∷ int_to_char a ∷ int_to_char l ∷ int_to_char p ∷ [] in
    let words = read-join (io_fs_write_text ∷ rest) (
      fs_write-IsWord,
      (
        word,
        (name, (int_to_char-IsWord a ha, (int_to_char-IsWord l hl, (int_to_char-IsWord p hp, tt)))),
      ),
    ) in
    let text = fs_io_text io_fs_write_text w f a l p in
    let (n1, e1, r1) = first_word 5 text 0 io_fs_write_text rest words in
    let can : (k.can_plan == 0) ≡ false = ground arith in
    let make : Text → ℕ → ℕ → ℕ → IoMessage = λ g x y z. fs_write (record {
      pid = pid;
      file_name = g;
      physical_adress = x;
      length_to_write = y;
      file_pointer = z;
    }) in
    let read =
      read_transfer-words make text n1 w f (int_to_char a) (int_to_char l) (int_to_char p) r1 in
    rw
      (
        io_function,
        e1,
        can,
        read,
        send_or_remove,
        connected,
        get_value-int_to_char a ha,
        get_value-int_to_char l hl,
        get_value-int_to_char p hp,
      )
      refl
