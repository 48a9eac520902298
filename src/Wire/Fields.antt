-- ===== src/Wire/Fields.antt =====
-- A message as a list of fields, and the bytes that it becomes; for the streams of
-- utils/src/serialization.c.
use ronaldinh_os_sistemas_op.Common.{
  ℕ, ◌+◌, ◌*◌, ◌/◌, ◌%◌, ◌^◌, ◌<◌, ◌≤◌, ◌≡◌, refl, ap, ◌∙◌, List, [], ◌∷◌, ◌++◌, true, false,
  Option, some, arith, ◌==◌, ◌>>=◌, leb, length, length-append, take, drop, All, append_assoc,
  append-nil,
}
use ronaldinh_os_sistemas_op.Wire.Buffer.{
  Buffer, word_bytes, buffer_add, buffer_add_uint32, buffer_add_uint8, buffer_add_string,
  buffer_read_uint32, buffer_read_uint8, buffer_read_string, c_string, take_bytes,
}

pub data Field : Type 0 where
  word byte : ℕ → Field
  text : List ℕ → Field

-- A value that its field holds; a text has no zero byte.
unfoldable pub IsField : Field → Type 0
IsField (word v) = v < 2 ^ 32
IsField (byte v) = v < 2 ^ 8
IsField (text t) = All (λ c. 0 < c) t × (length t + 1 < 2 ^ 32)

unfoldable pub field_bytes : Field → List ℕ
unfolding word_bytes
field_bytes (word v) = word_bytes v
field_bytes (byte v) = (v % 256) ∷ []
field_bytes (text t) = word_bytes (length t + 1) ++ (t ++ 0 ∷ [])

unfoldable pub add_field : Field → Buffer → Option Buffer
unfolding buffer_add_uint32 buffer_add_uint8 buffer_add_string
add_field (word v) b = buffer_add_uint32 v b
add_field (byte v) b = buffer_add_uint8 v b
add_field (text t) b = buffer_add_string t b

unfoldable pub add_fields : List Field → Buffer → Option Buffer
unfolding add_field
add_fields [] b = some b
add_fields (f ∷ fs) b = add_field f b >>= λ b'. add_fields fs b'

-- The bytes of the fields, before others.
unfoldable pub encode : List Field → List ℕ → List ℕ
unfolding field_bytes
encode [] rest = rest
encode (f ∷ fs) rest = field_bytes f ++ encode fs rest

unfoldable pub field_size : Field → ℕ
field_size (word v) = 4
field_size (byte v) = 1
field_size (text t) = 4 + (length t + 1)

unfoldable pub fields_size : List Field → ℕ
unfolding field_size
fields_size [] = 0
fields_size (f ∷ fs) = field_size f + fields_size fs

pub length-field_bytes : (f : Field) → length (field_bytes f) ≡ field_size f
unfolding field_bytes field_size word_bytes
length-field_bytes (word v) = refl
length-field_bytes (byte v) = refl
length-field_bytes (text t) = let e = length-append t (0 ∷ []) in omega arith

pub encode-append : (fs : List Field) (rest : List ℕ) → encode fs [] ++ rest ≡ encode fs rest
unfolding encode
encode-append [] rest = refl
encode-append (f ∷ fs) rest =
    append_assoc (field_bytes f) (encode fs []) rest
    ∙ ap (◌++◌ (field_bytes f)) (encode-append fs rest)

pub length-encode : (fs : List Field) → length (encode fs []) ≡ fields_size fs
unfolding encode fields_size
length-encode [] = refl
length-encode (f ∷ fs) =
    let e = length-append (field_bytes f) (encode fs []) in
    omega (arith, length-field_bytes f, length-encode fs)

buffer_add-fits :
    (bytes : List ℕ) (b : Buffer)
    → length b.written + length bytes ≤ b.size
    → buffer_add bytes b ≡ some (record b { written = b.written ++ bytes })
unfolding buffer_add
buffer_add-fits bytes b h = ground arith

add_field-fits :
    (f : Field) (b : Buffer)
    → length b.written + field_size f ≤ b.size
    → add_field f b ≡ some (record b { written = b.written ++ field_bytes f })
unfolding add_field field_bytes field_size buffer_add_uint32 buffer_add_string buffer_add_uint8
add_field-fits (word v) b h =
    buffer_add-fits (word_bytes v) b (let l = length-field_bytes (word v) in omega arith)
add_field-fits (byte v) b h = buffer_add-fits ((v % 256) ∷ []) b h
add_field-fits (text t) b h =
    let head = word_bytes (length t + 1) in
    let b' = record b { written = b.written ++ head } in
    let l = length-append b.written head in
    let l' = length-append t (0 ∷ []) in
    let lw = length-field_bytes (word (length t + 1)) in
    rw (buffer_add-fits head b (omega arith)) (
      buffer_add-fits (t ++ 0 ∷ []) b' (omega arith)
      ∙ ap (λ w. some (record b { written = w })) (append_assoc b.written head (t ++ 0 ∷ [])))

pub add_fields-fits :
    (fs : List Field) (b : Buffer)
    → length b.written + fields_size fs ≤ b.size
    → add_fields fs b ≡ some (record b { written = b.written ++ encode fs [] })
unfolding add_fields encode fields_size
add_fields-fits [] b h = rw (append-nil b.written) refl
add_fields-fits (f ∷ fs) b h =
    let b' = record b { written = b.written ++ field_bytes f } in
    let l = length-append b.written (field_bytes f) in
    let lf = length-field_bytes f in
    rw (add_field-fits f b (omega arith)) (
      add_fields-fits fs b' (omega arith)
      ∙ ap (λ w. some (record b { written = w }))
          (append_assoc b.written (field_bytes f) (encode fs [])))

-- What is read back.
pub read-word :
    (v : ℕ) (rest : List ℕ)
    → v < 2 ^ 32
    → buffer_read_uint32 (word_bytes v ++ rest) ≡ some (v, rest)
unfolding buffer_read_uint32 word_bytes
read-word v rest h =
    let e : v % 256 + v / 256 % 256 * 256 + v / 65536 % 256 * 65536 + v / 16777216 % 256 * 16777216
        ≡ v =
      omega arith in
    ap (λ w. some (w, rest)) e

pub read-byte :
    (v : ℕ) (rest : List ℕ) → v < 2 ^ 8 → buffer_read_uint8 ((v % 256) ∷ rest) ≡ some (v, rest)
unfolding buffer_read_uint8
read-byte v rest h = let e : v % 256 ≡ v = omega arith in ap (λ w. some (w, rest)) e

take-append_self : (xs rest : List ℕ) → take (length xs) (xs ++ rest) ≡ xs
take-append_self [] rest = refl
take-append_self (x ∷ xs) rest = ap (◌∷◌ x) (take-append_self xs rest)

drop-append_self : (xs rest : List ℕ) → drop (length xs) (xs ++ rest) ≡ rest
drop-append_self [] rest = refl
drop-append_self (x ∷ xs) rest = drop-append_self xs rest

pub take_bytes-append : (xs rest : List ℕ) → take_bytes (length xs) (xs ++ rest) ≡ some (xs, rest)
unfolding take_bytes
take_bytes-append xs rest =
    let l = length-append xs rest in
    let fits : leb (length xs) (length (xs ++ rest)) ≡ true = ground arith in
    rw (fits, take-append_self xs rest, drop-append_self xs rest) refl

pub c_string-append : (t rest : List ℕ) → All (λ c. 0 < c) t → c_string (t ++ 0 ∷ rest) ≡ t
unfolding c_string
c_string-append [] rest h = refl
c_string-append (c ∷ cs) rest h =
    let e : (c == 0) ≡ false = ground (arith, h.0) in
    rw e (ap (◌∷◌ c) (c_string-append cs rest h.1))

pub read-text :
    (t rest : List ℕ)
    → IsField (text t)
    → buffer_read_string (field_bytes (text t) ++ rest) ≡ some (t, rest)
unfolding buffer_read_string IsField field_bytes
read-text t rest h =
    let n = length t + 1 in
    let l = length-append t (0 ∷ []) in
    let e : n % 256 + n / 256 % 256 * 256 + n / 65536 % 256 * 65536 + n / 16777216 % 256 * 16777216
        ≡ length (t ++ 0 ∷ []) =
      omega arith in
    rw (e, take_bytes-append (t ++ 0 ∷ []) rest)
      (ap (λ w. some (w, rest)) (c_string-append t [] h.0))
