-- ===== src/Common/Bytes.antt =====
-- Memory as a function from addresses to bytes, `memcpy`, and machine words.
use Prim.Native.Nat.{ℕ, zero, suc, ◌+◌, ◌/◌, ◌%◌, ◌^◌, ◌<◌, ◌≤◌}
use mathlib.Core.Path.{◌≡◌, refl, ap}
use mathlib.Core.Logic.{◌⊎◌}
use mathlib.Core.List.{List, [], ◌∷◌, ◌++◌}
use native.Mathlib.Omega.{arith}
use ronaldinh_os_sistemas_op.Common.Tests.{◌==◌, if◌then◌else◌}
use ronaldinh_os_sistemas_op.Common.Lists.{length, take}

abbrev pub Ram : Type 0
Ram = ℕ → ℕ

-- `memcpy(mem + dst, bytes, length bytes)`.
unfoldable pub poke : Ram → ℕ → List ℕ → Ram
poke m dst [] = m
poke m dst (b ∷ bs) = poke (λ a. if a == dst then b else m a) (dst + 1) bs

-- `memcpy(buffer, mem + src, n)`: the bytes read.
unfoldable pub peek : Ram → ℕ → ℕ → List ℕ
peek m src zero = []
peek m src (suc n) = m src ∷ peek m (src + 1) n

pub length-peek : (m : Ram) (src n : ℕ) → length (peek m src n) ≡ n
unfolding peek
length-peek m src zero = refl
length-peek m src (suc n) = ap suc (length-peek m (src + 1) n)

pub peek-append : (m : Ram) (src n k : ℕ) → peek m src n ++ peek m (src + n) k ≡ peek m src (n + k)
unfolding peek
peek-append m src zero k = ground arith
peek-append m src (suc n) k =
    let there : src + suc n ≡ src + 1 + n = omega arith in
    let more : suc n + k ≡ suc (n + k) = omega arith in
    rw (there, more) (ap (◌∷◌ (m src)) (peek-append m (src + 1) n k))

pub take-peek : (m : Ram) (src n k : ℕ) → n ≤ k → take n (peek m src k) ≡ peek m src n
unfolding peek
take-peek m src zero k h = refl
take-peek m src (suc n) zero h = absurd (omega arith)
take-peek m src (suc n) (suc k) h = ap (◌∷◌ (m src)) (take-peek m (src + 1) n k (omega arith))

-- A byte below the copied range keeps its value, and so does one behind it.
pub poke_outside :
    (m : Ram) (dst : ℕ) (bs : List ℕ) (a : ℕ)
    → (a < dst) ⊎ (dst + length bs ≤ a)
    → poke m dst bs a ≡ m a
unfolding poke
poke_outside m dst [] a h = refl
poke_outside m dst (b ∷ bs) a h =
    ground (arith, poke_outside (λ c. if c == dst then b else m c) (dst + 1) bs a)

-- What was copied is what is read back.
pub peek-poke : (m : Ram) (dst : ℕ) (bs : List ℕ) → peek (poke m dst bs) dst (length bs) ≡ bs
unfolding peek poke
peek-poke m dst [] = refl
peek-poke m dst (b ∷ bs) = ground (
  arith,
  poke_outside (λ c. if c == dst then b else m c) (dst + 1) bs dst,
  peek-poke (λ c. if c == dst then b else m c) (dst + 1) bs,
)

-- Ranges that do not meet do not affect one another.
pub peek-poke_apart :
    (m : Ram) (dst : ℕ) (bs : List ℕ) (src n : ℕ)
    → (src + n ≤ dst) ⊎ (dst + length bs ≤ src)
    → peek (poke m dst bs) src n ≡ peek m src n
unfolding peek
peek-poke_apart m dst bs src zero h = refl
peek-poke_apart m dst bs src (suc n) h =
    ground (arith, poke_outside m dst bs src, peek-poke_apart m dst bs (src + 1) n)

-- The least number of blocks of `unit` bytes that hold `n`: `ceil((double) n / unit)`.
unfoldable pub ceil_div : ℕ → ℕ → ℕ
ceil_div n unit = if n % unit == 0 then n / unit else n / unit + 1

abbrev pub u8_mod : ℕ
u8_mod = 2 ^ 8

abbrev pub u32_mod : ℕ
u32_mod = 2 ^ 32
