-- ===== src/Common/Bits.antt =====
-- What the program uses of the commons library's `t_bitarray`: single bits are tested, set and
-- cleaned, and a write to one bit leaves the others alone.
use Prim.Native.Nat.{ℕ}
use mathlib.Core.Path.{◌≡◌, refl}
use mathlib.Core.Bool.{Bool, true, false}
use ronaldinh_os_sistemas_op.Common.Tests.{◌==◌, if◌then◌else◌}

pub record Bitarray (B : Type 0) : Type 0 where
  pub test_bit : B → ℕ → Bool
  pub set_bit : B → ℕ → B
  pub clean_bit : B → ℕ → B
  pub test-set :
      (b : B) (i j : ℕ) → test_bit (set_bit b i) j ≡ (if i == j then true else test_bit b j)
  pub test-clean :
      (b : B) (i j : ℕ) → test_bit (clean_bit b i) j ≡ (if i == j then false else test_bit b j)

-- A concrete bit array, which shows that the laws can be met.
instance abbrev pub bit_fun : Bitarray (ℕ → Bool)
bit_fun = record {
  test_bit = λ b i. b i;
  set_bit = λ b i j. if i == j then true else b j;
  clean_bit = λ b i j. if i == j then false else b j;
  test-set = λ b i j. refl;
  test-clean = λ b i j. refl;
}
