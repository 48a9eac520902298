-- ===== src/Memory/Difference.antt =====
-- The numbers of bytes and pages that `resize` of memoria/src/paginacion.c computes with, as an `int`.
use ronaldinh_os_sistemas_op.Common.{
  ℕ, ◌+◌, ◌-◌, ◌*◌, ◌^◌, u32_mod, ◌≤◌, ◌<◌, ◌≡◌, refl, sym, dec_lt, arith, ceil_div, lt→ltb,
}
use ronaldinh_os_sistemas_op.Memory.Resize.{creation_pages, size_difference}
use ronaldinh_os_sistemas_op.Common.Division.{
  ceil_div_unique, ceil_div-extend, ceil_div-pos, le-ceil_div,
}

pub creation_pages-positive : (size l : ℕ) → size < 2 ^ 31 → creation_pages size l ≡ ceil_div size l
unfolding creation_pages
creation_pages-positive size l low = rw (lt→ltb size (2 ^ 31) low) refl

-- The difference of two sizes below 2^31, on both sides of 0.
pub size_difference-above :
    (size current : ℕ)
    → current < size
    → size < 2 ^ 31
    → size_difference size current ≡ size - current
unfolding size_difference
size_difference-above size current h k = omega arith

pub back : (n : ℕ) → n < 2 ^ 31 → u32_mod - (u32_mod - n) ≡ n
back n h = omega arith

pub size_difference-below :
    (size current : ℕ)
    → size < current
    → current < 2 ^ 31
    → size_difference size current ≡ u32_mod - (current - size)
unfolding size_difference
size_difference-below size current h k = omega arith

pub size_difference-negative :
    (below current : ℕ)
    → 0 < below
    → current + below < 2 ^ 31
    → size_difference (u32_mod - below) current ≡ u32_mod - (current + below)
unfolding size_difference
size_difference-negative below current h k = omega arith

-- The pages of a number of full pages and of what is below 0.
pub pages_below :
    (c below unit : ℕ)
    → 0 < unit
    → 0 < below
    → ceil_div (c * unit + below) unit ≡ c + ceil_div below unit
pages_below c below unit h pos =
    let rest : c * unit + below - c * unit ≡ below = omega arith in
    sym (rw rest at (ceil_div-extend c (c * unit + below) unit h (omega arith)))

pub near_below : (n unit : ℕ) → 0 < unit → 0 < n → n ≤ unit → ceil_div n unit ≡ 1
near_below n unit h pos near = ceil_div_unique 1 n unit h pos (omega arith) (omega arith)

pub far_below : (n unit : ℕ) → 0 < unit → unit < n → 1 < ceil_div n unit
far_below n unit h far = elim (dec_lt 1 (ceil_div n unit)) [
  | yes more ↦ more
  | no one_page ↦
      let some_page = ceil_div-pos n unit h (omega arith) in
      let one : ceil_div n unit ≡ 1 = omega arith in
      absurd (omega (arith, rw one at (le-ceil_div n unit h)))
]
