-- ===== src/Cpu/TwoPages.antt =====
-- Four bytes over two pages: `pagina_dividida`, `dato_reconstruido`, and the halves that
-- `escribir_y_guardar_en_dos_paginas` sends, cpu/src/operations.c.
use native.Mathlib.Nat.{div-add-mod', mod-lt, mul-mod_left}
use ronaldinh_os_sistemas_op.Common.{
  ℕ, zero, suc, ◌+◌, ◌-◌, ◌*◌, ◌/◌, ◌%◌, ◌^◌, ◌<◌, ◌≤◌, ◌≡◌, Bool, true, arith, ltb, ltb→lt,
  u32_mod,
}

-- `pagina_dividida`.
unfoldable pub pagina_dividida : ℕ → ℕ → Bool
pagina_dividida pages_length dir_logica =
    let n_page = dir_logica / pages_length in
    let desplazamiento = dir_logica - n_page * pages_length in ltb pages_length (desplazamiento + 4)

-- The number of bytes on the first page, as `leer_y_guardar_de_dos_paginas` and
-- `escribir_y_guardar_en_dos_paginas` compute it.
unfoldable pub bytes_primera : ℕ → ℕ → ℕ
bytes_primera pages_length dir_logica =
    let n_page = dir_logica / pages_length in
    let desplazamiento = dir_logica - n_page * pages_length in
    4 - (desplazamiento + 4 - pages_length)

-- `dato_reconstruido`, on a machine that stores the low byte first: the low bytes of the first
-- number, and above them the low bytes of the second.
unfoldable pub dato_reconstruido : ℕ → ℕ → ℕ → ℕ → ℕ
dato_reconstruido primera segunda bytes_primera bytes_segunda =
    primera % 256 ^ bytes_primera + 256 ^ bytes_primera * (segunda % 256 ^ bytes_segunda)

-- `valor_parte_1` and `valor_parte_2`.
unfoldable pub valor_parte_1 : ℕ → ℕ
valor_parte_1 valor = valor % 2 ^ 16

unfoldable pub valor_parte_2 : ℕ → ℕ
valor_parte_2 valor = valor / 2 ^ 16 % 2 ^ 16

-- A value that is cut behind its first bytes, at most four, is put together again.
dato_reconstruido-split :
    (valor bytes : ℕ)
    → valor < u32_mod
    → bytes ≤ 4
    → dato_reconstruido (valor % 256 ^ bytes) (valor / 256 ^ bytes) bytes (4 - bytes) ≡ valor
unfolding dato_reconstruido
dato_reconstruido-split valor zero h low = omega arith
dato_reconstruido-split valor (suc zero) h low = omega arith
dato_reconstruido-split valor (suc (suc zero)) h low = omega arith
dato_reconstruido-split valor (suc (suc (suc zero))) h low = omega arith
dato_reconstruido-split valor (suc (suc (suc (suc zero)))) h low = omega arith
dato_reconstruido-split valor (suc (suc (suc (suc (suc n))))) h low = absurd (omega arith)

-- For pages of four bytes or more, where four bytes at a logical address do not lie on one page,
-- the first page has some of them and fewer than four, and the bytes behind those start a page.
pub pagina_dividida-bytes :
    (pages_length dir_logica : ℕ)
    → 4 ≤ pages_length
    → pagina_dividida pages_length dir_logica ≡ true
    → (0 < bytes_primera pages_length dir_logica)
      × (bytes_primera pages_length dir_logica < 4)
      × ((dir_logica + bytes_primera pages_length dir_logica) % pages_length ≡ 0)
unfolding pagina_dividida bytes_primera
pagina_dividida-bytes l dir page two =
    let q = dir / l in
    let long = ltb→lt l (dir - q * l + 4) two in
    let parts = div-add-mod' dir l in
    let low : dir % l < l = mod-lt dir (omega arith) in
    let whole : dir + (4 - (dir - q * l + 4 - l)) ≡ (q + 1) * l = omega arith in
    (omega arith, omega arith, rw whole (mul-mod_left (q + 1) l))

-- The halves that are sent make up the value again where each page takes two bytes.
dato_reconstruido-halves :
    (valor : ℕ)
    → valor < u32_mod
    → dato_reconstruido (valor_parte_1 valor) (valor_parte_2 valor) 2 2 ≡ valor
unfolding dato_reconstruido valor_parte_1 valor_parte_2
dato_reconstruido-halves valor h = omega arith
