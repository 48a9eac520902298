-- ===== src/Cpu/Registers.antt =====
-- The registers of a process and the operations on them: `getRegister`, SET, SUM, SUB and JNZ of
-- cpu/src/operations.c.
use ronaldinh_os_sistemas_op.Common.{
  ℕ, ◌+◌, ◌-◌, ◌%◌, Bool, true, false, leb, ◌==◌, if◌then◌else◌, u8_mod, u32_mod,
}

-- The names that `getRegister` knows.
pub data Register : Type 0 where
  ax bx cx dx eax ebx ecx edx si di pc : Register

-- `cpuRegister`.
pub record Registers : Type 0 where
  pub ax_register : ℕ
  pub bx_register : ℕ
  pub cx_register : ℕ
  pub dx_register : ℕ
  pub eax_register : ℕ
  pub ebx_register : ℕ
  pub ecx_register : ℕ
  pub edx_register : ℕ
  pub si_register : ℕ
  pub di_register : ℕ
  pub pc_register : ℕ

-- The test on a register's name: three letters, or SI, DI, PC.
unfoldable pub is_32_bits : Register → Bool
is_32_bits ax = false
is_32_bits bx = false
is_32_bits cx = false
is_32_bits dx = false
is_32_bits eax = true
is_32_bits ebx = true
is_32_bits ecx = true
is_32_bits edx = true
is_32_bits si = true
is_32_bits di = true
is_32_bits pc = true

unfoldable pub modulus : Register → ℕ
unfolding is_32_bits
modulus r = if is_32_bits r then u32_mod else u8_mod

-- `getRegister`, read.
unfoldable pub get_register : Register → Registers → ℕ
get_register ax rs = rs.ax_register
get_register bx rs = rs.bx_register
get_register cx rs = rs.cx_register
get_register dx rs = rs.dx_register
get_register eax rs = rs.eax_register
get_register ebx rs = rs.ebx_register
get_register ecx rs = rs.ecx_register
get_register edx rs = rs.edx_register
get_register si rs = rs.si_register
get_register di rs = rs.di_register
get_register pc rs = rs.pc_register

-- `getRegister`, written through.
unfoldable pub write_register : Register → ℕ → Registers → Registers
write_register ax v rs = record rs { ax_register = v }
write_register bx v rs = record rs { bx_register = v }
write_register cx v rs = record rs { cx_register = v }
write_register dx v rs = record rs { dx_register = v }
write_register eax v rs = record rs { eax_register = v }
write_register ebx v rs = record rs { ebx_register = v }
write_register ecx v rs = record rs { ecx_register = v }
write_register edx v rs = record rs { edx_register = v }
write_register si v rs = record rs { si_register = v }
write_register di v rs = record rs { di_register = v }
write_register pc v rs = record rs { pc_register = v }

-- The store of a number into a register of 8 or 32 bits. A negative `int` is given by its 32 bits.
unfoldable pub set_register : Register → ℕ → Registers → Registers
unfolding modulus write_register
set_register r value rs = write_register r (value % modulus r) rs

-- `SUM`. A 32-bit origin above 255 leaves an 8-bit destiny as it is.
unfoldable pub sum_register : Register → Register → Registers → Registers
unfolding is_32_bits get_register set_register
sum_register destiny origin rs =
    let d = get_register destiny rs in
    let o = get_register origin rs in
    if is_32_bits destiny
    then (if is_32_bits origin
        then set_register destiny (d + o) rs
        else set_register destiny (d + o) rs)
    else if is_32_bits origin
    then (if leb o 255 then set_register destiny (d + o) rs else rs)
    else set_register destiny (d + o) rs

-- `SUB`, whose branch for an 8-bit destiny and a 32-bit origin adds.
unfoldable pub sub_register : Register → Register → Registers → Registers
unfolding is_32_bits get_register set_register
sub_register destiny origin rs =
    let d = get_register destiny rs in
    let o = get_register origin rs in
    if is_32_bits destiny
    then (if is_32_bits origin
        then set_register destiny (d + (u32_mod - o)) rs
        else set_register destiny (d + (u32_mod - o)) rs)
    else if is_32_bits origin
    then (if leb o 255 then set_register destiny (d + o) rs else rs)
    else set_register destiny (d + (u8_mod - o)) rs

-- `JNZ`.
unfoldable pub jnz : Register → ℕ → Registers → Registers
unfolding get_register set_register
jnz r instruction rs = if get_register r rs == 0 then rs else set_register pc instruction rs

-- The operations of `executeOperations` that touch the registers only.
pub data Operation : Type 0 where
  sets : Register → ℕ → Operation
  sums subs : Register → Register → Operation
  jumps : Register → ℕ → Operation

unfoldable pub execute : Operation → Registers → Registers
unfolding set_register sum_register sub_register jnz
execute (sets r value) rs = set_register r value rs
execute (sums destiny origin) rs = sum_register destiny origin rs
execute (subs destiny origin) rs = sub_register destiny origin rs
execute (jumps r instruction) rs = jnz r instruction rs
