-- ===== src/Cpu.antt =====
-- The CPU module, cpu/src: its registers, instructions and cycle, and the translation of addresses with
-- its TLB.
pub mod Tlb
pub mod Replaced
pub mod Translation
pub mod Registers
pub mod Arithmetic
pub mod TwoPages
pub mod Moves
pub mod Names
pub mod IoTexts
pub mod Instructions
pub mod Cycle
pub mod Steady
pub mod Sound
pub mod Carried
pub mod Written
pub mod Rounds
pub mod Interrupts
mod Tests
