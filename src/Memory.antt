-- ===== src/Memory.antt =====
-- The memory module, memoria/src: paging, resizing, reads and writes, and the server.
pub mod State
pub mod Frames
pub mod Tables
pub mod Allocate
pub mod Saved
pub mod Saving
pub mod Consistent
pub mod Grown
pub mod Reduced
pub mod Resized
pub mod Outcomes
pub mod Resize
pub mod Difference
pub mod PageCount
pub mod Negative
pub mod Access
pub mod Layout
pub mod Transfer
pub mod RoundTrip
pub mod InstructionFile
pub mod Server
pub mod Served
mod Tests
