-- ===== src/Utils.antt =====
-- The shared helpers on texts, utils/src/utils.c.
pub mod Words
pub mod Binary
pub mod Numbers
pub mod Split
mod Tests
