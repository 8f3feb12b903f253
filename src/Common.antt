-- ===== src/Common.antt =====
-- lib/common.cc and lib/common.h: the helpers on strings, truth values and timeouts.
-- A string is the list of its bytes.
pub mod Trim
pub mod Split
pub mod Replace
pub mod Values
pub mod Bytes
mod Tests
