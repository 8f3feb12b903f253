-- ===== src/Processor.antt =====
-- Processor of lib/processing_engine/Processor.cc, with OutputFilter.h and the flags of Resource.h: how
-- a resource passes the modules of a processor and is queued to the processors behind it.
pub mod Apply
pub mod Route
pub mod Multi
pub mod Read
mod Tests
use hector_core.Prelude.{ℕ, Bool, ℤ, List, [], ◌∷◌, ◌+◌, suc, ◌≡◌, ◌++◌}

-- What the code of a processor reads of a resource. `content` is what the modules work on.
pub record Resource (B : Type 0) : Type 0 where
  pub id : ℕ
  pub type_id : ℕ
  pub status : ℤ
  pub skip : Bool
  pub deleted : Bool
  pub content : B

-- A call of `UpdateResourceCount` of the engine, with 1 or with -1.
pub data Call : Type 0 where
  count_up : Call
  count_down : Call

abbrev pub ups : List Call → ℕ
ups [] = 0
ups (count_up ∷ cs) = suc (ups cs)
ups (count_down ∷ cs) = ups cs

abbrev pub downs : List Call → ℕ
downs [] = 0
downs (count_up ∷ cs) = downs cs
downs (count_down ∷ cs) = suc (downs cs)
