-- ===== src/Engine.antt =====
-- ProcessingEngine of lib/processing_engine/ProcessingEngine.cc and .h, and what its processors report
-- to it. A section between taking and giving up the object's lock is one function.
pub mod Sleep
pub mod Delivery
pub mod Reports
pub mod Threads
pub mod Control
pub mod Collect
mod Tests
