-- ===== src/Objects.antt =====
-- The helper classes of lib that hold objects: MemoryPool.h, ObjectRegistry.cc and ObjectProperties.h.
pub mod Pool
pub mod Maps
pub mod Registry
pub mod Properties
mod Tests
