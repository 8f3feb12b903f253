-- ===== src/Storage.antt =====
-- The modules Load and Save of lib/processing_engine/module: resources from a file, and into files.
pub mod Load
pub mod Save
pub mod Loaded
pub mod Rotation
pub mod Copies
pub mod RoundTrip
mod Tests
