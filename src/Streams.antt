-- ===== src/Streams.antt =====
-- The resource streams of lib/processing_engine: strings in the text format, and the frame of a
-- serialised resource.
pub mod Text
pub mod Frame
mod Tests
