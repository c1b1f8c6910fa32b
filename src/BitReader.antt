-- ===== src/BitReader.antt =====
-- src/bitreader.rs: the bit reader over a borrowed byte slice, with its 64-bit buffer. A value is
-- the state of a `BitReader`; a method returns its result and the new state. Arithmetic is that of
-- a release build. `Buffer` and `Refill` are about the
-- buffer, `Refinement`, `Peek`, `Bit` and `Skip` about the methods.
pub mod Defs
pub mod Buffer
pub mod Refill
pub mod Refinement
pub mod Peek
pub mod Bit
pub mod Skip
