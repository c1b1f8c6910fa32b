-- ===== src/Scan.antt =====
-- src/block_scan.rs: the scanner for block boundaries. `Defs` has the serial scan, `Split` the
-- parallel ones; `Window`, `Next` and `Found` are about one search, `All` about the serial list,
-- `Merge` and `Chunks` about the parallel one.
pub mod Defs
pub mod Window
pub mod Next
pub mod Found
pub mod All
pub mod Merge
pub mod Chunks
pub mod Split
