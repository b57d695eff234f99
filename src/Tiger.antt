-- ===== src/Tiger.antt =====
-- The Tiger hash of adclib/tiger.h and adclib/tiger.cpp. `unsigned long long` and `unsigned long`
-- are 64 bits wide, and memory is little-endian, as the source supposes.
pub mod Table1
pub mod Table2
pub mod Table3
pub mod Table4
pub mod Compress
pub mod Hash
pub mod Spec
pub mod Stream
pub mod Bulk
pub mod Update
pub mod Finalize
pub mod Pieces
mod Tests
