-- ===== src/OpRegion.antt =====
-- core/opregion.c: the fields of operation regions.
pub mod Buffer
pub mod BufferBits
pub mod BufferRead
pub mod Field
pub mod FieldRead
pub mod FieldLoop
pub mod Merge
pub mod FieldWrite
pub mod Values
pub mod Integers
pub mod RoundTrip
pub mod Bytes
pub mod Perform
pub mod Mapped
