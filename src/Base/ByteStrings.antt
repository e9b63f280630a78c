-- ===== src/Base/ByteStrings.antt =====
-- Byte strings: the order in which SQLite compares BLOBs, prefixes, and big-endian integers.
mod Order
mod BigEndian
unfoldable pub use Order.*
unfoldable pub use BigEndian.*
