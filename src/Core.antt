-- ===== src/Core.antt =====
-- The `core` part: values of `include/core` and `src/core` that the parsers stand on.
pub mod Result
pub mod Diagnostics
pub mod ByteView
pub mod ByteReader
pub mod Strings
pub mod Time
pub mod Ip
pub mod Catalog
pub mod Checksum
pub mod IpText
