-- ===== src/Core/Catalog/Dns.antt =====
-- `kDnsTypeProfiles` of src/core/security_catalog.cpp.
pub mod Low
pub mod High
