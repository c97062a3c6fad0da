-- ===== src/Core/Catalog.antt =====
-- src/core/security_catalog.cpp and include/core/security_catalog.hpp: the tables of DNS types, rule
-- options, policy settings and services, and the searches in them.
pub mod Types
pub mod Dns
pub mod Options
pub mod Settings
pub mod Services
pub mod Exposure
pub mod Lookup
