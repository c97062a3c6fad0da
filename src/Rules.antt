-- ===== src/Rules.antt =====
-- include/rules/rules.hpp and src/rules/rules.cpp: the expressions of a rule and the test of a packet.
pub mod Types
pub mod Match
pub mod Ports
pub mod Validate
pub mod Print
pub mod Addresses
pub mod Manager
