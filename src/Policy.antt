-- ===== src/Policy.antt =====
-- include/policy/policy.hpp and src/policy/policy.cpp: firewall rules, their checks and their order.
pub mod Types
pub mod Firewall
pub mod Order
pub mod Scope
pub mod Settings
pub mod Iptables
