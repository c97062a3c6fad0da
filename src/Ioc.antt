-- ===== src/Ioc.antt =====
-- include/ioc/ioc.hpp and src/ioc/ioc.cpp: indicators of compromise, sets of them, and their index.
pub mod Types
pub mod Normalize
pub mod Trie
pub mod Index
pub mod Matching
pub mod Lookup
pub mod Parse
pub mod Session
