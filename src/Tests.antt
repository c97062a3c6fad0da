-- ===== src/Tests.antt =====
-- Runs of the definitions on concrete inputs, and the theorems applied to them.
mod Samples
mod Packets
mod Values
mod Rules
mod Managers
mod Iocs
mod Policies
