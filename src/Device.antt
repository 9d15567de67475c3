-- ===== src/Device.antt =====
-- Published devices, their attributes, and the loops that enumerate them.
pub mod Defs
pub mod Enumeration
pub mod Lookups
pub mod Skipped
