-- ===== src/Tests.antt =====
-- The theorems at concrete inputs: a node with one passthrough and one native NPU.
pub mod Node
pub mod Facts
pub mod Scans
pub mod Host
pub mod HostFacts
pub mod Claims
pub mod Groups
pub mod Specs
pub mod Released
pub mod Resolved
pub mod Files
pub mod Attached
pub mod Tree
pub mod Lines
pub mod Services
pub mod Logging
pub mod Start
