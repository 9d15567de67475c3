-- ===== src/Prepare.antt =====
-- Preparing and unpreparing claims: the operations of cmd/npu-kubelet-plugin/state.go.
pub mod Node
pub mod Devices
pub mod Claims
pub mod Checkpoint
pub mod Names
pub mod Edits
pub mod Injected
pub mod Mounts
pub mod Shown
pub mod Groups
pub mod Specs
pub mod Served
pub mod Results
pub mod Steps
pub mod Fresh
pub mod Laws
pub mod Refinement
pub mod Runs
pub mod Resolved
pub mod Sources
pub mod Paths
pub mod Attached
pub mod Released
