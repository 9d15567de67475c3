-- ===== src/State.antt =====
-- The inventory of cmd/npu-kubelet-plugin: `DeviceState` of state.go, as far as discovery uses it,
-- and `RescanDevices` of scan.go.
pub mod Defs
pub mod Delta
pub mod Rescan
pub mod Invariant
pub mod Scans
pub mod Streaks
