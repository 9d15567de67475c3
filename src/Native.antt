-- ===== src/Native.antt =====
-- The NPUs that are bound to the native driver: `npuDevicesFromInventory` in
-- cmd/npu-kubelet-plugin/state.go and `countNativeCandidates` in scan.go.
pub mod Defs
pub mod Laws
