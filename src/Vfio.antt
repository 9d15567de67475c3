-- ===== src/Vfio.antt =====
-- cmd/npu-kubelet-plugin/vfio.go: the NPUs that are bound to vfio-pci.
pub mod Defs
pub mod Names
pub mod Attributes
pub mod Isolation
pub mod Laws
