-- ===== src/Pci.antt =====
-- cmd/npu-kubelet-plugin/pci_sysfs.go: PCI addresses, and what the plugin reads of a PCI function
-- in sysfs.
pub mod Address
pub mod Sysfs
pub mod Readers
