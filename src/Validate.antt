-- ===== src/Validate.antt =====
-- cmd/npu-kubelet-plugin/validate_device.go: the check of an allocated device against sysfs before
-- it is prepared.
pub mod Laws
use rbln_k8s_dra_driver.Base.{
  ℕ, ◌≡◌, refl, Bool, true, false, ◌&&◌, ◌||◌, not, List, [], ◌∷◌, ◌++◌, map, Result, ok, err,
  ◌>>=◌, ◌>>◌, guard, map_err, ℤ, int_eq, Option, none, some, if◌then◌else◌,
}
use rbln_k8s_dra_driver.Go.Text.{Text, codes, text_eq}
use rbln_k8s_dra_driver.Go.Strings.{to_lower, equal_fold}
use rbln_k8s_dra_driver.Go.FilePath.{FilePath, join}
use rbln_k8s_dra_driver.Go.Errors.{Error, message}
use rbln_k8s_dra_driver.Pci.Sysfs.{Sysfs}
use rbln_k8s_dra_driver.Pci.Readers.{
  read_sysfs_value, read_pci_driver, rbln_pci_vendor_id, native_pci_driver_name,
}
use rbln_k8s_dra_driver.Sriov.{SriovInfo, is_hosting_pf, partition_mode, probe_sriov}
use rbln_k8s_dra_driver.Device.Defs.{
  Device, device_string_attr, device_int_attr, device_pci_bus_id, is_vfio_device,
  partition_mode_key, parent_pci_bus_id_key, iommu_group_key,
}
use rbln_k8s_dra_driver.Vfio.Defs.{vfio_pci_driver_name, isolated_iommu_group}

-- `deviceIntAttr(d, iommuGroupAttributeKey) != group` compares an `any` with an `int64`.
unfoldable pub is_group : Option ℤ → ℤ → Bool
is_group none group = false
is_group (some n) group = int_eq n group

abbrev pub wanted_driver : Device → Text
wanted_driver d = if is_vfio_device d then vfio_pci_driver_name else native_pci_driver_name

-- Whether the layout is the one that the device was published with.
unfoldable pub same_layout : Device → SriovInfo → Bool
same_layout d info =
    not (is_hosting_pf info)
    && (text_eq (partition_mode info) (device_string_attr d partition_mode_key)
        && equal_fold info.parent_pci_bus_id (device_string_attr d parent_pci_bus_id_key))

module _ (fs : Sysfs) where
  unfoldable pub validate_group : Device → FilePath → Text → Bool → Result Error (Unit {0})
  unfolding is_group
  validate_group d dev_path bus false = ok tt
  validate_group d dev_path bus true = do
    group ← isolated_iommu_group fs dev_path bus
    guard (is_group (device_int_attr d iommu_group_key) group) (message "IOMMU group changed")

  -- `validateAllocatedDevice`
  unfoldable pub validate_allocated_device : FilePath → Device → Result Error (Unit {0})
  unfolding validate_group same_layout
  validate_allocated_device root d = do
    bus ← device_pci_bus_id d
    let dev_path = join root (to_lower bus)
    vendor ← read_sysfs_value fs dev_path (codes "vendor")
    guard (equal_fold vendor rbln_pci_vendor_id) (message "PCI vendor changed")
    driver ← read_pci_driver fs dev_path
    guard (text_eq driver (wanted_driver d)) (message "PCI driver is not the expected one")
    info ← probe_sriov fs root bus
    guard (same_layout d info) (message "SR-IOV layout changed")
    validate_group d dev_path bus (is_vfio_device d)
