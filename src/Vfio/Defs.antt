-- ===== src/Vfio/Defs.antt =====
-- `enumerateVfioDevices` and what it calls.
use rbln_k8s_dra_driver.Base.{
  ℕ, Bool, false, ◌||◌, List, [], ◌∷◌, ◌++◌, Result, ok, err, ◌>>=◌, ◌>>◌, guard, map_err, ℤ,
  Option, none, some, if◌then◌else◌, ◌==◌,
}
use rbln_k8s_dra_driver.Go.Text.{Text, codes, text_eq}
use rbln_k8s_dra_driver.Go.Strings.{to_lower, equal_fold, trim_prefix}
use rbln_k8s_dra_driver.Go.Number.{parse_int}
use rbln_k8s_dra_driver.Go.FilePath.{FilePath, join}
use rbln_k8s_dra_driver.Go.Errors.{
  Error, os, message, wrap, unsupported_device, is_not_exist, is_unsupported,
}
use rbln_k8s_dra_driver.Go.Maps.{lookup, insert, string_key, text_key}
use rbln_k8s_dra_driver.Pci.Address.{is_pci_address}
use rbln_k8s_dra_driver.Pci.Sysfs.{Sysfs}
use rbln_k8s_dra_driver.Pci.Readers.{
  read_sysfs_value, read_sysfs_link_base, pci_entry_removed, is_rebellions_pci, read_pci_driver,
}
use rbln_k8s_dra_driver.Sriov.{SriovInfo, is_hosting_pf, device_name, probe_sriov}
use rbln_k8s_dra_driver.Device.Defs.{
  Device, Attributes, int_attribute, string_attribute, device_type_key, device_type_vfio,
  pci_bus_id_key, iommu_group_key, set_pcie_root_attr, set_numa_node_attr, set_attributes,
}
use rbln_k8s_dra_driver.Device.Enumeration.{
  Entry, ignored, skipped, published, Enumeration, enumerate,
}

-- `npuPCIClassID`
abbrev pub npu_pci_class_id : Text
npu_pci_class_id = codes "0x120000"

-- `vfioPCIDriverName`
abbrev pub vfio_pci_driver_name : Text
vfio_pci_driver_name = codes "vfio-pci"

-- `pciDeviceIDToProductName`
abbrev pub pci_device_id_to_product_name : List (Text × Text)
pci_device_id_to_product_name =
    (codes "1220", codes "RBLN-CA22")
    ∷ (codes "1221", codes "RBLN-CA22")
    ∷ (codes "1250", codes "RBLN-CA25")
    ∷ (codes "1251", codes "RBLN-CA25")
    ∷ (codes "2130", codes "RBLN-CR13")
    ∷ (codes "2131", codes "RBLN-CR13")
    ∷ []

unfoldable pub dash : ℕ → ℕ
dash c = if c == b':' || c == b'.' then b'-' else c

-- `strings.NewReplacer(":", "-", ".", "-").Replace`
unfoldable pub replace_separators : Text → Text
unfolding dash
replace_separators [] = []
replace_separators (c ∷ s) = dash c ∷ replace_separators s

-- `vfioDeviceName`
unfoldable pub vfio_device_name : Text → Text
unfolding replace_separators
vfio_device_name bus_id = codes "vfio-" ++ to_lower (replace_separators bus_id)

unfoldable pub checked_group : Option ℤ → Result Error ℤ
checked_group none = err (message "unexpected iommu group")
checked_group (some group) = ok group

-- The only member of the group is the function itself.
unfoldable pub is_exclusive : List Text → Text → Bool
is_exclusive (member ∷ []) bus_id = equal_fold member bus_id
is_exclusive members bus_id = false

unfoldable pub set_product_name : Attributes → Option Text → Attributes
set_product_name attrs none = attrs
set_product_name attrs (some name) = insert "productName" (string_attribute name) attrs

unfoldable pub set_device_id : Attributes → Result Error Text → Attributes
set_device_id attrs (err e) = attrs
set_device_id attrs (ok raw) =
    let device_id = trim_prefix raw (codes "0x") in
    set_product_name (insert "pciDeviceID" (string_attribute device_id) attrs)
      (lookup device_id pci_device_id_to_product_name)

unfoldable pub set_numa : Attributes → Result Error Text → Attributes
set_numa attrs (err e) = attrs
set_numa attrs (ok numa) = set_numa_node_attr attrs numa

-- The attributes that the enumeration sets before the optional ones.
abbrev pub vfio_base_attributes : Text → ℤ → Attributes
vfio_base_attributes bus_id group =
    (device_type_key, string_attribute device_type_vfio)
    ∷ (pci_bus_id_key, string_attribute bus_id)
    ∷ (iommu_group_key, int_attribute group)
    ∷ []

module _ (fs : Sysfs) where
  -- `deviceIOMMUGroupFromSysfs`
  unfoldable pub device_iommu_group_from_sysfs : FilePath → Result Error ℤ
  unfolding checked_group
  device_iommu_group_from_sysfs dev_path =
      read_sysfs_link_base fs dev_path (codes "iommu_group") >>= λ base.
      checked_group (parse_int base)

  unfoldable pub isolated_group : FilePath → Text → Result Error ℤ → Result Error ℤ
  isolated_group dev_path bus_id (err e) =
      if is_not_exist e then err (wrap "no IOMMU group" unsupported_device) else err e
  isolated_group dev_path bus_id (ok group) = do
    members ←
        map_err os (fs.read_dir (join (join dev_path (codes "iommu_group")) (codes "devices")))
    guard (is_exclusive members bus_id) (wrap "IOMMU group is not exclusive" unsupported_device)
    ok group

  -- `isolatedIOMMUGroup`
  unfoldable pub isolated_iommu_group : FilePath → Text → Result Error ℤ
  unfolding isolated_group is_exclusive
  isolated_iommu_group dev_path bus_id =
      isolated_group dev_path bus_id (device_iommu_group_from_sysfs dev_path)

  -- The device that is appended.
  unfoldable pub vfio_device : FilePath → Text → FilePath → SriovInfo → ℤ → Device
  vfio_device root bus_id dev_path sriov group =
      let with_id =
        set_device_id (vfio_base_attributes bus_id group)
          (read_sysfs_value fs dev_path (codes "device")) in
      let with_root = set_pcie_root_attr fs with_id root bus_id in
      let with_numa = set_numa with_root (read_sysfs_value fs dev_path (codes "numa_node")) in
      record {
        name = device_name sriov (vfio_device_name bus_id);
        attributes = set_attributes sriov with_numa;
        memory = none;
      }

  unfoldable pub vfio_group :
      FilePath → Text → FilePath → SriovInfo → Result Error ℤ → Result Error Entry
  vfio_group root bus_id dev_path sriov (ok group) =
      ok (published (vfio_device root bus_id dev_path sriov group))
  vfio_group root bus_id dev_path sriov (err e) =
      if is_unsupported e
      then ok (
          skipped (record {
            name = device_name sriov (vfio_device_name bus_id);
            pci_bus_id = bus_id;
            sriov = none;
            error = some e;
          }))
      else err e

  unfoldable pub vfio_layout :
      FilePath → Text → FilePath → Result Error SriovInfo → Result Error Entry
  vfio_layout root bus_id dev_path (ok sriov) =
      if is_hosting_pf sriov
      then ok (
          skipped (record {
            name = vfio_device_name bus_id;
            pci_bus_id = bus_id;
            sriov = some sriov;
            error = none;
          }))
      else vfio_group root bus_id dev_path sriov (isolated_iommu_group dev_path bus_id)
  vfio_layout root bus_id dev_path (err e) =
      if is_unsupported e
      then ok (
          skipped (record {
            name = vfio_device_name bus_id;
            pci_bus_id = bus_id;
            sriov = none;
            error = some e;
          }))
      else err e

  unfoldable pub vfio_class : FilePath → Text → FilePath → Result Error Text → Result Error Entry
  vfio_class root bus_id dev_path (ok class) =
      if text_eq class npu_pci_class_id
      then vfio_layout root bus_id dev_path (probe_sriov fs root bus_id)
      else ok ignored
  vfio_class root bus_id dev_path (err e) =
      if pci_entry_removed fs dev_path e then ok ignored else err e

  -- One round of the loop of `enumerateVfioDevices`.
  unfoldable pub vfio_round : FilePath → List Text → Text → Result Error Entry
  unfolding vfio_class vfio_layout vfio_group
  vfio_round root known bus_id =
      let dev_path = join root bus_id in
      if is_pci_address bus_id
      then is_rebellions_pci fs dev_path known >>= (λ matches.
        if matches
        then read_pci_driver fs dev_path >>= (λ driver.
          if text_eq driver vfio_pci_driver_name
          then vfio_class root bus_id dev_path (read_sysfs_value fs dev_path (codes "class"))
          else ok ignored)
        else ok ignored)
      else ok ignored

  -- `enumerateVfioDevices`
  unfoldable pub enumerate_vfio_devices : FilePath → List Text → Result Error Enumeration
  unfolding vfio_round enumerate
  enumerate_vfio_devices root known =
      map_err (λ e. wrap "read PCI devices" (os e)) (fs.read_dir root) >>= λ entries.
      enumerate (vfio_round root known) entries
