-- ===== src/Native/Defs.antt =====
-- `npuDevicesFromInventory` and `countNativeCandidates`.
use rbln_k8s_dra_driver.Base.{
  ℕ, ◌+◌, Bool, true, false, not, List, [], ◌∷◌, Result, ok, err, ◌>>=◌, map_err, ℤ, is_positive,
  Option, none, some, if◌then◌else◌,
}
use rbln_k8s_dra_driver.Go.Text.{Text, codes, text_eq}
use rbln_k8s_dra_driver.Go.Strings.{to_lower}
use rbln_k8s_dra_driver.Go.FilePath.{FilePath, join}
use rbln_k8s_dra_driver.Go.Errors.{
  OsError, not_exist, errno, Error, os, wrap, is_not_exist, is_unsupported,
}
use rbln_k8s_dra_driver.Pci.Address.{is_pci_address}
use rbln_k8s_dra_driver.Pci.Sysfs.{Sysfs}
use rbln_k8s_dra_driver.Pci.Readers.{is_rebellions_pci, read_pci_driver, native_pci_driver_name}
use rbln_k8s_dra_driver.Sriov.{
  SriovInfo, is_vf, is_hosting_pf, device_name, probe_sriov, read_sriov_num_vfs,
}
use rbln_k8s_dra_driver.Device.Defs.{
  Device, Attributes, string_attribute, device_type_key, device_node_name_key, pci_bus_id_key,
  set_pcie_root_attr, set_numa_node_attr, set_attributes,
}
use rbln_k8s_dra_driver.Device.Enumeration.{
  Entry, ignored, skipped, published, Enumeration, enumerate,
}

-- `device.Device` of rblnlib-go, one entry of the rbln-smi inventory: the fields that are read.
pub record InventoryDevice : Type 0 where
  pub name : Text
  pub product_name : Text
  pub sid : Text
  pub uuid : Text
  pub pci_device_id : Text
  pub pci_bus_id : Text
  pub pci_link_speed : Text
  pub pci_link_width : Text
  pub firmware_version : Text
  pub kmd_version : Text
  pub pci_numa_node : Text
  pub memory_total_bytes : ℤ

-- `deviceTypeNpuVF` or `deviceTypeNpu`
abbrev pub npu_device_type : SriovInfo → Text
npu_device_type sriov = if is_vf sriov then codes "npu-vf" else codes "npu"

-- The attributes of the composite literal.
abbrev pub npu_base_attributes : InventoryDevice → SriovInfo → Attributes
npu_base_attributes d sriov =
    (device_node_name_key, string_attribute d.name)
    ∷ (device_type_key, string_attribute (npu_device_type sriov))
    ∷ ("productName", string_attribute d.product_name)
    ∷ ("sid", string_attribute d.sid)
    ∷ ("uuid", string_attribute d.uuid)
    ∷ ("pciDeviceID", string_attribute d.pci_device_id)
    ∷ (pci_bus_id_key, string_attribute d.pci_bus_id)
    ∷ ("pciLinkSpeed", string_attribute d.pci_link_speed)
    ∷ ("pciLinkWidth", string_attribute d.pci_link_width)
    ∷ ("firmwareVersion", string_attribute d.firmware_version)
    ∷ ("driverVersion", string_attribute d.kmd_version)
    ∷ []

abbrev pub skip_with : InventoryDevice → Option SriovInfo → Option Error → Result Error Entry
skip_with d sriov e =
    ok (skipped (record { name = d.name; pci_bus_id = d.pci_bus_id; sriov = sriov; error = e }))

module _ (fs : Sysfs) (sysfs_root : FilePath) where
  -- The device that is appended.
  unfoldable pub npu_device : InventoryDevice → SriovInfo → Device
  npu_device d sriov =
      let with_sriov = set_attributes sriov (npu_base_attributes d sriov) in
      let with_numa = set_numa_node_attr with_sriov d.pci_numa_node in
      record {
        name = device_name sriov d.name;
        attributes = set_pcie_root_attr fs with_numa sysfs_root d.pci_bus_id;
        memory = if is_positive d.memory_total_bytes then some d.memory_total_bytes else none;
      }

  unfoldable pub npu_layout : InventoryDevice → Result Error SriovInfo → Result Error Entry
  npu_layout d (err e) = if is_unsupported e then skip_with d none (some e) else err e
  npu_layout d (ok sriov) =
      if is_hosting_pf sriov
      then skip_with d (some sriov) none
      else ok (published (npu_device d sriov))

  unfoldable pub npu_present :
      InventoryDevice → FilePath → Result OsError (Unit {0}) → Result Error Entry
  npu_present d dev_path (err not_exist) = skip_with d none (some (os not_exist))
  npu_present d dev_path (err (errno n)) = err (os (errno n))
  npu_present d dev_path (ok u) = read_pci_driver fs dev_path >>= (λ driver.
      if text_eq driver native_pci_driver_name
      then npu_layout d (probe_sriov fs sysfs_root d.pci_bus_id)
      else ok ignored)

  -- One round of the loop of `npuDevicesFromInventory`.
  unfoldable pub npu_round : InventoryDevice → Result Error Entry
  unfolding npu_layout npu_present
  npu_round d =
      let dev_path = join sysfs_root (to_lower d.pci_bus_id) in
      npu_present d dev_path (fs.stat dev_path)

  -- `npuDevicesFromInventory`
  unfoldable pub npu_devices_from_inventory : List InventoryDevice → Result Error Enumeration
  unfolding npu_round enumerate
  npu_devices_from_inventory devs = enumerate npu_round devs

  -- `enumerateNpuDevices`, by what the inventory query gave.
  unfoldable pub enumerate_npu_devices :
      Result Error (List InventoryDevice) → Result Error Enumeration
  unfolding npu_devices_from_inventory
  enumerate_npu_devices inventory = inventory >>= npu_devices_from_inventory

-- Whether the function hosts no VFs: `numVFs` stays 0 where the attribute does not exist.
unfoldable pub hosts_no_vfs : Result Error ℤ → Result Error Bool
hosts_no_vfs (ok num_vfs) = ok (not (is_positive num_vfs))
hosts_no_vfs (err e) = if is_not_exist e then ok true else err e

module _ (fs : Sysfs) (root : FilePath) (known : List Text) where
  -- One round of the loop of `countNativeCandidates`: whether it ends in `count++`.
  unfoldable pub is_native_candidate : Text → Result Error Bool
  unfolding hosts_no_vfs
  is_native_candidate name =
      let dev_path = join root name in
      if is_pci_address name
      then is_rebellions_pci fs dev_path known >>= (λ matches.
        if matches
        then read_pci_driver fs dev_path >>= (λ driver.
          if text_eq driver native_pci_driver_name
          then hosts_no_vfs (read_sriov_num_vfs fs dev_path)
          else ok false)
        else ok false)
      else ok false

  unfoldable pub count_candidates : List Text → Result Error ℕ
  count_candidates [] = ok 0
  count_candidates (name ∷ names) = do
    candidate ← is_native_candidate name
    count ← count_candidates names
    ok (if candidate then count + 1 else count)

  -- `countNativeCandidates`
  unfoldable pub count_native_candidates : Result Error ℕ
  unfolding count_candidates is_native_candidate
  count_native_candidates =
      map_err (λ e. wrap "read PCI devices" (os e)) (fs.read_dir root) >>= count_candidates
