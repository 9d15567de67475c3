-- ===== src/Tests/Scans.antt =====
-- Scans of the node.
use rbln_k8s_dra_driver.Go.Text.{codes, contains}
use rbln_k8s_dra_driver.Go.Strings.{lower, to_lower}
use rbln_k8s_dra_driver.Pci.Address.{matches, is_pci_address}
use rbln_k8s_dra_driver.Device.Enumeration.{Enumeration}
use rbln_k8s_dra_driver.State.Defs.{index_onto, index}
use rbln_k8s_dra_driver.State.Delta.{device_name_delta}
use rbln_k8s_dra_driver.State.Rescan.{rescan_devices}
use rbln_k8s_dra_driver.Base.{◌≡◌, ◌↔◌, refl, true, false, ◌&&◌, not, [], ◌∷◌, ok, Member}
use rbln_k8s_dra_driver.State.Invariant.{IsWellFormed, SameInventory, Scanned}
use rbln_k8s_dra_driver.State.Scans.{
  rescan_devices-IsWellFormed, rescan_devices_failure, rescan_devices_success, Published, LowerCase,
  rescan_devices_validates,
}
use rbln_k8s_dra_driver.State.Delta.{names, device_name_delta_lem}
use rbln_k8s_dra_driver.Vfio.Laws.{DescribesPassthrough, enumerate_vfio_devices_lem}
use rbln_k8s_dra_driver.Vfio.Names.{device_name-vfio_device_name_injective}
use rbln_k8s_dra_driver.Native.Laws.{DescribesNative, enumerate_npu_devices_lem}
use rbln_k8s_dra_driver.Sriov.Laws.{
  IsSupported, probe_sriov-IsSupported, ObservedUnsupported, probe_sriov-is_unsupported,
}
use rbln_k8s_dra_driver.Validate.{validate_allocated_device}
use rbln_k8s_dra_driver.Validate.Laws.{
  validate_allocated_device-vfio_device, IsUnchanged, validate_allocated_device-IsUnchanged,
}
use rbln_k8s_dra_driver.Tests.Node.{
  deep_equal, reads, sysfs, sysfs_root, failing_reads, no_devices, npu, vfio_bus, npu_bus,
  three_vfs_sysfs,
}
use rbln_k8s_dra_driver.Tests.Facts.{
  alone, group, passthrough, native, unreadable, not_supported, node_facts,
}

no_devices-IsWellFormed : IsWellFormed no_devices
unfolding index index_onto
no_devices-IsWellFormed = record {
  is_indexed = record { indexed = refl; published = refl };
  nodup = tt;
}

rescan_devices-IsWellFormed_example :
    IsWellFormed (rescan_devices deep_equal reads no_devices).state
rescan_devices-IsWellFormed_example =
    rescan_devices-IsWellFormed deep_equal reads no_devices no_devices-IsWellFormed

rescan_devices_failure_example :
    let o = rescan_devices deep_equal failing_reads no_devices in
    SameInventory no_devices o.state
    × (o.changed ≡ false)
    × (o.resources ≡ record { pool = codes "node"; devices = [] })
rescan_devices_failure_example =
    rescan_devices_failure deep_equal failing_reads no_devices unreadable node_facts.fails

rescan_devices_success_example :
    (npu_read : Enumeration) × (vfio_read : Enumeration) × Scanned reads no_devices npu_read
      vfio_read
    × Published deep_equal reads no_devices npu_read vfio_read
        (rescan_devices deep_equal reads no_devices)
rescan_devices_success_example =
    rescan_devices_success deep_equal reads no_devices node_facts.succeeds

spelled_low : LowerCase (vfio_bus ∷ npu_bus ∷ [])
unfolding to_lower lower
spelled_low = (refl, (refl, tt))

rescan_devices_validates_example : validate_allocated_device sysfs sysfs_root passthrough ≡ ok tt
rescan_devices_validates_example =
    rescan_devices_validates deep_equal reads no_devices (vfio_bus ∷ npu_bus ∷ []) passthrough
      node_facts.changes node_facts.lists spelled_low node_facts.publishes

device_name_delta_lem_example :
    let delta = device_name_delta deep_equal (passthrough ∷ []) (native ∷ passthrough ∷ []) in
    let now = names (native ∷ passthrough ∷ []) in
    let before = names (passthrough ∷ []) in
    (contains delta.added native.name
      ≡ (contains now native.name && not (contains before native.name)))
    × (contains delta.removed native.name
        ≡ (contains before native.name && not (contains now native.name)))
    × (contains delta.changed native.name ≡ true
        → (contains now native.name ≡ true) × (contains before native.name ≡ true))
device_name_delta_lem_example =
    device_name_delta_lem deep_equal (passthrough ∷ []) (native ∷ passthrough ∷ []) native.name

enumerate_vfio_devices_lem_example :
    Member passthrough (passthrough ∷ [])
    ↔ DescribesPassthrough sysfs sysfs_root (vfio_bus ∷ npu_bus ∷ []) passthrough
enumerate_vfio_devices_lem_example =
    enumerate_vfio_devices_lem sysfs sysfs_root [] (vfio_bus ∷ npu_bus ∷ []) (passthrough ∷ [], [])
      passthrough node_facts.lists node_facts.enumerates

enumerate_npu_devices_lem_example :
    Member native (native ∷ []) ↔ DescribesNative sysfs sysfs_root (npu ∷ []) native
enumerate_npu_devices_lem_example =
    enumerate_npu_devices_lem sysfs sysfs_root (npu ∷ []) (native ∷ [], []) native
      node_facts.enumerates_native

validate_allocated_device-vfio_device_example :
    validate_allocated_device sysfs sysfs_root passthrough ≡ ok tt
validate_allocated_device-vfio_device_example =
    validate_allocated_device-vfio_device sysfs sysfs_root vfio_bus alone group
      node_facts.may_be_passed_through spelled_low.0

validate_allocated_device-IsUnchanged_example :
    (validate_allocated_device sysfs sysfs_root native ≡ ok tt)
    ↔ IsUnchanged sysfs sysfs_root native
validate_allocated_device-IsUnchanged_example =
    validate_allocated_device-IsUnchanged sysfs sysfs_root native

addresses_match : (is_pci_address vfio_bus ≡ true) × (is_pci_address (codes "0000:3B:00.0") ≡ true)
unfolding is_pci_address matches
addresses_match = (refl, refl)

device_name-vfio_device_name_injective_example : to_lower vfio_bus ≡ to_lower (codes "0000:3B:00.0")
device_name-vfio_device_name_injective_example =
    device_name-vfio_device_name_injective vfio_bus (codes "0000:3B:00.0") alone alone
      addresses_match.0 addresses_match.1 node_facts.same_names

probe_sriov-IsSupported_example : IsSupported vfio_bus alone
probe_sriov-IsSupported_example =
    probe_sriov-IsSupported sysfs sysfs_root vfio_bus alone node_facts.probes

probe_sriov-is_unsupported_example : ObservedUnsupported three_vfs_sysfs
probe_sriov-is_unsupported_example =
    probe_sriov-is_unsupported three_vfs_sysfs sysfs_root vfio_bus not_supported node_facts.reports
      node_facts.is_reported
