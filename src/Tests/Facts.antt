-- ===== src/Tests/Facts.antt =====
-- What the functions of the scans compute on the node.
use rbln_k8s_dra_driver.Go.Text.{codes, text_eq, contains}
use rbln_k8s_dra_driver.Go.Strings.{
  lower, to_lower, equal_fold, is_space, trim_left, trim_right, trim_space, cut_prefix, trim_prefix,
  cut_before,
}
use rbln_k8s_dra_driver.Go.FilePath.{
  split_on, split, drop_last, push, push_all, join, strip_slashes, last_of, base, path_base,
}
use rbln_k8s_dra_driver.Go.Errors.{Error, is_not_exist, is_unsupported}
use rbln_k8s_dra_driver.Go.Maps.{lookup, insert, delete}
use rbln_k8s_dra_driver.Go.Number.{
  parse_digits, non_negative, non_positive, parse_unsigned, parse_int, decimal, format_nat,
  format_int,
}
use rbln_k8s_dra_driver.Pci.Address.{matches, is_pci_address}
use rbln_k8s_dra_driver.Pci.Readers.{
  read_sysfs_value, read_sysfs_link_base, stat_failed_with_not_exist, pci_entry_removed,
  vendor_matches, is_rebellions_pci, or_unbound, read_pci_driver, first_root, resolve_pcie_root_id,
}
use rbln_k8s_dra_driver.Sriov.{
  SriovInfo, is_vf, is_hosting_pf, partition_mode, device_name, checked_num_vfs, read_sriov_num_vfs,
  probe_vf, probe_pf, probe_layout, probe_sriov,
}
use rbln_k8s_dra_driver.Device.Defs.{
  string_of, int_of, string_value_at, or_empty, device_string_attr, device_int_attr, checked_bus_id,
  device_pci_bus_id, is_vfio_type, is_vfio_device, set_numa_node, set_numa_node_attr, set_pcie_root,
  set_pcie_root_attr, set_parent, set_attributes,
}
use rbln_k8s_dra_driver.Device.Enumeration.{enumerate}
use rbln_k8s_dra_driver.Vfio.Defs.{
  dash, replace_separators, vfio_device_name, checked_group, is_exclusive, set_product_name,
  set_device_id, set_numa, device_iommu_group_from_sysfs, isolated_group, isolated_iommu_group,
  vfio_device, vfio_group, vfio_layout, vfio_class, vfio_round, enumerate_vfio_devices,
}
use rbln_k8s_dra_driver.Native.Defs.{
  npu_device, npu_layout, npu_present, npu_round, npu_devices_from_inventory, enumerate_npu_devices,
  hosts_no_vfs, is_native_candidate, count_candidates, count_native_candidates,
}
use rbln_k8s_dra_driver.State.Defs.{
  index_onto, index, rebuild_resources, add_known, known_functions,
}
use rbln_k8s_dra_driver.State.Delta.{
  is_none, added_names, differs, changed_names, device_name_delta,
}
use rbln_k8s_dra_driver.State.Rescan.{
  fail_with, bus_of, has_duplicate, newly_skipped, log_skipped, read_sysfs, swap, check_and_swap,
  after_inventory, after_sysfs, rescan_devices,
}
use rbln_k8s_dra_driver.Base.{
  ℤ, pos, ◌≡◌, refl, true, List, [], ◌∷◌, ok, err, none, some, inl, Member,
}
use rbln_k8s_dra_driver.Go.Errors.{os, not_exist, wrap, unsupported_device}
use rbln_k8s_dra_driver.Device.Defs.{Device}
use rbln_k8s_dra_driver.Vfio.Laws.{IsPassthrough}
use rbln_k8s_dra_driver.Validate.{validate_allocated_device, validate_group, same_layout, is_group}
use rbln_k8s_dra_driver.Driver.{
  Driver, Tick, observe_scan_duration, is_set, publish, scan_tick, run_device_scan,
}
use rbln_k8s_dra_driver.Tests.Node.{
  deep_equal, reads, sysfs, sysfs_root, failing_reads, no_devices, npu, vfio_bus, npu_bus,
  three_vfs_sysfs,
}

abbrev pub alone : SriovInfo
alone = record { parent_pci_bus_id = []; num_vfs = pos 0 }

abbrev pub group : ℤ
group = pos 12

-- The passthrough device of the node.
abbrev pub passthrough : Device
passthrough = vfio_device sysfs sysfs_root vfio_bus (join sysfs_root vfio_bus) alone group

abbrev pub native : Device
native = npu_device sysfs sysfs_root npu alone

abbrev pub unreadable : Error
unreadable = wrap "read PCI devices" (os not_exist)

abbrev pub not_supported : Error
not_supported = wrap "expected 0, 1 or 4 VFs" unsupported_device

-- A driver without devices, and a tick whose scan fails.
abbrev pub idle : Driver
idle = record { state = no_devices; slice = record { pool = codes "node"; devices = [] } }

abbrev pub failing_ticks : List Tick
failing_ticks = record { reads = failing_reads; took = 50; accepted = true } ∷ []

-- What the functions compute on the node.
pub record NodeFacts : Type 0 where
  pub fails : (rescan_devices deep_equal failing_reads no_devices).error ≡ some unreadable
  pub succeeds : (rescan_devices deep_equal reads no_devices).error ≡ none
  pub changes : (rescan_devices deep_equal reads no_devices).changed ≡ true
  pub publishes : Member passthrough (rescan_devices deep_equal reads no_devices).state.vfio_devices
  pub lists : sysfs.read_dir sysfs_root ≡ ok (vfio_bus ∷ npu_bus ∷ [])
  pub unreadable_tree :
      read_sysfs failing_reads (known_functions no_devices.allocatable) ≡ err unreadable
  pub enumerates : enumerate_vfio_devices sysfs sysfs_root [] ≡ ok (passthrough ∷ [], [])
  pub enumerates_native :
      enumerate_npu_devices sysfs sysfs_root (ok (npu ∷ [])) ≡ ok (native ∷ [], [])
  pub may_be_passed_through : IsPassthrough sysfs sysfs_root vfio_bus alone group
  pub validates_native : validate_allocated_device sysfs sysfs_root native ≡ ok tt
  pub same_names :
      device_name alone (vfio_device_name vfio_bus)
      ≡ device_name alone (vfio_device_name (codes "0000:3B:00.0"))
  pub probes : probe_sriov sysfs sysfs_root vfio_bus ≡ ok alone
  pub reports : probe_sriov three_vfs_sysfs sysfs_root vfio_bus ≡ err not_supported
  pub is_reported : is_unsupported not_supported ≡ true
  pub recovers :
      (rescan_devices deep_equal reads
        (run_device_scan deep_equal 30 failing_ticks idle).state).error
      ≡ none

pub node_facts : NodeFacts
unfolding validate_allocated_device validate_group same_layout is_group text_eq contains lower
    to_lower equal_fold is_space trim_left trim_right trim_space cut_prefix trim_prefix cut_before
    split_on split drop_last push push_all join strip_slashes last_of base path_base is_not_exist
    is_unsupported lookup insert delete parse_digits non_negative non_positive parse_unsigned
    parse_int decimal format_nat format_int matches is_pci_address read_sysfs_value
    read_sysfs_link_base stat_failed_with_not_exist pci_entry_removed vendor_matches
    is_rebellions_pci or_unbound read_pci_driver first_root resolve_pcie_root_id is_vf is_hosting_pf
    partition_mode device_name checked_num_vfs read_sriov_num_vfs probe_vf probe_pf probe_layout
    probe_sriov string_of int_of string_value_at or_empty device_string_attr device_int_attr
    checked_bus_id device_pci_bus_id is_vfio_type is_vfio_device set_numa_node set_numa_node_attr
    set_pcie_root set_pcie_root_attr set_parent set_attributes enumerate dash replace_separators
    vfio_device_name checked_group is_exclusive set_product_name set_device_id set_numa
    device_iommu_group_from_sysfs isolated_group isolated_iommu_group vfio_device vfio_group
    vfio_layout vfio_class vfio_round enumerate_vfio_devices npu_device npu_layout npu_present
    npu_round npu_devices_from_inventory enumerate_npu_devices hosts_no_vfs is_native_candidate
    count_candidates count_native_candidates index_onto index rebuild_resources add_known
    known_functions is_none added_names differs changed_names device_name_delta fail_with bus_of
    has_duplicate newly_skipped log_skipped read_sysfs swap check_and_swap after_inventory
    after_sysfs rescan_devices observe_scan_duration is_set publish scan_tick run_device_scan
node_facts = record {
  fails = refl;
  succeeds = refl;
  changes = refl;
  publishes = inl refl;
  lists = refl;
  unreadable_tree = refl;
  enumerates = refl;
  enumerates_native = refl;
  may_be_passed_through = record {
    vendor = codes "0x1eff";
    address = refl;
    vendor_read = refl;
    vendor_is_rbln = refl;
    driver = refl;
    class = refl;
    layout = refl;
    endpoint = refl;
    isolated = refl;
  };
  validates_native = refl;
  same_names = refl;
  probes = refl;
  reports = refl;
  is_reported = refl;
  recovers = refl;
}
