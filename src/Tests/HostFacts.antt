-- ===== src/Tests/HostFacts.antt =====
-- What preparing and unpreparing compute on the host.
use rbln_k8s_dra_driver.Go.Text.{text_eq, contains}
use rbln_k8s_dra_driver.Go.Strings.{
  lower, to_lower, equal_fold, is_space, trim_left, trim_right, trim_space, cut_prefix, trim_prefix,
  cut_before,
}
use rbln_k8s_dra_driver.Go.FilePath.{
  split_on, split, drop_last, push, push_all, join, strip_slashes, last_of, base, path_base,
}
use rbln_k8s_dra_driver.Go.Errors.{is_not_exist, is_unsupported}
use rbln_k8s_dra_driver.Go.Maps.{lookup, insert, delete}
use rbln_k8s_dra_driver.Go.Number.{
  parse_digits, non_negative, non_positive, parse_unsigned, parse_int, decimal, format_nat,
  format_int,
}
use rbln_k8s_dra_driver.Pci.Address.{matches, is_pci_address}
use rbln_k8s_dra_driver.Pci.Readers.{
  read_sysfs_value, read_sysfs_link_base, stat_failed_with_not_exist, pci_entry_removed,
  vendor_matches, is_rebellions_pci, or_unbound, read_pci_driver, first_root, resolve_pcie_root_id,
}
use rbln_k8s_dra_driver.Sriov.{
  is_vf, is_hosting_pf, partition_mode, device_name, checked_num_vfs, read_sriov_num_vfs, probe_vf,
  probe_pf, probe_layout, probe_sriov,
}
use rbln_k8s_dra_driver.Device.Defs.{
  string_of, int_of, string_value_at, or_empty, device_string_attr, device_int_attr, checked_bus_id,
  device_pci_bus_id, is_vfio_type, is_vfio_device, set_numa_node, set_numa_node_attr, set_pcie_root,
  set_pcie_root_attr, set_parent, set_attributes,
}
use rbln_k8s_dra_driver.Device.Enumeration.{enumerate}
use rbln_k8s_dra_driver.Vfio.Defs.{
  dash, replace_separators, vfio_device_name, checked_group, is_exclusive, set_product_name,
  set_device_id, set_numa, device_iommu_group_from_sysfs, isolated_group, isolated_iommu_group,
  vfio_device, vfio_group, vfio_layout, vfio_class, vfio_round, enumerate_vfio_devices,
}
use rbln_k8s_dra_driver.Native.Defs.{
  npu_device, npu_layout, npu_present, npu_round, npu_devices_from_inventory, enumerate_npu_devices,
  hosts_no_vfs, is_native_candidate, count_candidates, count_native_candidates,
}
use rbln_k8s_dra_driver.State.Defs.{
  index_onto, index, rebuild_resources, add_known, known_functions,
}
use rbln_k8s_dra_driver.State.Delta.{
  is_none, added_names, differs, changed_names, device_name_delta,
}
use rbln_k8s_dra_driver.State.Rescan.{
  fail_with, bus_of, has_duplicate, newly_skipped, log_skipped, read_sysfs, swap, check_and_swap,
  after_inventory, after_sysfs, rescan_devices,
}
use rbln_k8s_dra_driver.Claim.{get_devices, get_device_names}
use rbln_k8s_dra_driver.Cdi.{
  vendor, kind, claim_device_name, copy_mounts, copy_hooks, find_edits, runtime_edits, rds_nodes,
  checked_rds_spec, claim_spec_devices, parse_runtime, get_runtime_umd_edits, parse_rds,
  get_rds_device_nodes, create_common_spec_file, create_claim_spec_file, delete_claim_spec_file,
  claim_device_ids, get_claim_devices,
}
use rbln_k8s_dra_driver.Metadata.{
  pod_claim_name_of, template_dirs, kubevirt_metadata_container_dirs, kubevirt_metadata_host_dir,
  kubevirt_metadata_request_name, kubevirt_metadata_file_path, mounts_of, kubevirt_metadata_mounts,
  devices_at, add_device, group_by_request, allocated_results, tmp_path, owner_of, claim_by,
  claim_metadata_ownership, write_request, write_requests, write_kubevirt_metadata, is_owner,
  owned_entry, remove_owned, remove_listed, remove_under, remove_kubevirt_metadata_for_claim,
}
use rbln_k8s_dra_driver.Prepare.Node.{
  poll, poll_result, wait_for_device_node, new_device_node, is_node_name, native_node, apply_config,
  checked_iommu_group, device_iommu_group, vfio_node, vfio_container_edits,
}
use rbln_k8s_dra_driver.Prepare.Devices.{
  device_or_zero, device_at, text_le, insert_sorted, sort, check_result, checked_results,
  npu_bus_ids, or_no_nodes, checked_rsd_path, set_up_group, vfio_edits, native_edits,
  progress_after, prepared_device, prepare_results, prepare_allocated, prepare_claim,
  prepare_devices,
}
use rbln_k8s_dra_driver.Prepare.Claims.{
  is_vfio_entry, any_vfio, claim_has_vfio_device, or_nil, prepared_for, or_roll_back,
  write_metadata, prepare_fresh, prepare_unless, prepare, unprepare_devices, unprepare_known,
  unprepare,
}
use rbln_k8s_dra_driver.Validate.{is_group, same_layout, validate_group, validate_allocated_device}
use rbln_k8s_dra_driver.Base.{◌≡◌, ◌≢◌, refl, arith, [], ◌∷◌, ok, err, none}
use rbln_k8s_dra_driver.Go.Text.{codes, text_eq}
use rbln_k8s_dra_driver.Go.FilePath.{join, path_base, path_eq, is_element, has_no_slash}
use rbln_k8s_dra_driver.Go.Maps.{lookup, text_key}
use rbln_k8s_dra_driver.State.Rescan.{rescan_devices}
use rbln_k8s_dra_driver.Claim.{get_devices, get_device_names, no_edits}
use rbln_k8s_dra_driver.Cdi.{get_claim_devices, claim_spec_devices}
use rbln_k8s_dra_driver.Cdi.Laws.{spec_ids}
use rbln_k8s_dra_driver.Metadata.{
  kubevirt_metadata_host_dir, devices_at, group_by_request, owner_of, write_kubevirt_metadata,
}
use rbln_k8s_dra_driver.Prepare.Devices.{prepare_devices}
use rbln_k8s_dra_driver.Prepare.Claims.{prepare, unprepare, prepared_for}
use rbln_k8s_dra_driver.Prepare.Node.{poll, wait_for_device_node}
use rbln_k8s_dra_driver.Prepare.Edits.{plain_node, qemu_node}
use rbln_k8s_dra_driver.Rsd.{
  is_group_number, checked_group_id, lowered, seen_after, check_members, validate_rsd_membership,
  recreate_validated_rsd_group,
}
use rbln_k8s_dra_driver.Rsd.Sets.{add, to_set}
use rbln_k8s_dra_driver.Rsd.Inventory.{
  is_executable, first_executable, or_look_path, read_grouped_inventory,
}
use rbln_k8s_dra_driver.Rsd.Groups.{to_path, to_paths, rsd_group_fn}
use rbln_k8s_dra_driver.Cdi.Specs.{spec_name}
use rbln_k8s_dra_driver.Tests.Specs.{dash_slash, specs_on, spec_host, full_host, prepared}
use rbln_k8s_dra_driver.Tests.Files.{file_host, before}
use rbln_k8s_dra_driver.Tests.Tree.{tree_host, entries_of, without, grown}
use rbln_k8s_dra_driver.Host.Dirs.{is_under}
use rbln_k8s_dra_driver.Tests.Host.{
  grouped_host, host, plugin, claim, unallocated, native_answer, vfio_answer, not_allocated, after,
  devices, stuck_host, busy,
}

-- What the functions compute on these hosts.
pub record HostFacts : Type 0 where
  pub prepares : (prepare host plugin claim []).0 ≡ ok (native_answer ∷ vfio_answer ∷ [])
  pub refuses : (prepare host plugin unallocated []).0 ≡ err not_allocated
  pub unprepares : (unprepare host plugin claim.uid after).0 ≡ ok tt
  pub gets_stuck : (unprepare stuck_host plugin claim.uid after).0 ≡ err busy
  pub prepares_devices : (prepare_devices host plugin claim []).0 ≡ ok devices
  pub prepares_grouped : (prepare_devices grouped_host plugin claim []).0 ≡ ok devices
  pub configures :
      apply_config host [] plugin.allocatable (codes "rbln0") (codes "dev" ∷ codes "rsd3" ∷ [])
      ≡ ok (record no_edits {
        device_nodes =
            plain_node (codes "dev" ∷ codes "rsd0" ∷ []) (codes "dev" ∷ codes "rsd3" ∷ [])
            ∷ plain_node (codes "dev" ∷ codes "rbln0" ∷ []) (codes "dev" ∷ codes "rbln0" ∷ [])
            ∷ [];
      })
  pub passes_through :
      vfio_container_edits host [] (device_at plugin (codes "vfio-0000-3b-00-0")) []
      ≡ ok (record no_edits {
        device_nodes =
            qemu_node (codes "dev" ∷ codes "vfio" ∷ codes "vfio" ∷ [])
            ∷ qemu_node (codes "dev" ∷ codes "vfio" ∷ codes "12" ∷ [])
            ∷ [];
      })
  pub prepares_specs :
      (prepare spec_host plugin claim ([], [])).0 ≡ ok (native_answer ∷ vfio_answer ∷ [])
  -- On the full host, an `Unprepare` fails after it has deleted the spec, and `Prepare` goes on to
  -- answer from the checkpoint.
  pub answers_without_spec :
      let s = (unprepare full_host plugin claim.uid prepared).1 in
      ((prepare full_host plugin claim s).0 ≡ ok (native_answer ∷ vfio_answer ∷ []))
      × (specs_on (prepare full_host plugin claim s).1 (spec_name full_host plugin.cdi claim.uid)
          ≡ none)
  -- There a `Prepare` fails after it has written the spec, and the `Unprepare` that follows leaves it.
  pub leaves_spec :
      let s = (prepare full_host plugin claim ([], [])).1 in
      ((unprepare full_host plugin claim.uid s).0 ≡ ok tt)
      × (specs_on
            (unprepare full_host plugin claim.uid s).1
            (spec_name full_host plugin.cdi claim.uid)
          ≢ none)
  pub prepares_files :
      (prepare file_host plugin claim before).0 ≡ ok (native_answer ∷ vfio_answer ∷ [])
  pub unprepares_tree : (unprepare tree_host plugin claim.uid grown).0 ≡ ok tt
  pub tree_known : prepared_for grown.claims claim.uid ≢ []

pub host_facts : HostFacts
unfolding dash_slash path_eq entries_of without is_under is_element has_no_slash rsd_group_fn
    to_path to_paths recreate_validated_rsd_group read_grouped_inventory first_executable
    is_executable or_look_path validate_rsd_membership checked_group_id is_group_number lowered
    seen_after check_members add to_set spec_ids text_eq contains lower to_lower equal_fold is_space
    trim_left trim_right trim_space cut_prefix trim_prefix cut_before split_on split drop_last push
    push_all join strip_slashes last_of base path_base is_not_exist is_unsupported lookup insert
    delete parse_digits non_negative non_positive parse_unsigned parse_int decimal format_nat
    format_int matches is_pci_address read_sysfs_value read_sysfs_link_base
    stat_failed_with_not_exist pci_entry_removed vendor_matches is_rebellions_pci or_unbound
    read_pci_driver first_root resolve_pcie_root_id is_vf is_hosting_pf partition_mode device_name
    checked_num_vfs read_sriov_num_vfs probe_vf probe_pf probe_layout probe_sriov string_of int_of
    string_value_at or_empty device_string_attr device_int_attr checked_bus_id device_pci_bus_id
    is_vfio_type is_vfio_device set_numa_node set_numa_node_attr set_pcie_root set_pcie_root_attr
    set_parent set_attributes enumerate dash replace_separators vfio_device_name checked_group
    is_exclusive set_product_name set_device_id set_numa device_iommu_group_from_sysfs
    isolated_group isolated_iommu_group vfio_device vfio_group vfio_layout vfio_class vfio_round
    enumerate_vfio_devices npu_device npu_layout npu_present npu_round npu_devices_from_inventory
    enumerate_npu_devices hosts_no_vfs is_native_candidate count_candidates count_native_candidates
    index_onto index rebuild_resources add_known known_functions is_none added_names differs
    changed_names device_name_delta fail_with bus_of has_duplicate newly_skipped log_skipped
    read_sysfs swap check_and_swap after_inventory after_sysfs rescan_devices get_devices
    get_device_names vendor kind claim_device_name copy_mounts copy_hooks find_edits runtime_edits
    rds_nodes checked_rds_spec claim_spec_devices parse_runtime get_runtime_umd_edits parse_rds
    get_rds_device_nodes create_common_spec_file create_claim_spec_file delete_claim_spec_file
    claim_device_ids get_claim_devices pod_claim_name_of template_dirs
    kubevirt_metadata_container_dirs kubevirt_metadata_host_dir kubevirt_metadata_request_name
    kubevirt_metadata_file_path mounts_of kubevirt_metadata_mounts devices_at add_device
    group_by_request allocated_results tmp_path owner_of claim_by claim_metadata_ownership
    write_request write_requests write_kubevirt_metadata is_owner owned_entry remove_owned
    remove_listed remove_under remove_kubevirt_metadata_for_claim poll poll_result
    wait_for_device_node new_device_node is_node_name native_node apply_config checked_iommu_group
    device_iommu_group vfio_node vfio_container_edits device_or_zero device_at text_le insert_sorted
    sort check_result checked_results npu_bus_ids or_no_nodes checked_rsd_path set_up_group
    vfio_edits native_edits progress_after prepared_device prepare_results prepare_allocated
    prepare_claim prepare_devices is_vfio_entry any_vfio claim_has_vfio_device or_nil prepared_for
    or_roll_back write_metadata prepare_fresh prepare_unless prepare unprepare_devices
    unprepare_known unprepare is_group same_layout validate_group validate_allocated_device
host_facts = record {
  prepares = refl;
  refuses = refl;
  unprepares = refl;
  gets_stuck = refl;
  prepares_devices = refl;
  prepares_grouped = refl;
  configures = refl;
  passes_through = refl;
  prepares_specs = refl;
  answers_without_spec = (refl, refl);
  leaves_spec = (refl, λ e. absurd (ground arith));
  prepares_files = refl;
  unprepares_tree = refl;
  tree_known = λ e. absurd (ground arith);
}
