-- ===== src/Prepare/Devices.antt =====
-- `prepareDevices` of state.go.
use rbln_k8s_dra_driver.Base.{
  ℕ, ltb, leb, ◌==◌, ◌≡◌, refl, Bool, true, false, ◌&&◌, ◌||◌, not, List, [], ◌∷◌, ◌++◌, Result, ok,
  err, Option, none, some, if◌then◌else◌, map_err,
}
use rbln_k8s_dra_driver.Base
use rbln_k8s_dra_driver.Go.Text.{Text, text_eq, contains}
use rbln_k8s_dra_driver.Go.FilePath.{FilePath}
use rbln_k8s_dra_driver.Go.Errors.{Error, message, wrap}
use rbln_k8s_dra_driver.Go.Maps.{lookup, text_key}
use rbln_k8s_dra_driver.Pci.Sysfs.{Sysfs}
use rbln_k8s_dra_driver.Device.Defs.{Device, is_vfio_device, device_pci_bus_id}
use rbln_k8s_dra_driver.Validate.{validate_allocated_device}
use rbln_k8s_dra_driver.State.Defs.{AllocatableDevices}
use rbln_k8s_dra_driver.Claim.{
  driver_name, AllocationResult, Claim, DeviceNode, ContainerEdits, PreparedDevice, PreparedDevices,
}
use rbln_k8s_dra_driver.Host.{Host, Action, pure, fail, reads, wrapping, ◌>>=◌, ◌>>◌}
use rbln_k8s_dra_driver.Cdi.{
  CdiHandler, create_common_spec_file, get_rds_device_nodes, get_claim_devices,
}
use rbln_k8s_dra_driver.Metadata.{
  kubevirt_metadata_base_path, kubevirt_metadata_request_name, kubevirt_metadata_mounts,
}
use rbln_k8s_dra_driver.Prepare.Node.{apply_config, vfio_container_edits}

-- What the plugin was started with, and its map of devices.
pub record Plugin : Type 0 where
  pub node_name : Text
  pub cdi : CdiHandler
  pub allocatable : AllocatableDevices
  pub sysfs_root : FilePath

-- `s.allocatable[name]`, whose value is a device without a name or attributes where the name is
-- missing.
unfoldable pub device_or_zero : Option Device → Device
device_or_zero none = record { name = []; attributes = []; memory = none }
device_or_zero (some d) = d

unfoldable pub device_at : Plugin → Text → Device
unfolding device_or_zero
device_at p name = device_or_zero (lookup name p.allocatable)

-- The order of Go strings, which `slices.Sort` follows.
unfoldable pub text_le : Text → Text → Bool
text_le [] t = true
text_le (x ∷ s) [] = false
text_le (x ∷ s) (y ∷ t) = ltb x y || (x == y && text_le s t)

unfoldable pub insert_sorted : Text → List Text → List Text
insert_sorted x [] = x ∷ []
insert_sorted x (y ∷ ys) =
    let rest = insert_sorted x ys in if text_le x y then x ∷ y ∷ ys else y ∷ rest

-- `slices.Sort`
unfoldable pub sort : List Text → List Text
unfolding text_le insert_sorted
sort [] = []
sort (x ∷ xs) = insert_sorted x (sort xs)

module _ (p : Plugin) where
  -- The checks on one result of this driver.
  unfoldable pub check_result : Sysfs → AllocationResult → Option Device → Result Error (Unit {0})
  check_result fs result none = err (message "requested device is not allocatable")
  check_result fs result (some allocated) =
      Base.◌>>◌
        (Base.guard (text_eq result.pool p.node_name)
          (message "allocated pool does not match this node"))
        (map_err (wrap "allocated device is unavailable")
          (validate_allocated_device fs p.sysfs_root allocated))

  -- The first loop: the results of this driver, each of them checked.
  unfoldable pub checked_results :
      Sysfs → List AllocationResult → Result Error (List AllocationResult)
  unfolding check_result
  checked_results fs [] = ok []
  checked_results fs (result ∷ results) =
      let rest = checked_results fs results in
      if text_eq result.driver driver_name
      then Base.◌>>◌ (check_result fs result (lookup result.device p.allocatable))
          (Base.◌>>=◌ rest λ more. ok (result ∷ more))
      else rest

  -- The second loop: the PCI addresses of the native devices.
  unfoldable pub npu_bus_ids : List AllocationResult → Result Error (List Text)
  npu_bus_ids [] = ok []
  npu_bus_ids (result ∷ results) =
      let rest = npu_bus_ids results in
      let device = device_at p result.device in
      if is_vfio_device device
      then rest
      else Base.◌>>=◌ (device_pci_bus_id device)
          λ bus_id. Base.◌>>=◌ rest λ more. ok (bus_id ∷ more)

module _ (h : Host) (p : Plugin) where
  -- A failed read of the RDS spec is logged, and the claim goes on without RDS.
  unfoldable pub or_no_nodes : Result Error (List DeviceNode) → List DeviceNode
  or_no_nodes (ok nodes) = nodes
  or_no_nodes (err e) = []

  unfoldable pub checked_rsd_path : Option FilePath → Action h.State FilePath
  checked_rsd_path none = fail (message "RSD group creation returned no device path")
  checked_rsd_path (some path) = pure path

  -- The group's device node and the RDS nodes; nothing where no device is native.
  unfoldable pub set_up_group : List Text → Action h.State (FilePath × List DeviceNode)
  unfolding checked_rsd_path or_no_nodes
  set_up_group [] = pure ([], [])
  set_up_group (x ∷ bus_ids) = do
    wrapping "create common CDI spec" (create_common_spec_file h p.cdi)
    created ← wrapping "create RSD group" (h.rsd_group (x ∷ bus_ids))
    host_rsd_path ← checked_rsd_path created
    nodes ← reads (λ s. ok (or_no_nodes (get_rds_device_nodes h p.cdi s)))
    pure (host_rsd_path, nodes)

-- `metadataMounted` and `rdsInjected`
pub record Progress : Type 0 where
  pub metadata_mounted : List Text
  pub rds_injected : Bool

module _ (h : Host) (p : Plugin) (s : h.State) (claim : Claim) (host_rsd_path : FilePath)
    (nodes : List DeviceNode) where
  -- The edits for a passthrough device: its request's metadata is mounted on the first of them.
  unfoldable pub vfio_edits : Progress → AllocationResult → Result Error ContainerEdits
  vfio_edits progress result =
      let request_name = kubevirt_metadata_request_name result in
      vfio_container_edits h s (device_at p result.device) (
        if contains progress.metadata_mounted request_name
        then []
        else kubevirt_metadata_mounts kubevirt_metadata_base_path claim request_name)

  -- The edits for a native device: the first of them gets the RDS nodes too.
  unfoldable pub native_edits : Progress → AllocationResult → Result Error ContainerEdits
  native_edits progress result =
      Base.◌>>=◌ (apply_config h s p.allocatable result.device host_rsd_path) λ edits. ok (
        if progress.rds_injected
        then edits
        else record edits { device_nodes = edits.device_nodes ++ nodes })

  unfoldable pub progress_after : Progress → AllocationResult → Progress
  progress_after progress result =
      if is_vfio_device (device_at p result.device)
      then record progress {
        metadata_mounted = kubevirt_metadata_request_name result ∷ progress.metadata_mounted;
      }
      else record progress { rds_injected = true }

  unfoldable pub prepared_device : AllocationResult → ContainerEdits → PreparedDevice
  prepared_device result edits = record {
    request_names = result.request ∷ [];
    pool_name = result.pool;
    device_name = result.device;
    cdi_device_ids =
        get_claim_devices h p.cdi claim.uid (result.device ∷ [])
          (not (is_vfio_device (device_at p result.device)));
    container_edits = edits;
  }

  -- The third loop.
  unfoldable pub prepare_results : Progress → List AllocationResult → Result Error PreparedDevices
  unfolding vfio_edits native_edits progress_after prepared_device
  prepare_results progress [] = ok []
  prepare_results progress (result ∷ results) =
      let rest = prepare_results (progress_after progress result) results in
      Base.◌>>=◌
        (if is_vfio_device (device_at p result.device)
          then vfio_edits progress result
          else native_edits progress result)
        λ edits. Base.◌>>=◌ rest λ more. ok (prepared_device result edits ∷ more)

abbrev pub at_start : Progress
at_start = record { metadata_mounted = []; rds_injected = false }

module _ (h : Host) (p : Plugin) where
  unfoldable pub prepare_allocated : Claim → List AllocationResult → Action h.State PreparedDevices
  prepare_allocated claim allocated = do
    results ← reads (λ s. checked_results p (h.sysfs s) allocated)
    bus_ids ← reads (λ s. npu_bus_ids p results)
    (host_rsd_path, nodes) ← set_up_group h p (sort bus_ids)
    reads (λ s. prepare_results h p s claim host_rsd_path nodes at_start results)

  unfoldable pub prepare_claim :
      Claim → Option (List AllocationResult) → Action h.State PreparedDevices
  prepare_claim claim none = fail (message "claim not yet allocated")
  prepare_claim claim (some allocated) = prepare_allocated claim allocated

  -- `prepareDevices`
  unfoldable pub prepare_devices : Claim → Action h.State PreparedDevices
  prepare_devices claim = prepare_claim claim claim.results
