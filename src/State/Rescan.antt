-- ===== src/State/Rescan.antt =====
-- `RescanDevices` of scan.go.
use rbln_k8s_dra_driver.Base.{
  ℕ, ltb, Bool, true, false, ◌&&◌, ◌||◌, not, List, [], ◌∷◌, ◌++◌, Result, ok, err, ◌>>=◌, Option,
  none, some, if◌then◌else◌,
}
use rbln_k8s_dra_driver.Go.Text.{Text, contains}
use rbln_k8s_dra_driver.Go.Strings.{to_lower, equal_fold}
use rbln_k8s_dra_driver.Go.FilePath.{FilePath}
use rbln_k8s_dra_driver.Go.Errors.{Error, message}
use rbln_k8s_dra_driver.Pci.Sysfs.{Sysfs}
use rbln_k8s_dra_driver.Device.Defs.{Device, device_string_attr, pci_bus_id_key}
use rbln_k8s_dra_driver.Device.Enumeration.{SkippedDevice, Enumeration}
use rbln_k8s_dra_driver.Vfio.Defs.{enumerate_vfio_devices}
use rbln_k8s_dra_driver.Native.Defs.{
  InventoryDevice, enumerate_npu_devices, count_native_candidates,
}
use rbln_k8s_dra_driver.State.Defs.{
  DeviceState, DriverResources, rebuild_resources, known_functions,
}
use rbln_k8s_dra_driver.State.Delta.{DeepEqual, Delta, device_name_delta}

-- What one scan reads. The tree may change between the three walks over sysfs, so each has answers
-- of its own; the inventory is what rbln-smi prints, if it is run.
pub record Reads : Type 0 where
  pub root : FilePath
  pub vfio_sysfs : Sysfs
  pub candidate_sysfs : Sysfs
  pub npu_sysfs : Sysfs
  pub inventory : Result Error (List InventoryDevice)

-- The records above debug level.
pub data LogRecord : Type 0 where
  scan_failed scan_recovered npu_failed npu_recovered inconsistent_scan : LogRecord
  inventory_changed : Delta → LogRecord
  device_skipped : SkippedDevice → LogRecord

-- The new state, the three results and the log.
pub record Outcome : Type 0 where
  pub state : DeviceState
  pub resources : DriverResources
  pub changed : Bool
  pub error : Option Error
  pub log : List LogRecord

-- `return s.DriverResources(), false, err`
unfoldable pub fail_with : DeviceState → Error → List LogRecord → Outcome
fail_with s e log = record {
  state = s;
  resources = s.driver_resources;
  changed = false;
  error = some e;
  log = log;
}

unfoldable pub bus_of : Device → Text
bus_of d = to_lower (device_string_attr d pci_bus_id_key)

-- The loop over `seen`: whether an address appears twice.
unfoldable pub has_duplicate : List Text → List Device → Bool
has_duplicate seen [] = false
has_duplicate seen (d ∷ devices) =
    let rest = has_duplicate (bus_of d ∷ seen) devices in
    if contains seen (bus_of d) then true else rest

-- Whether one of the previous devices was removed and has the address of the skipped one.
unfoldable pub newly_skipped : Delta → List Device → SkippedDevice → Bool
newly_skipped delta [] d = false
newly_skipped delta (previous ∷ devices) d =
    (contains delta.removed previous.name
      && equal_fold (device_string_attr previous pci_bus_id_key) d.pci_bus_id)
    || newly_skipped delta devices d

unfoldable pub log_skipped : Delta → List Device → List SkippedDevice → List LogRecord
log_skipped delta previous [] = []
log_skipped delta previous (d ∷ skipped) =
    let rest = log_skipped delta previous skipped in
    if newly_skipped delta previous d then device_skipped d ∷ rest else rest

abbrev pub with_npu_failing : DeviceState → Bool → DeviceState
with_npu_failing s b = record s { scan = record (s.scan) { npu_failing = b } }

abbrev pub with_sysfs_failing : DeviceState → Bool → DeviceState
with_sysfs_failing s b = record s { scan = record (s.scan) { sysfs_failing = b } }

-- The two walks over sysfs; the second is made only if the first succeeds.
unfoldable pub read_sysfs : Reads → List Text → Result Error (Enumeration × ℕ)
read_sysfs r known = do
  vfio ← enumerate_vfio_devices r.vfio_sysfs r.root known
  candidates ← count_native_candidates r.candidate_sysfs r.root known
  ok (vfio, candidates)

module _ (eq : DeepEqual) where
  -- The part under the lock.
  unfoldable pub swap : DeviceState → Enumeration → Enumeration → List LogRecord → Outcome
  swap s (npu_devices, npu_skipped) (vfio_devices, vfio_skipped) log =
      let prev = s.npu_devices ++ s.vfio_devices in
      let delta = device_name_delta eq prev (npu_devices ++ vfio_devices) in
      let next =
        rebuild_resources (record s { npu_devices = npu_devices; vfio_devices = vfio_devices }) in
      if not (eq.same_devices npu_devices s.npu_devices)
        || not (eq.same_devices vfio_devices s.vfio_devices)
      then record {
        state = next;
        resources = next.driver_resources;
        changed = true;
        error = none;
        log =
            log ++ (inventory_changed delta ∷ log_skipped delta prev (npu_skipped ++ vfio_skipped));
      }
      else record {
        state = s;
        resources = s.driver_resources;
        changed = false;
        error = none;
        log = log;
      }

  -- The test for functions that are in both results.
  unfoldable pub check_and_swap : DeviceState → Enumeration → Enumeration → List LogRecord → Outcome
  unfolding has_duplicate
  check_and_swap s npu vfio log =
      if has_duplicate [] (npu.0 ++ vfio.0)
      then fail_with s (message "PCI function appeared in both discovery results")
          (log ++ (inconsistent_scan ∷ []))
      else swap s npu vfio log

  -- After the query of the native inventory.
  unfoldable pub after_inventory :
      DeviceState → Result Error Enumeration → Enumeration → List LogRecord → Outcome
  after_inventory s (err e) vfio log =
      fail_with (with_npu_failing s true) e
        (if s.scan.npu_failing then log else log ++ (npu_failed ∷ []))
  after_inventory s (ok npu) vfio log =
      check_and_swap (with_npu_failing s false) npu vfio
        (if s.scan.npu_failing then log ++ (npu_recovered ∷ []) else log)

  -- After the two walks over sysfs: the passthrough devices and the number of candidates.
  unfoldable pub after_sysfs : Reads → DeviceState → Result Error (Enumeration × ℕ) → Outcome
  after_sysfs r s (err e) =
      fail_with (with_sysfs_failing s true) e
        (if s.scan.sysfs_failing then [] else scan_failed ∷ [])
  after_sysfs r s (ok (vfio, candidates)) =
      let log = if s.scan.sysfs_failing then scan_recovered ∷ [] else [] in
      let s' = with_sysfs_failing s false in
      if ltb 0 candidates
      then after_inventory s' (enumerate_npu_devices r.npu_sysfs r.root r.inventory) vfio log
      else check_and_swap (with_npu_failing s' false) ([], []) vfio log

  -- `RescanDevices`
  unfoldable pub rescan_devices : Reads → DeviceState → Outcome
  unfolding read_sysfs after_sysfs after_inventory check_and_swap swap fail_with
  rescan_devices r s = after_sysfs r s (read_sysfs r (known_functions s.allocatable))
