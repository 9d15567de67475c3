-- ===== src/Startup/Logs.antt =====
-- What `NewDeviceState` of cmd/npu-kubelet-plugin/state.go logs above debug level.
use rbln_k8s_dra_driver.Base.{
  ◌&&◌, List, [], ◌∷◌, ◌++◌, Bool, true, false, Result, ok, err, if◌then◌else◌,
}
use rbln_k8s_dra_driver.Go.Errors.{Error}
use rbln_k8s_dra_driver.Device.Defs.{Device}
use rbln_k8s_dra_driver.Device.Enumeration.{Enumeration}
use rbln_k8s_dra_driver.Device.Skipped.{SkipRecord, log_skipped_devices}
use rbln_k8s_dra_driver.Vfio.Defs.{enumerate_vfio_devices}
use rbln_k8s_dra_driver.Native.Defs.{count_native_candidates}
use rbln_k8s_dra_driver.State.Rescan.{Reads}
use rbln_k8s_dra_driver.Startup.{or_no_devices, needs_inventory, startup_npu_devices}

pub data StartupRecord : Type 0 where
  vfio_failed npu_failed : Error → StartupRecord
  no_native_candidate no_npu_devices : StartupRecord
  not_published : SkipRecord → StartupRecord

unfoldable pub failure_record :
    (Error → StartupRecord) → Result Error Enumeration → List StartupRecord
failure_record failed (ok e) = []
failure_record failed (err e) = failed e ∷ []

abbrev pub is_nil : List Device → Bool
is_nil [] = true
is_nil (d ∷ devices) = false

unfoldable pub skip_records : List SkipRecord → List StartupRecord
skip_records [] = []
skip_records (r ∷ records) = not_published r ∷ skip_records records

-- The records in the order in which they are made.
unfoldable pub startup_log : Reads → List StartupRecord
unfolding failure_record skip_records
startup_log r =
    let vfio = enumerate_vfio_devices r.vfio_sysfs r.root [] in
    let npu = startup_npu_devices r in
    failure_record vfio_failed vfio
    ++ ((if needs_inventory (count_native_candidates r.candidate_sysfs r.root [])
          then []
          else no_native_candidate ∷ [])
        ++ (failure_record npu_failed npu
            ++ ((if is_nil (or_no_devices npu).0 && is_nil (or_no_devices vfio).0
                  then no_npu_devices ∷ []
                  else [])
                ++ skip_records
                    (log_skipped_devices ((or_no_devices npu).1 ++ (or_no_devices vfio).1)))))
