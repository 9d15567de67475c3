-- ===== src/State/Streaks.antt =====
-- What a streak of failing scans logs.
use rbln_k8s_dra_driver.Base.{◌≡◌, refl, true, false, List, [], ◌∷◌, ◌++◌, err, if◌then◌else◌}
use rbln_k8s_dra_driver.Go.Errors.{Error}
use rbln_k8s_dra_driver.State.Defs.{DeviceState, known_functions}
use rbln_k8s_dra_driver.State.Delta.{DeepEqual}
use rbln_k8s_dra_driver.State.Rescan.{
  Reads, LogRecord, scan_failed, fail_with, with_sysfs_failing, read_sysfs, rescan_devices,
}

-- Scans one after the other, with all that they log.
unfoldable pub rescan_all : DeepEqual → List Reads → DeviceState → DeviceState × List LogRecord
rescan_all eq [] s = (s, [])
rescan_all eq (r ∷ reads) s =
    let o = rescan_devices eq r s in let (t, log) = rescan_all eq reads o.state in (t, o.log ++ log)

-- Every one of these scans finds sysfs unreadable.
abbrev pub SysfsFails : DeviceState → List Reads → Type 0
SysfsFails s [] = Unit
SysfsFails s (r ∷ reads) =
    ((e : Error) × (read_sysfs r (known_functions s.allocatable) ≡ err e)) × SysfsFails s reads

rescan_devices-sysfs_err :
    (eq : DeepEqual) (r : Reads) (s : DeviceState) (e : Error)
    → read_sysfs r (known_functions s.allocatable) ≡ err e
    → rescan_devices eq r s
      ≡ fail_with
          (with_sysfs_failing s true)
          e
          (if s.scan.sysfs_failing then [] else scan_failed ∷ [])
unfolding rescan_devices
rescan_devices-sysfs_err eq r s e h = rw h

SysfsFails-same :
    (s t : DeviceState) (reads : List Reads)
    → t.allocatable ≡ s.allocatable
    → SysfsFails s reads
    → SysfsFails t reads
SysfsFails-same s t [] same h = tt
SysfsFails-same s t (r ∷ reads) same ((e, p), h) =
    ((e, rw same p), SysfsFails-same s t reads same h)

silent_streak :
    (eq : DeepEqual) (reads : List Reads) (s : DeviceState)
    → s.scan.sysfs_failing ≡ true
    → SysfsFails s reads
    → (rescan_all eq reads s).1 ≡ []
unfolding rescan_all fail_with
silent_streak eq [] s flag h = refl
silent_streak eq (r ∷ reads) s flag ((e, p), h) = rw (rescan_devices-sysfs_err eq r s e p) (
    rw (
      silent_streak eq reads (with_sysfs_failing s true) refl
          (SysfsFails-same s (with_sysfs_failing s true) reads refl h),
      flag,
    ))

-- A streak of scans that find sysfs unreadable, after one that did not, is logged once.
pub rescan_all_logs_once :
    (eq : DeepEqual) (r : Reads) (reads : List Reads) (s : DeviceState)
    → s.scan.sysfs_failing ≡ false
    → SysfsFails s (r ∷ reads)
    → (rescan_all eq (r ∷ reads) s).1 ≡ scan_failed ∷ []
unfolding rescan_all fail_with
rescan_all_logs_once eq r reads s flag ((e, p), h) = rw (rescan_devices-sysfs_err eq r s e p) (
    rw (
      silent_streak eq reads (with_sysfs_failing s true) refl
          (SysfsFails-same s (with_sysfs_failing s true) reads refl h),
      flag,
    ))
