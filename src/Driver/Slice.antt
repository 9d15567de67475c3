-- ===== src/Driver/Slice.antt =====
-- The published resource slice follows the inventory.
use rbln_k8s_dra_driver.Base.{ℕ, ◌≡◌, true, List, [], ◌∷◌, arith}
use rbln_k8s_dra_driver.State.Defs.{DeviceState, DriverResources}
use rbln_k8s_dra_driver.State.Delta.{DeepEqual}
use rbln_k8s_dra_driver.State.Rescan.{Outcome, rescan_devices}
use rbln_k8s_dra_driver.State.Invariant.{Ends, failed, unchanged, replaced, rescan_devices-Ends}
use rbln_k8s_dra_driver.Driver.{
  Driver, Tick, observe_scan_duration, publish, scan_tick, run_device_scan,
}

-- Every publication is accepted.
abbrev pub AllAccepted : List Tick → Type 0
AllAccepted [] = Unit
AllAccepted (t ∷ ticks) = (t.accepted ≡ true) × AllAccepted ticks

pub publish-Ends :
    (eq : DeepEqual) (t : Tick) (s : DeviceState) (o : Outcome) (slice : DriverResources)
    → Ends eq t.reads s o
    → t.accepted ≡ true
    → slice ≡ s.driver_resources
    → publish t o slice ≡ o.state.driver_resources
unfolding publish
publish-Ends eq t s o slice (failed e (n, v, a, d, name) c x r) taken same = ground arith
publish-Ends eq t s o slice (unchanged npu vfio sc (n, v, a, d, name) c x r en ev) taken same =
    ground arith
publish-Ends eq t s o slice (replaced npu vfio sc n v i nd c x r) taken same = ground arith

-- As long as every publication is accepted, the published resources are those of the device state
-- after any number of ticks, whatever the scans read and however they end.
pub run_device_scan_lem :
    (eq : DeepEqual) (interval : ℕ) (ticks : List Tick) (d : Driver)
    → AllAccepted ticks
    → d.slice ≡ d.state.driver_resources
    → let d' = run_device_scan eq interval ticks d in d'.slice ≡ d'.state.driver_resources
unfolding run_device_scan scan_tick observe_scan_duration
run_device_scan_lem eq interval [] d taken same = same
run_device_scan_lem eq interval (t ∷ ticks) d (taken, more) same =
    run_device_scan_lem eq interval ticks (scan_tick eq interval t d) more (
      publish-Ends eq t d.state (rescan_devices eq t.reads d.state) d.slice
        (rescan_devices-Ends eq t.reads d.state) taken same)
