-- ===== src/Driver.antt =====
-- cmd/npu-kubelet-plugin/driver.go: the loop of scans, and the calls of the kubelet. Start has
-- `NewDriver`, `Shutdown` and `HandleError`.
pub mod Slice
pub mod Start
pub mod Freshness
pub mod Requests
use rbln_k8s_dra_driver.Base.{
  ℕ, ltb, ◌≡◌, refl, Bool, true, false, ◌&&◌, ◌||◌, not, List, [], ◌∷◌, Result, ok, err, Option,
  none, some, if◌then◌else◌,
}
use rbln_k8s_dra_driver.Go.Text.{Text}
use rbln_k8s_dra_driver.Go.Errors.{Error}
use rbln_k8s_dra_driver.Go.Maps.{insert, text_key}
use rbln_k8s_dra_driver.Claim.{Claim, DraDevice}
use rbln_k8s_dra_driver.Host.{Host, Action, wrapping}
use rbln_k8s_dra_driver.State.Defs.{DeviceState, DriverResources, ScanStatus}
use rbln_k8s_dra_driver.State.Delta.{DeepEqual}
use rbln_k8s_dra_driver.State.Rescan.{Reads, Outcome, rescan_devices}
use rbln_k8s_dra_driver.Prepare.Devices.{Plugin}
use rbln_k8s_dra_driver.Prepare.Claims.{prepare, unprepare}

-- The two records of `observeScanDuration`.
pub data DurationRecord : Type 0 where
  scan_slow scan_in_time : DurationRecord

abbrev pub with_slow : DeviceState → Bool → DeviceState
with_slow s b = record s { scan = record (s.scan) { slow = b } }

-- `observeScanDuration`, on durations in one unit.
unfoldable pub observe_scan_duration : ℕ → ℕ → DeviceState → DeviceState × List DurationRecord
observe_scan_duration took interval s =
    let slow = ltb interval took in
    (
      with_slow s slow,
      if slow && not s.scan.slow
          then scan_slow ∷ []
          else if not slow && s.scan.slow
          then scan_in_time ∷ []
          else [],
    )

-- The state, and the resources that the helper accepted last.
pub record Driver : Type 0 where
  pub state : DeviceState
  pub slice : DriverResources

-- One tick: what its scan reads, how long it takes, and whether `PublishResources` succeeds.
pub record Tick : Type 0 where
  pub reads : Reads
  pub took : ℕ
  pub accepted : Bool

unfoldable pub is_set : Option Error → Bool
is_set none = false
is_set (some e) = true

-- `if err != nil || !changed { continue }`, and the publication.
unfoldable pub publish : Tick → Outcome → DriverResources → DriverResources
unfolding is_set
publish t o slice =
    if is_set o.error || not o.changed then slice else if t.accepted then o.resources else slice

-- One round of the loop of `runDeviceScan`.
unfoldable pub scan_tick : DeepEqual → ℕ → Tick → Driver → Driver
scan_tick eq interval t d =
    let o = rescan_devices eq t.reads d.state in
    record {
      state = (observe_scan_duration t.took interval o.state).0;
      slice = publish t o d.slice;
    }

-- `runDeviceScan` until the context is done.
unfoldable pub run_device_scan : DeepEqual → ℕ → List Tick → Driver → Driver
run_device_scan eq interval [] d = d
run_device_scan eq interval (t ∷ ticks) d =
    run_device_scan eq interval ticks (scan_tick eq interval t d)

-- `map[types.UID]kubeletplugin.PrepareResult`
abbrev pub PrepareResults : Type 0
PrepareResults = List (Text × Result Error (List DraDevice))

module _ (h : Host) (p : Plugin) where
  -- `prepareResourceClaim`
  unfoldable pub prepare_resource_claim : Claim → Action h.State (List DraDevice)
  prepare_resource_claim claim = wrapping "error preparing devices for claim" (prepare h p claim)

  -- The loop over the claims, from the results so far.
  unfoldable pub prepare_claims_onto :
      PrepareResults → List Claim → h.State → PrepareResults × h.State
  prepare_claims_onto m [] s = (m, s)
  prepare_claims_onto m (claim ∷ claims) s =
      let (r, s') = prepare_resource_claim claim s in
      prepare_claims_onto (insert claim.uid r m) claims s'

  -- `PrepareResourceClaims`
  unfoldable pub prepare_resource_claims : List Claim → h.State → PrepareResults × h.State
  unfolding prepare_claims_onto
  prepare_resource_claims claims s = prepare_claims_onto [] claims s

  -- `unprepareResourceClaim`
  unfoldable pub unprepare_resource_claim : Text → Action h.State (Unit {0})
  unprepare_resource_claim claim_uid =
      wrapping "error unpreparing devices for claim" (unprepare h p claim_uid)

  unfoldable pub unprepare_claims_onto :
      List (Text × Result Error (Unit {0}))
      → List Text
      → h.State
      → List (Text × Result Error (Unit {0})) × h.State
  unprepare_claims_onto m [] s = (m, s)
  unprepare_claims_onto m (claim_uid ∷ claims) s =
      let (r, s') = unprepare_resource_claim claim_uid s in
      unprepare_claims_onto (insert claim_uid r m) claims s'

  -- `UnprepareResourceClaims`
  unfoldable pub unprepare_resource_claims :
      List Text → h.State → List (Text × Result Error (Unit {0})) × h.State
  unfolding unprepare_claims_onto
  unprepare_resource_claims claims s = unprepare_claims_onto [] claims s
