-- ===== src/Startup.antt =====
-- `NewDeviceState` of cmd/npu-kubelet-plugin/state.go: the inventory and the checkpoint at startup.
pub mod Logs
use rbln_k8s_dra_driver.Base.{
  ℕ, ltb, ◌≡◌, refl, Bool, true, false, List, [], Result, ok, err, if◌then◌else◌, arith, inl, inr,
  Result-cases, suc, subst, sym,
}
use rbln_k8s_dra_driver.Go.Text.{Text, codes, contains}
use rbln_k8s_dra_driver.Go.Errors.{Error}
use rbln_k8s_dra_driver.Device.Defs.{Device}
use rbln_k8s_dra_driver.Device.Enumeration.{Enumeration}
use rbln_k8s_dra_driver.Native.Defs.{enumerate_npu_devices, count_native_candidates}
use rbln_k8s_dra_driver.Vfio.Defs.{enumerate_vfio_devices}
use rbln_k8s_dra_driver.State.Defs.{DeviceState, rebuild_resources}
use rbln_k8s_dra_driver.State.Rescan.{Reads}
use rbln_k8s_dra_driver.State.Invariant.{IsIndexed, rebuild_resources-IsIndexed}
use rbln_k8s_dra_driver.Host.{Host, Action, pure, reads, wrapping, ◌>>=◌, ◌>>◌}
use rbln_k8s_dra_driver.Host.Laws.{KeepsCheckpoint}

-- `DriverPluginCheckpointFile`
abbrev pub driver_plugin_checkpoint_file : Text
driver_plugin_checkpoint_file = codes "checkpoint.json"

-- A failed enumeration starts the plugin without devices of its kind.
unfoldable pub or_no_devices : Result Error Enumeration → Enumeration
or_no_devices (ok e) = e
or_no_devices (err e) = ([], [])

-- An unreadable sysfs fails open into the query of rbln-smi.
unfoldable pub needs_inventory : Result Error ℕ → Bool
needs_inventory (ok candidates) = ltb 0 candidates
needs_inventory (err e) = true

unfoldable pub has_failed : Result Error Enumeration → Bool
has_failed (ok e) = false
has_failed (err e) = true

unfoldable pub startup_npu_devices : Reads → Result Error Enumeration
unfolding needs_inventory
startup_npu_devices r =
    if needs_inventory (count_native_candidates r.candidate_sysfs r.root [])
    then enumerate_npu_devices r.npu_sysfs r.root r.inventory
    else ok ([], [])

-- The state that is built from the two enumerations.
unfoldable pub startup_state : Text → Reads → DeviceState
unfolding startup_npu_devices or_no_devices has_failed
startup_state node_name r =
    let npu = startup_npu_devices r in
    rebuild_resources (record {
      node_name = node_name;
      driver_resources = record { pool = []; devices = [] };
      allocatable = [];
      npu_devices = (or_no_devices npu).0;
      vfio_devices = (or_no_devices (enumerate_vfio_devices r.vfio_sysfs r.root [])).0;
      scan = record { sysfs_failing = false; npu_failing = has_failed npu; slow = false };
    })

module _ (h : Host) where
  unfoldable pub create_unless_listed : DeviceState → Bool → Action h.State DeviceState
  create_unless_listed state true = pure state
  create_unless_listed state false =
      wrapping "unable to sync to checkpoint" (h.create_checkpoint []) >> pure state

  -- `NewDeviceState`, by what the constructors of the CDI handler and of the checkpoint manager and
  -- `ListCheckpoints` give.
  unfoldable pub new_device_state :
      Text
      → Reads
      → Result Error (Unit {0})
      → Result Error (Unit {0})
      → (h.State → Result Error (List Text))
      → Action h.State DeviceState
  unfolding create_unless_listed
  new_device_state node_name r cdi manager list_checkpoints = do
    wrapping "unable to create CDI handler" (reads (λ s. cdi))
    wrapping "unable to create checkpoint manager" (reads (λ s. manager))
    checkpoints ← wrapping "unable to list checkpoints" (reads list_checkpoints)
    create_unless_listed (startup_state node_name r)
        (contains checkpoints driver_plugin_checkpoint_file)

create_unless_listed_lem :
    (h : Host) (k : KeepsCheckpoint h) (state d : DeviceState) (listed : Bool) (s : h.State)
    → (create_unless_listed h state listed s).0 ≡ ok d
    → (d ≡ state)
      × (listed ≡ true → (create_unless_listed h state listed s).1 ≡ s)
      × (listed ≡ false → h.get_checkpoint (create_unless_listed h state listed s).1 ≡ ok [])
unfolding create_unless_listed
create_unless_listed_lem h k state d true s e =
    (ground arith, λ q. refl, λ q. absurd (ground arith))
create_unless_listed_lem h k state d false s e =
    (ground arith, λ q. absurd (ground arith), λ q. grind (arith, k.create-ok))

-- The devices are the ones that the enumeration found, and none where it failed.
abbrev pub Finds : Result Error Enumeration → List Device → Type 0
Finds result devices =
    ((e : Enumeration) → result ≡ ok e → devices ≡ e.0)
    × ((x : Error) → result ≡ err x → devices ≡ [])

-- The devices of both kinds: the inventory is enumerated unless sysfs showed that it has none.
abbrev pub HasFound : Reads → DeviceState → Type 0
HasFound r d =
    let candidates = count_native_candidates r.candidate_sysfs r.root [] in
    let native = enumerate_npu_devices r.npu_sysfs r.root r.inventory in
    Finds (enumerate_vfio_devices r.vfio_sysfs r.root []) d.vfio_devices
    × (candidates ≡ ok 0 → d.npu_devices ≡ [])
    × ((n : ℕ) → candidates ≡ ok (suc n) → Finds native d.npu_devices)
    × ((x : Error) → candidates ≡ err x → Finds native d.npu_devices)

positive : (n : ℕ) → ltb 0 (suc n) ≡ true
positive n = ground arith

startup_state-HasFound : (node_name : Text) (r : Reads) → HasFound r (startup_state node_name r)
unfolding startup_state or_no_devices startup_npu_devices needs_inventory rebuild_resources
startup_state-HasFound node_name r = (
  (λ e q. rw q refl, λ x q. rw q refl),
  λ none_there. rw none_there refl,
  λ n some_there.
      (λ e q. rw (some_there, q, positive n) refl, λ x q. rw (some_there, q, positive n) refl),
  λ y unknown. (λ e q. rw (unknown, q) refl, λ x q. rw (unknown, q) refl),
)

-- Where the checkpoint is kept as documented, a startup that succeeds has the passthrough devices
-- and the native devices that it found, none of a kind whose enumeration failed, and no native ones
-- where sysfs showed no candidate, whatever rbln-smi reports. Its map and its pool are those of
-- these devices, under its node name. It has read the list of checkpoints, left the node alone if
-- the plugin's checkpoint was listed, and created one without claims if it was not.
pub new_device_state_lem :
    (h : Host) (k : KeepsCheckpoint h) (node_name : Text) (r : Reads)
    (cdi manager : Result Error (Unit {0})) (list_checkpoints : h.State → Result Error (List Text))
    (s : h.State) (d : DeviceState)
    → (new_device_state h node_name r cdi manager list_checkpoints s).0 ≡ ok d
    → IsIndexed d
      × (d.node_name ≡ node_name)
      × HasFound r d
      × ((listed : List Text) × (list_checkpoints s ≡ ok listed)
          × (contains listed driver_plugin_checkpoint_file ≡ true
              → (new_device_state h node_name r cdi manager list_checkpoints s).1 ≡ s)
          × (contains listed driver_plugin_checkpoint_file ≡ false
              → h.get_checkpoint (new_device_state h node_name r cdi manager list_checkpoints s).1
                ≡ ok []))
unfolding new_device_state
new_device_state_lem h k node_name r (err e) manager list_checkpoints s d q = absurd (ground arith)
new_device_state_lem h k node_name r (ok u) (err e) list_checkpoints s d q = absurd (ground arith)
new_device_state_lem h k node_name r (ok u) (ok v) list_checkpoints s d q =
    elim (Result-cases (list_checkpoints s)) [
      | inr (e, l) ↦ absurd (ground arith)
      | inl (listed, l) ↦
          let (same, kept, created) =
            create_unless_listed_lem h k (startup_state node_name r) d
              (contains listed driver_plugin_checkpoint_file) s (ground arith) in
          (
            rw same (unfold startup_state in (rebuild_resources-IsIndexed _)),
            rw same (unfold startup_state rebuild_resources in refl),
            subst (HasFound r) (sym same) (startup_state-HasFound node_name r),
            (listed, l, λ c. ground (arith, kept c), λ c. ground (arith, created c)),
          )
    ]
