-- ===== src/State/Invariant.antt =====
-- What every scan keeps, and what it leaves alone when it fails.
use rbln_k8s_dra_driver.Base.{
  ℕ, ◌<◌, ltb, ◌≡◌, refl, true, false, ◌||◌, not, List, [], ◌∷◌, ◌++◌, Result, ok, err, none, some,
  ◌⊎◌, inl, inr, arith, Bool-cases,
}
use rbln_k8s_dra_driver.Go.Text.{Text, contains, text_eq_iff, text_eq_refl}
use rbln_k8s_dra_driver.Go.Errors.{Error}
use rbln_k8s_dra_driver.Device.Defs.{Device}
use rbln_k8s_dra_driver.Device.Enumeration.{Enumeration}
use rbln_k8s_dra_driver.Native.Defs.{enumerate_npu_devices}
use rbln_k8s_dra_driver.State.Defs.{DeviceState, index, rebuild_resources, known_functions}
use rbln_k8s_dra_driver.State.Delta.{DeepEqual}
use rbln_k8s_dra_driver.State.Rescan.{
  Reads, Outcome, LogRecord, fail_with, bus_of, has_duplicate, swap, check_and_swap,
  after_inventory, after_sysfs, read_sysfs, rescan_devices,
}

abbrev pub buses : List Device → List Text
buses [] = []
buses (d ∷ devices) = bus_of d ∷ buses devices

-- No PCI function is published twice.
abbrev pub NodupBuses : List Device → Type 0
NodupBuses [] = Unit
NodupBuses (d ∷ devices) = (contains (buses devices) (bus_of d) ≡ false) × NodupBuses devices

has_duplicate-NodupBuses_onto :
    (seen : List Text) (devices : List Device)
    → has_duplicate seen devices ≡ false
    → NodupBuses devices
      × ((bus : Text) → contains seen bus ≡ true → contains (buses devices) bus ≡ false)
unfolding has_duplicate contains
has_duplicate-NodupBuses_onto seen [] h = (tt, λ bus m. refl)
has_duplicate-NodupBuses_onto seen (d ∷ devices) h =
    let fresh : contains seen (bus_of d) ≡ false = ground arith in
    let more : has_duplicate (bus_of d ∷ seen) devices ≡ false = ground arith in
    let (nodup, apart) = has_duplicate-NodupBuses_onto (bus_of d ∷ seen) devices more in
    (
      (apart (bus_of d) (ground (arith, text_eq_refl (bus_of d))), nodup),
      λ bus m. ground (arith, text_eq_iff (bus_of d) bus, apart bus),
    )

-- The map and the published pool are those of the two lists.
pub record IsIndexed (s : DeviceState) : Type 0 where
  pub indexed : s.allocatable ≡ index (s.npu_devices ++ s.vfio_devices)
  pub published :
      s.driver_resources ≡ record { pool = s.node_name; devices = s.npu_devices ++ s.vfio_devices }

pub record IsWellFormed (s : DeviceState) : Type 0 where
  pub is_indexed : IsIndexed s
  pub nodup : NodupBuses (s.npu_devices ++ s.vfio_devices)

pub rebuild_resources-IsIndexed : (s : DeviceState) → IsIndexed (rebuild_resources s)
unfolding rebuild_resources
rebuild_resources-IsIndexed s = record { indexed = refl; published = refl }

-- What a scan that reports an error leaves alone.
abbrev pub SameInventory : DeviceState → DeviceState → Type 0
SameInventory s t =
    (t.npu_devices ≡ s.npu_devices)
    × (t.vfio_devices ≡ s.vfio_devices)
    × (t.allocatable ≡ s.allocatable)
    × (t.driver_resources ≡ s.driver_resources)
    × (t.node_name ≡ s.node_name)

-- The lists that a complete scan has read: rbln-smi is asked only if there are candidates.
pub data Scanned (r : Reads) (s : DeviceState) (npu vfio : Enumeration) : Type 0 where
  scanned :
      (candidates : ℕ)
      → read_sysfs r (known_functions s.allocatable) ≡ ok (vfio, candidates)
      → ((candidates ≡ 0) × (npu ≡ ([], [])))
        ⊎ ((0 < candidates) × (enumerate_npu_devices r.npu_sysfs r.root r.inventory ≡ ok npu))
      → Scanned r s npu vfio

-- The three ways in which a scan from the state `s` ends.
pub data Ends (eq : DeepEqual) (r : Reads) (s : DeviceState) (o : Outcome) : Type 0 where
  failed :
      (e : Error)
      → SameInventory s o.state
      → o.changed ≡ false
      → o.error ≡ some e
      → o.resources ≡ s.driver_resources
      → Ends eq r s o
  unchanged :
      (npu vfio : Enumeration)
      → Scanned r s npu vfio
      → SameInventory s o.state
      → o.changed ≡ false
      → o.error ≡ none
      → o.resources ≡ s.driver_resources
      → eq.same_devices npu.0 s.npu_devices ≡ true
      → eq.same_devices vfio.0 s.vfio_devices ≡ true
      → Ends eq r s o
  replaced :
      (npu vfio : Enumeration)
      → Scanned r s npu vfio
      → o.state.npu_devices ≡ npu.0
      → o.state.vfio_devices ≡ vfio.0
      → IsIndexed o.state
      → NodupBuses (npu.0 ++ vfio.0)
      → o.changed ≡ true
      → o.error ≡ none
      → o.resources ≡ o.state.driver_resources
      → Ends eq r s o

module _ (eq : DeepEqual) (r : Reads) (s : DeviceState) where
  -- The state on entry to the last steps differs from `s` in the flags of the scan at most.
  swap-Ends :
      (s' : DeviceState) (npu vfio : Enumeration) (log : List LogRecord)
      → SameInventory s s'
      → Scanned r s npu vfio
      → NodupBuses (npu.0 ++ vfio.0)
      → Ends eq r s (swap eq s' npu vfio log)
  unfolding swap rebuild_resources
  swap-Ends s' (npu, npu_skipped) (vfio, vfio_skipped) log (n, v, a, d, name) sc h =
      elim (Bool-cases
        (not (eq.same_devices npu s'.npu_devices) || not (eq.same_devices vfio s'.vfio_devices))) [
          | inl b ↦ rw b (
              replaced (npu, npu_skipped) (vfio, vfio_skipped) sc refl refl
                (record { indexed = refl; published = refl }) h refl refl refl)
          | inr b ↦ rw b (
              unchanged (npu, npu_skipped) (vfio, vfio_skipped) sc (n, v, a, d, name) refl refl d
                (ground arith) (ground arith))
        ]

  check_and_swap-Ends :
      (s' : DeviceState) (npu vfio : Enumeration) (log : List LogRecord)
      → SameInventory s s'
      → Scanned r s npu vfio
      → Ends eq r s (check_and_swap eq s' npu vfio log)
  unfolding check_and_swap fail_with
  check_and_swap-Ends s' npu vfio log same sc =
      elim (Bool-cases (has_duplicate [] (npu.0 ++ vfio.0))) [
        | inl b ↦ rw b (failed _ same refl refl (same.3))
        | inr b ↦ rw b (swap-Ends s' npu vfio log same sc (has_duplicate-NodupBuses_onto [] _ b).0)
      ]

  after_inventory-Ends :
      (s' : DeviceState) (npu : Result Error Enumeration) (vfio : Enumeration)
      (log : List LogRecord)
      → SameInventory s s'
      → ((n : Enumeration) → npu ≡ ok n → Scanned r s n vfio)
      → Ends eq r s (after_inventory eq s' npu vfio log)
  unfolding after_inventory fail_with
  after_inventory-Ends s' (err e) vfio log same sc = failed e same refl refl (same.3)
  after_inventory-Ends s' (ok npu) vfio log same sc =
      check_and_swap-Ends _ npu vfio _ same (sc npu refl)

  after_sysfs-Ends :
      (read : Result Error (Enumeration × ℕ))
      → read_sysfs r (known_functions s.allocatable) ≡ read
      → Ends eq r s (after_sysfs eq r s read)
  unfolding after_sysfs fail_with
  after_sysfs-Ends (err e) h = failed e (refl, refl, refl, refl, refl) refl refl refl
  after_sysfs-Ends (ok (vfio, candidates)) h = elim (Bool-cases (ltb 0 candidates)) [
    | inl b ↦ rw b (
        after_inventory-Ends _ _ vfio _ (refl, refl, refl, refl, refl)
          (λ n e. scanned candidates h (inr (ground arith, e))))
    | inr b ↦ rw b (
        check_and_swap-Ends _ ([], []) vfio _ (refl, refl, refl, refl, refl)
          (scanned candidates h (inl (ground arith, refl))))
  ]

  pub rescan_devices-Ends : Ends eq r s (rescan_devices eq r s)
  unfolding rescan_devices
  rescan_devices-Ends = after_sysfs-Ends _ refl
