-- ===== src/State/Scans.antt =====
-- The promises of `RescanDevices`: all or nothing, no function twice.
use rbln_k8s_dra_driver.Base.{
  ℕ, ◌≡◌, ◌∙◌, true, false, List, [], ◌∷◌, ◌++◌, Result, ok, none, some, ◌⊎◌, inl, inr, arith,
  Member, subst, >>=-eq-ok,
}
use rbln_k8s_dra_driver.Go.Text.{Text}
use rbln_k8s_dra_driver.Go.Strings.{to_lower}
use rbln_k8s_dra_driver.Go.Errors.{Error}
use rbln_k8s_dra_driver.Device.Defs.{Device}
use rbln_k8s_dra_driver.Device.Enumeration.{Enumeration}
use rbln_k8s_dra_driver.Native.Defs.{InventoryDevice, count_native_candidates}
use rbln_k8s_dra_driver.Vfio.Defs.{enumerate_vfio_devices}
use rbln_k8s_dra_driver.Vfio.Laws.{enumerate_vfio_devices_lem}
use rbln_k8s_dra_driver.Validate.{validate_allocated_device}
use rbln_k8s_dra_driver.Validate.Laws.{validate_allocated_device-vfio_device}
use rbln_k8s_dra_driver.Pci.Sysfs.{Sysfs}
use rbln_k8s_dra_driver.State.Defs.{DeviceState, known_functions}
use rbln_k8s_dra_driver.State.Delta.{DeepEqual}
use rbln_k8s_dra_driver.State.Rescan.{Reads, Outcome, read_sysfs, rescan_devices}
use rbln_k8s_dra_driver.State.Invariant.{
  IsWellFormed, SameInventory, Scanned, scanned, Ends, failed, unchanged, replaced,
  rescan_devices-Ends,
}

module _ (eq : DeepEqual) (r : Reads) (s : DeviceState) where
  kept-IsWellFormed : (t : DeviceState) → SameInventory s t → IsWellFormed s → IsWellFormed t
  kept-IsWellFormed t (n, v, a, d, name) w = record {
    is_indexed = record {
      indexed = rw (n, v, a) (w.is_indexed.indexed);
      published = rw (n, v, d, name) (w.is_indexed.published);
    };
    nodup = rw (n, v) (w.nodup);
  }

  Ends-IsWellFormed : (o : Outcome) → Ends eq r s o → IsWellFormed s → IsWellFormed o.state
  Ends-IsWellFormed o (failed e same _ _ _) w = kept-IsWellFormed o.state same w
  Ends-IsWellFormed o (unchanged npu vfio _ same _ _ _ _ _) w = kept-IsWellFormed o.state same w
  Ends-IsWellFormed o (replaced npu vfio _ n v indexed nodup _ _ _) w = record {
    is_indexed = indexed;
    nodup = rw (n, v) nodup;
  }

  -- Where the map of allocatable devices and the published pool are those of the two device lists,
  -- and no PCI function is published twice, this is so after a scan too, however it ends and whatever
  -- changes under it between its reads.
  pub rescan_devices-IsWellFormed : IsWellFormed s → IsWellFormed (rescan_devices eq r s).state
  rescan_devices-IsWellFormed = Ends-IsWellFormed _ (rescan_devices-Ends eq r s)

  Ends-failure :
      (o : Outcome) (e : Error)
      → Ends eq r s o
      → o.error ≡ some e
      → SameInventory s o.state × (o.changed ≡ false) × (o.resources ≡ s.driver_resources)
  Ends-failure o e (failed _ same c _ d) h = (same, c, d)
  Ends-failure o e (unchanged _ _ _ _ _ none_error _ _ _) h = absurd (cc)
  Ends-failure o e (replaced _ _ _ _ _ _ _ _ none_error _) h = absurd (cc)

  -- A scan that fails, at whichever read, leaves both device lists, the map and the published pool
  -- as they were, and returns the pool as unchanged.
  pub rescan_devices_failure :
      (e : Error)
      → (rescan_devices eq r s).error ≡ some e
      → SameInventory s (rescan_devices eq r s).state
        × ((rescan_devices eq r s).changed ≡ false)
        × ((rescan_devices eq r s).resources ≡ s.driver_resources)
  rescan_devices_failure e = Ends-failure _ e (rescan_devices-Ends eq r s)

  -- What a successful scan that read these lists has done.
  abbrev pub Published : Enumeration → Enumeration → Outcome → Type 0
  Published npu vfio o =
      ((o.changed ≡ true)
        × (o.state.npu_devices ≡ npu.0)
        × (o.state.vfio_devices ≡ vfio.0)
        × (o.resources ≡ record { pool = o.state.node_name; devices = npu.0 ++ vfio.0 }))
      ⊎ ((o.changed ≡ false)
          × SameInventory s o.state
          × (o.resources ≡ s.driver_resources)
          × (eq.same_devices npu.0 s.npu_devices ≡ true)
          × (eq.same_devices vfio.0 s.vfio_devices ≡ true))

  Ends-success :
      (o : Outcome)
      → Ends eq r s o
      → o.error ≡ none
      → (npu : Enumeration) × (vfio : Enumeration) × Scanned r s npu vfio × Published npu vfio o
  Ends-success o (failed e _ _ some_error _) h = absurd (cc)
  Ends-success o (unchanged npu vfio sc same c _ d en ev) h =
      (npu, vfio, sc, inr (c, same, d, en, ev))
  Ends-success o (replaced npu vfio sc n v indexed _ c _ d) h =
      (npu, vfio, sc, inl (c, n, v, d ∙ indexed.published ∙ rw (n, v)))

  -- A scan that succeeds has made every read that it needed, rbln-smi's exactly if sysfs showed a
  -- candidate. It reports a change and publishes exactly the lists that it read, or it reports none,
  -- leaves the inventory alone, and what it read equals the inventory.
  pub rescan_devices_success :
      (rescan_devices eq r s).error ≡ none
      → (npu : Enumeration) × (vfio : Enumeration) × Scanned r s npu vfio
        × Published npu vfio (rescan_devices eq r s)
  rescan_devices_success = Ends-success _ (rescan_devices-Ends eq r s)

-- Without a candidate a scan does not depend on rbln-smi, nor on the sysfs reads of its entries.
pub rescan_devices_no_candidates :
    (eq : DeepEqual) (r : Reads) (s : DeviceState) (vfio : Enumeration)
    (inventory : Result Error (List InventoryDevice)) (npu_sysfs : Sysfs)
    → read_sysfs r (known_functions s.allocatable) ≡ ok (vfio, 0)
    → rescan_devices eq (record r { inventory = inventory; npu_sysfs = npu_sysfs }) s
      ≡ rescan_devices eq r s
unfolding rescan_devices
rescan_devices_no_candidates eq r s vfio inventory npu_sysfs h = rw h

-- Every entry of the directory is spelled in lower case, as the kernel spells it.
abbrev pub LowerCase : List Text → Type 0
LowerCase [] = Unit
LowerCase (name ∷ listed) = (to_lower name ≡ name) × LowerCase listed

LowerCase-Member :
    (listed : List Text) (name : Text)
    → LowerCase listed
    → Member name listed
    → to_lower name ≡ name
LowerCase-Member [] name h m = elim m [ ]
LowerCase-Member (x ∷ listed) name (here, rest) (inl e) = rw e here
LowerCase-Member (x ∷ listed) name (here, rest) (inr m) = LowerCase-Member listed name rest m

read_sysfs-eq-ok :
    (r : Reads) (known : List Text) (vfio : Enumeration) (candidates : ℕ)
    → read_sysfs r known ≡ ok (vfio, candidates)
    → enumerate_vfio_devices r.vfio_sysfs r.root known ≡ ok vfio
unfolding read_sysfs
read_sysfs-eq-ok r known vfio candidates h =
    let (v, hv, more) = >>=-eq-ok (enumerate_vfio_devices r.vfio_sysfs r.root known) _ h in
    let (n, hn, done) = >>=-eq-ok (count_native_candidates r.candidate_sysfs r.root known) _ more in
    grind (arith, hv, done)

-- Where the entries of the directory that the scan listed are spelled in lower case, as the kernel
-- spells them: after a scan that reports a change, every published passthrough device is accepted by
-- the check before preparing, as long as sysfs gives the answers that the scan read.
pub rescan_devices_validates :
    (eq : DeepEqual) (r : Reads) (s : DeviceState) (listed : List Text) (d : Device)
    → (rescan_devices eq r s).changed ≡ true
    → r.vfio_sysfs.read_dir r.root ≡ ok listed
    → LowerCase listed
    → Member d (rescan_devices eq r s).state.vfio_devices
    → validate_allocated_device r.vfio_sysfs r.root d ≡ ok tt
rescan_devices_validates eq r s listed d c dir lower m = go _ (rescan_devices-Ends eq r s) c m
  where
    described :
        (vfio : Enumeration) (candidates : ℕ)
        → read_sysfs r (known_functions s.allocatable) ≡ ok (vfio, candidates)
        → Member d vfio.0
        → validate_allocated_device r.vfio_sysfs r.root d ≡ ok tt
    described vfio candidates h at =
        let (bus_id, sriov, group, at', p, same) =
          (enumerate_vfio_devices_lem r.vfio_sysfs r.root (known_functions s.allocatable) listed
              vfio d dir (read_sysfs-eq-ok r _ vfio candidates h)).0
            at in
        subst (λ x. validate_allocated_device r.vfio_sysfs r.root x ≡ ok tt) same
          (validate_allocated_device-vfio_device r.vfio_sysfs r.root bus_id sriov group p
            (LowerCase-Member listed bus_id lower at'))

    go :
        (o : Outcome)
        → Ends eq r s o
        → o.changed ≡ true
        → Member d o.state.vfio_devices
        → validate_allocated_device r.vfio_sysfs r.root d ≡ ok tt
    go o (failed _ _ same _ _) c m = absurd (cc)
    go o (unchanged _ _ _ _ same _ _ _ _) c m = absurd (cc)
    go o (replaced npu vfio (scanned n h _) _ v _ _ _ _ _) c m =
        described vfio n h (subst (Member d) v m)
