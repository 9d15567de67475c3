-- ===== src/Native/Laws.antt =====
-- Which inventory entries `npuDevicesFromInventory` of cmd/npu-kubelet-plugin/state.go publishes.
use rbln_k8s_dra_driver.Base.{
  ◌≡◌, refl, ◌↔◌, false, List, Result, ok, err, arith, inl, inr, Result-cases, Member,
}
use rbln_k8s_dra_driver.Go.Text.{text_eq_iff, text_eq_refl}
use rbln_k8s_dra_driver.Go.Strings.{to_lower}
use rbln_k8s_dra_driver.Go.FilePath.{FilePath, join}
use rbln_k8s_dra_driver.Go.Errors.{OsError, not_exist, errno, Error}
use rbln_k8s_dra_driver.Pci.Sysfs.{Sysfs}
use rbln_k8s_dra_driver.Pci.Readers.{read_pci_driver, native_pci_driver_name}
use rbln_k8s_dra_driver.Sriov.{SriovInfo, is_hosting_pf, probe_sriov}
use rbln_k8s_dra_driver.Device.Defs.{Device}
use rbln_k8s_dra_driver.Device.Enumeration.{
  published, Enumeration, enumerate, enumerate_sound, enumerate_complete,
}
use rbln_k8s_dra_driver.Native.Defs.{
  InventoryDevice, npu_device, npu_layout, npu_present, npu_round, npu_devices_from_inventory,
  enumerate_npu_devices,
}

-- A function that is there, is bound to the native driver, has this layout, and hosts no VFs.
pub record IsNative (fs : Sysfs) (root : FilePath) (x : InventoryDevice) (sriov : SriovInfo)
    : Type 0 where
  pub present : fs.stat (join root (to_lower x.pci_bus_id)) ≡ ok tt
  pub driver : read_pci_driver fs (join root (to_lower x.pci_bus_id)) ≡ ok native_pci_driver_name
  pub layout : probe_sriov fs root x.pci_bus_id ≡ ok sriov
  pub endpoint : is_hosting_pf sriov ≡ false

module _ (fs : Sysfs) (root : FilePath) where
  npu_layout-eq-published :
      (x : InventoryDevice) (r : Result Error SriovInfo) (d : Device)
      → npu_layout fs root x r ≡ ok (published d)
      → (sriov : SriovInfo) × (r ≡ ok sriov)
        × (is_hosting_pf sriov ≡ false)
        × (npu_device fs root x sriov ≡ d)
  unfolding npu_layout
  npu_layout-eq-published x (err e) d h = absurd (ground arith)
  npu_layout-eq-published x (ok sriov) d h = (sriov, refl, ground arith, ground arith)

  npu_present-eq-published :
      (x : InventoryDevice) (dev_path : FilePath) (r : Result OsError (Unit {0})) (d : Device)
      → npu_present fs root x dev_path r ≡ ok (published d)
      → (r ≡ ok tt)
        × (read_pci_driver fs dev_path ≡ ok native_pci_driver_name)
        × (npu_layout fs root x (probe_sriov fs root x.pci_bus_id) ≡ ok (published d))
  unfolding npu_present
  npu_present-eq-published x dev_path (err not_exist) d h = absurd (ground arith)
  npu_present-eq-published x dev_path (err (errno n)) d h = absurd (ground arith)
  npu_present-eq-published x dev_path (ok u) d h =
      elim (Result-cases (read_pci_driver fs dev_path)) [
        | inr (e, q) ↦ absurd (ground arith)
        | inl (driver, q) ↦ ground (arith, text_eq_iff driver native_pci_driver_name)
      ]

  npu_round-eq-published :
      (x : InventoryDevice) (d : Device)
      → npu_round fs root x ≡ ok (published d)
      → (sriov : SriovInfo) × IsNative fs root x sriov × (npu_device fs root x sriov ≡ d)
  unfolding npu_round
  npu_round-eq-published x d h =
      let (present, driver, more) = npu_present-eq-published x _ _ d h in
      let (sriov, layout, endpoint, same) = npu_layout-eq-published x _ d more in
      (
        sriov,
        record { present = present; driver = driver; layout = layout; endpoint = endpoint },
        same,
      )

  npu_round_lem :
      (x : InventoryDevice) (sriov : SriovInfo)
      → IsNative fs root x sriov
      → npu_round fs root x ≡ ok (published (npu_device fs root x sriov))
  unfolding npu_round npu_present npu_layout
  npu_round_lem x sriov n =
      ground (arith, n.present, n.driver, n.layout, n.endpoint, text_eq_refl native_pci_driver_name)

-- `d` describes an entry of the inventory that is a native device.
abbrev pub DescribesNative : Sysfs → FilePath → List InventoryDevice → Device → Type 0
DescribesNative fs root devs d =
    (x : InventoryDevice) × (sriov : SriovInfo) × Member x devs
    × IsNative fs root x sriov
    × (npu_device fs root x sriov ≡ d)

-- A successful enumeration of the inventory publishes exactly the entries whose function is there,
-- is bound to the native driver, has an SR-IOV layout that `probeSRIOV` accepts, and hosts no VFs:
-- each device describes such an entry with that layout, and each such entry has its device.
pub enumerate_npu_devices_lem :
    (fs : Sysfs) (root : FilePath) (devs : List InventoryDevice) (e : Enumeration) (d : Device)
    → enumerate_npu_devices fs root (ok devs) ≡ ok e
    → Member d e.0 ↔ DescribesNative fs root devs d
unfolding enumerate_npu_devices npu_devices_from_inventory
enumerate_npu_devices_lem fs root devs e d h = (sound, complete)
  where
    run : enumerate (npu_round fs root) devs ≡ ok e
    run = h

    sound : Member d e.0 → DescribesNative fs root devs d
    sound m =
        let (x, at, r) = enumerate_sound (npu_round fs root) devs e d run m in
        let (sriov, n, same) = npu_round-eq-published fs root x d r in (x, sriov, at, n, same)

    complete : DescribesNative fs root devs d → Member d e.0
    complete (x, sriov, at, n, same) =
        enumerate_complete (npu_round fs root) devs e d x run at
          (rw (npu_round_lem fs root x sriov n, same))
