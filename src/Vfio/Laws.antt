-- ===== src/Vfio/Laws.antt =====
-- What `enumerateVfioDevices` publishes.
use rbln_k8s_dra_driver.Base.{
  ◌≡◌, refl, sym, ◌∙◌, true, false, List, Result, ok, err, ℤ, arith, Member, ◌↔◌, inl, inr,
  Result-cases,
}
use rbln_k8s_dra_driver.Go.Text.{Text, codes, text_eq_iff, text_eq_refl}
use rbln_k8s_dra_driver.Go.Strings.{equal_fold}
use rbln_k8s_dra_driver.Go.FilePath.{FilePath, join}
use rbln_k8s_dra_driver.Go.Errors.{Error}
use rbln_k8s_dra_driver.Pci.Address.{is_pci_address}
use rbln_k8s_dra_driver.Pci.Sysfs.{Sysfs}
use rbln_k8s_dra_driver.Pci.Readers.{
  read_sysfs_value, is_rebellions_pci, read_pci_driver, rbln_pci_vendor_id,
}
use rbln_k8s_dra_driver.Sriov.{SriovInfo, is_hosting_pf, probe_sriov}
use rbln_k8s_dra_driver.Device.Defs.{Device}
use rbln_k8s_dra_driver.Device.Enumeration.{
  published, Enumeration, enumerate, enumerate_sound, enumerate_complete,
}
use rbln_k8s_dra_driver.Vfio.Defs.{
  npu_pci_class_id, vfio_pci_driver_name, isolated_iommu_group, vfio_device, vfio_group,
  vfio_layout, vfio_class, vfio_round, enumerate_vfio_devices,
}

-- A PCI function that may be handed to a virtual machine, as sysfs shows it: a Rebellions NPU under
-- vfio-pci, no PF that hosts VFs, alone in its IOMMU group.
pub record IsPassthrough (fs : Sysfs) (root : FilePath) (bus_id : Text) (sriov : SriovInfo)
    (group : ℤ) : Type 0 where
  pub vendor : Text
  pub address : is_pci_address bus_id ≡ true
  pub vendor_read : read_sysfs_value fs (join root bus_id) (codes "vendor") ≡ ok vendor
  pub vendor_is_rbln : equal_fold vendor rbln_pci_vendor_id ≡ true
  pub driver : read_pci_driver fs (join root bus_id) ≡ ok vfio_pci_driver_name
  pub class : read_sysfs_value fs (join root bus_id) (codes "class") ≡ ok npu_pci_class_id
  pub layout : probe_sriov fs root bus_id ≡ ok sriov
  pub endpoint : is_hosting_pf sriov ≡ false
  pub isolated : isolated_iommu_group fs (join root bus_id) bus_id ≡ ok group

module _ (fs : Sysfs) (root : FilePath) (known : List Text) where
  is_rebellions_pci-eq-true :
      (dev_path : FilePath)
      → is_rebellions_pci fs dev_path known ≡ ok true
      → (vendor : Text) × (read_sysfs_value fs dev_path (codes "vendor") ≡ ok vendor)
        × (equal_fold vendor rbln_pci_vendor_id ≡ true)
  unfolding is_rebellions_pci
  is_rebellions_pci-eq-true dev_path h =
      elim (Result-cases (read_sysfs_value fs dev_path (codes "vendor"))) [
        | inl (v, r) ↦ (v, r, ground arith)
        | inr (e, r) ↦ absurd (ground arith)
      ]

  vfio_layout-eq-published :
      (bus_id : Text) (dev_path : FilePath) (r : Result Error SriovInfo) (d : Device)
      → vfio_layout fs root bus_id dev_path r ≡ ok (published d)
      → (s : SriovInfo) × (group : ℤ) × (r ≡ ok s)
        × (is_hosting_pf s ≡ false)
        × (isolated_iommu_group fs dev_path bus_id ≡ ok group)
        × (vfio_device fs root bus_id dev_path s group ≡ d)
  unfolding vfio_layout vfio_group
  vfio_layout-eq-published bus_id dev_path (err e) d h = absurd (ground arith)
  vfio_layout-eq-published bus_id dev_path (ok s) d h =
      elim (Result-cases (isolated_iommu_group fs dev_path bus_id)) [
        | inl (group, r) ↦ (s, group, refl, ground arith, r, ground arith)
        | inr (e, r) ↦ absurd (ground arith)
      ]

  vfio_class-eq-published :
      (bus_id : Text) (dev_path : FilePath) (r : Result Error Text) (d : Device)
      → vfio_class fs root bus_id dev_path r ≡ ok (published d)
      → (r ≡ ok npu_pci_class_id)
        × (vfio_layout fs root bus_id dev_path (probe_sriov fs root bus_id) ≡ ok (published d))
  unfolding vfio_class
  vfio_class-eq-published bus_id dev_path (ok class) d h =
      ground (arith, text_eq_iff class npu_pci_class_id)
  vfio_class-eq-published bus_id dev_path (err e) d h = absurd (ground arith)

  -- What a round that publishes has read.
  vfio_round_reads :
      (bus_id : Text) (d : Device)
      → vfio_round fs root known bus_id ≡ ok (published d)
      → (is_pci_address bus_id ≡ true)
        × (is_rebellions_pci fs (join root bus_id) known ≡ ok true)
        × (read_pci_driver fs (join root bus_id) ≡ ok vfio_pci_driver_name)
        × (vfio_class fs root bus_id
              (join root bus_id)
              (read_sysfs_value fs (join root bus_id) (codes "class"))
            ≡ ok (published d))
  unfolding vfio_round
  vfio_round_reads bus_id d h =
      elim (Result-cases (is_rebellions_pci fs (join root bus_id) known)) [
        | inr (e, r) ↦ absurd (ground arith)
        | inl (matches, r) ↦ elim (Result-cases (read_pci_driver fs (join root bus_id))) [
          | inr (e, q) ↦ absurd (ground arith)
          | inl (driver, q) ↦ ground (arith, text_eq_iff driver vfio_pci_driver_name)
        ]
      ]

  -- A round that publishes has seen a function that may be passed through.
  pub vfio_round-eq-published :
      (bus_id : Text) (d : Device)
      → vfio_round fs root known bus_id ≡ ok (published d)
      → (s : SriovInfo) × (group : ℤ) × IsPassthrough fs root bus_id s group
        × (vfio_device fs root bus_id (join root bus_id) s group ≡ d)
  vfio_round-eq-published bus_id d h =
      let dev_path = join root bus_id in
      let (address, rbln, driver, more) = vfio_round_reads bus_id d h in
      let (class, rest) = vfio_class-eq-published bus_id dev_path _ d more in
      let (s, group, layout, endpoint, isolated, same) =
        vfio_layout-eq-published bus_id dev_path _ d rest in
      let (vendor, vendor_read, vendor_is_rbln) = is_rebellions_pci-eq-true dev_path rbln in
      (
        s,
        group,
        record {
          vendor = vendor;
          address = address;
          vendor_read = vendor_read;
          vendor_is_rbln = vendor_is_rbln;
          driver = driver;
          class = class;
          layout = layout;
          endpoint = endpoint;
          isolated = isolated;
        },
        same,
      )

  -- Such a function is published.
  pub vfio_round_lem :
      (bus_id : Text) (s : SriovInfo) (group : ℤ)
      → IsPassthrough fs root bus_id s group
      → vfio_round fs root known bus_id
        ≡ ok (published (vfio_device fs root bus_id (join root bus_id) s group))
  unfolding vfio_round is_rebellions_pci
  vfio_round_lem bus_id s group p = ground (
    arith,
    p.address,
    p.vendor_read,
    p.vendor_is_rbln,
    p.driver,
    p.class,
    p.layout,
    p.endpoint,
    p.isolated,
    text_eq_refl vfio_pci_driver_name,
    text_eq_refl npu_pci_class_id,
  )

  enumerate_vfio_devices-eq-enumerate :
      (names : List Text)
      → fs.read_dir root ≡ ok names
      → enumerate_vfio_devices fs root known ≡ enumerate (vfio_round fs root known) names
  unfolding enumerate_vfio_devices
  enumerate_vfio_devices-eq-enumerate names listed = rw listed

-- `d` describes a listed function that may be passed through.
abbrev pub DescribesPassthrough : Sysfs → FilePath → List Text → Device → Type 0
DescribesPassthrough fs root names d =
    (bus_id : Text) × (s : SriovInfo) × (group : ℤ) × Member bus_id names
    × IsPassthrough fs root bus_id s group
    × (vfio_device fs root bus_id (join root bus_id) s group ≡ d)

-- A successful enumeration publishes exactly the functions that are listed and may be passed
-- through: each device describes such a function, and each such function has its device.
pub enumerate_vfio_devices_lem :
    (fs : Sysfs) (root : FilePath) (known : List Text) (names : List Text) (e : Enumeration)
    (d : Device)
    → fs.read_dir root ≡ ok names
    → enumerate_vfio_devices fs root known ≡ ok e
    → Member d e.0 ↔ DescribesPassthrough fs root names d
enumerate_vfio_devices_lem fs root known names e d listed h = (sound, complete)
  where
    run : enumerate (vfio_round fs root known) names ≡ ok e
    run = sym (enumerate_vfio_devices-eq-enumerate fs root known names listed) ∙ h

    sound : Member d e.0 → DescribesPassthrough fs root names d
    sound m =
        let (bus_id, at, r) = enumerate_sound (vfio_round fs root known) names e d run m in
        let (s, group, p, same) = vfio_round-eq-published fs root known bus_id d r in
        (bus_id, s, group, at, p, same)

    complete : DescribesPassthrough fs root names d → Member d e.0
    complete (bus_id, s, group, at, p, same) =
        enumerate_complete (vfio_round fs root known) names e d bus_id run at
          (rw (vfio_round_lem fs root known bus_id s group p, same))
