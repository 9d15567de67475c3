-- ===== src/Validate/Laws.antt =====
-- A device passes the check as long as sysfs shows what the enumeration saw.
use rbln_k8s_dra_driver.Base.{
  ◌≡◌, refl, ◌∙◌, ◌↔◌, guard, guard-eq-ok, >>=-eq-ok, ap, Bool, true, false, [], ◌∷◌, ok, Option,
  none, some, ℤ, int_eq_refl, int_eq_iff, arith, inl, inr, Result-cases,
}
use rbln_k8s_dra_driver.Go.Text.{Text, codes, is_empty, text_eq, text_eq_refl, text_eq_sound}
use rbln_k8s_dra_driver.Go.Strings.{
  to_lower, equal_fold, equal_fold_refl, equal_fold_sound, equal_fold_complete,
}
use rbln_k8s_dra_driver.Go.Errors.{message}
use rbln_k8s_dra_driver.Vfio.Isolation.{IsAlone, isolated_iommu_group-IsAlone}
use rbln_k8s_dra_driver.Go.FilePath.{FilePath, join}
use rbln_k8s_dra_driver.Pci.Address.{is_pci_address}
use rbln_k8s_dra_driver.Pci.Sysfs.{Sysfs}
use rbln_k8s_dra_driver.Pci.Readers.{read_sysfs_value, read_pci_driver, rbln_pci_vendor_id}
use rbln_k8s_dra_driver.Sriov.{SriovInfo, is_hosting_pf, partition_mode, probe_sriov}
use rbln_k8s_dra_driver.Sriov.Laws.{IsSupported, probe_sriov-IsSupported}
use rbln_k8s_dra_driver.Device.Defs.{
  Device, device_string_attr, device_int_attr, device_pci_bus_id, is_vfio_device,
  partition_mode_key, parent_pci_bus_id_key, iommu_group_key,
}
use rbln_k8s_dra_driver.Vfio.Defs.{vfio_pci_driver_name, isolated_iommu_group, vfio_device}
use rbln_k8s_dra_driver.Vfio.Laws.{IsPassthrough}
use rbln_k8s_dra_driver.Vfio.Attributes.{
  device_pci_bus_id-vfio_device, is_vfio_device-vfio_device, device_int_attr-vfio_device,
  partition_mode-vfio_device, parent-vfio_device,
}
use rbln_k8s_dra_driver.Validate.{
  validate_allocated_device, wanted_driver, is_group, validate_group, same_layout,
}

is_pci_address-filled : (s : Text) → is_pci_address s ≡ true → is_empty s ≡ false
unfolding is_pci_address
is_pci_address-filled [] h = cc
is_pci_address-filled (c ∷ s) h = refl

same_layout_sound :
    (d : Device) (s : SriovInfo)
    → same_layout d s ≡ true
    → (is_hosting_pf s ≡ false)
      × (partition_mode s ≡ device_string_attr d partition_mode_key)
      × (to_lower s.parent_pci_bus_id ≡ to_lower (device_string_attr d parent_pci_bus_id_key))
unfolding same_layout
same_layout_sound d s h =
    (ground arith, text_eq_sound _ _ (ground arith), equal_fold_sound _ _ (ground arith))

module _ (fs : Sysfs) (root : FilePath) where
  -- A device that was enumerated for a function that may be passed through is accepted by the check
  -- before preparing, if sysfs still gives the same answers and the kernel lists addresses in lower
  -- case.
  pub validate_allocated_device-vfio_device :
      (bus_id : Text) (s : SriovInfo) (group : ℤ)
      → IsPassthrough fs root bus_id s group
      → to_lower bus_id ≡ bus_id
      → validate_allocated_device fs root (vfio_device fs root bus_id (join root bus_id) s group)
        ≡ ok tt
  unfolding validate_allocated_device
  validate_allocated_device-vfio_device bus_id s group p lower_case =
      let dev_path = join root bus_id in
      let d = vfio_device fs root bus_id dev_path s group in
      ground (
        arith,
        p.address,
        p.vendor_read,
        p.vendor_is_rbln,
        p.driver,
        p.layout,
        p.endpoint,
        p.isolated,
        lower_case,
        device_pci_bus_id-vfio_device fs root bus_id dev_path s group
            (is_pci_address-filled bus_id p.address),
        is_vfio_device-vfio_device fs root bus_id dev_path s group,
        device_int_attr-vfio_device fs root bus_id dev_path s group,
        partition_mode-vfio_device fs root bus_id dev_path s group,
        parent-vfio_device fs root bus_id dev_path s group,
        int_eq_refl group,
        text_eq_refl vfio_pci_driver_name,
        text_eq_refl (partition_mode s),
        equal_fold_refl s.parent_pci_bus_id,
      )

  -- What sysfs shows at the moment of an accepted check.
  pub record IsUnchanged (d : Device) : Type 0 where
    pub bus_id : Text
    pub vendor : Text
    pub sriov : SriovInfo
    pub address : device_pci_bus_id d ≡ ok bus_id
    pub vendor_read : read_sysfs_value fs (join root (to_lower bus_id)) (codes "vendor") ≡ ok vendor
    pub vendor_is_rbln : to_lower vendor ≡ to_lower rbln_pci_vendor_id
    pub driver : read_pci_driver fs (join root (to_lower bus_id)) ≡ ok (wanted_driver d)
    pub layout : probe_sriov fs root bus_id ≡ ok sriov
    pub supported : IsSupported bus_id sriov
    pub endpoint : is_hosting_pf sriov ≡ false
    pub mode : partition_mode sriov ≡ device_string_attr d partition_mode_key
    pub parent :
        to_lower sriov.parent_pci_bus_id ≡ to_lower (device_string_attr d parent_pci_bus_id_key)
    pub alone :
        is_vfio_device d ≡ true
        → (group : ℤ) × IsAlone fs (join root (to_lower bus_id)) bus_id group
          × (device_int_attr d iommu_group_key ≡ some group)

  is_group_sound : (o : Option ℤ) (group : ℤ) → is_group o group ≡ true → o ≡ some group
  unfolding is_group
  is_group_sound none group h = cc
  is_group_sound (some n) group h = ap some ((int_eq_iff n group).0 h)

  validate_group_sound :
      (d : Device) (dev_path : FilePath) (bus_id : Text) (b : Bool)
      → validate_group fs d dev_path bus_id b ≡ ok tt
      → b ≡ true
      → (group : ℤ) × IsAlone fs dev_path bus_id group
        × (device_int_attr d iommu_group_key ≡ some group)
  unfolding validate_group
  validate_group_sound d dev_path bus_id false h t = absurd (ground arith)
  validate_group_sound d dev_path bus_id true h t =
      elim (Result-cases (isolated_iommu_group fs dev_path bus_id)) [
        | inr (e, r) ↦ absurd (ground arith)
        | inl (group, r) ↦ (
          group,
          (isolated_iommu_group-IsAlone fs dev_path bus_id group).0 r,
          is_group_sound _ group (ground arith),
        )
      ]

  validate_group_complete :
      (d : Device) (dev_path : FilePath) (bus_id : Text) (b : Bool)
      → (b ≡ true
          → (group : ℤ) × IsAlone fs dev_path bus_id group
            × (device_int_attr d iommu_group_key ≡ some group))
      → validate_group fs d dev_path bus_id b ≡ ok tt
  unfolding validate_group is_group
  validate_group_complete d dev_path bus_id false h = refl
  validate_group_complete d dev_path bus_id true h =
      let (group, alone, attr) = h refl in
      rw ((isolated_iommu_group-IsAlone fs dev_path bus_id group).1 alone, attr, int_eq_refl group)
        refl

  validate_allocated_device_sound :
      (d : Device) → validate_allocated_device fs root d ≡ ok tt → IsUnchanged d
  unfolding validate_allocated_device
  validate_allocated_device_sound d h =
      let (bus_id, r, h1) = >>=-eq-ok (device_pci_bus_id d) _ h in
      let dev_path = join root (to_lower bus_id) in
      let (vendor, r2, h2) = >>=-eq-ok (read_sysfs_value fs dev_path (codes "vendor")) _ h1 in
      let (u, g, h3) =
        >>=-eq-ok (guard (equal_fold vendor rbln_pci_vendor_id) (message "PCI vendor changed")) _
          h2 in
      let (driver, r3, h4) = >>=-eq-ok (read_pci_driver fs dev_path) _ h3 in
      let (v, g2, h5) =
        >>=-eq-ok
          (guard (text_eq driver (wanted_driver d)) (message "PCI driver is not the expected one"))
          _ h4 in
      let (s, r4, h6) = >>=-eq-ok (probe_sriov fs root bus_id) _ h5 in
      let (x, g3, h7) =
        >>=-eq-ok (guard (same_layout d s) (message "SR-IOV layout changed")) _ h6 in
      let (endpoint, mode, parent) = same_layout_sound d s (guard-eq-ok (same_layout d s) _ g3) in
      record {
        bus_id = bus_id;
        vendor = vendor;
        sriov = s;
        address = r;
        vendor_read = r2;
        vendor_is_rbln = equal_fold_sound vendor rbln_pci_vendor_id (guard-eq-ok _ _ g);
        driver = r3 ∙ ap ok (text_eq_sound driver (wanted_driver d) (guard-eq-ok _ _ g2));
        layout = r4;
        supported = probe_sriov-IsSupported fs root bus_id s r4;
        endpoint = endpoint;
        mode = mode;
        parent = parent;
        alone = validate_group_sound d dev_path bus_id (is_vfio_device d) h7;
      }

  -- The check accepts a device exactly if sysfs shows, at the address that was published: the vendor
  -- and the driver of the device's kind; a supported SR-IOV layout of a function that hosts no VFs,
  -- with the partition mode and the parent that were published; and, for a passthrough device, the
  -- IOMMU group that was published, whose directory lists this function and nothing else. Vendor,
  -- parent and function are compared up to case.
  pub validate_allocated_device-IsUnchanged :
      (d : Device) → (validate_allocated_device fs root d ≡ ok tt) ↔ IsUnchanged d
  validate_allocated_device-IsUnchanged d = (
    validate_allocated_device_sound d,
    λ u.
        unfold validate_allocated_device same_layout in
        rw
          (
            u.address,
            u.vendor_read,
            equal_fold_complete u.vendor rbln_pci_vendor_id u.vendor_is_rbln,
            u.driver,
            text_eq_refl (wanted_driver d),
            u.layout,
            u.endpoint,
            u.mode,
            text_eq_refl (device_string_attr d partition_mode_key),
            equal_fold_complete u.sriov.parent_pci_bus_id
                (device_string_attr d parent_pci_bus_id_key) u.parent,
          )
          (validate_group_complete d (join root (to_lower u.bus_id)) u.bus_id (is_vfio_device d)
            u.alone),
  )
