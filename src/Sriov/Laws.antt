-- ===== src/Sriov/Laws.antt =====
-- What `probeSRIOV` promises of the layouts that it accepts and of its errors.
use rbln_k8s_dra_driver.Base.{
  ◌≡◌, true, false, [], Result, ok, err, ℤ, pos, arith, ◌⊎◌, inl, inr, Result-cases, ◌≢◌,
}
use rbln_k8s_dra_driver.Go.Text.{Text, codes}
use rbln_k8s_dra_driver.Go.Strings.{to_lower, equal_fold}
use rbln_k8s_dra_driver.Go.FilePath.{FilePath, join}
use rbln_k8s_dra_driver.Go.Errors.{OsError, not_exist, errno, Error, is_unsupported}
use rbln_k8s_dra_driver.Pci.Address.{is_pci_address}
use rbln_k8s_dra_driver.Pci.Sysfs.{Sysfs}
use rbln_k8s_dra_driver.Pci.Readers.{read_sysfs_value, read_sysfs_link_base}
use rbln_k8s_dra_driver.Sriov.{
  SriovInfo, read_sriov_num_vfs, probe_sriov, probe_vf, probe_pf, probe_layout,
}

-- A layout that the plugin supports: a VF of another function of which 1 or 4 VFs are enabled, or
-- a PF with 0, 1 or 4.
abbrev pub IsSupported : Text → SriovInfo → Type 0
IsSupported bus_id s =
    ((is_pci_address s.parent_pci_bus_id ≡ true)
      × (equal_fold s.parent_pci_bus_id bus_id ≡ false)
      × ((s.num_vfs ≡ pos 1) ⊎ (s.num_vfs ≡ pos 4)))
    ⊎ ((s.parent_pci_bus_id ≡ [])
        × ((s.num_vfs ≡ pos 0) ⊎ ((s.num_vfs ≡ pos 1) ⊎ (s.num_vfs ≡ pos 4))))

module _ (fs : Sysfs) where
  probe_vf-IsSupported :
      (root : FilePath) (bus_id : Text) (dev_path : FilePath) (s : SriovInfo)
      → probe_vf fs root bus_id dev_path ≡ ok s
      → IsSupported bus_id s
  unfolding probe_vf
  probe_vf-IsSupported root bus_id dev_path s h = ground arith

  probe_pf-IsSupported :
      (bus_id : Text) (r : Result Error ℤ) (s : SriovInfo)
      → probe_pf fs r ≡ ok s
      → IsSupported bus_id s
  unfolding probe_pf
  probe_pf-IsSupported bus_id (err e) s h = ground arith
  probe_pf-IsSupported bus_id (ok n) s h = ground arith

  probe_layout-IsSupported :
      (root : FilePath) (bus_id : Text) (dev_path : FilePath) (r : Result OsError (Unit {0}))
      (s : SriovInfo)
      → probe_layout fs root bus_id dev_path r ≡ ok s
      → IsSupported bus_id s
  unfolding probe_layout
  probe_layout-IsSupported root bus_id dev_path (ok u) s h =
      probe_vf-IsSupported root bus_id dev_path s h
  probe_layout-IsSupported root bus_id dev_path (err not_exist) s h =
      probe_pf-IsSupported bus_id _ s h
  probe_layout-IsSupported root bus_id dev_path (err (errno n)) s h = cc

  -- A layout that `probeSRIOV` returns is one that the plugin supports: a VF of another PCI function
  -- with 1 or 4 enabled VFs, or a PF with 0, 1 or 4 enabled VFs.
  pub probe_sriov-IsSupported :
      (root : FilePath) (bus_id : Text) (s : SriovInfo)
      → probe_sriov fs root bus_id ≡ ok s
      → IsSupported bus_id s
  unfolding probe_sriov
  probe_sriov-IsSupported root bus_id s h = ground (
    arith,
    probe_layout-IsSupported root bus_id (join root (to_lower bus_id))
        (fs.lstat (join (join root (to_lower bus_id)) (codes "physfn"))) s,
  )

  -- The number of enabled VFs that the layout's error is about.
  abbrev pub ObservedUnsupported : Type 0
  ObservedUnsupported =
      (dev_path : FilePath) × (n : ℤ) × (read_sriov_num_vfs fs dev_path ≡ ok n)
      × (n ≢ pos 1)
      × (n ≢ pos 4)

  read_sriov_num_vfs-is_unsupported :
      (dev_path : FilePath) (e : Error)
      → read_sriov_num_vfs fs dev_path ≡ err e
      → is_unsupported e ≡ false
  unfolding read_sriov_num_vfs is_unsupported read_sysfs_value
  read_sriov_num_vfs-is_unsupported dev_path e h = ground arith

  probe_layout-is_unsupported :
      (root : FilePath) (bus_id : Text) (dev_path : FilePath) (r : Result OsError (Unit {0}))
      (e : Error)
      → probe_layout fs root bus_id dev_path r ≡ err e
      → is_unsupported e ≡ true
      → ObservedUnsupported
  unfolding probe_layout probe_vf probe_pf is_unsupported read_sysfs_link_base
  probe_layout-is_unsupported root bus_id dev_path (ok u) e h k =
      elim (Result-cases (read_sysfs_link_base fs dev_path (codes "physfn"))) [
        | inr (f, p) ↦ ground arith
        | inl (parent, p) ↦ elim (Result-cases (read_sriov_num_vfs fs (join root parent))) [
          | inl (n, r) ↦ (join root parent, n, r, ground arith, ground arith)
          | inr (f, r) ↦ ground (arith, read_sriov_num_vfs-is_unsupported (join root parent) f)
        ]
      ]
  probe_layout-is_unsupported root bus_id dev_path (err not_exist) e h k =
      elim (Result-cases (read_sriov_num_vfs fs dev_path)) [
        | inl (n, r) ↦ (dev_path, n, r, ground arith, ground arith)
        | inr (f, r) ↦ ground (arith, read_sriov_num_vfs-is_unsupported dev_path f)
      ]
  probe_layout-is_unsupported root bus_id dev_path (err (errno n)) e h k = ground arith

  -- `probeSRIOV` reports an unsupported layout only after it has read a number of VFs that is not
  -- 1 or 4: a failed read, a malformed value or an invalid parent is never reported as one.
  pub probe_sriov-is_unsupported :
      (root : FilePath) (bus_id : Text) (e : Error)
      → probe_sriov fs root bus_id ≡ err e
      → is_unsupported e ≡ true
      → ObservedUnsupported
  unfolding probe_sriov is_unsupported
  probe_sriov-is_unsupported root bus_id e h k =
      let dev_path = join root (to_lower bus_id) in
      elim (Result-cases (fs.stat dev_path)) [
        | inr (f, p) ↦ ground arith
        | inl (u, p) ↦
            probe_layout-is_unsupported root bus_id dev_path
              (fs.lstat (join dev_path (codes "physfn"))) e (ground arith) k
      ]
