-- ===== src/Pci/Readers.antt =====
-- The readers of pci_sysfs.go.
use rbln_k8s_dra_driver.Base.{
  Bool, true, false, ◌&&◌, not, List, [], ◌∷◌, Result, ok, err, ◌>>=◌, map_err, if◌then◌else◌,
}
use rbln_k8s_dra_driver.Go.Text.{Text, codes, contains}
use rbln_k8s_dra_driver.Go.Strings.{to_lower, equal_fold, trim_space}
use rbln_k8s_dra_driver.Go.FilePath.{FilePath, join, base, path_base}
use rbln_k8s_dra_driver.Go.Errors.{OsError, not_exist, errno, Error, os, wrap, is_not_exist}
use rbln_k8s_dra_driver.Pci.Address.{matches, pci_root_regexp}
use rbln_k8s_dra_driver.Pci.Sysfs.{Sysfs}

-- `rblnPCIVendorID`
abbrev pub rbln_pci_vendor_id : Text
rbln_pci_vendor_id = codes "0x1eff"

-- `nativePCIDriverName`
abbrev pub native_pci_driver_name : Text
native_pci_driver_name = codes "rebellions"

module _ (fs : Sysfs) where
  unfoldable pub read_sysfs_value : FilePath → Text → Result Error Text
  read_sysfs_value dev_path name =
      map_err os (fs.read_file (join dev_path name)) >>= λ content. ok (trim_space content)

  unfoldable pub read_sysfs_link_base : FilePath → Text → Result Error Text
  read_sysfs_link_base dev_path name =
      map_err os (fs.read_link (join dev_path name)) >>= λ target. ok (base target)

  unfoldable pub stat_failed_with_not_exist : Result OsError (Unit {0}) → Bool
  stat_failed_with_not_exist (ok u) = false
  stat_failed_with_not_exist (err not_exist) = true
  stat_failed_with_not_exist (err (errno n)) = false

  -- `pciEntryRemoved`
  unfoldable pub pci_entry_removed : FilePath → Error → Bool
  unfolding stat_failed_with_not_exist
  pci_entry_removed dev_path e = is_not_exist e && stat_failed_with_not_exist (fs.stat dev_path)

  unfoldable pub vendor_matches : FilePath → List Text → Result Error Text → Result Error Bool
  vendor_matches dev_path known (ok vendor) = ok (equal_fold vendor rbln_pci_vendor_id)
  vendor_matches dev_path known (err e) =
      if contains known (to_lower (path_base dev_path)) && not (pci_entry_removed dev_path e)
      then err (wrap "read vendor for known NPU" e)
      else ok false

  -- `isRebellionsPCI`; `known` holds the keys of the map.
  unfoldable pub is_rebellions_pci : FilePath → List Text → Result Error Bool
  unfolding vendor_matches
  is_rebellions_pci dev_path known =
      vendor_matches dev_path known (read_sysfs_value dev_path (codes "vendor"))

  unfoldable pub or_unbound : Result Error Text → Result Error Text
  or_unbound (ok driver) = ok driver
  or_unbound (err e) = if is_not_exist e then ok [] else err e

  -- `readPCIDriver`: the empty text for a function without a driver.
  unfoldable pub read_pci_driver : FilePath → Result Error Text
  unfolding or_unbound
  read_pci_driver dev_path = or_unbound (read_sysfs_link_base dev_path (codes "driver"))

-- The first segment that names a root complex, or the empty text.
unfoldable pub first_root : List Text → Text
first_root [] = []
first_root (segment ∷ rest) =
    let others = first_root rest in if matches pci_root_regexp segment then segment else others

-- `resolvePCIERootID`
unfoldable pub resolve_pcie_root_id : Sysfs → FilePath → Text → Result Error Text
unfolding first_root
resolve_pcie_root_id fs root bus_id =
    map_err os (fs.eval_symlinks (join root (to_lower bus_id))) >>= λ resolved.
    ok (first_root resolved)
