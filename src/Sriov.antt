-- ===== src/Sriov.antt =====
-- cmd/npu-kubelet-plugin/sriov.go: the SR-IOV layout of a PCI function.
pub mod Laws
use rbln_k8s_dra_driver.Base.{
  ◌≡◌, refl, Bool, true, false, ◌&&◌, ◌||◌, not, List, [], ◌∷◌, ◌++◌, Result, ok, err, ◌>>=◌, ◌>>◌,
  guard, map_err, ℤ, pos, negsuc, int_eq, is_positive, is_negative, Option, none, some,
  if◌then◌else◌,
}
use rbln_k8s_dra_driver.Go.Text.{Text, codes, is_empty}
use rbln_k8s_dra_driver.Go.Strings.{to_lower, equal_fold}
use rbln_k8s_dra_driver.Go.Number.{parse_int, format_int}
use rbln_k8s_dra_driver.Go.FilePath.{FilePath, join}
use rbln_k8s_dra_driver.Go.Errors.{
  OsError, not_exist, errno, Error, os, message, wrap, unsupported_device, is_not_exist,
}
use rbln_k8s_dra_driver.Pci.Address.{is_pci_address}
use rbln_k8s_dra_driver.Pci.Sysfs.{Sysfs}
use rbln_k8s_dra_driver.Pci.Readers.{read_sysfs_value, read_sysfs_link_base}

-- `sriovInfo`
pub record SriovInfo : Type 0 where
  pub parent_pci_bus_id : Text
  pub num_vfs : ℤ

unfoldable pub is_vf : SriovInfo → Bool
is_vf s = not (is_empty s.parent_pci_bus_id)

unfoldable pub is_hosting_pf : SriovInfo → Bool
unfolding is_vf
is_hosting_pf s = not (is_vf s) && is_positive s.num_vfs

-- `partitionMode`
unfoldable pub partition_mode : SriovInfo → Text
partition_mode s = if is_vf s then codes "vf" ++ format_int s.num_vfs else codes "none"

-- `deviceName`
unfoldable pub device_name : SriovInfo → Text → Text
device_name s base = if is_vf s then base ++ codes "-" ++ partition_mode s else base

unfoldable pub checked_num_vfs : Option ℤ → Result Error ℤ
checked_num_vfs none = err (message "invalid sriov_numvfs")
checked_num_vfs (some n) = if is_negative n then err (message "invalid sriov_numvfs") else ok n

module _ (fs : Sysfs) where
  -- `readSRIOVNumVFs`
  unfoldable pub read_sriov_num_vfs : FilePath → Result Error ℤ
  unfolding checked_num_vfs
  read_sriov_num_vfs dev_path =
      read_sysfs_value fs dev_path (codes "sriov_numvfs") >>= λ raw. checked_num_vfs (parse_int raw)

  -- A function with a `physfn` link.
  unfoldable pub probe_vf : FilePath → Text → FilePath → Result Error SriovInfo
  probe_vf root bus_id dev_path = do
    parent ← map_err (wrap "read physfn") (read_sysfs_link_base fs dev_path (codes "physfn"))
    guard (is_pci_address parent && not (equal_fold parent bus_id)) (message "invalid parent PF")
    num_vfs ← map_err (wrap "read parent PF") (read_sriov_num_vfs (join root parent))
    guard (int_eq num_vfs (pos 1) || int_eq num_vfs (pos 4))
        (wrap "expected 1 or 4 VFs" unsupported_device)
    ok (record { parent_pci_bus_id = parent; num_vfs = num_vfs })

  -- A function without one, by what `readSRIOVNumVFs` gave.
  unfoldable pub probe_pf : Result Error ℤ → Result Error SriovInfo
  probe_pf (err e) =
      if is_not_exist e then ok (record { parent_pci_bus_id = []; num_vfs = pos 0 }) else err e
  probe_pf (ok num_vfs) = do
    guard (int_eq num_vfs (pos 0) || (int_eq num_vfs (pos 1) || int_eq num_vfs (pos 4)))
        (wrap "expected 0, 1 or 4 VFs" unsupported_device)
    ok (record { parent_pci_bus_id = []; num_vfs = num_vfs })

  unfoldable pub probe_layout :
      FilePath → Text → FilePath → Result OsError (Unit {0}) → Result Error SriovInfo
  probe_layout root bus_id dev_path (ok u) = probe_vf root bus_id dev_path
  probe_layout root bus_id dev_path (err not_exist) = probe_pf (read_sriov_num_vfs dev_path)
  probe_layout root bus_id dev_path (err (errno n)) = err (wrap "stat physfn" (os (errno n)))

  -- `probeSRIOV`
  unfoldable pub probe_sriov : FilePath → Text → Result Error SriovInfo
  unfolding probe_vf probe_pf probe_layout
  probe_sriov root bus_id = do
    guard (is_pci_address bus_id) (message "invalid PCI address")
    let dev_path = join root (to_lower bus_id)
    map_err (λ e. wrap "stat PCI device" (os e)) (fs.stat dev_path)
    probe_layout root bus_id dev_path (fs.lstat (join dev_path (codes "physfn")))
