-- ===== src/Device/Skipped.antt =====
-- Why devices are skipped, and the records of it: cmd/npu-kubelet-plugin/scan.go.
use rbln_k8s_dra_driver.Base.{◌≡◌, refl, List, [], ◌∷◌, ◌++◌, Option, none, some, ℤ, pos}
use rbln_k8s_dra_driver.Go.Text.{Text, codes}
use rbln_k8s_dra_driver.Go.Errors.{Error}
use rbln_k8s_dra_driver.Go.Maps.{insert, text_key}
use rbln_k8s_dra_driver.Go.Number.{format_int}
use rbln_k8s_dra_driver.Sriov.{SriovInfo}
use rbln_k8s_dra_driver.Device.Enumeration.{SkippedDevice}

-- A record at error level with the error, or one at info level for a PF that hosts VFs.
pub data SkipRecord : Type 0 where
  skipping_npu : Text → Text → Error → SkipRecord
  excluding_pf : Text → Text → Option SriovInfo → SkipRecord

abbrev pub skip_record : SkippedDevice → Option Error → SkipRecord
skip_record d (some e) = skipping_npu d.name d.pci_bus_id e
skip_record d none = excluding_pf d.name d.pci_bus_id d.sriov

-- `logSkippedDevices`
unfoldable pub log_skipped_devices : List SkippedDevice → List SkipRecord
log_skipped_devices [] = []
log_skipped_devices (d ∷ skipped) = skip_record d d.error ∷ log_skipped_devices skipped

-- The number of VFs; a device without a layout has the zero value.
unfoldable pub vfs_of : Option SriovInfo → ℤ
vfs_of none = pos 0
vfs_of (some s) = s.num_vfs

-- `reason`, by the text of an error.
unfoldable pub reason : (Error → Text) → SkippedDevice → Text
unfolding vfs_of
reason text d = elim d.error [
  | some e ↦ text e
  | none ↦ codes "VF-hosting PF with " ++ format_int (vfs_of d.sriov) ++ codes " VFs"
]

-- The reasons by name, in the record of a scan.
unfoldable pub reasons_onto :
    (Error → Text) → List (Text × Text) → List SkippedDevice → List (Text × Text)
unfolding reason
reasons_onto text m [] = m
reasons_onto text m (d ∷ skipped) = reasons_onto text (insert d.name (reason text d) m) skipped

unfoldable pub reasons : (Error → Text) → List SkippedDevice → List (Text × Text)
unfolding reasons_onto
reasons text skipped = reasons_onto text [] skipped

hosting_pf :
    reason
      (λ e. [])
      (record {
        name = codes "rbln0";
        pci_bus_id = codes "0000:5e:00.0";
        sriov = some (record { num_vfs = pos 4; parent_pci_bus_id = [] });
        error = none;
      })
    ≡ codes "VF-hosting PF with 4 VFs"
unfolding reason format_int
hosting_pf = refl
