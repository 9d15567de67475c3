-- ===== src/Vfio/Isolation.antt =====
-- When `isolatedIOMMUGroup` of cmd/npu-kubelet-plugin/vfio.go gives a group.
use rbln_k8s_dra_driver.Base.{
  ◌≡◌, refl, ◌↔◌, true, List, [], ◌∷◌, Result, ok, err, ℤ, arith, inl, inr, Result-cases,
}
use rbln_k8s_dra_driver.Go.Text.{Text, codes}
use rbln_k8s_dra_driver.Go.Strings.{to_lower, equal_fold_sound, equal_fold_complete}
use rbln_k8s_dra_driver.Go.FilePath.{FilePath, join}
use rbln_k8s_dra_driver.Go.Errors.{Error}
use rbln_k8s_dra_driver.Pci.Sysfs.{Sysfs}
use rbln_k8s_dra_driver.Vfio.Defs.{
  device_iommu_group_from_sysfs, is_exclusive, isolated_group, isolated_iommu_group,
}

-- The function is in this group, whose directory lists it, up to case, and nothing else.
abbrev pub IsAlone : Sysfs → FilePath → Text → ℤ → Type 0
IsAlone fs dev_path bus_id group =
    (member : Text) × (device_iommu_group_from_sysfs fs dev_path ≡ ok group)
    × (fs.read_dir (join (join dev_path (codes "iommu_group")) (codes "devices"))
        ≡ ok (member ∷ []))
    × (to_lower member ≡ to_lower bus_id)

is_exclusive_sound :
    (members : List Text) (bus_id : Text)
    → is_exclusive members bus_id ≡ true
    → (member : Text) × (members ≡ member ∷ []) × (to_lower member ≡ to_lower bus_id)
unfolding is_exclusive
is_exclusive_sound [] bus_id h = absurd (cc)
is_exclusive_sound (member ∷ []) bus_id h = (member, refl, equal_fold_sound member bus_id h)
is_exclusive_sound (x ∷ y ∷ members) bus_id h = absurd (cc)

module _ (fs : Sysfs) (dev_path : FilePath) (bus_id : Text) (group : ℤ) where
  isolated_group-IsAlone :
      (r : Result Error ℤ)
      → device_iommu_group_from_sysfs fs dev_path ≡ r
      → isolated_group fs dev_path bus_id r ≡ ok group
      → IsAlone fs dev_path bus_id group
  unfolding isolated_group
  isolated_group-IsAlone (err e) q h = absurd (ground arith)
  isolated_group-IsAlone (ok found) q h =
      elim (Result-cases
        (fs.read_dir (join (join dev_path (codes "iommu_group")) (codes "devices")))) [
          | inr (e, r) ↦ absurd (ground arith)
          | inl (members, r) ↦
              let (member, only, same) = is_exclusive_sound members bus_id (ground arith) in
              (member, ground arith, ground arith, same)
        ]

  pub isolated_iommu_group-IsAlone :
      (isolated_iommu_group fs dev_path bus_id ≡ ok group) ↔ IsAlone fs dev_path bus_id group
  unfolding isolated_iommu_group
  isolated_iommu_group-IsAlone = (
    isolated_group-IsAlone (device_iommu_group_from_sysfs fs dev_path) refl,
    λ (member, q, r, same).
        unfold isolated_group is_exclusive in
        rw (q, r, equal_fold_complete member bus_id same) refl,
  )
