-- ===== src/Prepare/Edits.antt =====
-- The device nodes that `applyConfig` and `vfioContainerEdits` put into a container:
-- cmd/npu-kubelet-plugin/state.go and vfio.go.
use rbln_k8s_dra_driver.Base.{
  ◌≡◌, refl, ◌⊎◌, inl, inr, List, [], ◌∷◌, ok, Option, none, some, ℤ, arith, Result-cases,
  Option-cases,
}
use rbln_k8s_dra_driver.Go.Text.{Text, codes}
use rbln_k8s_dra_driver.Go.Number.{format_int}
use rbln_k8s_dra_driver.Go.FilePath.{FilePath, join}
use rbln_k8s_dra_driver.Go.Maps.{lookup, text_key}
use rbln_k8s_dra_driver.Device.Defs.{
  Device, device_string_attr, device_int_attr, device_node_name_key, iommu_group_key,
}
use rbln_k8s_dra_driver.State.Defs.{AllocatableDevices}
use rbln_k8s_dra_driver.Claim.{DeviceNode, Mount, ContainerEdits}
use rbln_k8s_dra_driver.Host.{Host}
use rbln_k8s_dra_driver.Prepare.Node.{
  wait_for_device_node, new_device_node, native_node, apply_config, checked_iommu_group,
  device_iommu_group, vfio_node, vfio_container_edits,
}
use rbln_k8s_dra_driver.Prepare.Names.{join-is_node_name}

-- A node in a container at a path of the host, with the defaults of the runtime.
abbrev pub plain_node : FilePath → FilePath → DeviceNode
plain_node path host_path = record {
  path = path;
  host_path = host_path;
  permissions = [];
  uid = none;
  gid = none;
}

-- A node for the VM's QEMU process.
abbrev pub qemu_node : FilePath → DeviceNode
qemu_node path = record {
  path = path;
  host_path = path;
  permissions = codes "mrw";
  uid = some 107;
  gid = some 107;
}

module _ (h : Host) (s : h.State) where
  new_device_node-ok :
      (path host_path : FilePath) (node : DeviceNode)
      → new_device_node h s path host_path ≡ ok node
      → node ≡ plain_node path host_path
  unfolding new_device_node
  new_device_node-ok path host_path node e =
      elim (Result-cases (wait_for_device_node (h.polls s host_path))) [
        | inl (u, r) ↦ ground arith
        | inr (x, r) ↦ absurd (ground arith)
      ]

  vfio_node-ok :
      (path : FilePath) (node : DeviceNode) → vfio_node h s path ≡ ok node → node ≡ qemu_node path
  unfolding vfio_node
  vfio_node-ok path node e = elim (Result-cases (wait_for_device_node (h.polls s path))) [
    | inl (u, r) ↦ ground arith
    | inr (x, r) ↦ absurd (ground arith)
  ]

  native_node-ok :
      (o : Option Device) (node : DeviceNode)
      → native_node h s o ≡ ok node
      → (device : Device) × (path : FilePath) × (o ≡ some device)
        × (node ≡ plain_node path path)
        × ((device_string_attr device device_node_name_key ≡ codes "/")
            ⊎ (path ≡ codes "dev" ∷ device_string_attr device device_node_name_key ∷ []))
  unfolding native_node
  native_node-ok none node e = absurd (ground arith)
  native_node-ok (some device) node e =
      let name = device_string_attr device device_node_name_key in
      let path = join (codes "dev" ∷ []) name in
      elim (Result-cases (new_device_node h s path path)) [
        | inl (made, r) ↦ (
          device,
          path,
          refl,
          ground (arith, new_device_node-ok path path made r),
          join-is_node_name name (ground arith),
        )
        | inr (x, r) ↦ absurd (ground arith)
      ]

  -- A native device that is injected gets two device nodes and nothing else: the group's node, which
  -- the container sees as /dev/rsd0, and the node of the published device at its own path, which is
  -- a file directly under /dev that carries the device's node name, unless that name is a slash.
  pub apply_config_lem :
      (allocatable : AllocatableDevices) (name : Text) (host_rsd_path : FilePath)
      (edits : ContainerEdits)
      → apply_config h s allocatable name host_rsd_path ≡ ok edits
      → (device : Device) × (path : FilePath) × (lookup name allocatable ≡ some device)
        × (edits ≡ record {
          device_nodes =
              plain_node (codes "dev" ∷ codes "rsd0" ∷ []) host_rsd_path
              ∷ plain_node path path
              ∷ [];
          mounts = [];
          hooks = [];
        })
        × ((device_string_attr device device_node_name_key ≡ codes "/")
            ⊎ (path ≡ codes "dev" ∷ device_string_attr device device_node_name_key ∷ []))
  unfolding apply_config
  apply_config_lem allocatable name host_rsd_path edits e =
      elim (Result-cases (new_device_node h s (codes "dev" ∷ codes "rsd0" ∷ []) host_rsd_path)) [
        | inr (x, r) ↦ absurd (ground arith)
        | inl (rsd, r) ↦ elim (Result-cases (native_node h s (lookup name allocatable))) [
          | inr (x, q) ↦ absurd (ground arith)
          | inl (node, q) ↦
              let (device, path, found, made, named) =
                native_node-ok (lookup name allocatable) node q in
              (device, path, found, ground (arith, new_device_node-ok _ host_rsd_path rsd r), named)
        ]
      ]

  pub device_iommu_group-ok :
      (d : Device) (group : Text)
      → device_iommu_group d ≡ ok group
      → (n : ℤ) × (device_int_attr d iommu_group_key ≡ some n) × (group ≡ format_int n)
  unfolding device_iommu_group checked_iommu_group
  device_iommu_group-ok d group e = elim (Option-cases (device_int_attr d iommu_group_key)) [
    | inl q ↦ absurd (ground arith)
    | inr (n, q) ↦ (n, q, ground arith)
  ]

  -- A passthrough device that is injected gets the VFIO control node and the node of the IOMMU group
  -- that it was published with, both for the user of QEMU, and the metadata mounts that were asked
  -- for.
  pub vfio_container_edits_lem :
      (d : Device) (mounts : List Mount) (edits : ContainerEdits)
      → vfio_container_edits h s d mounts ≡ ok edits
      → (n : ℤ) × (device_int_attr d iommu_group_key ≡ some n)
        × (edits ≡ record {
          device_nodes =
              qemu_node (codes "dev" ∷ codes "vfio" ∷ codes "vfio" ∷ [])
              ∷ qemu_node (join (codes "dev" ∷ codes "vfio" ∷ []) (format_int n))
              ∷ [];
          mounts = mounts;
          hooks = [];
        })
  unfolding vfio_container_edits
  vfio_container_edits_lem d mounts edits e = elim (Result-cases (device_iommu_group d)) [
    | inr (x, r) ↦ absurd (ground arith)
    | inl (group, r) ↦
        let (n, attr, shown) = device_iommu_group-ok d group r in
        let control : FilePath = codes "dev" ∷ codes "vfio" ∷ codes "vfio" ∷ [] in
        let of_group = join (codes "dev" ∷ codes "vfio" ∷ []) group in
        elim (Result-cases (vfio_node h s control)) [
          | inr (x, q) ↦ absurd (ground arith)
          | inl (a, q) ↦ elim (Result-cases (vfio_node h s of_group)) [
            | inr (x, w) ↦ absurd (ground arith)
            | inl (b, w) ↦ (
              n,
              attr,
              rw (← shown) (ground (arith, vfio_node-ok control a q, vfio_node-ok of_group b w)),
            )
          ]
        ]
  ]
