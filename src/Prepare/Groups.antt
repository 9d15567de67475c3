-- ===== src/Prepare/Groups.antt =====
-- The RSD group that `prepareDevices` of cmd/npu-kubelet-plugin/state.go gives to native devices.
use rbln_k8s_dra_driver.Base.{
  ◌≡◌, ◌⊎◌, ap, ◌∙◌, subst, sym, true, false, List, [], ◌∷◌, ok, some, if◌then◌else◌, arith, inl,
  inr, >>=-eq-ok, Option-cases, Bool-cases,
}
use rbln_k8s_dra_driver.Go.Text.{Text, codes}
use rbln_k8s_dra_driver.Go.FilePath.{FilePath}
use rbln_k8s_dra_driver.Device.Defs.{is_vfio_device, device_pci_bus_id}
use rbln_k8s_dra_driver.Claim.{AllocationResult, Claim, DeviceNode, PreparedDevices, ContainerEdits}
use rbln_k8s_dra_driver.Host.{Host}
use rbln_k8s_dra_driver.Rsd.Groups.{GroupLibrary, Uses}
use rbln_k8s_dra_driver.Prepare.Node.{apply_config}
use rbln_k8s_dra_driver.Prepare.Edits.{plain_node, apply_config_lem}
use rbln_k8s_dra_driver.Prepare.Results.{prepare_allocated-ok}
use rbln_k8s_dra_driver.Prepare.Mounts.{ours, checked_results-ours}
use rbln_k8s_dra_driver.Prepare.Devices.{
  Plugin, Progress, device_at, vfio_edits, native_edits, progress_after, prepared_device,
  prepare_results, prepare_claim, prepare_devices, at_start, sort, npu_bus_ids, checked_results,
  set_up_group, prepare_allocated,
}
use rbln_k8s_dra_driver.Prepare.Shown.{Shown, sort-empty, set_up_group-cases, Shown-sort}

-- Every native device gets the node at this path as its /dev/rsd0.
abbrev pub AllUse : Plugin → FilePath → List AllocationResult → PreparedDevices → Type 0
AllUse p path [] [] = Unit
AllUse p path [] (d ∷ devices) = ⊥
AllUse p path (result ∷ results) [] = ⊥
AllUse p path (result ∷ results) (d ∷ devices) =
    (is_vfio_device (device_at p result.device) ≡ false
      → (others : List DeviceNode) × (d.container_edits.device_nodes
          ≡ plain_node (codes "dev" ∷ codes "rsd0" ∷ []) path ∷ others))
    × AllUse p path results devices

module _ (h : Host) (p : Plugin) (claim : Claim) (s : h.State) (path : FilePath)
    (nodes : List DeviceNode) where
  native_edits-node :
      (progress : Progress) (result : AllocationResult) (edits : ContainerEdits)
      → native_edits h p s claim path nodes progress result ≡ ok edits
      → (others : List DeviceNode) × (edits.device_nodes
          ≡ plain_node (codes "dev" ∷ codes "rsd0" ∷ []) path ∷ others)
  unfolding native_edits
  native_edits-node progress result edits e =
      let (made, a, rest) = >>=-eq-ok (apply_config h s p.allocatable result.device path) _ e in
      let (device, own, found, same, named) =
        apply_config_lem h s p.allocatable result.device path made a in
      elim (Bool-cases progress.rds_injected) [
        | inl i ↦ (plain_node own own ∷ [], ground arith)
        | inr i ↦ (plain_node own own ∷ nodes, ground arith)
      ]

  prepare_results-AllUse :
      (progress : Progress) (results : List AllocationResult) (devices : PreparedDevices)
      → prepare_results h p s claim path nodes progress results ≡ ok devices
      → AllUse p path results devices
  unfolding prepare_results prepared_device
  prepare_results-AllUse progress [] devices e =
      let none_left : devices ≡ [] = ground arith in rw none_left tt
  prepare_results-AllUse progress (result ∷ results) devices e =
      let (edits, a, e1) =
        >>=-eq-ok
          (if is_vfio_device (device_at p result.device)
            then vfio_edits h p s claim path nodes progress result
            else native_edits h p s claim path nodes progress result)
          _ e in
      let next = progress_after h p s claim path nodes progress result in
      let (rest, b, e2) = >>=-eq-ok (prepare_results h p s claim path nodes next results) _ e1 in
      let made : devices ≡ prepared_device h p s claim path nodes result edits ∷ rest =
        ground arith in
      rw made (
        λ native. native_edits-node progress result edits (rw native at a),
        prepare_results-AllUse next results rest b,
      )

-- These are the addresses of the native devices, in the order of the results.
abbrev pub AreNative : Plugin → List AllocationResult → List Text → Type 0
AreNative p [] bus_ids = bus_ids ≡ []
AreNative p (result ∷ results) bus_ids =
    ((is_vfio_device (device_at p result.device) ≡ true) × AreNative p results bus_ids)
    ⊎ ((bus_id : Text) × (more : List Text) × (bus_ids ≡ bus_id ∷ more)
        × (is_vfio_device (device_at p result.device) ≡ false)
        × (device_pci_bus_id (device_at p result.device) ≡ ok bus_id)
        × AreNative p results more)

npu_bus_ids-AreNative :
    (p : Plugin) (results : List AllocationResult) (bus_ids : List Text)
    → npu_bus_ids p results ≡ ok bus_ids
    → AreNative p results bus_ids
unfolding npu_bus_ids
npu_bus_ids-AreNative p [] bus_ids e = ground arith
npu_bus_ids-AreNative p (result ∷ results) bus_ids e =
    elim (Bool-cases (is_vfio_device (device_at p result.device))) [
      | inl vfio ↦ inl (vfio, npu_bus_ids-AreNative p results bus_ids (ground arith))
      | inr native ↦
          let (bus_id, a, e1) =
            >>=-eq-ok (device_pci_bus_id (device_at p result.device)) _ (rw native at e) in
          let (more, b, e2) = >>=-eq-ok (npu_bus_ids p results) _ e1 in
          inr (bus_id, more, ground arith, native, a, npu_bus_ids-AreNative p results more b)
    ]

prepare_allocated-state :
    (h : Host) (p : Plugin) (claim : Claim) (allocated results : List AllocationResult)
    (bus_ids : List Text) (s : h.State) (path : FilePath) (nodes : List DeviceNode)
    → checked_results p (h.sysfs s) allocated ≡ ok results
    → npu_bus_ids p results ≡ ok bus_ids
    → (set_up_group h p (sort bus_ids) s).0 ≡ ok (path, nodes)
    → (prepare_allocated h p claim allocated s).1 ≡ (set_up_group h p (sort bus_ids) s).1
unfolding prepare_allocated
prepare_allocated-state h p claim allocated results bus_ids s path nodes c b g = ground arith

module _ (h : Host) (lib : GroupLibrary h.State) (w : Uses h lib) where
  -- Where the plugin creates RSD groups by `recreateValidatedRSDGroup`: `prepareDevices` succeeds
  -- only on an allocated claim. If devices that are not for passthrough are allocated to it, then
  -- the state of the node that it leaves is one in which rbln-smi lists a group with exactly the PCI
  -- functions of these devices, up to case and none of them twice, and every one of these devices
  -- gets the node of that group as its /dev/rsd0.
  pub prepare_devices-Shown :
      (p : Plugin) (claim : Claim) (s : h.State) (devices : PreparedDevices)
      → (prepare_devices h p claim s).0 ≡ ok devices
      → (allocated : List AllocationResult) × (bus_ids : List Text) × (claim.results
          ≡ some allocated)
        × AreNative p (ours allocated) bus_ids
        × ((bus_ids ≡ [])
            ⊎ ((path : FilePath) × Shown h lib (prepare_devices h p claim s).1 bus_ids path
                × AllUse p path (ours allocated) devices))
  unfolding prepare_devices prepare_claim
  prepare_devices-Shown p claim s devices e = elim (Option-cases claim.results) [
    | inl r ↦ absurd (ground arith)
    | inr (allocated, r) ↦
        let (results, bus_ids, path, nodes, c, b, g, made) =
          prepare_allocated-ok h p claim allocated s devices (ground arith) in
        let same = checked_results-ours p (h.sysfs s) allocated results c in
        let all = prepare_results-AllUse h p claim _ path nodes at_start results devices made in
        let left : (prepare_devices h p claim s).1 ≡ (set_up_group h p (sort bus_ids) s).1 =
          ap (λ o. (prepare_claim h p claim o s).1) r
          ∙ prepare_allocated-state h p claim allocated results bus_ids s path nodes c b g in
        (
          allocated,
          bus_ids,
          r,
          npu_bus_ids-AreNative p (ours allocated) bus_ids (rw (← same) b),
          elim (set_up_group-cases h lib w p (sort bus_ids) s path nodes g) [
            | inl none_left ↦ inl (sort-empty bus_ids none_left)
            | inr shown ↦ inr (
              path,
              Shown-sort h lib w _ bus_ids path
                  (subst (λ t. Shown h lib t (sort bus_ids) path) (sym left) shown),
              rw (← same) all,
            )
          ],
        )
  ]
