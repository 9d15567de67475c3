-- ===== src/Prepare/Injected.antt =====
-- When `vfioContainerEdits` of cmd/npu-kubelet-plugin/vfio.go gives the edits for a passthrough
-- device.
use rbln_k8s_dra_driver.Base.{
  ℕ, ◌<◌, ltb, ◌≡◌, refl, ◌↔◌, subst, Bool-cases, List, [], ◌∷◌, ◌++◌, Result, ok, some, ℤ, arith,
  inl, inr, map_err, map_err-eq-ok, >>=-eq-ok,
}
use rbln_k8s_dra_driver.Go.Text.{codes}
use rbln_k8s_dra_driver.Go.Number.{format_int}
use rbln_k8s_dra_driver.Go.Decimal.{format_int-is_element}
use rbln_k8s_dra_driver.Go.FilePath.{FilePath, join, join-is_element}
use rbln_k8s_dra_driver.Go.Errors.{Error, wrap}
use rbln_k8s_dra_driver.Device.Defs.{Device, device_int_attr, iommu_group_key}
use rbln_k8s_dra_driver.Claim.{DeviceNode, Mount, ContainerEdits}
use rbln_k8s_dra_driver.Host.{Host, Polls}
use rbln_k8s_dra_driver.Prepare.Node.{
  wait_for_device_node, IsPaced, Waits, Cause, appeared, failed, timed_out, poll_ends,
  checked_iommu_group, device_iommu_group, vfio_node, vfio_container_edits,
}
use rbln_k8s_dra_driver.Prepare.Edits.{qemu_node, device_iommu_group-ok}

-- The node is there in some round, and the loop has waited until then.
abbrev pub Appears : Polls → Type 0
Appears p = (n : ℕ) × (p.stat n ≡ ok tt) × ((j : ℕ) → j < n → Waits p j)

Cause-ok :
    (p : Polls) (n : ℕ) (r : Result Error (Unit {0})) → Cause p n r → r ≡ ok tt → p.stat n ≡ ok tt
Cause-ok p n r (appeared q) e = q
Cause-ok p n r (failed q) e = absurd (ground arith)
Cause-ok p n r (timed_out q late) e = absurd (ground arith)

Cause-appeared :
    (p : Polls) (n : ℕ) (r : Result Error (Unit {0})) → Cause p n r → p.stat n ≡ ok tt → r ≡ ok tt
Cause-appeared p n r (appeared q) e = refl
Cause-appeared p n r (failed q) e = absurd (ground arith)
Cause-appeared p n r (timed_out q late) e = absurd (ground arith)

Cause-Waits : (p : Polls) (n : ℕ) (r : Result Error (Unit {0})) → Cause p n r → Waits p n → ⊥
Cause-Waits p n r (appeared q) (missing, early) = ground arith
Cause-Waits p n r (failed q) (missing, early) = ground arith
Cause-Waits p n r (timed_out q late) (missing, early) = omega (arith, late, early)

pub wait_for_device_node-Appears :
    (p : Polls) → IsPaced p → (wait_for_device_node p ≡ ok tt) ↔ Appears p
wait_for_device_node-Appears p paced =
    let (m, bound, before, cause) = poll_ends p paced in
    (
      λ done. (m, Cause-ok p m _ cause done, before),
      λ (n, there, waited). elim (Bool-cases (ltb m n)) [
        | inl sooner ↦ absurd (Cause-Waits p m _ cause (waited m (ground arith)))
        | inr later ↦ elim (Bool-cases (ltb n m)) [
          | inl passed ↦ absurd (ground (arith, before n))
          | inr now ↦
              Cause-appeared p m _ cause (subst (λ i. p.stat i ≡ ok tt) (ground arith) there)
        ]
      ],
    )

abbrev pub vfio_dir : FilePath
vfio_dir = codes "dev" ∷ codes "vfio" ∷ []

module _ (h : Host) (s : h.State) (paced : (path : FilePath) → IsPaced (h.polls s path)) where
  vfio_node_sound :
      (path : FilePath) (node : DeviceNode)
      → vfio_node h s path ≡ ok node
      → Appears (h.polls s path) × (node ≡ qemu_node path)
  unfolding vfio_node
  vfio_node_sound path node e =
      let (u, w, e1) =
        >>=-eq-ok (map_err (wrap "vfio device node") (wait_for_device_node (h.polls s path))) _ e in
      (
        (wait_for_device_node-Appears (h.polls s path) (paced path)).0 (map_err-eq-ok _ _ w),
        ground arith,
      )

  vfio_node_complete :
      (path : FilePath) → Appears (h.polls s path) → vfio_node h s path ≡ ok (qemu_node path)
  unfolding vfio_node
  vfio_node_complete path a =
      rw ((wait_for_device_node-Appears (h.polls s path) (paced path)).1 a) refl

  group_path : (n : ℤ) → join vfio_dir (format_int n) ≡ vfio_dir ++ (format_int n ∷ [])
  group_path n = join-is_element vfio_dir (format_int n) (format_int-is_element n)

  -- What a VM is given with a passthrough device: its group's node and the control node have
  -- appeared on the host.
  abbrev pub IsInjected : Device → List Mount → ContainerEdits → Type 0
  IsInjected d mounts edits =
      (n : ℤ) × (device_int_attr d iommu_group_key ≡ some n)
      × Appears (h.polls s (vfio_dir ++ (codes "vfio" ∷ [])))
      × Appears (h.polls s (vfio_dir ++ (format_int n ∷ [])))
      × (edits ≡ record {
        device_nodes =
            qemu_node (vfio_dir ++ (codes "vfio" ∷ []))
            ∷ qemu_node (vfio_dir ++ (format_int n ∷ []))
            ∷ [];
        mounts = mounts;
        hooks = [];
      })

  vfio_container_edits_sound :
      (d : Device) (mounts : List Mount) (edits : ContainerEdits)
      → vfio_container_edits h s d mounts ≡ ok edits
      → IsInjected d mounts edits
  unfolding vfio_container_edits
  vfio_container_edits_sound d mounts edits e =
      let (group, g, e1) = >>=-eq-ok (device_iommu_group d) _ e in
      let (n, attr, shown) = device_iommu_group-ok h s d group g in
      let (a, q, e2) = >>=-eq-ok (vfio_node h s (vfio_dir ++ (codes "vfio" ∷ []))) _ e1 in
      let (b, w, e3) = >>=-eq-ok (vfio_node h s (join vfio_dir group)) _ e2 in
      let at : join vfio_dir group ≡ vfio_dir ++ (format_int n ∷ []) = rw shown (group_path n) in
      let (control_there, control) = vfio_node_sound _ a q in
      let (group_there, own) = vfio_node_sound _ b w in
      (
        n,
        attr,
        control_there,
        subst (λ x. Appears (h.polls s x)) at group_there,
        rw (← at) (ground arith),
      )

  vfio_container_edits_complete :
      (d : Device) (mounts : List Mount) (edits : ContainerEdits)
      → IsInjected d mounts edits
      → vfio_container_edits h s d mounts ≡ ok edits
  unfolding vfio_container_edits device_iommu_group checked_iommu_group
  vfio_container_edits_complete d mounts edits (n, attr, control, own, made) =
      rw (attr, group_path n, vfio_node_complete _ control, vfio_node_complete _ own, made) refl

  -- Where each round of the polling takes its interval at least: `vfioContainerEdits` succeeds
  -- exactly if the device was published with an IOMMU group, and the VFIO control node and the node
  -- of that group, by its number, appear while they are polled for. The edits are these two nodes, both
  -- for the user of QEMU, and the metadata mounts that were asked for, and nothing else.
  pub vfio_container_edits-IsInjected :
      (d : Device) (mounts : List Mount) (edits : ContainerEdits)
      → (vfio_container_edits h s d mounts ≡ ok edits) ↔ IsInjected d mounts edits
  vfio_container_edits-IsInjected d mounts edits =
      (vfio_container_edits_sound d mounts edits, vfio_container_edits_complete d mounts edits)
