-- ===== src/Prepare/Mounts.antt =====
-- Where `prepareDevices` of cmd/npu-kubelet-plugin/state.go mounts the metadata of a request.
use rbln_k8s_dra_driver.Base.{
  ◌≡◌, refl, ap, List, [], ◌∷◌, ◌++◌, ok, some, if◌then◌else◌, arith, inl, inr, Result-cases,
  >>=-eq-ok, Option-cases, Bool-cases,
}
use rbln_k8s_dra_driver.Go.Text.{Text, text_eq, contains}
use rbln_k8s_dra_driver.Go.FilePath.{FilePath}
use rbln_k8s_dra_driver.Pci.Sysfs.{Sysfs}
use rbln_k8s_dra_driver.Device.Defs.{is_vfio_device}
use rbln_k8s_dra_driver.Claim.{
  driver_name, AllocationResult, Claim, DeviceNode, Mount, PreparedDevices, ContainerEdits,
}
use rbln_k8s_dra_driver.Host.{Host}
use rbln_k8s_dra_driver.Metadata.{
  kubevirt_metadata_base_path, kubevirt_metadata_request_name, kubevirt_metadata_mounts,
}
use rbln_k8s_dra_driver.Prepare.Node.{apply_config}
use rbln_k8s_dra_driver.Prepare.Edits.{apply_config_lem, vfio_container_edits_lem}
use rbln_k8s_dra_driver.Prepare.Results.{prepare_allocated-ok}
use rbln_k8s_dra_driver.Prepare.Devices.{
  Plugin, Progress, device_at, checked_results, prepared_device, progress_after, vfio_edits,
  native_edits, prepare_results, prepare_claim, prepare_devices, at_start,
}

-- All mounts of the prepared devices, in order.
abbrev pub all_mounts : PreparedDevices → List Mount
all_mounts [] = []
all_mounts (d ∷ devices) = d.container_edits.mounts ++ all_mounts devices

-- The requests of the passthrough devices among the results of this driver, in order.
unfoldable pub vfio_requests : Plugin → List AllocationResult → List Text
vfio_requests p [] = []
vfio_requests p (result ∷ results) =
    let rest = vfio_requests p results in
    if is_vfio_device (device_at p result.device)
    then kubevirt_metadata_request_name result ∷ rest
    else rest

abbrev pub ours : List AllocationResult → List AllocationResult
ours [] = []
ours (result ∷ results) =
    let rest = ours results in if text_eq result.driver driver_name then result ∷ rest else rest

-- The names that are not in `seen`, each where it stands first.
unfoldable pub first_uses : List Text → List Text → List Text
first_uses seen [] = []
first_uses seen (name ∷ names) =
    let rest = first_uses (name ∷ seen) names in if contains seen name then rest else name ∷ rest

abbrev pub mounts_for : Claim → List Text → List Mount
mounts_for claim [] = []
mounts_for claim (name ∷ names) =
    kubevirt_metadata_mounts kubevirt_metadata_base_path claim name ++ mounts_for claim names

module _ (h : Host) (p : Plugin) (claim : Claim) (s : h.State) (host_rsd_path : FilePath)
    (nodes : List DeviceNode) where
  vfio_edits-mounts :
      (progress : Progress) (result : AllocationResult) (edits : ContainerEdits)
      → vfio_edits h p s claim host_rsd_path nodes progress result ≡ ok edits
      → edits.mounts ≡ (
          if contains progress.metadata_mounted (kubevirt_metadata_request_name result)
          then []
          else kubevirt_metadata_mounts kubevirt_metadata_base_path claim
              (kubevirt_metadata_request_name result))
  unfolding vfio_edits
  vfio_edits-mounts progress result edits e =
      let (n, attr, made) = vfio_container_edits_lem h s (device_at p result.device) _ edits e in
      ap (λ x. x.mounts) made

  native_edits-mounts :
      (progress : Progress) (result : AllocationResult) (edits : ContainerEdits)
      → native_edits h p s claim host_rsd_path nodes progress result ≡ ok edits
      → edits.mounts ≡ []
  unfolding native_edits
  native_edits-mounts progress result edits e =
      let (made, a, rest) =
        >>=-eq-ok (apply_config h s p.allocatable result.device host_rsd_path) _ e in
      let (device, path, found, same, named) =
        apply_config_lem h s p.allocatable result.device host_rsd_path made a in
      ground arith

  prepare_results-mounts :
      (progress : Progress) (results : List AllocationResult) (devices : PreparedDevices)
      → prepare_results h p s claim host_rsd_path nodes progress results ≡ ok devices
      → all_mounts devices
        ≡ mounts_for claim (first_uses progress.metadata_mounted (vfio_requests p results))
  unfolding prepare_results vfio_requests first_uses progress_after prepared_device
  prepare_results-mounts progress [] devices e =
      let none_left : devices ≡ [] = ground arith in rw none_left refl
  prepare_results-mounts progress (result ∷ results) devices e =
      let (edits, a, e1) =
        >>=-eq-ok
          (if is_vfio_device (device_at p result.device)
            then vfio_edits h p s claim host_rsd_path nodes progress result
            else native_edits h p s claim host_rsd_path nodes progress result)
          _ e in
      let (rest, b, e2) =
        >>=-eq-ok
          (prepare_results h p s claim host_rsd_path nodes
            (progress_after h p s claim host_rsd_path nodes progress result) results)
          _ e1 in
      let all =
        prepare_results-mounts (progress_after h p s claim host_rsd_path nodes progress result)
          results rest b in
      elim (Bool-cases (is_vfio_device (device_at p result.device))) [
        | inl v ↦ ground (arith, vfio_edits-mounts progress result edits)
        | inr v ↦ ground (arith, native_edits-mounts progress result edits)
      ]

pub checked_results-ours :
    (p : Plugin) (fs : Sysfs) (allocated results : List AllocationResult)
    → checked_results p fs allocated ≡ ok results
    → results ≡ ours allocated
unfolding checked_results
checked_results-ours p fs [] results e = ground arith
checked_results-ours p fs (result ∷ allocated) results e =
    elim (Result-cases (checked_results p fs allocated)) [
      | inl (more, r) ↦ ground (arith, checked_results-ours p fs allocated more r)
      | inr (x, r) ↦ ground arith
    ]

-- The mounts of the devices that a successful `prepareDevices` returns are, taken together and in
-- order, those of the metadata of each request that has a passthrough device among the results of
-- this driver, for each such request once, in the order of their first passthrough devices. The
-- claim is allocated.
pub prepare_devices-mounts :
    (h : Host) (p : Plugin) (claim : Claim) (s : h.State) (devices : PreparedDevices)
    → (prepare_devices h p claim s).0 ≡ ok devices
    → (allocated : List AllocationResult) × (claim.results ≡ some allocated)
      × (all_mounts devices ≡ mounts_for claim (first_uses [] (vfio_requests p (ours allocated))))
unfolding prepare_devices prepare_claim
prepare_devices-mounts h p claim s devices e = elim (Option-cases claim.results) [
  | inl r ↦ absurd (ground arith)
  | inr (allocated, r) ↦
      let (results, bus_ids, host_rsd_path, nodes, c, b, g, made) =
        prepare_allocated-ok h p claim allocated s devices (ground arith) in
      (
        allocated,
        r,
        rw (← checked_results-ours p (h.sysfs s) allocated results c)
            (prepare_results-mounts h p claim _ host_rsd_path nodes at_start results devices made),
      )
]
