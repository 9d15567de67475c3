-- ===== src/Prepare/Specs.antt =====
-- The CDI specs behind the devices that `prepareDevices` of cmd/npu-kubelet-plugin/state.go prepares.
use rbln_k8s_dra_driver.Base.{
  ◌≡◌, ◌≢◌, refl, ap, Bool, true, false, not, List, [], ◌∷◌, ok, Option, arith, inl, inr, ◌⊎◌,
  Result-cases, Bool-cases, Option-cases,
}
use rbln_k8s_dra_driver.Go.Text.{Text}
use rbln_k8s_dra_driver.Go.FilePath.{FilePath}
use rbln_k8s_dra_driver.Device.Defs.{is_vfio_device, device_pci_bus_id}
use rbln_k8s_dra_driver.Claim.{
  AllocationResult, Claim, DeviceNode, PreparedDevice, PreparedDevices, Spec,
}
use rbln_k8s_dra_driver.Host.{Host}
use rbln_k8s_dra_driver.Cdi.{CdiHandler, get_claim_devices, create_common_spec_file}
use rbln_k8s_dra_driver.Cdi.Specs.{
  KeepsSpecs, IsClaimUid, HasCommonSpec, LeavesSpecs, same-LeavesSpecs, then-LeavesSpecs,
}
use rbln_k8s_dra_driver.Cdi.Steps.{
  create_common_spec_file-LeavesSpecs, create_common_spec_file-HasCommonSpec,
}
use rbln_k8s_dra_driver.Prepare.Results.{prepare_allocated-ok, prepare_results-cons}
use rbln_k8s_dra_driver.Prepare.Devices.{
  Plugin, Progress, device_at, prepared_device, prepare_results, prepare_claim, prepare_allocated,
  prepare_devices, npu_bus_ids, checked_results, checked_rsd_path, set_up_group, sort, at_start,
}
use rbln_k8s_dra_driver.Prepare.Shown.{sort-empty}

module _ (h : Host) (cdi : CdiHandler) (specs : h.State → Text → Option Spec) where
  -- A device whose ids are the one of the claim's spec and, if it needs the runtime's edits, the
  -- common one, which is then there.
  pub record IsBacked (claim_uid : Text) (s : h.State) (d : PreparedDevice) : Type 0 where
    pub include_common : Bool
    pub ids :
        d.cdi_device_ids ≡ get_claim_devices h cdi claim_uid (d.device_name ∷ []) include_common
    pub common : include_common ≡ true → HasCommonSpec h cdi specs s

  abbrev pub AllBacked : Text → h.State → PreparedDevices → Type 0
  AllBacked claim_uid s [] = Unit
  AllBacked claim_uid s (d ∷ devices) = IsBacked claim_uid s d × AllBacked claim_uid s devices

  pub AllBacked-later :
      (claim_uid : Text) (s s' : h.State) (devices : PreparedDevices)
      → (HasCommonSpec h cdi specs s → HasCommonSpec h cdi specs s')
      → AllBacked claim_uid s devices
      → AllBacked claim_uid s' devices
  AllBacked-later claim_uid s s' [] l b = tt
  AllBacked-later claim_uid s s' (d ∷ devices) l (b, bs) = (
    record { include_common = b.include_common; ids = b.ids; common = λ i. l (b.common i) },
    AllBacked-later claim_uid s s' devices l bs,
  )

module _ (h : Host) (specs : h.State → Text → Option Spec) (k : KeepsSpecs h specs)
    (p : Plugin) where
  set_up_group-specs :
      (x : Text) (bus_ids : List Text) (s : h.State)
      → specs (set_up_group h p (x ∷ bus_ids) s).1 ≡ specs (create_common_spec_file h p.cdi s).1
  unfolding set_up_group checked_rsd_path
  set_up_group-specs x bus_ids s = grind (arith, k.files.rsd_group)

  set_up_group-LeavesSpecs :
      (claim_uid : Text) (bus_ids : List Text) (s : h.State)
      → IsClaimUid claim_uid
      → LeavesSpecs h p.cdi specs claim_uid s (set_up_group h p bus_ids s).1
  set_up_group-LeavesSpecs claim_uid [] s u =
      unfold set_up_group in same-LeavesSpecs h p.cdi specs claim_uid s s refl
  set_up_group-LeavesSpecs claim_uid (x ∷ bus_ids) s u =
      then-LeavesSpecs h p.cdi specs claim_uid s _ _
        (create_common_spec_file-LeavesSpecs h p.cdi specs k claim_uid s u)
        (same-LeavesSpecs h p.cdi specs claim_uid _ _ (set_up_group-specs x bus_ids s))

  set_up_group-HasCommonSpec :
      (bus_ids : List Text) (s : h.State) (made : FilePath × List DeviceNode)
      → (set_up_group h p bus_ids s).0 ≡ ok made
      → bus_ids ≢ []
      → HasCommonSpec h p.cdi specs (set_up_group h p bus_ids s).1
  set_up_group-HasCommonSpec [] s made e n = absurd (n refl)
  set_up_group-HasCommonSpec (x ∷ bus_ids) s made e n =
      elim (Result-cases (create_common_spec_file h p.cdi s).0) [
        | inl (u, r) ↦
            (same-LeavesSpecs h p.cdi specs x _ _ (set_up_group-specs x bus_ids s)).common_spec
              (create_common_spec_file-HasCommonSpec h p.cdi specs k s r)
        | inr (y, r) ↦ absurd (unfold set_up_group in ground arith)
      ]

  -- `prepareDevices` leaves the node alone, or sets up a group there.
  prepare_devices-state :
      (claim : Claim) (s : h.State)
      → ((prepare_devices h p claim s).1 ≡ s)
        ⊎ ((bus_ids : List Text) × ((prepare_devices h p claim s).1
              ≡ (set_up_group h p bus_ids s).1))
  unfolding prepare_devices prepare_claim prepare_allocated
  prepare_devices-state claim s = elim (Option-cases claim.results) [
    | inl r ↦ inl (ground arith)
    | inr (allocated, r) ↦ elim (Result-cases (checked_results p (h.sysfs s) allocated)) [
      | inr (x, c) ↦ inl (ground arith)
      | inl (results, c) ↦ elim (Result-cases (npu_bus_ids p results)) [
        | inr (x, b) ↦ inl (ground arith)
        | inl (bus_ids, b) ↦ inr (sort bus_ids, ground arith)
      ]
    ]
  ]

  pub prepare_devices-LeavesSpecs :
      (claim_uid : Text) (claim : Claim) (s : h.State)
      → IsClaimUid claim_uid
      → LeavesSpecs h p.cdi specs claim_uid s (prepare_devices h p claim s).1
  prepare_devices-LeavesSpecs claim_uid claim s u = elim (prepare_devices-state claim s) [
    | inl e ↦ same-LeavesSpecs h p.cdi specs claim_uid s _ (ap specs e)
    | inr (bus_ids, e) ↦ rw e (set_up_group-LeavesSpecs claim_uid bus_ids s u)
  ]

  native-bus_ids :
      (result : AllocationResult) (results : List AllocationResult) (bus_ids : List Text)
      → npu_bus_ids p (result ∷ results) ≡ ok bus_ids
      → (more : List Text) × (npu_bus_ids p results ≡ ok more)
        × (more ≢ [] → bus_ids ≢ [])
        × (is_vfio_device (device_at p result.device) ≡ false → bus_ids ≢ [])
  unfolding npu_bus_ids
  native-bus_ids result results bus_ids e =
      elim (Bool-cases (is_vfio_device (device_at p result.device))) [
        | inl v ↦ (bus_ids, ground arith, λ n. n, λ f. absurd (ground arith))
        | inr v ↦ elim (Result-cases (device_pci_bus_id (device_at p result.device))) [
          | inr (x, a) ↦ absurd (ground arith)
          | inl (bus, a) ↦ elim (Result-cases (npu_bus_ids p results)) [
            | inr (x, r) ↦ absurd (ground arith)
            | inl (more, r) ↦
                let q : bus_ids ≡ bus ∷ more = ground arith in
                (more, r, λ n z. absurd (cc), λ f z. absurd (cc))
          ]
        ]
      ]

  module _ (claim : Claim) (s s' : h.State) (path : FilePath) (nodes : List DeviceNode) where
    prepare_results-AllBacked :
        (progress : Progress) (results : List AllocationResult) (bus_ids : List Text)
        (devices : PreparedDevices)
        → npu_bus_ids p results ≡ ok bus_ids
        → (bus_ids ≢ [] → HasCommonSpec h p.cdi specs s')
        → prepare_results h p s claim path nodes progress results ≡ ok devices
        → AllBacked h p.cdi specs claim.uid s' devices
    prepare_results-AllBacked progress [] bus_ids devices b c e =
        let none_left : devices ≡ [] = unfold prepare_results in ground arith in rw none_left tt
    prepare_results-AllBacked progress (result ∷ results) bus_ids devices b c e =
        let (edits, next, rest, d, e1) =
          prepare_results-cons h p claim (h.sysfs s) s path nodes progress result results devices
            e in
        let (more, b1, later, here) = native-bus_ids result results bus_ids b in
        rw d (
          record {
            include_common = not (is_vfio_device (device_at p result.device));
            ids = unfold prepared_device in refl;
            common = λ i. c (here (ground arith));
          },
          prepare_results-AllBacked next results more rest b1 (λ n. c (later n)) e1,
        )

  prepare_allocated-state :
      (claim : Claim) (allocated : List AllocationResult) (s : h.State)
      (results : List AllocationResult) (bus_ids : List Text)
      → checked_results p (h.sysfs s) allocated ≡ ok results
      → npu_bus_ids p results ≡ ok bus_ids
      → (prepare_allocated h p claim allocated s).1 ≡ (set_up_group h p (sort bus_ids) s).1
  unfolding prepare_allocated
  prepare_allocated-state claim allocated s results bus_ids c b = ground arith

  pub prepare_devices-AllBacked :
      (claim : Claim) (s : h.State) (devices : PreparedDevices)
      → (prepare_devices h p claim s).0 ≡ ok devices
      → AllBacked h p.cdi specs claim.uid (prepare_devices h p claim s).1 devices
  unfolding prepare_devices prepare_claim
  prepare_devices-AllBacked claim s devices e = elim (Option-cases claim.results) [
    | inl r ↦ absurd (ground arith)
    | inr (allocated, r) ↦
        let (results, bus_ids, path, nodes, c, b, g, made) =
          prepare_allocated-ok h p claim allocated s devices (ground arith) in
        let st : (prepare_devices h p claim s).1 ≡ (set_up_group h p (sort bus_ids) s).1 =
          ground (arith, prepare_allocated-state claim allocated s results bus_ids c b) in
        rw st (
          prepare_results-AllBacked claim _ _ path nodes at_start results bus_ids devices b
            (λ n.
              set_up_group-HasCommonSpec (sort bus_ids) s (path, nodes) g
                (λ z. n (sort-empty bus_ids z)))
            made)
  ]
