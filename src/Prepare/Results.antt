-- ===== src/Prepare/Results.antt =====
-- Which devices `prepareDevices` of cmd/npu-kubelet-plugin/state.go prepares.
use rbln_k8s_dra_driver.Base.{
  ◌≡◌, refl, sym, ap, ◌∙◌, true, false, not, List, [], ◌∷◌, ok, Option, none, some, if◌then◌else◌,
  arith, inl, inr, Result-cases, >>=-eq-ok, Option-cases, Bool-cases,
}
use rbln_k8s_dra_driver.Go.Text.{Text, text_eq, text_eq_sound}
use rbln_k8s_dra_driver.Go.FilePath.{FilePath}
use rbln_k8s_dra_driver.Go.Maps.{lookup, text_key}
use rbln_k8s_dra_driver.Pci.Sysfs.{Sysfs}
use rbln_k8s_dra_driver.Device.Defs.{Device, is_vfio_device}
use rbln_k8s_dra_driver.Validate.{validate_allocated_device}
use rbln_k8s_dra_driver.Claim.{
  driver_name, AllocationResult, Claim, DeviceNode, PreparedDevice, PreparedDevices, ContainerEdits,
}
use rbln_k8s_dra_driver.Host.{Host}
use rbln_k8s_dra_driver.Cdi.{get_claim_devices}
use rbln_k8s_dra_driver.Prepare.Devices.{
  Plugin, Progress, device_or_zero, device_at, check_result, checked_results, prepared_device,
  progress_after, vfio_edits, native_edits, prepare_results, prepare_claim, prepare_allocated,
  prepare_devices, npu_bus_ids, set_up_group, sort, at_start,
}

-- A prepared device that answers a result: of the pool of this node, published, and the same
-- function as when it was published.
pub record Answers (h : Host) (p : Plugin) (claim : Claim) (fs : Sysfs) (result : AllocationResult)
    (d : PreparedDevice) : Type 0 where
  pub device : Device
  pub allocatable : lookup result.device p.allocatable ≡ some device
  pub validated : validate_allocated_device fs p.sysfs_root device ≡ ok tt
  pub pool : result.pool ≡ p.node_name
  pub request_names : d.request_names ≡ result.request ∷ []
  pub pool_name : d.pool_name ≡ p.node_name
  pub device_name : d.device_name ≡ result.device
  pub cdi_device_ids :
      d.cdi_device_ids
      ≡ get_claim_devices h p.cdi claim.uid (result.device ∷ []) (not (is_vfio_device device))

-- The devices answer the results of this driver one by one, in their order.
pub data AnswersAll (h : Host) (p : Plugin) (claim : Claim) (fs : Sysfs)
    : List AllocationResult → PreparedDevices → Type 0 where
  done : AnswersAll h p claim fs [] []
  foreign :
      {result : AllocationResult} {results : List AllocationResult} {devices : PreparedDevices}
      → text_eq result.driver driver_name ≡ false
      → AnswersAll h p claim fs results devices
      → AnswersAll h p claim fs (result ∷ results) devices
  answered :
      {result : AllocationResult} {results : List AllocationResult} {d : PreparedDevice}
      {devices : PreparedDevices}
      → text_eq result.driver driver_name ≡ true
      → Answers h p claim fs result d
      → AnswersAll h p claim fs results devices
      → AnswersAll h p claim fs (result ∷ results) (d ∷ devices)

module _ (h : Host) (p : Plugin) (claim : Claim) (fs : Sysfs) where
  check_result-ok :
      (result : AllocationResult) (o : Option Device)
      → check_result p fs result o ≡ ok tt
      → (device : Device) × (o ≡ some device)
        × (result.pool ≡ p.node_name)
        × (validate_allocated_device fs p.sysfs_root device ≡ ok tt)
  unfolding check_result
  check_result-ok result none e = absurd (cc)
  check_result-ok result (some device) e =
      (device, refl, text_eq_sound result.pool p.node_name (ground arith), ground arith)

  checked_results-ours :
      (result : AllocationResult) (results checked : List AllocationResult)
      → text_eq result.driver driver_name ≡ true
      → checked_results p fs (result ∷ results) ≡ ok checked
      → (more : List AllocationResult) × (check_result p fs result
            (lookup result.device p.allocatable)
          ≡ ok tt)
        × (checked_results p fs results ≡ ok more)
        × (checked ≡ result ∷ more)
  unfolding checked_results
  checked_results-ours result results checked ours c =
      elim (Result-cases (checked_results p fs results)) [
        | inl (more, r) ↦ (more, ground arith, r, ground arith)
        | inr (x, r) ↦ absurd (ground arith)
      ]

  checked_results-foreign :
      (result : AllocationResult) (results : List AllocationResult)
      → text_eq result.driver driver_name ≡ false
      → checked_results p fs (result ∷ results) ≡ checked_results p fs results
  unfolding checked_results
  checked_results-foreign result results theirs = ground arith

  prepared_device-Answers :
      (result : AllocationResult) (edits : ContainerEdits) (s : h.State) (host_rsd_path : FilePath)
      (nodes : List DeviceNode)
      → check_result p fs result (lookup result.device p.allocatable) ≡ ok tt
      → Answers h p claim fs result (prepared_device h p s claim host_rsd_path nodes result edits)
  unfolding prepared_device device_at device_or_zero
  prepared_device-Answers result edits s host_rsd_path nodes c =
      let (device, found, pool, validated) =
        check_result-ok result (lookup result.device p.allocatable) c in
      record {
        device = device;
        allocatable = found;
        validated = validated;
        pool = pool;
        request_names = refl;
        pool_name = pool;
        device_name = refl;
        cdi_device_ids = rw found refl;
      }

  module _ (s : h.State) (host_rsd_path : FilePath) (nodes : List DeviceNode) where
    pub prepare_results-cons :
        (progress : Progress) (result : AllocationResult) (results : List AllocationResult)
        (devices : PreparedDevices)
        → prepare_results h p s claim host_rsd_path nodes progress (result ∷ results) ≡ ok devices
        → (edits : ContainerEdits) × (next : Progress) × (rest : PreparedDevices) × (devices
            ≡ prepared_device h p s claim host_rsd_path nodes result edits ∷ rest)
          × (prepare_results h p s claim host_rsd_path nodes next results ≡ ok rest)
    unfolding prepare_results
    prepare_results-cons progress result results devices e =
        let (edits, a, e1) =
          >>=-eq-ok
            (if is_vfio_device (device_at p result.device)
              then vfio_edits h p s claim host_rsd_path nodes progress result
              else native_edits h p s claim host_rsd_path nodes progress result)
            _ e in
        let (rest, b, e2) =
          >>=-eq-ok
            (prepare_results h p s claim host_rsd_path nodes
              (progress_after h p s claim host_rsd_path nodes progress result) results)
            _ e1 in
        (edits, _, rest, ground arith, b)

    prepare_results-AnswersAll :
        (allocated results : List AllocationResult) (progress : Progress)
        (devices : PreparedDevices)
        → checked_results p fs allocated ≡ ok results
        → prepare_results h p s claim host_rsd_path nodes progress results ≡ ok devices
        → AnswersAll h p claim fs allocated devices
    prepare_results-AnswersAll [] results progress devices c e =
        let none_left : devices ≡ [] = unfold checked_results prepare_results in ground arith in
        rw none_left done
    prepare_results-AnswersAll (result ∷ allocated) results progress devices c e =
        elim (Bool-cases (text_eq result.driver driver_name)) [
          | inl ours ↦
              let (more, checked, c1, same) =
                checked_results-ours result allocated results ours c in
              let (edits, next, rest, d, e1) =
                prepare_results-cons progress result more devices
                  (ap (prepare_results h p s claim host_rsd_path nodes progress) (sym same) ∙ e) in
              rw d (
                answered ours (prepared_device-Answers result edits s host_rsd_path nodes checked)
                  (prepare_results-AnswersAll allocated more next rest c1 e1))
          | inr theirs ↦ foreign theirs (
              prepare_results-AnswersAll allocated results progress devices
                (sym (checked_results-foreign result allocated theirs) ∙ c) e)
        ]

-- A success of the three loops: the results that were checked, the addresses of their native devices,
-- what the set-up of the RSD group gave for them, and the third loop on that.
pub prepare_allocated-ok :
    (h : Host) (p : Plugin) (claim : Claim) (allocated : List AllocationResult) (s : h.State)
    (devices : PreparedDevices)
    → (prepare_allocated h p claim allocated s).0 ≡ ok devices
    → (results : List AllocationResult) × (bus_ids : List Text) × (host_rsd_path : FilePath)
      × (nodes : List DeviceNode) × (checked_results p (h.sysfs s) allocated ≡ ok results)
      × (npu_bus_ids p results ≡ ok bus_ids)
      × ((set_up_group h p (sort bus_ids) s).0 ≡ ok (host_rsd_path, nodes))
      × (prepare_results h p
            (set_up_group h p (sort bus_ids) s).1
            claim
            host_rsd_path
            nodes
            at_start
            results
          ≡ ok devices)
unfolding prepare_allocated
prepare_allocated-ok h p claim allocated s devices e =
    elim (Result-cases (checked_results p (h.sysfs s) allocated)) [
      | inr (x, r) ↦ absurd (ground arith)
      | inl (results, r) ↦ elim (Result-cases (npu_bus_ids p results)) [
        | inr (x, b) ↦ absurd (ground arith)
        | inl (bus_ids, b) ↦ elim (Result-cases (set_up_group h p (sort bus_ids) s).0) [
          | inr (x, g) ↦ absurd (ground arith)
          | inl ((host_rsd_path, nodes), g) ↦
              (results, bus_ids, host_rsd_path, nodes, r, b, g, ground arith)
        ]
      ]
    ]

-- The devices that a successful `prepareDevices` returns answer the allocation results of this
-- driver one by one and in their order, results of other drivers being passed over: each stands for
-- a published device of this node's pool that passes the check against sysfs, carries the
-- request, the pool and the name of its result and its CDI device ids, with the common device unless
-- it is passed through. The claim is allocated.
pub prepare_devices-AnswersAll :
    (h : Host) (p : Plugin) (claim : Claim) (s : h.State) (devices : PreparedDevices)
    → (prepare_devices h p claim s).0 ≡ ok devices
    → (allocated : List AllocationResult) × (claim.results ≡ some allocated)
      × AnswersAll h p claim (h.sysfs s) allocated devices
unfolding prepare_devices prepare_claim
prepare_devices-AnswersAll h p claim s devices e = elim (Option-cases claim.results) [
  | inl r ↦ absurd (ground arith)
  | inr (allocated, r) ↦
      let (results, bus_ids, host_rsd_path, nodes, c, b, g, made) =
        prepare_allocated-ok h p claim allocated s devices (ground arith) in
      (
        allocated,
        r,
        prepare_results-AnswersAll h p claim (h.sysfs s) _ host_rsd_path nodes allocated results
            at_start devices c made,
      )
]
