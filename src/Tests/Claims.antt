-- ===== src/Tests/Claims.antt =====
-- Preparing and unpreparing a claim of both NPUs of the node.
use rbln_k8s_dra_driver.Go.FilePath.{FilePath}
use rbln_k8s_dra_driver.Go.Maps.{lookup}
use rbln_k8s_dra_driver.Device.Defs.{device_string_attr}
use rbln_k8s_dra_driver.Claim.{get_devices}
use rbln_k8s_dra_driver.Prepare.Node.{wait_for_device_node}
use rbln_k8s_dra_driver.Prepare.Devices.{device_at}
use rbln_k8s_dra_driver.Prepare.Claims.{prepared_for, prepare, unprepare}
use rbln_k8s_dra_driver.Base.{◌≡◌, ◌*◌, refl, List, [], ◌∷◌, ok, err, some, arith}
use rbln_k8s_dra_driver.Go.Text.{codes}
use rbln_k8s_dra_driver.Go.Errors.{not_exist}
use rbln_k8s_dra_driver.Go.Maps.{lookup, text_key}
use rbln_k8s_dra_driver.Claim.{AllocationResult, PreparedClaims, get_devices, no_edits}
use rbln_k8s_dra_driver.Host.{Polls}
use rbln_k8s_dra_driver.Prepare.Claims.{prepare, unprepare, prepared_for}
use rbln_k8s_dra_driver.Prepare.Results.{AnswersAll, prepare_devices-AnswersAll}
use rbln_k8s_dra_driver.Prepare.Laws.{
  SameOthers, prepare_failure, prepare_success, prepare-prepare, unprepare_failure,
  unprepare_success,
}
use rbln_k8s_dra_driver.Prepare.Node.{
  poll_fuel, wait_for_device_node, IsPaced, Waits, Cause, poll_ends,
}
use rbln_k8s_dra_driver.Base.{◌<◌, ℕ}
use rbln_k8s_dra_driver.Base.{◌⊎◌}
use rbln_k8s_dra_driver.Device.Defs.{Device, device_node_name_key}
use rbln_k8s_dra_driver.Claim.{ContainerEdits}
use rbln_k8s_dra_driver.Prepare.Edits.{plain_node, qemu_node, apply_config_lem}
use rbln_k8s_dra_driver.Prepare.Injected.{IsInjected, vfio_container_edits-IsInjected}
use rbln_k8s_dra_driver.Prepare.Node.{vfio_container_edits}
use rbln_k8s_dra_driver.Base.{◌↔◌}
use rbln_k8s_dra_driver.Tests.Node.{sysfs}
use rbln_k8s_dra_driver.Tests.Host.{
  host, keeps, plugin, results, claim, unallocated, native_answer, vfio_answer, not_allocated,
  after, devices, stuck_host, busy, stuck_keeps,
}
use rbln_k8s_dra_driver.Prepare.Mounts.{
  all_mounts, mounts_for, first_uses, vfio_requests, ours, prepare_devices-mounts,
}
use rbln_k8s_dra_driver.Tests.HostFacts.{host_facts}

prepare_failure_example :
    host.get_checkpoint (prepare host plugin unallocated []).1 ≡ host.get_checkpoint []
prepare_failure_example =
    prepare_failure host keeps plugin unallocated [] not_allocated host_facts.refuses

prepare_success_example :
    (stored : PreparedClaims) × (host.get_checkpoint (prepare host plugin claim []).1 ≡ ok stored)
    × (get_devices (prepared_for stored claim.uid) ≡ native_answer ∷ vfio_answer ∷ [])
    × SameOthers claim.uid [] stored
prepare_success_example =
    prepare_success host keeps plugin claim [] [] (native_answer ∷ vfio_answer ∷ []) refl
      host_facts.prepares

prepare-prepare_example :
    prepare host plugin claim after ≡ (ok (native_answer ∷ vfio_answer ∷ []), after)
prepare-prepare_example =
    prepare-prepare host keeps plugin claim [] [] native_answer (vfio_answer ∷ []) refl
      host_facts.prepares

unprepare_failure_example :
    stuck_host.get_checkpoint (unprepare stuck_host plugin claim.uid after).1
    ≡ stuck_host.get_checkpoint after
unprepare_failure_example =
    unprepare_failure stuck_host stuck_keeps plugin claim.uid after busy host_facts.gets_stuck

unprepare_success_example :
    (stored : PreparedClaims) × (host.get_checkpoint (unprepare host plugin claim.uid after).1
      ≡ ok stored)
    × (prepared_for stored claim.uid ≡ [])
    × SameOthers claim.uid after stored
unprepare_success_example =
    unprepare_success host keeps plugin claim.uid after after refl host_facts.unprepares

prepare_devices-AnswersAll_example :
    (allocated : List AllocationResult) × (some results ≡ some allocated)
    × AnswersAll host plugin claim sysfs allocated devices
prepare_devices-AnswersAll_example =
    prepare_devices-AnswersAll host plugin claim [] devices host_facts.prepares_devices

-- A device node that never appears.
abbrev never : Polls
never = record { stat = λ i. err not_exist; elapsed = λ i. i * 100 }

never-IsPaced : IsPaced never
never-IsPaced i = omega arith

poll_ends_example :
    (n : ℕ) × (n < poll_fuel)
    × ((j : ℕ) → j < n → Waits never j)
    × Cause never n (wait_for_device_node never)
poll_ends_example = poll_ends never never-IsPaced

abbrev native_edits_made : ContainerEdits
native_edits_made = record no_edits {
  device_nodes =
      plain_node (codes "dev" ∷ codes "rsd0" ∷ []) (codes "dev" ∷ codes "rsd3" ∷ [])
      ∷ plain_node (codes "dev" ∷ codes "rbln0" ∷ []) (codes "dev" ∷ codes "rbln0" ∷ [])
      ∷ [];
}

apply_config_lem_example :
    (device : Device) × (path : FilePath) × (lookup (codes "rbln0") plugin.allocatable
      ≡ some device)
    × (native_edits_made ≡ record {
      device_nodes =
          plain_node (codes "dev" ∷ codes "rsd0" ∷ []) (codes "dev" ∷ codes "rsd3" ∷ [])
          ∷ plain_node path path
          ∷ [];
      mounts = [];
      hooks = [];
    })
    × ((device_string_attr device device_node_name_key ≡ codes "/")
        ⊎ (path ≡ codes "dev" ∷ device_string_attr device device_node_name_key ∷ []))
apply_config_lem_example =
    apply_config_lem host [] plugin.allocatable (codes "rbln0") (codes "dev" ∷ codes "rsd3" ∷ [])
      native_edits_made host_facts.configures

host-IsPaced : (path : FilePath) → IsPaced (host.polls [] path)
host-IsPaced path i = omega arith

abbrev vfio_edits_made : ContainerEdits
vfio_edits_made = record no_edits {
  device_nodes =
      qemu_node (codes "dev" ∷ codes "vfio" ∷ codes "vfio" ∷ [])
      ∷ qemu_node (codes "dev" ∷ codes "vfio" ∷ codes "12" ∷ [])
      ∷ [];
}

vfio_container_edits-IsInjected_example :
    (vfio_container_edits host [] (device_at plugin (codes "vfio-0000-3b-00-0")) []
      ≡ ok vfio_edits_made)
    ↔ IsInjected host [] host-IsPaced
        (device_at plugin (codes "vfio-0000-3b-00-0"))
        []
        vfio_edits_made
vfio_container_edits-IsInjected_example =
    vfio_container_edits-IsInjected host [] host-IsPaced
      (device_at plugin (codes "vfio-0000-3b-00-0")) [] vfio_edits_made

prepare_devices-mounts_example :
    (allocated : List AllocationResult) × (some results ≡ some allocated)
    × (all_mounts devices
        ≡ mounts_for claim (first_uses [] (vfio_requests plugin (ours allocated))))
prepare_devices-mounts_example =
    prepare_devices-mounts host plugin claim [] devices host_facts.prepares_devices
