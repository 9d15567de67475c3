-- ===== src/Tests/Groups.antt =====
-- The RSD group of the claim of both NPUs.
use rbln_k8s_dra_driver.Base.{◌≡◌, ◌⊎◌, refl, List, [], some}
use rbln_k8s_dra_driver.Go.Text.{Text}
use rbln_k8s_dra_driver.Go.FilePath.{FilePath}
use rbln_k8s_dra_driver.Claim.{AllocationResult}
use rbln_k8s_dra_driver.Prepare.Devices.{prepare_devices}
use rbln_k8s_dra_driver.Prepare.Mounts.{ours}
use rbln_k8s_dra_driver.Prepare.Groups.{AllUse, AreNative, prepare_devices-Shown}
use rbln_k8s_dra_driver.Prepare.Shown.{Shown}
use rbln_k8s_dra_driver.Tests.Host.{plugin, claim, results, devices, library, grouped_host}
use rbln_k8s_dra_driver.Tests.HostFacts.{host_facts}

prepare_devices-Shown_example :
    (allocated : List AllocationResult) × (bus_ids : List Text) × (some results ≡ some allocated)
    × AreNative plugin (ours allocated) bus_ids
    × ((bus_ids ≡ [])
        ⊎ ((path : FilePath) × Shown grouped_host library
              (prepare_devices grouped_host plugin claim []).1
              bus_ids
              path
            × AllUse plugin path (ours allocated) devices))
prepare_devices-Shown_example =
    prepare_devices-Shown grouped_host library (λ bus_ids s. refl) plugin claim [] devices
      host_facts.prepares_grouped
