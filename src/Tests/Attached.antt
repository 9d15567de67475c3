-- ===== src/Tests/Attached.antt =====
-- The metadata mounts of a prepared claim on the host that keeps files.
use rbln_k8s_dra_driver.Base.{◌≡◌, refl, [], ◌∷◌, List, ok, some, Member}
use rbln_k8s_dra_driver.Go.Text.{text_eq}
use rbln_k8s_dra_driver.Go.FilePath.{has_no_slash, is_element}
use rbln_k8s_dra_driver.Go.Strings.{trim_space, cut_before}
use rbln_k8s_dra_driver.Go.Maps.{lookup, insert, text_key}
use rbln_k8s_dra_driver.Claim.{AllocationResult, Mount, PreparedDevices, get_devices}
use rbln_k8s_dra_driver.Metadata.{allocated_results, kubevirt_metadata_request_name}
use rbln_k8s_dra_driver.Metadata.Files.{AllRequestsNamed}
use rbln_k8s_dra_driver.Prepare.Claims.{prepare, prepared_for, or_nil}
use rbln_k8s_dra_driver.Prepare.Mounts.{all_mounts}
use rbln_k8s_dra_driver.Prepare.Attached.{IsAttached, prepare-IsAttached}
use rbln_k8s_dra_driver.Tests.Host.{plugin, claim, native_answer, vfio_answer}
use rbln_k8s_dra_driver.Tests.HostFacts.{host_facts}
use rbln_k8s_dra_driver.Tests.Files.{
  file_host, before, file_host-KeepsCheckpoint, file_host-KeepsFiles,
}

unknown : prepared_for [] claim.uid ≡ []
unfolding prepared_for or_nil lookup
unknown = refl

named : AllRequestsNamed (allocated_results claim)
unfolding allocated_results kubevirt_metadata_request_name cut_before is_element text_eq
named = (refl, (refl, (refl, tt)))

prepare-IsAttached_example :
    let s' = (prepare file_host plugin claim before).1 in
    (allocated : List AllocationResult) × (devices : PreparedDevices) × (claim.results
      ≡ some allocated)
    × (file_host.get_checkpoint s' ≡ ok (insert claim.uid devices []))
    × (native_answer ∷ vfio_answer ∷ [] ≡ get_devices devices)
    × ((m : Mount)
        → Member m (all_mounts devices)
        → IsAttached file_host plugin claim allocated s' m)
prepare-IsAttached_example =
    prepare-IsAttached file_host file_host-KeepsCheckpoint file_host-KeepsFiles plugin claim []
      before (native_answer ∷ vfio_answer ∷ []) refl unknown named (unfold trim_space in refl)
      (unfold has_no_slash in refl) host_facts.prepares_files
