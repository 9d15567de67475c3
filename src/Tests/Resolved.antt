-- ===== src/Tests/Resolved.antt =====
-- Prepared claims on the host that keeps CDI specs.
use rbln_k8s_dra_driver.Base.{refl, [], ◌∷◌, List, inl}
use rbln_k8s_dra_driver.Go.Text.{codes, text_eq}
use rbln_k8s_dra_driver.Go.FilePath.{has_no_slash}
use rbln_k8s_dra_driver.Go.Maps.{lookup, text_key}
use rbln_k8s_dra_driver.Cdi.{vendor, get_claim_devices}
use rbln_k8s_dra_driver.Cdi.Specs.{IsClaimUid}
use rbln_k8s_dra_driver.Prepare.Claims.{prepare, prepared_for, or_nil}
use rbln_k8s_dra_driver.Prepare.Runs.{Served}
use rbln_k8s_dra_driver.Prepare.Resolved.{Resolves, AllDone, run-Served, prepare-Resolves}
use rbln_k8s_dra_driver.Prepare.Refinement.{Call, prepare_call, unprepare_call, run}
use rbln_k8s_dra_driver.Tests.Host.{plugin, claim, unallocated, native_answer, vfio_answer}
use rbln_k8s_dra_driver.Tests.HostFacts.{host_facts}
use rbln_k8s_dra_driver.Tests.Specs.{
  specs_on, spec_host, spec_host-KeepsCheckpoint, spec_host-KeepsSpecs,
}

claim_uid : IsClaimUid claim.uid
unfolding has_no_slash text_eq
claim_uid = record { plain = refl; own = refl }

other_uid : IsClaimUid unallocated.uid
unfolding has_no_slash text_eq
other_uid = record { plain = refl; own = refl }

fresh : Served spec_host plugin.cdi specs_on claim.uid ([], [])
unfolding prepared_for or_nil lookup
fresh = ([], refl, inl refl)

prepare-Resolves_example :
    Resolves spec_host plugin.cdi specs_on
      (prepare spec_host plugin claim ([], [])).1
      (codes "k8s.npu.rebellions.ai/claim=common")
unfolding vendor get_claim_devices
prepare-Resolves_example =
    prepare-Resolves spec_host spec_host-KeepsCheckpoint specs_on spec_host-KeepsSpecs plugin claim
      ([], []) (native_answer ∷ vfio_answer ∷ []) native_answer _ claim_uid fresh
      host_facts.prepares_specs (inl refl) (inl refl)

abbrev calls : List Call
calls =
    prepare_call plugin claim
    ∷ prepare_call plugin unallocated
    ∷ unprepare_call plugin unallocated.uid
    ∷ []

all_done : AllDone spec_host plugin.cdi claim.uid calls ([], [])
unfolding text_eq
all_done =
    ((refl, claim_uid), tt, ((refl, other_uid), tt, ((refl, other_uid), (λ e. absurd (cc)), tt)))

run-Served_example : Served spec_host plugin.cdi specs_on claim.uid (run spec_host calls ([], [])).1
run-Served_example =
    run-Served spec_host spec_host-KeepsCheckpoint specs_on spec_host-KeepsSpecs plugin.cdi
      claim.uid calls ([], []) claim_uid all_done fresh
