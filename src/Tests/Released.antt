-- ===== src/Tests/Released.antt =====
-- What is left of a claim after `Unprepare`, on the host that keeps directories.
use rbln_k8s_dra_driver.Base.{◌≡◌, refl, [], ok, none}
use rbln_k8s_dra_driver.Claim.{PreparedClaims}
use rbln_k8s_dra_driver.Cdi.Specs.{spec_name}
use rbln_k8s_dra_driver.Metadata.{kubevirt_metadata_base_path}
use rbln_k8s_dra_driver.Metadata.Cleanup.{IsCleaned}
use rbln_k8s_dra_driver.Prepare.Claims.{unprepare, prepared_for}
use rbln_k8s_dra_driver.Prepare.Released.{unprepare-IsCleaned}
use rbln_k8s_dra_driver.Tests.Host.{plugin, claim}
use rbln_k8s_dra_driver.Tests.HostFacts.{host_facts}
use rbln_k8s_dra_driver.Tests.Tree.{
  tree_host, specs_in, grown, tree_host-KeepsCheckpoint, tree_host-KeepsSpecs, tree_host-KeepsDirs,
}

unprepare-IsCleaned_example :
    let s' = (unprepare tree_host plugin claim.uid grown).1 in
    ((after : PreparedClaims) × (tree_host.get_checkpoint s' ≡ ok after)
      × (prepared_for after claim.uid ≡ []))
    × (specs_in s' (spec_name tree_host plugin.cdi claim.uid) ≡ none)
    × IsCleaned tree_host kubevirt_metadata_base_path tree_host-KeepsDirs claim.uid s'
unprepare-IsCleaned_example =
    unprepare-IsCleaned tree_host tree_host-KeepsCheckpoint specs_in tree_host-KeepsSpecs
      tree_host-KeepsDirs plugin claim.uid grown.claims grown refl host_facts.tree_known
      host_facts.unprepares_tree
