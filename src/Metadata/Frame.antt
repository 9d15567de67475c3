-- ===== src/Metadata/Frame.antt =====
-- What writing and removing metadata leaves as it was.
use rbln_k8s_dra_driver.Base.{refl, List, [], ◌∷◌, Option, arith}
use rbln_k8s_dra_driver.Go.Text.{Text}
use rbln_k8s_dra_driver.Go.FilePath.{FilePath}
use rbln_k8s_dra_driver.Go.Maps.{text_key}
use rbln_k8s_dra_driver.State.Defs.{AllocatableDevices}
use rbln_k8s_dra_driver.Claim.{Claim}
use rbln_k8s_dra_driver.Host.{Host, DirEntry, MetadataDevice}
use rbln_k8s_dra_driver.Host.Laws.{Keeps, Untouched}
use rbln_k8s_dra_driver.Metadata.{
  DevicesByRequest, claim_metadata_ownership, write_request, write_requests,
  write_kubevirt_metadata, remove_owned, remove_under, remove_kubevirt_metadata_for_claim,
}

module _ (h : Host) {V : Type 0} (view : h.State → V) (k : Untouched h view) where
  write_request-Keeps :
      (dir : FilePath) (name : Option Text) (request : Text) (devices : List MetadataDevice)
      → Keeps h view (write_request h dir name request devices)
  unfolding write_request
  write_request-Keeps dir name request devices s =
      grind (arith, k.mkdir_all, k.write_file, k.rename)

  write_requests-Keeps :
      (dir : FilePath) (name : Option Text) (m : DevicesByRequest)
      → Keeps h view (write_requests h dir name m)
  unfolding write_requests
  write_requests-Keeps dir name [] s = refl
  write_requests-Keeps dir name ((request, devices) ∷ m) s =
      grind (arith, write_request-Keeps dir name request devices s, write_requests-Keeps dir name m)

  claim_metadata_ownership-Keeps :
      (dir : FilePath) (claim_uid : Text) → Keeps h view (claim_metadata_ownership h dir claim_uid)
  unfolding claim_metadata_ownership
  claim_metadata_ownership-Keeps dir claim_uid s = grind (arith, k.mkdir_all, k.write_file)

  pub write_kubevirt_metadata-Keeps :
      (base : FilePath) (claim : Claim) (allocatable : AllocatableDevices)
      → Keeps h view (write_kubevirt_metadata h base claim allocatable)
  unfolding write_kubevirt_metadata
  write_kubevirt_metadata-Keeps base claim allocatable s =
      grind (arith, claim_metadata_ownership-Keeps, write_requests-Keeps)

  remove_owned-Keeps :
      (parent : FilePath) (claim_uid : Text) (entries : List DirEntry)
      → Keeps h view (remove_owned h parent claim_uid entries)
  unfolding remove_owned
  remove_owned-Keeps parent claim_uid [] s = refl
  remove_owned-Keeps parent claim_uid (entry ∷ entries) s =
      grind (arith, k.remove_all, remove_owned-Keeps parent claim_uid entries)

  remove_under-Keeps :
      (parent : FilePath) (claim_uid : Text) → Keeps h view (remove_under h parent claim_uid)
  unfolding remove_under
  remove_under-Keeps parent claim_uid s = grind (arith, remove_owned-Keeps)

  pub remove_kubevirt_metadata_for_claim-Keeps :
      (base : FilePath) (claim_uid : Text)
      → Keeps h view (remove_kubevirt_metadata_for_claim h base claim_uid)
  unfolding remove_kubevirt_metadata_for_claim
  remove_kubevirt_metadata_for_claim-Keeps base claim_uid s = grind (arith, remove_under-Keeps)
