-- ===== src/Prepare/Attached.antt =====
-- The metadata mounts of a prepared claim have their files: `Prepare` of
-- cmd/npu-kubelet-plugin/state.go.
use rbln_k8s_dra_driver.Base.{
  ◌≡◌, refl, sym, ap, ◌∙◌, subst, true, List, [], ◌++◌, ok, some, inl, inr, Member, Result-cases,
  map_err-eq-ok,
}
use rbln_k8s_dra_driver.Go.Text.{Text, codes}
use rbln_k8s_dra_driver.Go.FilePath.{FilePath, is_element, has_no_slash}
use rbln_k8s_dra_driver.Go.Strings.{trim_space}
use rbln_k8s_dra_driver.Go.Maps.{insert, text_key}
use rbln_k8s_dra_driver.Claim.{
  AllocationResult, Claim, DraDevice, Mount, PreparedDevices, PreparedClaims, get_devices,
}
use rbln_k8s_dra_driver.Host.{Host, wrapping, ◌>>=◌}
use rbln_k8s_dra_driver.Host.Laws.{KeepsCheckpoint}
use rbln_k8s_dra_driver.Host.Files.{Holds, KeepsFile, KeepsFiles}
use rbln_k8s_dra_driver.Cdi.{CdiHandler, kind, claim_spec_devices, create_claim_spec_file}
use rbln_k8s_dra_driver.Metadata.{
  kubevirt_metadata_base_path, kubevirt_metadata_host_dir, pod_claim_name_of, allocated_results,
  write_kubevirt_metadata,
}
use rbln_k8s_dra_driver.Metadata.Laws.{entries_for}
use rbln_k8s_dra_driver.Metadata.Files.{AllRequestsNamed}
use rbln_k8s_dra_driver.Metadata.Written.{HasFile, document}
use rbln_k8s_dra_driver.Metadata.Directory.{write_kubevirt_metadata-HasFile}
use rbln_k8s_dra_driver.Prepare.Devices.{Plugin, prepare_devices}
use rbln_k8s_dra_driver.Prepare.Claims.{
  write_metadata, claim_has_vfio_device, prepare, prepare_fresh, prepare_unless, prepared_for,
  or_roll_back,
}
use rbln_k8s_dra_driver.Prepare.Steps.{prepare_fresh-ok, or_roll_back_ok}
use rbln_k8s_dra_driver.Prepare.Fresh.{prepare_fresh-steps}
use rbln_k8s_dra_driver.Prepare.Laws.{prepare_reads}
use rbln_k8s_dra_driver.Prepare.Mounts.{all_mounts, prepare_devices-mounts}
use rbln_k8s_dra_driver.Prepare.Sources.{
  source, IsWritten, vfio_requests-IsWritten, mounts_for-source, first_uses-Member,
}
use rbln_k8s_dra_driver.Prepare.Paths.{under_root, source-under_root, allocated_results-some}

module _ (h : Host) (root : FilePath) (f : KeepsFiles h root) where
  create_claim_spec_file-KeepsFile :
      (cdi : CdiHandler) (claim_uid : Text) (devices : PreparedDevices) (q : FilePath)
      → KeepsFile h (create_claim_spec_file h cdi claim_uid devices) (root ++ q)
  unfolding create_claim_spec_file
  create_claim_spec_file-KeepsFile cdi claim_uid devices q s content held =
      elim (Result-cases (
        h.minimum_required_version (record {
          version = [];
          kind = kind cdi;
          devices = claim_spec_devices h claim_uid devices;
        }))) [
          | inr (e, v) ↦ rw (v, ◌>>=◌) held
          | inl (version, v) ↦ rw (v, ◌>>=◌) (f.write_spec _ _ q s content held)
        ]

module _ (h : Host) (f : KeepsFiles h kubevirt_metadata_base_path) (p : Plugin)
    (claim : Claim) where
  -- A written request has its file after the metadata was written.
  write_metadata-HasFile :
      (allocated : List AllocationResult) (s : h.State) (request : Text)
      → claim.results ≡ some allocated
      → AllRequestsNamed allocated
      → trim_space (claim.uid ++ codes "\n") ≡ claim.uid
      → (write_metadata h p claim s).0 ≡ ok tt
      → IsWritten p allocated request
      → HasFile h
          (kubevirt_metadata_host_dir kubevirt_metadata_base_path claim.uid)
          (pod_claim_name_of claim.pod_claim_name)
          (write_metadata h p claim s).1
          request
          (entries_for p.allocatable request allocated)
  write_metadata-HasFile allocated s request r named trimmed e (el, any, n) =
      let write = write_kubevirt_metadata h kubevirt_metadata_base_path claim p.allocatable in
      let written = wrapping "unable to write KubeVirt device metadata" write in
      let vfio : claim_has_vfio_device p.allocatable claim ≡ true =
        unfold claim_has_vfio_device allocated_results in rw r any in
      let same : write_metadata h p claim s ≡ or_roll_back h claim.uid written s =
        unfold write_metadata in rw vfio refl in
      let (done, at) = or_roll_back_ok h claim.uid written s (sym (ap (λ x. x.0) same) ∙ e) in
      let (marked, files) =
        write_kubevirt_metadata-HasFile h kubevirt_metadata_base_path f kubevirt_metadata_base_path
          claim p.allocatable allocated s r named trimmed (map_err-eq-ok _ _ done) in
      subst
        (λ t.
          HasFile h (kubevirt_metadata_host_dir kubevirt_metadata_base_path claim.uid)
            (pod_claim_name_of claim.pod_claim_name) t request
            (entries_for p.allocatable request allocated))
        (sym (ap (λ x. x.1) same ∙ at)) (files request n)

  -- The steps that follow keep the file.
  fresh-Holds :
      (claims : PreparedClaims) (devices : PreparedDevices) (s : h.State) (request content : Text)
      → has_no_slash claim.uid ≡ true
      → is_element request ≡ true
      → Holds h s (source claim request) content
      → let s3 = (create_claim_spec_file h p.cdi claim.uid devices s).1 in
        Holds h
          (h.create_checkpoint (insert claim.uid devices claims) s3).1
          (source claim request)
          content
  fresh-Holds claims devices s request content u e held =
      let root = kubevirt_metadata_base_path in
      let q = under_root claim request in
      let at = source-under_root claim request u e in
      let s3 = (create_claim_spec_file h p.cdi claim.uid devices s).1 in
      let held' = subst (λ t. Holds h s t content) at held in
      subst (λ t. Holds h (h.create_checkpoint (insert claim.uid devices claims) s3).1 t content)
        (sym at)
        (f.create_checkpoint (insert claim.uid devices claims) q _ content
          (create_claim_spec_file-KeepsFile h root f p.cdi claim.uid devices q s content held'))

module _ (h : Host) (p : Plugin) (claim : Claim) where
  -- A mount whose file is there, with the JSON of the devices of a request.
  abbrev pub IsAttached : List AllocationResult → h.State → Mount → Type 0
  IsAttached allocated s m =
      (request : Text) × (content : Text) × (m.host_path ≡ source claim request)
      × Holds h s m.host_path content
      × (h.marshal_metadata (
            document (pod_claim_name_of claim.pod_claim_name) request
              (entries_for p.allocatable request allocated))
          ≡ ok content)

module _ (h : Host) (k : KeepsCheckpoint h) (f : KeepsFiles h kubevirt_metadata_base_path)
    (p : Plugin) where
  -- Where the checkpoint and files are kept as documented, the requests of the allocated devices are
  -- names of directories, and the claim's UID has no slash or space: a successful `Prepare` of a
  -- claim that the checkpoint did not hold stores its devices, and for every mount among their
  -- edits the file to be mounted is then on the node, and holds the JSON of one request with exactly
  -- the published devices of this driver that are allocated for it. The claim is allocated.
  pub prepare-IsAttached :
      (claim : Claim) (claims : PreparedClaims) (s : h.State) (ds : List DraDevice)
      → h.get_checkpoint s ≡ ok claims
      → prepared_for claims claim.uid ≡ []
      → AllRequestsNamed (allocated_results claim)
      → trim_space (claim.uid ++ codes "\n") ≡ claim.uid
      → has_no_slash claim.uid ≡ true
      → (prepare h p claim s).0 ≡ ok ds
      → let s' = (prepare h p claim s).1 in
        (allocated : List AllocationResult) × (devices : PreparedDevices) × (claim.results
          ≡ some allocated)
        × (h.get_checkpoint s' ≡ ok (insert claim.uid devices claims))
        × (ds ≡ get_devices devices)
        × ((m : Mount) → Member m (all_mounts devices) → IsAttached h p claim allocated s' m)
  prepare-IsAttached claim claims s ds read unknown named trimmed u e =
      let same : prepare h p claim s ≡ prepare_fresh h p claim claims s =
        prepare_reads h p claim claims s read
        ∙ ap (λ d. prepare_unless h p claim claims d s) unknown
        ∙ unfold prepare_unless in refl in
      let r = sym (ap (λ x. x.0) same) ∙ e in
      let (devices, made, answer, stored) = prepare_fresh-ok h k p claim claims s ds r in
      let (wrote, spec, saved, last) = prepare_fresh-steps h p claim claims s devices ds made r in
      let (allocated, alloc, mounts) = prepare_devices-mounts h p claim s devices made in
      let its = allocated_results-some claim allocated alloc in
      let named' = subst AllRequestsNamed its named in
      (
        allocated,
        devices,
        alloc,
        ap (λ x. h.get_checkpoint x.1) same ∙ stored,
        answer,
        λ m there.
            let s1 = (prepare_devices h p claim s).1 in
            let s2 = (write_metadata h p claim s1).1 in
            let s3 = (create_claim_spec_file h p.cdi claim.uid devices s2).1 in
            let (request, used, path) =
              mounts_for-source claim _ m (subst (Member m) mounts there) in
            let written =
              vfio_requests-IsWritten p allocated request named'
                (first_uses-Member [] _ request used) in
            let file =
              write_metadata-HasFile h f p claim allocated s1 request alloc named' trimmed wrote
                written in
            (
              request,
              file.content,
              path,
              subst (λ t. Holds h t m.host_path file.content) (sym (ap (λ x. x.1) same ∙ last))
                  (subst
                    (λ t.
                      Holds h (h.create_checkpoint (insert claim.uid devices claims) s3).1 t
                        file.content)
                    (sym path)
                    (fresh-Holds h f p claim claims devices s2 request file.content u written.0
                      file.there)),
              file.encoded,
            ),
      )
