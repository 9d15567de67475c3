-- ===== src/Metadata/Directory.antt =====
-- The metadata directory of a claim after `writeKubeVirtMetadata` of
-- cmd/npu-kubelet-plugin/kubevirt_metadata.go.
use rbln_k8s_dra_driver.Base.{
  ◌≡◌, ◌≢◌, refl, sym, ap, ◌∙◌, true, List, [], ◌∷◌, ◌++◌, ok, some, arith, inl, inr, Bool-cases,
  Result-cases, Option-cases,
}
use rbln_k8s_dra_driver.Go.Text.{Text, codes, text_eq, text_eq_sound}
use rbln_k8s_dra_driver.Go.FilePath.{FilePath, join, is_element, has_no_slash, join-is_element}
use rbln_k8s_dra_driver.Go.Strings.{trim_space}
use rbln_k8s_dra_driver.Go.Maps.{lookup, text_key}
use rbln_k8s_dra_driver.State.Defs.{AllocatableDevices}
use rbln_k8s_dra_driver.Claim.{AllocationResult, Claim}
use rbln_k8s_dra_driver.Host.{Host, ◌>>◌}
use rbln_k8s_dra_driver.Host.Files.{Holds, KeepsFiles}
use rbln_k8s_dra_driver.Host.Laws.{>>=-ok}
use rbln_k8s_dra_driver.Metadata.{
  kubevirt_metadata_host_dir, kubevirt_metadata_owner_file, pod_claim_name_of, devices_at,
  group_by_request, allocated_results, owner_of, claim_by, claim_metadata_ownership, write_requests,
  write_kubevirt_metadata,
}
use rbln_k8s_dra_driver.Metadata.Laws.{entries_for, group_by_request_lem}
use rbln_k8s_dra_driver.Metadata.Written.{HasFile}
use rbln_k8s_dra_driver.Metadata.Files.{
  AllRequestsNamed, group_by_request-NodupKeys, write_requests-Holds, write_requests-HasFile,
  AllAside-marker,
}

pub owner_file-is_element : is_element kubevirt_metadata_owner_file ≡ true
unfolding is_element has_no_slash text_eq
owner_file-is_element = refl

module _ (h : Host) (root : FilePath) (k : KeepsFiles h root) where
  -- The directory has a marker that names the claim.
  abbrev pub IsMarked : h.State → FilePath → Text → Type 0
  IsMarked s dir claim_uid =
      (content : Text) × Holds h s (dir ++ (kubevirt_metadata_owner_file ∷ [])) content
      × (trim_space content ≡ claim_uid)

  claim_metadata_ownership-IsMarked :
      (dir : FilePath) (claim_uid : Text) (s : h.State)
      → trim_space (claim_uid ++ codes "\n") ≡ claim_uid
      → (claim_metadata_ownership h dir claim_uid s).0 ≡ ok tt
      → IsMarked (claim_metadata_ownership h dir claim_uid s).1 dir claim_uid
  unfolding claim_metadata_ownership claim_by owner_of
  claim_metadata_ownership-IsMarked dir claim_uid s trimmed e =
      let marker = join dir kubevirt_metadata_owner_file in
      rw (← (join-is_element dir kubevirt_metadata_owner_file owner_file-is_element))
        (elim (Result-cases (h.read_file s marker)) [
          | inl (content, r) ↦ elim (Bool-cases (text_eq (trim_space content) claim_uid)) [
            | inl same ↦ (content, ground arith, text_eq_sound (trim_space content) claim_uid same)
            | inr other ↦ absurd (ground arith)
          ]
          | inr (x, r) ↦ elim (Result-cases (h.mkdir_all dir s).0) [
            | inl (u, made) ↦ (
              claim_uid ++ codes "\n",
              ground (arith, k.write-ok marker (claim_uid ++ codes "\n") (h.mkdir_all dir s).1),
              trimmed,
            )
            | inr (y, made) ↦ absurd (ground arith)
          ]
        ])

  grouped-entries_for :
      (allocatable : AllocatableDevices) (results : List AllocationResult) (request : Text)
      → entries_for allocatable request results ≢ []
      → lookup request (group_by_request allocatable [] results)
        ≡ some (entries_for allocatable request results)
  grouped-entries_for allocatable results request some_there =
      let all = group_by_request_lem allocatable [] results request in
      elim (Option-cases (lookup request (group_by_request allocatable [] results))) [
        | inl missing ↦ absurd (some_there (unfold lookup devices_at in ground (arith, all)))
        | inr (devices, found) ↦ unfold lookup devices_at in ground (arith, all)
      ]

  -- Where files behave as documented, the requests of the allocated devices are names of
  -- directories, and the claim's UID has no space around it: after a success, the claim's directory
  -- is marked as its own, and for each request with published devices of this driver the file that
  -- is mounted for it is there, and holds the JSON of the request with exactly these devices, in the
  -- order of the allocation. The claim is allocated.
  pub write_kubevirt_metadata-HasFile :
      (base : FilePath) (claim : Claim) (allocatable : AllocatableDevices)
      (results : List AllocationResult) (s : h.State)
      → claim.results ≡ some results
      → AllRequestsNamed results
      → trim_space (claim.uid ++ codes "\n") ≡ claim.uid
      → (write_kubevirt_metadata h base claim allocatable s).0 ≡ ok tt
      → let dir = kubevirt_metadata_host_dir base claim.uid in
        let s' = (write_kubevirt_metadata h base claim allocatable s).1 in
        IsMarked s' dir claim.uid
        × ((request : Text)
            → entries_for allocatable request results ≢ []
            → HasFile h dir
                (pod_claim_name_of claim.pod_claim_name)
                s'
                request
                (entries_for allocatable request results))
  write_kubevirt_metadata-HasFile base claim allocatable results s allocated named trimmed e =
      let dir = kubevirt_metadata_host_dir base claim.uid in
      let pod = pod_claim_name_of claim.pod_claim_name in
      let m = group_by_request allocatable [] results in
      let s1 = (claim_metadata_ownership h dir claim.uid s).1 in
      let (keys, nodup) = group_by_request-NodupKeys allocatable results [] named tt tt in
      let same : write_kubevirt_metadata h base claim allocatable s
          ≡ (claim_metadata_ownership h dir claim.uid >> write_requests h dir pod m) s =
        unfold write_kubevirt_metadata allocated_results in rw allocated refl in
      let (u, owned, rest) =
        >>=-ok h (claim_metadata_ownership h dir claim.uid) (λ done. write_requests h dir pod m) s
          tt (sym (ap (λ r. r.0) same) ∙ e) in
      let written = sym (ap (λ r. r.0) (same ∙ rest)) ∙ e in
      let (content, there, names) =
        claim_metadata_ownership-IsMarked dir claim.uid s trimmed owned in
      let held =
        write_requests-Holds h root k dir pod m s1 _ content
          (AllAside-marker h root k dir pod m kubevirt_metadata_owner_file keys) written there in
      rw (same ∙ rest) (
        (content, held, names),
        λ request some_there.
            write_requests-HasFile h root k dir pod m s1 request _ keys nodup written
              (grouped-entries_for allocatable results request some_there),
      )
