-- ===== src/Prepare/Paths.antt =====
-- The paths of the metadata of a claim, and its allocated results, in `Prepare` of
-- cmd/npu-kubelet-plugin/state.go.
use rbln_k8s_dra_driver.Base.{◌≡◌, refl, ap, ◌∙◌, true, List, [], ◌∷◌, ◌++◌, some, arith}
use rbln_k8s_dra_driver.Go.Text.{Text, codes, text_eq}
use rbln_k8s_dra_driver.Go.FilePath.{FilePath, join, is_element, has_no_slash, join-is_element}
use rbln_k8s_dra_driver.Go.Maps.{text_key}
use rbln_k8s_dra_driver.Claim.{AllocationResult, Claim}
use rbln_k8s_dra_driver.Metadata.{
  kubevirt_metadata_base_path, kubevirt_metadata_host_dir, allocated_results,
}
use rbln_k8s_dra_driver.Metadata.Written.{file_name, file_path-segments}
use rbln_k8s_dra_driver.Prepare.Sources.{source}

pub uid_dir-is_element :
    (claim_uid : Text)
    → has_no_slash claim_uid ≡ true
    → is_element (codes ".uid-" ++ claim_uid) ≡ true
unfolding is_element has_no_slash text_eq
uid_dir-is_element claim_uid e = ground arith

-- The mounted files lie under the plugin's directory.
abbrev pub under_root : Claim → Text → FilePath
under_root claim request =
    codes "resourceclaims" ∷ (codes ".uid-" ++ claim.uid) ∷ request ∷ file_name ∷ []

pub subdir-is_element : is_element (codes "resourceclaims") ≡ true
unfolding is_element has_no_slash text_eq
subdir-is_element = refl

pub host_dir-segments :
    (base : FilePath) (claim_uid : Text)
    → has_no_slash claim_uid ≡ true
    → kubevirt_metadata_host_dir base claim_uid
      ≡ base ++ (codes "resourceclaims" ∷ []) ++ ((codes ".uid-" ++ claim_uid) ∷ [])
unfolding kubevirt_metadata_host_dir
host_dir-segments base claim_uid u =
    join-is_element (join base (codes "resourceclaims")) (codes ".uid-" ++ claim_uid)
      (uid_dir-is_element claim_uid u)
    ∙ ap (λ (dir : FilePath). dir ++ ((codes ".uid-" ++ claim_uid) ∷ []))
        (join-is_element base (codes "resourceclaims") subdir-is_element)

pub source-under_root :
    (claim : Claim) (request : Text)
    → has_no_slash claim.uid ≡ true
    → is_element request ≡ true
    → source claim request ≡ kubevirt_metadata_base_path ++ under_root claim request
source-under_root claim request u e =
    file_path-segments (kubevirt_metadata_host_dir kubevirt_metadata_base_path claim.uid) request e
    ∙ ap (λ (dir : FilePath). dir ++ (request ∷ []) ++ (file_name ∷ []))
        (host_dir-segments kubevirt_metadata_base_path claim.uid u)

pub allocated_results-some :
    (claim : Claim) (allocated : List AllocationResult)
    → claim.results ≡ some allocated
    → allocated_results claim ≡ allocated
unfolding allocated_results
allocated_results-some claim allocated r = rw r refl
