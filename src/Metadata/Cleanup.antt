-- ===== src/Metadata/Cleanup.antt =====
-- What `removeKubeVirtMetadataForClaim` of cmd/npu-kubelet-plugin/kubevirt_metadata.go leaves of the
-- metadata of a claim on the node.
use rbln_k8s_dra_driver.Base.{
  ◌≡◌, refl, sym, ap, ◌∙◌, subst, true, false, List, [], ◌∷◌, ◌++◌, ok, arith, inl, inr,
  Result-cases, append_assoc, append_nil,
}
use rbln_k8s_dra_driver.Go.Text.{Text, text_eq}
use rbln_k8s_dra_driver.Go.FilePath.{FilePath, path_eq, is_element, has_no_slash, join-is_element}
use rbln_k8s_dra_driver.Host.{Host, DirEntry, ◌>>◌}
use rbln_k8s_dra_driver.Host.Dirs.{KeepsDirs, is_under}
use rbln_k8s_dra_driver.Host.Laws.{>>=-ok}
use rbln_k8s_dra_driver.Metadata.{
  resource_claims_subdir, resource_claim_template_subdir, remove_owned, remove_listed, remove_under,
  remove_kubevirt_metadata_for_claim,
}
use rbln_k8s_dra_driver.Metadata.Markers.{marker_in, NoneOwned, IsForeign-same}
use rbln_k8s_dra_driver.Metadata.Removed.{
  AllNames, read-AllNames, remove_owned-cons, remove_under-NoneOwned, remove_under-missing,
}

-- Two directories under the same root are apart from each other.
is_under-apart :
    (root q : FilePath) (b a n : Text)
    → text_eq b a ≡ false
    → is_under (root ++ (b ∷ []) ++ (n ∷ [])) (root ++ (a ∷ []) ++ q) ≡ false
unfolding is_under
is_under-apart [] q b a n e = ground arith
is_under-apart (x ∷ root) q b a n e = ground (arith, is_under-apart root q b a n)

path_eq-apart :
    (root : FilePath) (b a : Text)
    → text_eq b a ≡ false
    → path_eq (root ++ (b ∷ [])) (root ++ (a ∷ [])) ≡ false
unfolding path_eq
path_eq-apart [] b a e = ground arith
path_eq-apart (x ∷ root) b a e = ground (arith, path_eq-apart root b a)

module _ (h : Host) (root : FilePath) (k : KeepsDirs h root) (claim_uid : Text) where
  pub NoneOwned-same :
      (parent : FilePath) (s s' : h.State)
      → h.read_dir s' parent ≡ h.read_dir s parent
      → ((name : Text)
          → h.read_file s' (marker_in parent name) ≡ h.read_file s (marker_in parent name))
      → NoneOwned h parent claim_uid s
      → NoneOwned h parent claim_uid s'
  NoneOwned-same parent s s' dir files foreign entries e read there =
      IsForeign-same h parent claim_uid e s s' (k.names parent s' entries e read there)
        (files e.name) (foreign entries e (sym dir ∙ read) there)

  module _ (b a : Text) (apart : text_eq b a ≡ false) where
    remove_all-NoneOwned :
        (name : Text) (s : h.State)
        → NoneOwned h (root ++ (a ∷ [])) claim_uid s
        → NoneOwned h
            (root ++ (a ∷ []))
            claim_uid
            (h.remove_all (root ++ (b ∷ []) ++ (name ∷ [])) s).1
    remove_all-NoneOwned name s =
        NoneOwned-same (root ++ (a ∷ [])) s _
          (k.remove-other_dirs (root ++ (b ∷ [])) (root ++ (a ∷ [])) name s
            (path_eq-apart root b a apart)
            (subst (λ t. is_under (root ++ (b ∷ []) ++ (name ∷ [])) t ≡ false)
              (append_nil (root ++ (a ∷ []))) (is_under-apart root [] b a name apart)))
          λ m. k.remove-other_files _ _ s (
            subst (λ t. is_under (root ++ (b ∷ []) ++ (name ∷ [])) t ≡ false)
              (sym (append_assoc (root ++ (a ∷ [])) (m ∷ []) _))
              (is_under-apart root _ b a name apart))

    remove_owned-NoneOwned :
        (entries : List DirEntry) (s : h.State)
        → AllNames h root k (root ++ (b ∷ [])) claim_uid entries
        → (remove_owned h (root ++ (b ∷ [])) claim_uid entries s).0 ≡ ok tt
        → NoneOwned h (root ++ (a ∷ [])) claim_uid s
        → NoneOwned h
            (root ++ (a ∷ []))
            claim_uid
            (remove_owned h (root ++ (b ∷ [])) claim_uid entries s).1
    remove_owned-NoneOwned [] s n done foreign = unfold remove_owned in foreign
    remove_owned-NoneOwned (x ∷ entries) s (m, n) done foreign =
        elim (remove_owned-cons h root k (root ++ (b ∷ [])) claim_uid x entries s m done) [
          | inl (r, same) ↦ rw same (
              remove_owned-NoneOwned entries _ n (sym (ap (λ t. t.0) same) ∙ done)
                (remove_all-NoneOwned x.name s foreign))
          | inr (other, same) ↦
              rw same (remove_owned-NoneOwned entries s n (sym (ap (λ t. t.0) same) ∙ done) foreign)
        ]

    -- The scan of one directory leaves the other as it was, as far as the claim goes.
    remove_under-other :
        (s : h.State)
        → (remove_under h (root ++ (b ∷ [])) claim_uid s).0 ≡ ok tt
        → NoneOwned h (root ++ (a ∷ [])) claim_uid s
        → NoneOwned h (root ++ (a ∷ [])) claim_uid (remove_under h (root ++ (b ∷ [])) claim_uid s).1
    unfolding remove_under remove_listed
    remove_under-other s done foreign =
        let parent = root ++ (b ∷ []) in
        elim (Result-cases (h.read_dir s parent)) [
          | inl (entries, r) ↦
              let all =
                read-AllNames h root k parent claim_uid s entries
                  (λ x m. k.names parent s entries x r m) in
              let same : remove_under h parent claim_uid s
                  ≡ remove_owned h parent claim_uid entries s =
                rw r refl in
              rw same
                (remove_owned-NoneOwned entries s all (sym (ap (λ t. t.0) same) ∙ done) foreign)
          | inr (x, r) ↦
              subst (λ t. NoneOwned h (root ++ (a ∷ [])) claim_uid t)
                (sym (remove_under-missing h root k parent claim_uid s x r done)) foreign
        ]

  -- Nothing that is listed in either directory is marked as the claim's.
  abbrev pub IsCleaned : h.State → Type 0
  IsCleaned s =
      NoneOwned h (root ++ (resource_claims_subdir ∷ [])) claim_uid s
      × NoneOwned h (root ++ (resource_claim_template_subdir ∷ [])) claim_uid s

  subdirs_apart : text_eq resource_claim_template_subdir resource_claims_subdir ≡ false
  unfolding text_eq
  subdirs_apart = refl

  subdirs_are_elements :
      (is_element resource_claims_subdir ≡ true)
      × (is_element resource_claim_template_subdir ≡ true)
  unfolding is_element has_no_slash text_eq
  subdirs_are_elements = (refl, refl)

  pub remove_kubevirt_metadata_for_claim-IsCleaned :
      (s : h.State)
      → (remove_kubevirt_metadata_for_claim h root claim_uid s).0 ≡ ok tt
      → IsCleaned (remove_kubevirt_metadata_for_claim h root claim_uid s).1
  remove_kubevirt_metadata_for_claim-IsCleaned s done =
      let claims = root ++ (resource_claims_subdir ∷ []) in
      let templates = root ++ (resource_claim_template_subdir ∷ []) in
      let same : remove_kubevirt_metadata_for_claim h root claim_uid s
          ≡ (remove_under h claims claim_uid >> remove_under h templates claim_uid) s =
        unfold remove_kubevirt_metadata_for_claim in
        rw
          (
            join-is_element root resource_claims_subdir subdirs_are_elements.0,
            join-is_element root resource_claim_template_subdir subdirs_are_elements.1,
          )
          refl in
      let (u, first, rest) =
        >>=-ok h (remove_under h claims claim_uid) (λ v. remove_under h templates claim_uid) s tt
          (sym (ap (λ t. t.0) same) ∙ done) in
      let second = sym (ap (λ t. t.0) (same ∙ rest)) ∙ done in
      rw (same ∙ rest) (
        remove_under-other resource_claim_template_subdir resource_claims_subdir subdirs_apart _
            second (remove_under-NoneOwned h root k claims claim_uid s first),
        remove_under-NoneOwned h root k templates claim_uid _ second,
      )
