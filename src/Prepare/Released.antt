-- ===== src/Prepare/Released.antt =====
-- What `Unprepare` of cmd/npu-kubelet-plugin/state.go leaves of a claim on the node.
use rbln_k8s_dra_driver.Base.{
  ◌≡◌, ◌≢◌, refl, sym, ap, ◌∙◌, subst, [], ◌∷◌, ok, Option, none, map_err-eq-ok,
}
use rbln_k8s_dra_driver.Go.Text.{Text}
use rbln_k8s_dra_driver.Go.Maps.{delete, text_key}
use rbln_k8s_dra_driver.Claim.{PreparedDevices, PreparedClaims, Spec}
use rbln_k8s_dra_driver.Host.{Host, Action, wrapping, ◌>>◌}
use rbln_k8s_dra_driver.Host.Laws.{>>=-ok, KeepsCheckpoint}
use rbln_k8s_dra_driver.Host.Dirs.{KeepsDirs}
use rbln_k8s_dra_driver.Cdi.{delete_claim_spec_file}
use rbln_k8s_dra_driver.Cdi.Specs.{KeepsSpecs, spec_name}
use rbln_k8s_dra_driver.Metadata.{
  kubevirt_metadata_base_path, kubevirt_metadata_owner_file, resource_claims_subdir,
  resource_claim_template_subdir, remove_kubevirt_metadata_for_claim,
}
use rbln_k8s_dra_driver.Metadata.Frame.{remove_kubevirt_metadata_for_claim-Keeps}
use rbln_k8s_dra_driver.Metadata.Cleanup.{
  IsCleaned, NoneOwned-same, remove_kubevirt_metadata_for_claim-IsCleaned,
}
use rbln_k8s_dra_driver.Prepare.Devices.{Plugin}
use rbln_k8s_dra_driver.Prepare.Claims.{unprepare_known, unprepare_devices, unprepare, prepared_for}
use rbln_k8s_dra_driver.Prepare.Laws.{unprepare_reads, unprepare_success}

module _ (h : Host) (p : Plugin) (claim_uid : Text) where
  abbrev remove : Action h.State (Unit {0})
  remove =
      wrapping "unable to remove KubeVirt device metadata"
        (remove_kubevirt_metadata_for_claim h kubevirt_metadata_base_path claim_uid)

  abbrev store : PreparedClaims → Action h.State (Unit {0})
  store claims =
      wrapping "unable to sync to checkpoint" (h.create_checkpoint (delete claim_uid claims))

  -- Each step has succeeded.
  unprepare_known-steps :
      (claims : PreparedClaims) (devices : PreparedDevices) (s : h.State)
      → devices ≢ []
      → (unprepare_known h p claim_uid claims devices s).0 ≡ ok tt
      → let s1 = (delete_claim_spec_file h p.cdi claim_uid s).1 in
        let s2 =
          (remove_kubevirt_metadata_for_claim h kubevirt_metadata_base_path claim_uid s1).1 in
        ((delete_claim_spec_file h p.cdi claim_uid s).0 ≡ ok tt)
        × ((remove_kubevirt_metadata_for_claim h kubevirt_metadata_base_path claim_uid s1).0
            ≡ ok tt)
        × ((unprepare_known h p claim_uid claims devices s).1
            ≡ (h.create_checkpoint (delete claim_uid claims) s2).1)
  unfolding unprepare_known unprepare_devices
  unprepare_known-steps claims [] s n done = absurd (n refl)
  unprepare_known-steps claims (d ∷ devices) s n done =
      let (u1, r1, e1) =
        >>=-ok h
          (wrapping "unable to delete CDI spec file for claim"
            (delete_claim_spec_file h p.cdi claim_uid))
          (λ v. remove >> store claims) s tt done in
      let (u2, r2, e2) =
        >>=-ok h remove (λ v. store claims) (delete_claim_spec_file h p.cdi claim_uid s).1 tt
          (sym (ap (λ t. t.0) e1) ∙ done) in
      (map_err-eq-ok _ _ r1, map_err-eq-ok _ _ r2, ap (λ t. t.1) (e1 ∙ e2))

module _ (h : Host) (k : KeepsCheckpoint h) (specs : h.State → Text → Option Spec)
    (c : KeepsSpecs h specs) (d : KeepsDirs h kubevirt_metadata_base_path) (p : Plugin) where
  delete_claim_spec_file-gone :
      (claim_uid : Text) (s : h.State)
      → (delete_claim_spec_file h p.cdi claim_uid s).0 ≡ ok tt
      → specs (delete_claim_spec_file h p.cdi claim_uid s).1 (spec_name h p.cdi claim_uid) ≡ none
  unfolding delete_claim_spec_file
  delete_claim_spec_file-gone claim_uid s done = c.remove-ok (spec_name h p.cdi claim_uid) s done

  create_checkpoint-IsCleaned :
      (claim_uid : Text) (claims : PreparedClaims) (s : h.State)
      → IsCleaned h kubevirt_metadata_base_path d claim_uid s
      → IsCleaned h kubevirt_metadata_base_path d claim_uid (h.create_checkpoint claims s).1
  create_checkpoint-IsCleaned claim_uid claims s (in_claims, in_templates) = (
    NoneOwned-same h kubevirt_metadata_base_path d claim_uid _ s _
        (d.create_checkpoint-dirs claims (resource_claims_subdir ∷ []) s)
        (λ name.
          d.create_checkpoint-files claims
            (resource_claims_subdir ∷ name ∷ kubevirt_metadata_owner_file ∷ []) s)
        in_claims,
    NoneOwned-same h kubevirt_metadata_base_path d claim_uid _ s _
        (d.create_checkpoint-dirs claims (resource_claim_template_subdir ∷ []) s)
        (λ name.
          d.create_checkpoint-files claims
            (resource_claim_template_subdir ∷ name ∷ kubevirt_metadata_owner_file ∷ []) s)
        in_templates,
  )

  -- Where the checkpoint, the CDI specs and directories are kept as documented: an `Unprepare` that
  -- succeeds, of a claim that the checkpoint holds with at least one device, leaves nothing of it on
  -- the node. The checkpoint holds no device for it, there is no CDI spec under its name, and no
  -- metadata directory that is listed, for claims or for templates, has a marker that names it.
  pub unprepare-IsCleaned :
      (claim_uid : Text) (claims : PreparedClaims) (s : h.State)
      → h.get_checkpoint s ≡ ok claims
      → prepared_for claims claim_uid ≢ []
      → (unprepare h p claim_uid s).0 ≡ ok tt
      → let s' = (unprepare h p claim_uid s).1 in
        ((after : PreparedClaims) × (h.get_checkpoint s' ≡ ok after)
          × (prepared_for after claim_uid ≡ []))
        × (specs s' (spec_name h p.cdi claim_uid) ≡ none)
        × IsCleaned h kubevirt_metadata_base_path d claim_uid s'
  unprepare-IsCleaned claim_uid claims s read known done =
      let same = unprepare_reads h p claim_uid claims s read in
      let (after, t, gone, others) = unprepare_success h k p claim_uid claims s read done in
      let s1 = (delete_claim_spec_file h p.cdi claim_uid s).1 in
      let s2 = (remove_kubevirt_metadata_for_claim h kubevirt_metadata_base_path claim_uid s1).1 in
      let (r1, r2, last) =
        unprepare_known-steps h p claim_uid claims (prepared_for claims claim_uid) s known
          (sym (ap (λ x. x.0) same) ∙ done) in
      let end = ap (λ x. x.1) same ∙ last in
      (
        (after, t, gone),
        ap (λ x. specs x (spec_name h p.cdi claim_uid)) end
            ∙ ap (λ f. f (spec_name h p.cdi claim_uid))
                (c.create_checkpoint (delete claim_uid claims) s2
                  ∙ remove_kubevirt_metadata_for_claim-Keeps h specs c.files
                      kubevirt_metadata_base_path claim_uid s1)
            ∙ delete_claim_spec_file-gone claim_uid s r1,
        subst (λ x. IsCleaned h kubevirt_metadata_base_path d claim_uid x) (sym end)
            (create_checkpoint-IsCleaned claim_uid (delete claim_uid claims) s2 (
              remove_kubevirt_metadata_for_claim-IsCleaned h kubevirt_metadata_base_path d claim_uid
                s1 r2)),
      )
