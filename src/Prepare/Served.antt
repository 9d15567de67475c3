-- ===== src/Prepare/Served.antt =====
-- What `Prepare` and `Unprepare` of cmd/npu-kubelet-plugin/state.go do to the CDI specs of claims.
use rbln_k8s_dra_driver.Base.{
  ◌≡◌, refl, ap, ◌∙◌, false, List, [], ◌∷◌, ok, Option, arith, inl, inr, Result-cases,
}
use rbln_k8s_dra_driver.Go.Text.{Text, text_eq}
use rbln_k8s_dra_driver.Go.Maps.{insert, delete, text_key}
use rbln_k8s_dra_driver.Claim.{Claim, DraDevice, PreparedDevices, PreparedClaims, Spec, get_devices}
use rbln_k8s_dra_driver.Host.{Host, Action, pure, wrapping, ◌>>=◌, ◌>>◌}
use rbln_k8s_dra_driver.Cdi.{create_claim_spec_file, delete_claim_spec_file}
use rbln_k8s_dra_driver.Cdi.Specs.{
  KeepsSpecs, IsClaimUid, HasClaimSpec, LeavesSpecs, same-LeavesSpecs, then-LeavesSpecs,
  HasClaimSpec-later,
}
use rbln_k8s_dra_driver.Cdi.Steps.{
  create_claim_spec_file-LeavesSpecs, create_claim_spec_file-HasCommonSpec,
  create_claim_spec_file-HasClaimSpec, delete_claim_spec_file-LeavesSpecs,
}
use rbln_k8s_dra_driver.Metadata.{kubevirt_metadata_base_path, remove_kubevirt_metadata_for_claim}
use rbln_k8s_dra_driver.Metadata.Frame.{remove_kubevirt_metadata_for_claim-Keeps}
use rbln_k8s_dra_driver.Prepare.Devices.{Plugin, prepare_devices}
use rbln_k8s_dra_driver.Prepare.Claims.{
  or_roll_back, write_metadata, prepare_fresh, unprepare_devices, unprepare_known,
}
use rbln_k8s_dra_driver.Prepare.Fresh.{create_spec, save, answer, finish, prepare_fresh-steps}
use rbln_k8s_dra_driver.Prepare.Steps.{write_metadata-Keeps}
use rbln_k8s_dra_driver.Prepare.Specs.{
  AllBacked, AllBacked-later, prepare_devices-LeavesSpecs, prepare_devices-AllBacked,
}

module _ (h : Host) (specs : h.State → Text → Option Spec) (k : KeepsSpecs h specs)
    (p : Plugin) where
  or_roll_back-specs :
      (other : Text) (f : Action h.State (Unit {0})) (s : h.State)
      → specs (or_roll_back h other f s).1 ≡ specs (f s).1
  unfolding or_roll_back
  or_roll_back-specs other f s = grind (
    arith,
    remove_kubevirt_metadata_for_claim-Keeps h specs k.files kubevirt_metadata_base_path other,
  )

  module _ (claim_uid : Text) where
    -- A call that leaves what the containers of the claim rely on, however it ends.
    abbrev Leaves : {A : Type 0} → Action h.State A → Type 0
    Leaves f = (s : h.State) → LeavesSpecs h p.cdi specs claim_uid s (f s).1

    >>=-Leaves :
        {A B : Type 0} (m : Action h.State A) (f : A → Action h.State B)
        → Leaves m
        → ((a : A) → Leaves (f a))
        → Leaves (m >>= f)
    >>=-Leaves m f lm lf s = elim (Result-cases (m s).0) [
      | inl (a, r) ↦
          rw (r, ◌>>=◌) (then-LeavesSpecs h p.cdi specs claim_uid s _ _ (lm s) (lf a (m s).1))
      | inr (y, r) ↦ rw (r, ◌>>=◌) (lm s)
    ]

    same-Leaves :
        {A : Type 0} (f : Action h.State A) → ((s : h.State) → specs (f s).1 ≡ specs s) → Leaves f
    same-Leaves f e s = same-LeavesSpecs h p.cdi specs claim_uid s _ (e s)

    or_roll_back-Leaves :
        (other : Text) (f : Action h.State (Unit {0})) → Leaves f → Leaves (or_roll_back h other f)
    or_roll_back-Leaves other f l s =
        then-LeavesSpecs h p.cdi specs claim_uid s _ _ (l s)
          (same-LeavesSpecs h p.cdi specs claim_uid _ _ (or_roll_back-specs other f s))

    save-Leaves :
        (claim : Claim) (claims : PreparedClaims) (devices : PreparedDevices)
        → Leaves (answer h p claim claims devices)
    save-Leaves claim claims devices =
        >>=-Leaves (save h p claim claims devices) (λ u. pure (get_devices devices))
          (or_roll_back-Leaves claim.uid
            (wrapping "unable to sync to checkpoint"
              (h.create_checkpoint (insert claim.uid devices claims)))
            (λ s.
              same-LeavesSpecs h p.cdi specs claim_uid s _
                (k.create_checkpoint (insert claim.uid devices claims) s)))
          λ u s. same-LeavesSpecs h p.cdi specs claim_uid s s refl

    pub prepare_fresh-Leaves :
        (claim : Claim) (claims : PreparedClaims)
        → IsClaimUid claim_uid
        → IsClaimUid claim.uid
        → text_eq claim.uid claim_uid ≡ false
        → Leaves (prepare_fresh h p claim claims)
    unfolding prepare_fresh
    prepare_fresh-Leaves claim claims u v n =
        >>=-Leaves (wrapping "prepare failed" (prepare_devices h p claim)) (finish h p claim claims)
          (λ s. prepare_devices-LeavesSpecs h specs k p claim_uid claim s u)
          λ devices.
            >>=-Leaves (write_metadata h p claim)
              (λ done. create_spec h p claim claims devices >> answer h p claim claims devices)
              (same-Leaves (write_metadata h p claim)
                (write_metadata-Keeps h specs k.files p claim))
              λ done.
                >>=-Leaves (create_spec h p claim claims devices)
                  (λ done. answer h p claim claims devices)
                  (or_roll_back-Leaves claim.uid
                    (wrapping "unable to create CDI spec file for claim"
                      (create_claim_spec_file h p.cdi claim.uid devices))
                    (λ s.
                      create_claim_spec_file-LeavesSpecs h p.cdi specs k claim.uid claim_uid devices
                        s v u n))
                  λ done. save-Leaves claim claims devices

    pub unprepare_known-Leaves :
        (other : Text) (claims : PreparedClaims) (devices : PreparedDevices)
        → IsClaimUid claim_uid
        → IsClaimUid other
        → text_eq other claim_uid ≡ false
        → Leaves (unprepare_known h p other claims devices)
    unfolding unprepare_known unprepare_devices
    unprepare_known-Leaves other claims [] u v n =
        λ s. same-LeavesSpecs h p.cdi specs claim_uid s s refl
    unprepare_known-Leaves other claims (d ∷ devices) u v n =
        let remove =
          wrapping "unable to remove KubeVirt device metadata"
            (remove_kubevirt_metadata_for_claim h kubevirt_metadata_base_path other) in
        let store =
          wrapping "unable to sync to checkpoint" (h.create_checkpoint (delete other claims)) in
        >>=-Leaves
          (wrapping "unable to delete CDI spec file for claim"
            (delete_claim_spec_file h p.cdi other))
          (λ done. remove >> store)
          (λ s. delete_claim_spec_file-LeavesSpecs h p.cdi specs k other claim_uid s v u n)
          λ done.
            >>=-Leaves remove (λ done. store)
              (same-Leaves remove (
                remove_kubevirt_metadata_for_claim-Keeps h specs k.files kubevirt_metadata_base_path
                  other))
              λ done. same-Leaves store (k.create_checkpoint (delete other claims))

  -- After a success, the claim's spec defines the devices that were prepared, and these are backed.
  pub prepare_fresh-AllBacked :
      (claim : Claim) (claims : PreparedClaims) (s : h.State) (devices : PreparedDevices)
      (ds : List DraDevice)
      → IsClaimUid claim.uid
      → (prepare_devices h p claim s).0 ≡ ok devices
      → (prepare_fresh h p claim claims s).0 ≡ ok ds
      → let s' = (prepare_fresh h p claim claims s).1 in
        HasClaimSpec h p.cdi specs claim.uid devices s'
        × AllBacked h p.cdi specs claim.uid s' devices
  prepare_fresh-AllBacked claim claims s devices ds u made e =
      let s1 = (prepare_devices h p claim s).1 in
      let s2 = (write_metadata h p claim s1).1 in
      let s3 = (create_claim_spec_file h p.cdi claim.uid devices s2).1 in
      let (noted, wrote, saved, last) = prepare_fresh-steps h p claim claims s devices ds made e in
      let kept =
        same-LeavesSpecs h p.cdi specs claim.uid s3 _
          (ap specs last ∙ k.create_checkpoint (insert claim.uid devices claims) s3) in
      let before =
        same-LeavesSpecs h p.cdi specs claim.uid s1 s2
          (write_metadata-Keeps h specs k.files p claim s1) in
      (
        HasClaimSpec-later h p.cdi specs claim.uid devices s3 _ kept
            (create_claim_spec_file-HasClaimSpec h p.cdi specs k claim.uid devices s2 wrote),
        AllBacked-later h p.cdi specs claim.uid s1 _ devices
            (λ c. kept.common_spec (
              create_claim_spec_file-HasCommonSpec h p.cdi specs k claim.uid devices s2 u
                (before.common_spec c)))
            (prepare_devices-AllBacked h specs k p claim s devices made),
      )
