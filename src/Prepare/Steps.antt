-- ===== src/Prepare/Steps.antt =====
-- What the steps of `Prepare` and `Unprepare` after the first read do to the checkpoint.
use rbln_k8s_dra_driver.Base.{
  ◌≡◌, refl, ap, ◌∙◌, ◌≢◌, List, [], ◌∷◌, ok, err, arith, inl, inr, ◌⊎◌, Result-cases, Bool-cases,
}
use rbln_k8s_dra_driver.Go.Text.{Text}
use rbln_k8s_dra_driver.Go.Errors.{Error}
use rbln_k8s_dra_driver.Go.Maps.{insert, delete, text_key}
use rbln_k8s_dra_driver.Claim.{Claim, DraDevice, PreparedDevices, PreparedClaims, get_devices}
use rbln_k8s_dra_driver.Host.{Host, Action, wrapping}
use rbln_k8s_dra_driver.Host.Laws.{Keeps, Untouched, KeepsCheckpoint, FailsQuiet}
use rbln_k8s_dra_driver.Cdi.{create_claim_spec_file, delete_claim_spec_file}
use rbln_k8s_dra_driver.Metadata.{kubevirt_metadata_base_path}
use rbln_k8s_dra_driver.Prepare.Devices.{Plugin, prepare_devices}
use rbln_k8s_dra_driver.Prepare.Claims.{
  or_roll_back, claim_has_vfio_device, write_metadata, prepare_fresh, unprepare_known,
  unprepare_devices,
}
use rbln_k8s_dra_driver.Prepare.Checkpoint.{prepare_devices-Quiet, create_claim_spec_file-Quiet}
use rbln_k8s_dra_driver.Metadata.Frame.{
  write_kubevirt_metadata-Keeps, remove_kubevirt_metadata_for_claim-Keeps,
}

pub or_roll_back_ok :
    (h : Host) (claim_uid : Text) (f : Action h.State (Unit {0})) (s : h.State)
    → (or_roll_back h claim_uid f s).0 ≡ ok tt
    → ((f s).0 ≡ ok tt) × ((or_roll_back h claim_uid f s).1 ≡ (f s).1)
unfolding or_roll_back
or_roll_back_ok h claim_uid f s e = elim (Result-cases (f s).0) [
  | inl (u, r) ↦ (r, rw (r, or_roll_back) refl)
  | inr (x, r) ↦ absurd (ground arith)
]

module _ (h : Host) {V : Type 0} (view : h.State → V) (k : Untouched h view) where
  pub or_roll_back-Keeps :
      (claim_uid : Text) (f : Action h.State (Unit {0}))
      → Keeps h view f
      → Keeps h view (or_roll_back h claim_uid f)
  unfolding or_roll_back
  or_roll_back-Keeps claim_uid f q s = grind (
    arith,
    q s,
    remove_kubevirt_metadata_for_claim-Keeps h view k kubevirt_metadata_base_path claim_uid,
  )

  pub write_metadata-Keeps : (p : Plugin) (claim : Claim) → Keeps h view (write_metadata h p claim)
  unfolding write_metadata
  write_metadata-Keeps p claim s = elim (Bool-cases (claim_has_vfio_device p.allocatable claim)) [
    | inl b ↦ rw b (
        or_roll_back-Keeps claim.uid _
          (write_kubevirt_metadata-Keeps h view k _ claim p.allocatable) s)
    | inr b ↦ rw b refl
  ]

module _ (h : Host) (k : KeepsCheckpoint h) where
  or_roll_back-create_checkpoint_ok :
      (claim_uid : Text) (claims : PreparedClaims) (s : h.State)
      → let f =
          or_roll_back h claim_uid
            (wrapping "unable to sync to checkpoint" (h.create_checkpoint claims)) in
        (f s).0 ≡ ok tt → h.get_checkpoint (f s).1 ≡ ok claims
  or_roll_back-create_checkpoint_ok claim_uid claims s e =
      let (r, t) = or_roll_back_ok h claim_uid _ s e in
      ap h.get_checkpoint t ∙ k.create-ok claims s (ground arith)

  or_roll_back-create_checkpoint_err :
      (claim_uid : Text) (claims : PreparedClaims) (s : h.State) (x : Error)
      → let f =
          or_roll_back h claim_uid
            (wrapping "unable to sync to checkpoint" (h.create_checkpoint claims)) in
        (f s).0 ≡ err x → h.get_checkpoint (f s).1 ≡ h.get_checkpoint s
  unfolding or_roll_back
  or_roll_back-create_checkpoint_err claim_uid claims s x e = grind (
    arith,
    k.create-err,
    remove_kubevirt_metadata_for_claim-Keeps h h.get_checkpoint k.files kubevirt_metadata_base_path
        claim_uid,
  )

  pub prepare_fresh-FailsQuiet :
      (p : Plugin) (claim : Claim) (claims : PreparedClaims)
      → FailsQuiet h (prepare_fresh h p claim claims)
  unfolding prepare_fresh
  prepare_fresh-FailsQuiet p claim claims s x e =
      elim (Result-cases (prepare_devices h p claim s).0) [
        | inl (devices, r) ↦ grind (
          arith,
          prepare_devices-Quiet h k p claim s,
          write_metadata-Keeps h h.get_checkpoint k.files p claim,
          or_roll_back-Keeps h h.get_checkpoint k.files claim.uid
              (wrapping "unable to create CDI spec file for claim"
                (create_claim_spec_file h p.cdi claim.uid devices))
              (create_claim_spec_file-Quiet h k p.cdi claim.uid devices),
          or_roll_back-create_checkpoint_err claim.uid (insert claim.uid devices claims),
        )
        | inr (y, r) ↦ grind (arith, prepare_devices-Quiet h k p claim s)
      ]

  pub prepare_fresh-ok :
      (p : Plugin) (claim : Claim) (claims : PreparedClaims) (s : h.State) (ds : List DraDevice)
      → (prepare_fresh h p claim claims s).0 ≡ ok ds
      → (devices : PreparedDevices) × ((prepare_devices h p claim s).0 ≡ ok devices)
        × (ds ≡ get_devices devices)
        × (h.get_checkpoint (prepare_fresh h p claim claims s).1
            ≡ ok (insert claim.uid devices claims))
  unfolding prepare_fresh
  prepare_fresh-ok p claim claims s ds e = elim (Result-cases (prepare_devices h p claim s).0) [
    | inl (devices, r) ↦ (
      devices,
      r,
      ground arith,
      grind (arith, or_roll_back-create_checkpoint_ok claim.uid (insert claim.uid devices claims)),
    )
    | inr (x, r) ↦ absurd (ground arith)
  ]

  pub unprepare_known-ok :
      (p : Plugin) (claim_uid : Text) (claims : PreparedClaims) (devices : PreparedDevices)
      (s : h.State)
      → h.get_checkpoint s ≡ ok claims
      → (unprepare_known h p claim_uid claims devices s).0 ≡ ok tt
      → ((devices ≢ [])
          × (h.get_checkpoint (unprepare_known h p claim_uid claims devices s).1
              ≡ ok (delete claim_uid claims)))
        ⊎ ((devices ≡ []) × (unprepare_known h p claim_uid claims devices s ≡ (ok tt, s)))
  unfolding unprepare_known unprepare_devices delete_claim_spec_file
  unprepare_known-ok p claim_uid claims [] s c e = inr (refl, refl)
  unprepare_known-ok p claim_uid claims (x ∷ devices) s c e =
      inl (λ q. absurd (cc), grind (arith, k.create-ok))

  pub unprepare_known-FailsQuiet :
      (p : Plugin) (claim_uid : Text) (claims : PreparedClaims) (devices : PreparedDevices)
      (s : h.State) (x : Error)
      → (unprepare_known h p claim_uid claims devices s).0 ≡ err x
      → h.get_checkpoint (unprepare_known h p claim_uid claims devices s).1 ≡ h.get_checkpoint s
  unfolding unprepare_known unprepare_devices delete_claim_spec_file
  unprepare_known-FailsQuiet p claim_uid claims [] s x e = absurd (ground arith)
  unprepare_known-FailsQuiet p claim_uid claims (y ∷ devices) s x e = grind (
    arith,
    k.create-err,
    k.remove_spec,
    remove_kubevirt_metadata_for_claim-Keeps h h.get_checkpoint k.files kubevirt_metadata_base_path
        claim_uid,
  )
