-- ===== src/Prepare/Fresh.antt =====
-- A success of `Prepare` of cmd/npu-kubelet-plugin/state.go on a claim that the checkpoint does not
-- hold, step by step.
use rbln_k8s_dra_driver.Base.{◌≡◌, refl, sym, ap, ◌∙◌, List, ok, map_err-eq-ok}
use rbln_k8s_dra_driver.Go.Maps.{insert, text_key}
use rbln_k8s_dra_driver.Claim.{Claim, DraDevice, PreparedDevices, PreparedClaims, get_devices}
use rbln_k8s_dra_driver.Host.{Host, Action, pure, wrapping, ◌>>=◌, ◌>>◌}
use rbln_k8s_dra_driver.Host.Laws.{>>=-ok}
use rbln_k8s_dra_driver.Cdi.{create_claim_spec_file}
use rbln_k8s_dra_driver.Prepare.Devices.{Plugin, prepare_devices}
use rbln_k8s_dra_driver.Prepare.Claims.{or_roll_back, write_metadata, prepare_fresh}
use rbln_k8s_dra_driver.Prepare.Steps.{or_roll_back_ok}

-- The steps of `prepare_fresh` that follow the preparing of devices.
module _ (h : Host) (p : Plugin) (claim : Claim) (claims : PreparedClaims)
    (devices : PreparedDevices) where
  abbrev pub create_spec : Action h.State (Unit {0})
  create_spec = or_roll_back h claim.uid (
      wrapping "unable to create CDI spec file for claim"
        (create_claim_spec_file h p.cdi claim.uid devices))

  abbrev pub save : Action h.State (Unit {0})
  save = or_roll_back h claim.uid (
      wrapping "unable to sync to checkpoint"
        (h.create_checkpoint (insert claim.uid devices claims)))

  abbrev pub answer : Action h.State (List DraDevice)
  answer = save >> pure (get_devices devices)

  abbrev pub finish : Action h.State (List DraDevice)
  finish = write_metadata h p claim >> (create_spec >> answer)

-- Each step has succeeded, and the last one to change the node stores the claim.
pub prepare_fresh-steps :
    (h : Host) (p : Plugin) (claim : Claim) (claims : PreparedClaims) (s : h.State)
    (devices : PreparedDevices) (ds : List DraDevice)
    → (prepare_devices h p claim s).0 ≡ ok devices
    → (prepare_fresh h p claim claims s).0 ≡ ok ds
    → let s1 = (prepare_devices h p claim s).1 in
      let s2 = (write_metadata h p claim s1).1 in
      let s3 = (create_claim_spec_file h p.cdi claim.uid devices s2).1 in
      ((write_metadata h p claim s1).0 ≡ ok tt)
      × ((create_claim_spec_file h p.cdi claim.uid devices s2).0 ≡ ok tt)
      × ((h.create_checkpoint (insert claim.uid devices claims) s3).0 ≡ ok tt)
      × ((prepare_fresh h p claim claims s).1
          ≡ (h.create_checkpoint (insert claim.uid devices claims) s3).1)
prepare_fresh-steps h p claim claims s devices ds made e =
    let s1 = (prepare_devices h p claim s).1 in
    let s2 = (write_metadata h p claim s1).1 in
    let write = create_claim_spec_file h p.cdi claim.uid devices in
    let written = wrapping "unable to create CDI spec file for claim" write in
    let store = h.create_checkpoint (insert claim.uid devices claims) in
    let stored = wrapping "unable to sync to checkpoint" store in
    let st1 : prepare_fresh h p claim claims s ≡ finish h p claim claims devices s1 =
      unfold prepare_fresh in rw (made, ◌>>=◌) refl in
    let (u1, r2, st2) =
      >>=-ok h (write_metadata h p claim)
        (λ done. create_spec h p claim claims devices >> answer h p claim claims devices) s1 ds
        (sym (ap (λ r. r.0) st1) ∙ e) in
    let (u2, r3, st3) =
      >>=-ok h (create_spec h p claim claims devices) (λ done. answer h p claim claims devices) s2
        ds (sym (ap (λ r. r.0) (st1 ∙ st2)) ∙ e) in
    let (r4, st4) = or_roll_back_ok h claim.uid written s2 r3 in
    let s3 = (or_roll_back h claim.uid written s2).1 in
    let (u5, r5, st5) =
      >>=-ok h (save h p claim claims devices) (λ done. pure (get_devices devices)) s3 ds
        (sym (ap (λ r. r.0) (st1 ∙ st2 ∙ st3)) ∙ e) in
    let (r6, st6) = or_roll_back_ok h claim.uid stored s3 r5 in
    (
      r2,
      map_err-eq-ok _ _ r4,
      sym (ap (λ t. (store t).0) st4) ∙ map_err-eq-ok _ _ r6,
      ap (λ r. r.1) (st1 ∙ st2 ∙ st3 ∙ st5) ∙ st6 ∙ ap (λ t. (store t).1) st4,
    )
