-- ===== src/Prepare/Checkpoint.antt =====
-- What each step of preparing and unpreparing leaves in the checkpoint.
use rbln_k8s_dra_driver.Base.{refl, List, [], ◌∷◌, arith}
use rbln_k8s_dra_driver.Go.Text.{Text}
use rbln_k8s_dra_driver.Go.Maps.{text_key}
use rbln_k8s_dra_driver.Claim.{Claim, PreparedDevices}
use rbln_k8s_dra_driver.Host.{Host}
use rbln_k8s_dra_driver.Host.Laws.{Quiet, KeepsCheckpoint}
use rbln_k8s_dra_driver.Cdi.{CdiHandler, create_common_spec_file, create_claim_spec_file}
use rbln_k8s_dra_driver.Prepare.Devices.{
  Plugin, prepare_claim, prepare_allocated, set_up_group, prepare_devices,
}

module _ (h : Host) (k : KeepsCheckpoint h) where
  create_common_spec_file-Quiet : (cdi : CdiHandler) → Quiet h (create_common_spec_file h cdi)
  unfolding create_common_spec_file
  create_common_spec_file-Quiet cdi s = grind (arith, k.write_spec)

  pub create_claim_spec_file-Quiet :
      (cdi : CdiHandler) (claim_uid : Text) (devices : PreparedDevices)
      → Quiet h (create_claim_spec_file h cdi claim_uid devices)
  unfolding create_claim_spec_file
  create_claim_spec_file-Quiet cdi claim_uid devices s = grind (arith, k.write_spec)

  set_up_group-Quiet : (p : Plugin) (ids : List Text) → Quiet h (set_up_group h p ids)
  unfolding set_up_group
  set_up_group-Quiet p [] s = refl
  set_up_group-Quiet p (x ∷ ids) s =
      grind (arith, create_common_spec_file-Quiet p.cdi s, k.files.rsd_group)

  pub prepare_devices-Quiet : (p : Plugin) (claim : Claim) → Quiet h (prepare_devices h p claim)
  unfolding prepare_devices prepare_claim prepare_allocated
  prepare_devices-Quiet p claim s = grind (arith, set_up_group-Quiet p)
