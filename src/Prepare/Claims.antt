-- ===== src/Prepare/Claims.antt =====
-- `Prepare` and `Unprepare` of state.go.
use rbln_k8s_dra_driver.Base.{
  Bool, false, ◌&&◌, ◌||◌, List, [], ◌∷◌, ok, err, Option, none, some, if◌then◌else◌,
}
use rbln_k8s_dra_driver.Go.Text.{Text, text_eq}
use rbln_k8s_dra_driver.Go.Maps.{lookup, insert, delete, text_key}
use rbln_k8s_dra_driver.Device.Defs.{Device, is_vfio_device}
use rbln_k8s_dra_driver.State.Defs.{AllocatableDevices}
use rbln_k8s_dra_driver.Claim.{
  driver_name, AllocationResult, Claim, DraDevice, PreparedDevices, PreparedClaims, get_devices,
}
use rbln_k8s_dra_driver.Host.{Host, Action, pure, reads, wrapping, ◌>>=◌, ◌>>◌}
use rbln_k8s_dra_driver.Cdi.{create_claim_spec_file, delete_claim_spec_file}
use rbln_k8s_dra_driver.Metadata.{
  kubevirt_metadata_base_path, write_kubevirt_metadata, remove_kubevirt_metadata_for_claim,
  allocated_results,
}
use rbln_k8s_dra_driver.Prepare.Devices.{Plugin, prepare_devices}

unfoldable pub is_vfio_entry : Option Device → Bool
is_vfio_entry none = false
is_vfio_entry (some d) = is_vfio_device d

unfoldable pub any_vfio : AllocatableDevices → List AllocationResult → Bool
unfolding is_vfio_entry
any_vfio allocatable [] = false
any_vfio allocatable (result ∷ results) =
    (text_eq result.driver driver_name && is_vfio_entry (lookup result.device allocatable))
    || any_vfio allocatable results

-- `claimHasVfioDevice`
unfoldable pub claim_has_vfio_device : AllocatableDevices → Claim → Bool
unfolding any_vfio
claim_has_vfio_device allocatable claim = any_vfio allocatable (allocated_results claim)

-- `preparedClaims[claimUID]`; nil where the key is missing.
unfoldable pub or_nil : Option PreparedDevices → PreparedDevices
or_nil none = []
or_nil (some devices) = devices

unfoldable pub prepared_for : PreparedClaims → Text → PreparedDevices
unfolding or_nil
prepared_for claims claim_uid = or_nil (lookup claim_uid claims)

-- A failed call after which the metadata is rolled back. `rollbackKubeVirtMetadata` logs the
-- failure of the removal.
unfoldable pub or_roll_back :
    (h : Host) → Text → Action h.State (Unit {0}) → Action h.State (Unit {0})
or_roll_back h claim_uid f s =
    let (r, s') = f s in
    elim r [
      | ok u ↦ (ok tt, s')
      | err e ↦
          let (removed, s'') =
            remove_kubevirt_metadata_for_claim h kubevirt_metadata_base_path claim_uid s' in
          (err e, s'')
    ]

module _ (h : Host) (p : Plugin) where
  unfoldable pub write_metadata : Claim → Action h.State (Unit {0})
  write_metadata claim =
      if claim_has_vfio_device p.allocatable claim
      then or_roll_back h claim.uid (
          wrapping "unable to write KubeVirt device metadata"
            (write_kubevirt_metadata h kubevirt_metadata_base_path claim p.allocatable))
      else pure tt

  -- A claim that the checkpoint does not hold.
  unfoldable pub prepare_fresh : Claim → PreparedClaims → Action h.State (List DraDevice)
  prepare_fresh claim claims = do
    devices ← wrapping "prepare failed" (prepare_devices h p claim)
    write_metadata claim
    or_roll_back h claim.uid (
        wrapping "unable to create CDI spec file for claim"
          (create_claim_spec_file h p.cdi claim.uid devices))
    or_roll_back h claim.uid (
        wrapping "unable to sync to checkpoint"
          (h.create_checkpoint (insert claim.uid devices claims)))
    pure (get_devices devices)

  unfoldable pub prepare_unless :
      Claim → PreparedClaims → PreparedDevices → Action h.State (List DraDevice)
  prepare_unless claim claims [] = prepare_fresh claim claims
  prepare_unless claim claims (d ∷ devices) = pure (get_devices (d ∷ devices))

  -- `Prepare`
  unfoldable pub prepare : Claim → Action h.State (List DraDevice)
  prepare claim = do
    claims ← wrapping "unable to sync from checkpoint" (reads h.get_checkpoint)
    prepare_unless claim claims (prepared_for claims claim.uid)

  -- `unprepareDevices`
  unfoldable pub unprepare_devices : Text → PreparedDevices → Action h.State (Unit {0})
  unprepare_devices claim_uid devices = pure tt

  unfoldable pub unprepare_known :
      Text → PreparedClaims → PreparedDevices → Action h.State (Unit {0})
  unprepare_known claim_uid claims [] = pure tt
  unprepare_known claim_uid claims (d ∷ devices) = do
    wrapping "unprepare failed" (unprepare_devices claim_uid (d ∷ devices))
    wrapping "unable to delete CDI spec file for claim" (delete_claim_spec_file h p.cdi claim_uid)
    wrapping "unable to remove KubeVirt device metadata"
        (remove_kubevirt_metadata_for_claim h kubevirt_metadata_base_path claim_uid)
    wrapping "unable to sync to checkpoint" (h.create_checkpoint (delete claim_uid claims))

  -- `Unprepare`
  unfoldable pub unprepare : Text → Action h.State (Unit {0})
  unprepare claim_uid = do
    claims ← wrapping "unable to sync from checkpoint" (reads h.get_checkpoint)
    unprepare_known claim_uid claims (prepared_for claims claim_uid)
