-- ===== src/Cdi/Laws.antt =====
-- The names in the CDI spec of a claim, and the ids that the kubelet is given for its devices: cmd/npu-kubelet-plugin/cdi.go.
use rbln_k8s_dra_driver.Base.{◌≡◌, refl, ap, false, List, [], ◌∷◌}
use rbln_k8s_dra_driver.Go.Text.{Text}
use rbln_k8s_dra_driver.Claim.{PreparedDevices, get_device_names, CdiDevice}
use rbln_k8s_dra_driver.Host.{Host}
use rbln_k8s_dra_driver.Cdi.{
  CdiHandler, vendor, claim_device_name, claim_spec_devices, claim_device_ids, get_claim_devices,
}

-- The qualified names of the devices that a spec of this handler's kind defines.
unfoldable pub spec_ids : Host → CdiHandler → List CdiDevice → List Text
spec_ids h cdi [] = []
spec_ids h cdi (d ∷ devices) = h.qualified_name vendor cdi.class d.name ∷ spec_ids h cdi devices

-- The ids that `GetClaimDevices` gives for the devices of a claim, without the common one, are the
-- qualified names of the devices that the claim's CDI spec defines, in the same order.
pub get_claim_devices-claim_spec_devices :
    (h : Host) (cdi : CdiHandler) (claim_uid : Text) (devices : PreparedDevices)
    → get_claim_devices h cdi claim_uid (get_device_names devices) false
      ≡ spec_ids h cdi (claim_spec_devices h claim_uid devices)
unfolding get_claim_devices claim_device_ids get_device_names spec_ids claim_spec_devices
get_claim_devices-claim_spec_devices h cdi claim_uid [] = refl
get_claim_devices-claim_spec_devices h cdi claim_uid (d ∷ devices) =
    ap
      (λ (ids : List Text).
        h.qualified_name vendor cdi.class (claim_device_name claim_uid d.device_name) ∷ ids)
      (get_claim_devices-claim_spec_devices h cdi claim_uid devices)
