-- ===== src/Health.antt =====
-- cmd/npu-kubelet-plugin/health.go: the answers of the health service. Start has
-- `startHealthcheck`.
pub mod Start
use rbln_k8s_dra_driver.Base.{
  ◌≡◌, ◌↔◌, refl, Bool, true, false, ◌&&◌, not, List, [], ◌∷◌, Result, ok, err, Option, none, some,
  if◌then◌else◌, arith,
}
use rbln_k8s_dra_driver.Go.Text.{Text, codes, text_eq, contains}
use rbln_k8s_dra_driver.Go.Errors.{Error}

-- `grpc_health_v1.HealthCheckResponse_ServingStatus`, and the error for an unknown service.
pub data Health : Type 0 where
  serving not_serving unknown_service : Health

-- What a check meets: `h.registered`, which may be nil, and the answers of the two sockets.
pub record Probe : Type 0 where
  pub registered : Option Bool
  pub get_info : Result Error (Unit {0})
  pub node_prepare_resources : Result Error (Unit {0})

abbrev pub known_services : List Text
known_services = codes "" ∷ codes "liveness" ∷ codes "readiness" ∷ []

unfoldable pub is_registered : Option Bool → Bool
is_registered none = false
is_registered (some b) = b

unfoldable pub rpc_answers : Result Error (Unit {0}) → Result Error (Unit {0}) → Health
rpc_answers (err e) prepared = not_serving
rpc_answers (ok u) (err e) = not_serving
rpc_answers (ok u) (ok v) = serving

-- `Check`
unfoldable pub check : Text → Probe → Health
unfolding is_registered rpc_answers
check service probe =
    if not (contains known_services service)
    then unknown_service
    else if text_eq service (codes "readiness") && not (is_registered probe.registered)
    then not_serving
    else rpc_answers probe.get_info probe.node_prepare_resources

-- A request to the registrar, as far as it is observed: `some b` is a RegistrationStatus.
unfoldable pub observe_registration : Bool → Option Bool → Bool → Bool
observe_registration registered none succeeded = registered
observe_registration registered (some plugin_registered) succeeded = plugin_registered && succeeded

rpc_answers-serving :
    (a b : Result Error (Unit {0})) → (rpc_answers a b ≡ serving) ↔ ((a ≡ ok tt) × (b ≡ ok tt))
unfolding rpc_answers
rpc_answers-serving (err e) b = (λ h. absurd (ground arith), λ h. absurd (ground arith))
rpc_answers-serving (ok u) (err e) = (λ h. absurd (ground arith), λ h. absurd (ground arith))
rpc_answers-serving (ok u) (ok v) = (λ h. (refl, refl), λ h. refl)

-- The plugin reports itself as serving exactly if the service is known, both sockets answer, and,
-- for the readiness service, the kubelet has acknowledged the registration.
pub check_serving :
    (service : Text) (probe : Probe)
    → (check service probe ≡ serving) ↔ (
        (contains known_services service ≡ true)
        × ((text_eq service (codes "readiness") && not (is_registered probe.registered)) ≡ false)
        × (probe.get_info ≡ ok tt)
        × (probe.node_prepare_resources ≡ ok tt))
unfolding check
check_serving service probe = (
  λ h. ground (arith, rpc_answers-serving probe.get_info probe.node_prepare_resources),
  λ h. ground (arith, rpc_answers-serving probe.get_info probe.node_prepare_resources),
)
