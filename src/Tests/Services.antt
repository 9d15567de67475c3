-- ===== src/Tests/Services.antt =====
-- The loops of the driver, the health service, the startup, the RSD groups and the webhook.
use rbln_k8s_dra_driver.Base.{
  ℕ, suc, ◌≡◌, ◌≢◌, ◌↔◌, refl, true, false, List, [], ◌∷◌, ◌++◌, Result, ok, some,
}
use rbln_k8s_dra_driver.Go.Text.{Text, codes, text_eq, contains}
use rbln_k8s_dra_driver.Go.Strings.{lower, to_lower, cut_prefix}
use rbln_k8s_dra_driver.Go.Number.{
  parse_digits, non_negative, parse_unsigned, parse_int, decimal, format_nat, format_int,
}
use rbln_k8s_dra_driver.Go.Errors.{Error}
use rbln_k8s_dra_driver.Go.Maps.{lookup, text_key}
use rbln_k8s_dra_driver.Claim.{PreparedClaims}
use rbln_k8s_dra_driver.State.Invariant.{IsIndexed}
use rbln_k8s_dra_driver.Driver.{Driver, Tick, run_device_scan, prepare_resource_claims}
use rbln_k8s_dra_driver.Driver.Slice.{run_device_scan_lem}
use rbln_k8s_dra_driver.Driver.Requests.{uids, prepare_resource_claims_keeps}
use rbln_k8s_dra_driver.Rsd.{
  is_group_number, checked_group_id, lowered, seen_after, check_members, validate_rsd_membership,
}
use rbln_k8s_dra_driver.Rsd.Sets.{add, to_set, Nodup}
use rbln_k8s_dra_driver.Rsd.Laws.{members, validate_rsd_membership_lem}
use rbln_k8s_dra_driver.Startup.{
  driver_plugin_checkpoint_file, create_unless_listed, startup_state, new_device_state,
  new_device_state_lem, HasFound,
}
use rbln_k8s_dra_driver.Webhook.{
  admission_review_kind, same_kind, claims_of, Request, Scheme, body, admit, checked_review,
  read_admission_review, encoded, answer, serve,
}
use rbln_k8s_dra_driver.Webhook.Laws.{IsReadable, admit_lem, IsAnswered, serve_lem}
use rbln_k8s_dra_driver.Tests.Node.{deep_equal, reads, failing_reads, no_devices, npu_bus}
use rbln_k8s_dra_driver.Tests.Host.{group_devices, host, keeps, plugin, claim, unallocated, after}

abbrev ticks : List Tick
ticks =
    record { reads = reads; took = 5; accepted = true }
    ∷ record { reads = failing_reads; took = 50; accepted = true }
    ∷ []

abbrev at_start : Driver
at_start = record { state = no_devices; slice = record { pool = codes "node"; devices = [] } }

run_device_scan_lem_example :
    let d = run_device_scan deep_equal 30 ticks at_start in d.slice ≡ d.state.driver_resources
run_device_scan_lem_example =
    run_device_scan_lem deep_equal 30 ticks at_start (refl, (refl, tt)) refl

-- The other claim is not named by the request.
not_named : contains (uids (unallocated ∷ [])) claim.uid ≡ false
unfolding contains text_eq
not_named = refl

prepare_resource_claims_keeps_example :
    (stored : PreparedClaims) × (host.get_checkpoint
        (prepare_resource_claims host plugin (unallocated ∷ []) after).1
      ≡ ok stored)
    × (lookup claim.uid stored ≡ lookup claim.uid after)
prepare_resource_claims_keeps_example =
    prepare_resource_claims_keeps host keeps plugin (unallocated ∷ []) after after claim.uid refl
      not_named

membership : validate_rsd_membership (codes "/dev/rsd3") (npu_bus ∷ []) group_devices ≡ ok tt
unfolding validate_rsd_membership checked_group_id is_group_number lowered seen_after check_members
    add to_set contains text_eq lower to_lower cut_prefix parse_digits non_negative parse_unsigned
    parse_int decimal format_nat format_int
membership = refl

validate_rsd_membership_lem_example :
    (n : ℕ) × (codes "/dev/rsd3" ≡ codes "/dev/rsd" ++ format_nat (suc n))
    × ((bus : Text)
        → contains (members (format_nat (suc n)) group_devices) bus
          ≡ contains (lowered (npu_bus ∷ [])) bus)
    × Nodup (members (format_nat (suc n)) group_devices)
    × (npu_bus ∷ [] ≢ [])
validate_rsd_membership_lem_example =
    validate_rsd_membership_lem (codes "/dev/rsd3") (npu_bus ∷ []) group_devices membership

abbrev no_checkpoints : PreparedClaims → Result Error (List Text)
no_checkpoints s = ok []

starts :
    (new_device_state host (codes "node") reads (ok tt) (ok tt) no_checkpoints []).0
    ≡ ok (startup_state (codes "node") reads)
unfolding new_device_state create_unless_listed contains
starts = refl

new_device_state_lem_example :
    IsIndexed (startup_state (codes "node") reads)
    × ((startup_state (codes "node") reads).node_name ≡ codes "node")
    × HasFound reads (startup_state (codes "node") reads)
    × ((listed : List Text) × (no_checkpoints [] ≡ ok listed)
        × (contains listed driver_plugin_checkpoint_file ≡ true
            → (new_device_state host (codes "node") reads (ok tt) (ok tt) no_checkpoints []).1 ≡ [])
        × (contains listed driver_plugin_checkpoint_file ≡ false
            → host.get_checkpoint
                (new_device_state host (codes "node") reads (ok tt) (ok tt) no_checkpoints []).1
              ≡ ok []))
new_device_state_lem_example =
    new_device_state_lem host keeps (codes "node") reads (ok tt) (ok tt) no_checkpoints []
      (startup_state (codes "node") reads) starts

abbrev request : Request
request = record { uid = codes "r-1"; resource = claims_of (codes "v1"); raw = codes "{}" }

-- A scheme that decodes everything, into a review of this request.
abbrev scheme : Scheme
scheme = record {
  Object = Text;
  decode = λ type raw. ok raw;
  convert = λ object. ok tt;
  decode_review = λ data_read. ok (record {
    reported = admission_review_kind;
    is_v1 = true;
    kind = admission_review_kind;
    request = some request;
  });
  encode = λ kind response. ok (kind.version ++ response.uid);
}

admit_lem_example : ((admit scheme request).allowed ≡ true) ↔ IsReadable scheme request
admit_lem_example = admit_lem scheme request

serve_lem_example :
    (serve scheme (ok (codes "{}")) (codes "application/json") ≡ body (codes "v1r-1"))
    ↔ IsAnswered scheme (ok (codes "{}")) (codes "application/json") (codes "v1r-1")
serve_lem_example = serve_lem scheme (ok (codes "{}")) (codes "application/json") (codes "v1r-1")

replies : serve scheme (ok (codes "{}")) (codes "application/json") ≡ body (codes "v1r-1")
unfolding serve answer encoded admit read_admission_review checked_review same_kind text_eq
replies = refl
