-- ===== src/Tests/Start.antt =====
-- The start of the driver, the checkpoint file, and sequences of calls.
use rbln_k8s_dra_driver.Base.{
  ℕ, ◌≡◌, refl, arith, true, List, [], ◌∷◌, ok, err, Option, none, some, pos, negsuc, length, ◌==◌,
  if◌then◌else◌,
}
use rbln_k8s_dra_driver.Go.Text.{codes, contains}
use rbln_k8s_dra_driver.Go.FilePath.{join}
use rbln_k8s_dra_driver.Go.Errors.{message}
use rbln_k8s_dra_driver.Claim.{PreparedClaims}
use rbln_k8s_dra_driver.Device.Enumeration.{Enumeration}
use rbln_k8s_dra_driver.State.Invariant.{Scanned}
use rbln_k8s_dra_driver.Config.{Flags}
use rbln_k8s_dra_driver.Checkpoint.{
  Checkpoint, Codec, IsCodec, new_checkpoint, marshal_checkpoint, unmarshal_checkpoint,
  verify_checksum, verify_checksum-marshal_checkpoint,
}
use rbln_k8s_dra_driver.Driver.{Tick, scan_tick, run_device_scan}
use rbln_k8s_dra_driver.Driver.Start.{Libraries, Started, new_driver}
use rbln_k8s_dra_driver.Driver.Freshness.{Holds, new_driver-scan_tick}
use rbln_k8s_dra_driver.Prepare.Refinement.{
  Call, prepare_call, unprepare_call, Shows, view, run, replay, run_refines,
}
use rbln_k8s_dra_driver.Go.FilePath.{split, split_on, push_all, push}
use rbln_k8s_dra_driver.Health.Start.{start_healthcheck}
use rbln_k8s_dra_driver.Startup.{
  new_device_state, create_unless_listed, startup_state, startup_npu_devices, needs_inventory,
  or_no_devices, has_failed,
}
use rbln_k8s_dra_driver.State.Defs.{rebuild_resources, index, index_onto}
use rbln_k8s_dra_driver.Vfio.Defs.{enumerate_vfio_devices}
use rbln_k8s_dra_driver.Native.Defs.{
  count_native_candidates, enumerate_npu_devices, npu_devices_from_inventory,
}
use rbln_k8s_dra_driver.Device.Enumeration.{enumerate}
use rbln_k8s_dra_driver.Tests.Node.{deep_equal, reads, failing_reads}
use rbln_k8s_dra_driver.Tests.Facts.{idle, failing_ticks, node_facts}
use rbln_k8s_dra_driver.Tests.Host.{host, keeps, plugin, claim, unallocated}

-- Claims that are prepared, prepared again, refused, and unprepared.
abbrev calls : List Call
calls =
    prepare_call plugin claim
    ∷ prepare_call plugin claim
    ∷ prepare_call plugin unallocated
    ∷ unprepare_call plugin claim.uid
    ∷ []

run_refines_example : Shows host (run host calls []).1 (replay (run host calls []).0 (view []))
run_refines_example = run_refines host keeps calls [] (view []) ([], refl, refl)

-- Checkpoints that are their own encoding, with the number of claims as the checksum.
abbrev claim_count : Option PreparedClaims → ℕ
claim_count none = 0
claim_count (some claims) = length claims

abbrev codec : Codec
codec = record {
  Bytes = Checkpoint;
  marshal = λ cp. ok cp;
  unmarshal = λ content cp. ok content;
  new_checksum = λ content. claim_count content.v1;
  verify = λ ck content.
      if ck == claim_count content.v1 then ok tt else err (message "checkpoint is corrupted");
}

codec-IsCodec : IsCodec codec
codec-IsCodec = record {
  unmarshal-marshal = λ checksum claims content e. ground (arith, e);
  verify-new = λ content. ground arith;
}

abbrev stored : PreparedClaims
stored = (claim.uid, []) ∷ []

abbrev written : Checkpoint
written = record { checksum = 1; v1 = some stored }

is_written : (marshal_checkpoint codec (record { checksum = 7; v1 = some stored })).0 ≡ ok written
unfolding marshal_checkpoint
is_written = refl

verify_checksum-marshal_checkpoint_example :
    (cp : Checkpoint) × (unmarshal_checkpoint codec written new_checkpoint ≡ ok cp)
    × (cp.v1 ≡ some stored)
    × (verify_checksum codec cp ≡ (ok tt, cp))
verify_checksum-marshal_checkpoint_example =
    verify_checksum-marshal_checkpoint codec codec-IsCodec 7 stored written is_written

abbrev flags : Flags
flags = record {
  node_name = codes "node";
  cdi_root = codes "cdi" ∷ [];
  kubelet_registrar_directory_path = codes "registry" ∷ [];
  kubelet_plugins_directory_path = codes "plugins" ∷ [];
  healthcheck_port = negsuc 0;
  device_scan_interval = pos 30;
}

-- Libraries that answer every call, on a node without a checkpoint.
abbrev libraries : Libraries host
libraries = record {
  cdi_cache = ok tt;
  checkpoint_manager = λ path. ok tt;
  list_checkpoints = λ s. ok [];
  start_helper = λ f. ok tt;
  publish_resources = λ resources. ok tt;
  net = record { listen = λ addr. ok tt; new_client = λ url. ok tt; unix_url = λ path. [] };
}

abbrev started : Started
started = record { driver = idle; healthcheck = none; is_scanning = true }

-- The start finds no devices, since sysfs cannot be read.
starts : (new_driver host libraries flags failing_reads []).0 ≡ ok started
unfolding new_driver start_healthcheck new_device_state create_unless_listed contains startup_state
    startup_npu_devices needs_inventory or_no_devices has_failed enumerate_vfio_devices
    count_native_candidates enumerate_npu_devices npu_devices_from_inventory enumerate
    rebuild_resources index index_onto join split split_on push_all push
starts = refl

new_driver-scan_tick_example :
    let t : Tick = record { reads = reads; took = 5; accepted = true } in
    let d = run_device_scan deep_equal 30 failing_ticks started.driver in
    (npu : Enumeration) × (vfio : Enumeration) × Scanned reads d.state npu vfio
    × Holds deep_equal (scan_tick deep_equal 30 t d).slice npu vfio
new_driver-scan_tick_example =
    new_driver-scan_tick host keeps libraries deep_equal 30 flags failing_reads [] started
      failing_ticks (record { reads = reads; took = 5; accepted = true }) starts (refl, tt) refl
      node_facts.recovers
