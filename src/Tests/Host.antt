-- ===== src/Tests/Host.antt =====
-- A host that keeps its checkpoint, the plugin on it, and a claim of both NPUs of the node.
use rbln_k8s_dra_driver.Go.Text.{text_eq}
use rbln_k8s_dra_driver.Go.FilePath.{path_base}
use rbln_k8s_dra_driver.State.Rescan.{rescan_devices}
use rbln_k8s_dra_driver.Cdi.{get_claim_devices}
use rbln_k8s_dra_driver.Prepare.Claims.{prepared_for, prepare}
use rbln_k8s_dra_driver.Base.{
  ◌*◌, refl, Bool, true, false, List, [], ◌∷◌, ◌++◌, ok, err, none, some, arith, if◌then◌else◌,
}
use rbln_k8s_dra_driver.Go.Text.{Text, codes, text_eq}
use rbln_k8s_dra_driver.Go.FilePath.{path_base}
use rbln_k8s_dra_driver.Go.Errors.{Error, not_exist, message, wrap}
use rbln_k8s_dra_driver.Go.Maps.{text_key}
use rbln_k8s_dra_driver.State.Rescan.{rescan_devices}
use rbln_k8s_dra_driver.Claim.{
  driver_name, AllocationResult, Claim, DraDevice, PreparedDevices, PreparedClaims, no_edits,
}
use rbln_k8s_dra_driver.Host.{Host}
use rbln_k8s_dra_driver.Host.Laws.{KeepsCheckpoint}
use rbln_k8s_dra_driver.Cdi.{get_claim_devices}
use rbln_k8s_dra_driver.Metadata.{kubevirt_metadata_owner_file}
use rbln_k8s_dra_driver.Prepare.Devices.{Plugin}
use rbln_k8s_dra_driver.Prepare.Claims.{prepare, prepared_for}
use rbln_k8s_dra_driver.Rsd.{GroupEntry}
use rbln_k8s_dra_driver.Rsd.Groups.{GroupLibrary, rsd_group_fn}
use rbln_k8s_dra_driver.Tests.Node.{deep_equal, reads, sysfs, sysfs_root, no_devices}

-- A host whose only state is the checkpoint, and where every call succeeds. Every file holds the
-- text `content`, but there is no owner marker.
abbrev pub host : Host
host = record {
  State = PreparedClaims;
  read_file = λ s p.
      if text_eq (path_base p) kubevirt_metadata_owner_file
      then err not_exist
      else ok (codes "content");
  read_dir = λ s p. ok [];
  mkdir_all = λ p s. (ok tt, s);
  write_file = λ p content s. (ok tt, s);
  rename = λ p q s. (ok tt, s);
  remove_all = λ p s. (ok tt, s);
  polls = λ s p. record { stat = λ i. ok tt; elapsed = λ i. i * 100 };
  sysfs = λ s. sysfs;
  get_checkpoint = λ s. ok s;
  create_checkpoint = λ claims s. (ok tt, claims);
  write_spec = λ spec name s. (ok tt, s);
  remove_spec = λ name s. (ok tt, s);
  append_edits = λ a b. record {
    device_nodes = a.device_nodes ++ b.device_nodes;
    mounts = a.mounts ++ b.mounts;
    hooks = a.hooks ++ b.hooks;
  };
  minimum_required_version = λ spec. ok (codes "0.7.0");
  generate_name_for_transient_spec = λ spec id. ok id;
  generate_transient_spec_name = λ vendor class id. vendor ++ codes "-" ++ class ++ codes "_" ++ id;
  qualified_name = λ vendor class name. vendor ++ codes "/" ++ class ++ codes "=" ++ name;
  parse_spec = λ content. ok none;
  unmarshal_runtime_spec = λ content. ok (record {
    kind = codes "rebellions.ai/npu";
    devices = record { name = codes "runtime"; edits = no_edits } ∷ [];
  });
  marshal_metadata = λ m. ok (codes "{}");
  rsd_group = λ ids s. (ok (some (codes "dev" ∷ codes "rsd3" ∷ [])), s);
}

pub keeps : KeepsCheckpoint host
keeps = record {
  create-ok = λ claims s e. refl;
  create-err = λ claims s x e. absurd (ground arith);
  files = record {
    mkdir_all = λ p s. refl;
    write_file = λ p content s. refl;
    rename = λ p q s. refl;
    remove_all = λ p s. refl;
    rsd_group = λ ids s. refl;
  };
  write_spec = λ spec name s. refl;
  remove_spec = λ name s. refl;
}

abbrev pub plugin : Plugin
plugin = record {
  node_name = codes "node";
  cdi = record { root = codes "cdi" ∷ []; class = codes "claim" };
  allocatable = (rescan_devices deep_equal reads no_devices).state.allocatable;
  sysfs_root = sysfs_root;
}

abbrev pub result : Text → Text → AllocationResult
result request device = record {
  request = request;
  driver = driver_name;
  pool = codes "node";
  device = device;
}

abbrev pub results : List AllocationResult
results =
    result (codes "npu") (codes "rbln0")
    ∷ record (result (codes "gpu") (codes "gpu0")) { driver = codes "gpu.example.com" }
    ∷ result (codes "vm/first") (codes "vfio-0000-3b-00-0")
    ∷ []

abbrev pub claim : Claim
claim = record {
  uid = codes "uid-1";
  name = codes "claim";
  pod_claim_name = some (codes "npus");
  results = some results;
}

abbrev pub unallocated : Claim
unallocated = record claim { uid = codes "uid-2"; results = none }

-- rbln-smi lists the native NPU in group 3, and the library creates that group.
abbrev pub group_devices : List GroupEntry
group_devices =
    record { group_id = codes "3"; bus_id = codes "0000:5E:00.0" }
    ∷ record { group_id = codes "0"; bus_id = codes "0000:3b:00.0" }
    ∷ []

abbrev pub library : GroupLibrary PreparedClaims
library = record {
  recreate_rsd_group = λ ids s. (ok (codes "/dev/rsd3"), s);
  commands = λ s. record {
    stat = λ path. err not_exist;
    look_path = λ file. ok file;
    output = λ command args. ok (codes "{}");
    unmarshal = λ content. ok group_devices;
  };
}

-- The host that creates RSD groups as the plugin does.
abbrev pub grouped_host : Host
grouped_host = record host { rsd_group = rsd_group_fn library }

abbrev pub answer : AllocationResult → Bool → DraDevice
answer r include_common = record {
  request_names = r.request ∷ [];
  pool_name = r.pool;
  device_name = r.device;
  cdi_device_ids = get_claim_devices host plugin.cdi claim.uid (r.device ∷ []) include_common;
}

abbrev pub native_answer : DraDevice
native_answer = answer (result (codes "npu") (codes "rbln0")) true

abbrev pub vfio_answer : DraDevice
vfio_answer = answer (result (codes "vm/first") (codes "vfio-0000-3b-00-0")) false

abbrev pub not_allocated : Error
not_allocated = wrap "prepare failed" (message "claim not yet allocated")

-- The state after the claim was prepared, and the prepared devices in it.
abbrev pub after : PreparedClaims
after = (prepare host plugin claim []).1

abbrev pub devices : PreparedDevices
devices = prepared_for after claim.uid

-- A host that cannot delete CDI specs.
abbrev pub stuck_host : Host
stuck_host = record host { remove_spec = λ name s. (err (message "busy"), s) }

abbrev pub busy : Error
busy = wrap "unable to delete CDI spec file for claim" (message "busy")

pub stuck_keeps : KeepsCheckpoint stuck_host
stuck_keeps = record {
  create-ok = λ claims s e. refl;
  create-err = λ claims s x e. absurd (ground arith);
  files = record {
    mkdir_all = λ p s. refl;
    write_file = λ p content s. refl;
    rename = λ p q s. refl;
    remove_all = λ p s. refl;
    rsd_group = λ ids s. refl;
  };
  write_spec = λ spec name s. refl;
  remove_spec = λ name s. refl;
}
