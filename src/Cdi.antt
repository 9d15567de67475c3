-- ===== src/Cdi.antt =====
-- cmd/npu-kubelet-plugin/cdi.go: the CDI specs of claims and of the container runtime.
pub mod Laws
pub mod Specs
pub mod Steps
use rbln_k8s_dra_driver.Base.{
  ◌≡◌, refl, Bool, true, false, List, [], ◌∷◌, ◌++◌, Result, ok, err, Option, none, some,
  if◌then◌else◌, map_err,
}
use rbln_k8s_dra_driver.Base
use rbln_k8s_dra_driver.Go.Text.{Text, codes, text_eq}
use rbln_k8s_dra_driver.Go.FilePath.{FilePath, join}
use rbln_k8s_dra_driver.Go.Errors.{OsError, not_exist, errno, Error, os, message, wrap}
use rbln_k8s_dra_driver.Claim.{
  driver_name, ContainerEdits, no_edits, Mount, Hook, DeviceNode, PreparedDevice, PreparedDevices,
  CdiDevice, Spec,
}
use rbln_k8s_dra_driver.Host.{Host, NamedEdits, ParsedSpec, Action, pure, fail, reads, ◌>>=◌, ◌>>◌}

-- `CDIHandler`, less the cache of the library
pub record CdiHandler : Type 0 where
  pub root : FilePath
  pub class : Text

-- `NewCDIHandler`, by what the constructor of the library's cache gave.
unfoldable pub new_cdi_handler : Result Error (Unit {0}) → FilePath → Text → Result Error CdiHandler
new_cdi_handler cache root class =
    Base.◌>>◌ (map_err (wrap "unable to create a new CDI cache") cache)
      (ok (record { root = root; class = class }))

unfoldable pub vendor : Text
vendor = codes "k8s." ++ driver_name

unfoldable pub kind : CdiHandler → Text
unfolding vendor
kind cdi = vendor ++ codes "/" ++ cdi.class

-- `fmt.Sprintf("%s-%s", claimUID, device)`
unfoldable pub claim_device_name : Text → Text → Text
claim_device_name claim_uid device = claim_uid ++ codes "-" ++ device

-- The copies of mounts and of hooks; the literals set every field.
unfoldable pub copy_mounts : List Mount → List Mount
copy_mounts [] = []
copy_mounts (m ∷ mounts) =
    record {
      host_path = m.host_path;
      container_path = m.container_path;
      options = [] ++ m.options;
      mount_type = m.mount_type;
    }
    ∷ copy_mounts mounts

unfoldable pub copy_hooks : List Hook → List Hook
copy_hooks [] = []
copy_hooks (k ∷ hooks) =
    record {
      hook_name = k.hook_name;
      path = k.path;
      args = [] ++ k.args;
      env = [] ++ k.env;
      timeout = k.timeout;
    }
    ∷ copy_hooks hooks

-- The edits of the first device of this name.
unfoldable pub find_edits : Text → List NamedEdits → Option ContainerEdits
find_edits name [] = none
find_edits name (d ∷ devices) =
    let rest = find_edits name devices in if text_eq d.name name then some d.edits else rest

unfoldable pub runtime_edits :
    ParsedSpec → Option ContainerEdits → Result Error (List Mount × List Hook)
runtime_edits spec none = err (message "runtime device not found")
runtime_edits spec (some edits) = ok (copy_mounts edits.mounts, copy_hooks edits.hooks)

unfoldable pub rds_nodes : Option ContainerEdits → List DeviceNode
rds_nodes none = []
rds_nodes (some edits) = edits.device_nodes

unfoldable pub checked_rds_spec : Option ParsedSpec → Result Error (List DeviceNode)
unfolding rds_nodes find_edits
checked_rds_spec none = err (message "empty RDS CDI spec")
checked_rds_spec (some spec) =
    if text_eq spec.kind (codes "rebellions.ai/rds")
    then ok (rds_nodes (find_edits (codes "all") spec.devices))
    else err (message "unexpected CDI kind")

-- The devices of the spec of a claim; the library appends the edits to empty ones.
unfoldable pub claim_spec_devices : Host → Text → PreparedDevices → List CdiDevice
unfolding claim_device_name
claim_spec_devices h claim_uid [] = []
claim_spec_devices h claim_uid (d ∷ devices) =
    record {
      name = claim_device_name claim_uid d.device_name;
      container_edits = h.append_edits no_edits d.container_edits;
    }
    ∷ claim_spec_devices h claim_uid devices

module _ (h : Host) (cdi : CdiHandler) where
  unfoldable pub parse_runtime : Text → Result Error (List Mount × List Hook)
  unfolding runtime_edits find_edits copy_mounts copy_hooks
  parse_runtime content =
      Base.◌>>=◌ (map_err (wrap "failed to parse rbln.yaml") (h.unmarshal_runtime_spec content))
        λ spec.
          if text_eq spec.kind (codes "rebellions.ai/npu")
          then runtime_edits spec (find_edits (codes "runtime") spec.devices)
          else err (message "unexpected CDI kind")

  -- `getRuntimeUMDEdits`
  unfoldable pub get_runtime_umd_edits : h.State → Result Error (List Mount × List Hook)
  unfolding parse_runtime
  get_runtime_umd_edits s =
      Base.◌>>=◌
        (map_err (λ e. wrap "failed to read rbln.yaml" (os e))
          (h.read_file s (join cdi.root (codes "rbln.yaml"))))
        parse_runtime

  unfoldable pub parse_rds : Result OsError Text → Result Error (List DeviceNode)
  unfolding checked_rds_spec
  parse_rds (err not_exist) = ok []
  parse_rds (err (errno n)) = err (wrap "failed to read rbln-rds.yaml" (os (errno n)))
  parse_rds (ok content) =
      Base.◌>>=◌ (map_err (wrap "failed to parse rbln-rds.yaml") (h.parse_spec content))
        checked_rds_spec

  -- `getRDSDeviceNodes`
  unfoldable pub get_rds_device_nodes : h.State → Result Error (List DeviceNode)
  unfolding parse_rds
  get_rds_device_nodes s = parse_rds (h.read_file s (join cdi.root (codes "rbln-rds.yaml")))

  -- `CreateCommonSpecFile`
  unfoldable pub create_common_spec_file : Action h.State (Unit {0})
  unfolding kind
  create_common_spec_file = do
    (mounts, hooks) ←
        reads (λ s. map_err (wrap "failed to get runtime UMD edits") (get_runtime_umd_edits s))
    let spec : Spec = record {
      version = [];
      kind = kind cdi;
      devices =
          record {
            name = codes "common";
            container_edits = record { device_nodes = []; mounts = mounts; hooks = hooks };
          }
          ∷ [];
    }
    version ← reads (λ s.
        map_err (wrap "failed to get minimum required CDI spec version")
          (h.minimum_required_version spec))
    spec_name ← reads (λ s.
        map_err (wrap "failed to generate Spec name")
          (h.generate_name_for_transient_spec spec (codes "common")))
    h.write_spec (record spec { version = version }) spec_name

  -- `CreateClaimSpecFile`
  unfoldable pub create_claim_spec_file : Text → PreparedDevices → Action h.State (Unit {0})
  unfolding kind claim_spec_devices
  create_claim_spec_file claim_uid devices = do
    let spec : Spec = record {
      version = [];
      kind = kind cdi;
      devices = claim_spec_devices h claim_uid devices;
    }
    version ← reads (λ s.
        map_err (wrap "failed to get minimum required CDI spec version")
          (h.minimum_required_version spec))
    h.write_spec (record spec { version = version })
        (h.generate_transient_spec_name vendor cdi.class claim_uid)

  -- `DeleteClaimSpecFile`
  unfoldable pub delete_claim_spec_file : Text → Action h.State (Unit {0})
  delete_claim_spec_file claim_uid =
      h.remove_spec (h.generate_transient_spec_name vendor cdi.class claim_uid)

  unfoldable pub claim_device_ids : Text → List Text → List Text
  unfolding claim_device_name
  claim_device_ids claim_uid [] = []
  claim_device_ids claim_uid (d ∷ devices) =
      h.qualified_name vendor cdi.class (claim_device_name claim_uid d)
      ∷ claim_device_ids claim_uid devices

  -- `GetClaimDevices`
  unfoldable pub get_claim_devices : Text → List Text → Bool → List Text
  unfolding claim_device_ids
  get_claim_devices claim_uid devices include_common =
      let ids = claim_device_ids claim_uid devices in
      if include_common then h.qualified_name vendor cdi.class (codes "common") ∷ ids else ids
