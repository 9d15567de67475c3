-- ===== src/Host/Interface.antt =====
-- The state of the node is unknown, and so is what the operating system and the libraries do to it.
use rbln_k8s_dra_driver.Base.{ℕ, Bool, List, Result, Option}
use rbln_k8s_dra_driver.Go.Text.{Text}
use rbln_k8s_dra_driver.Go.FilePath.{FilePath}
use rbln_k8s_dra_driver.Go.Errors.{OsError, Error}
use rbln_k8s_dra_driver.Pci.Sysfs.{Sysfs}
use rbln_k8s_dra_driver.Claim.{PreparedClaims, Spec, ContainerEdits}
use rbln_k8s_dra_driver.Device.Defs.{Attributes}

-- `os.DirEntry`
pub record DirEntry : Type 0 where
  pub name : Text
  pub is_dir : Bool

-- What a polling loop meets: the result of the i-th `os.Stat`, and the milliseconds since the start
-- at the i-th look at the clock.
pub record Polls : Type 0 where
  pub stat : ℕ → Result OsError (Unit {0})
  pub elapsed : ℕ → ℕ

-- `rblnRuntimeSpec`, and the result of `cdiapi.ParseSpec`, as far as they are read.
pub record NamedEdits : Type 0 where
  pub name : Text
  pub edits : ContainerEdits

pub record ParsedSpec : Type 0 where
  pub kind : Text
  pub devices : List NamedEdits

-- `kubevirtMetadataDevice`, `kubevirtDeviceMetadataRequest` and `kubevirtDeviceMetadata`
pub record MetadataDevice : Type 0 where
  pub driver : Text
  pub pool : Text
  pub name : Text
  pub attributes : Attributes

pub record MetadataRequest : Type 0 where
  pub name : Text
  pub devices : List MetadataDevice

pub record Metadata : Type 0 where
  pub api_version : Text
  pub kind : Text
  pub pod_claim_name : Option Text
  pub requests : List MetadataRequest

pub record Host : Type 1 where
  pub State : Type 0
  -- package os
  pub read_file : State → FilePath → Result OsError Text
  pub read_dir : State → FilePath → Result OsError (List DirEntry)
  pub mkdir_all : FilePath → State → Result OsError (Unit {0}) × State
  pub write_file : FilePath → Text → State → Result OsError (Unit {0}) × State
  pub rename : FilePath → FilePath → State → Result OsError (Unit {0}) × State
  pub remove_all : FilePath → State → Result OsError (Unit {0}) × State
  pub polls : State → FilePath → Polls
  pub sysfs : State → Sysfs
  -- the checkpoint manager of the kubelet, on the plugin's one checkpoint file
  pub get_checkpoint : State → Result Error PreparedClaims
  pub create_checkpoint : PreparedClaims → State → Result Error (Unit {0}) × State
  -- the CDI library
  pub write_spec : Spec → Text → State → Result Error (Unit {0}) × State
  pub remove_spec : Text → State → Result Error (Unit {0}) × State
  -- `a.Append(b)`
  pub append_edits : ContainerEdits → ContainerEdits → ContainerEdits
  pub minimum_required_version : Spec → Result Error Text
  pub generate_name_for_transient_spec : Spec → Text → Result Error Text
  pub generate_transient_spec_name : Text → Text → Text → Text
  pub qualified_name : Text → Text → Text → Text
  pub parse_spec : Text → Result Error (Option ParsedSpec)
  -- yaml.Unmarshal and json.Marshal
  pub unmarshal_runtime_spec : Text → Result Error ParsedSpec
  pub marshal_metadata : Metadata → Result Error Text
  -- `rsdGroupFn`: the path of the group's device node, `none` for the empty text
  pub rsd_group : List Text → State → Result Error (Option FilePath) × State
