-- ===== src/Claim.antt =====
-- The data of claims and of what is prepared for them: the parts of `resourceapi.ResourceClaim`
-- that the plugin reads, `PreparedDevice` of cmd/npu-kubelet-plugin/types.go, the claims of
-- checkpoint.go, and the CDI types that they carry.
use rbln_k8s_dra_driver.Base.{ℕ, ℤ, List, [], ◌∷◌, Option}
use rbln_k8s_dra_driver.Go.Text.{Text, codes}
use rbln_k8s_dra_driver.Go.FilePath.{FilePath}

-- `consts.DriverName`
abbrev pub driver_name : Text
driver_name = codes "npu.rebellions.ai"

-- `resourceapi.DeviceRequestAllocationResult`
pub record AllocationResult : Type 0 where
  pub request : Text
  pub driver : Text
  pub pool : Text
  pub device : Text

-- `resourceapi.ResourceClaim`; `pod_claim_name` is the value of `podClaimNameAnnotation`, and
-- `results` is `Status.Allocation.Devices.Results`, if there is an allocation.
pub record Claim : Type 0 where
  pub uid : Text
  pub name : Text
  pub pod_claim_name : Option Text
  pub results : Option (List AllocationResult)

-- `cdispec.DeviceNode`, `cdispec.Mount` and `cdispec.ContainerEdits`, as far as they are set.
pub record DeviceNode : Type 0 where
  pub path : FilePath
  pub host_path : FilePath
  pub permissions : Text
  pub uid : Option ℕ
  pub gid : Option ℕ

pub record Mount : Type 0 where
  pub host_path : FilePath
  pub container_path : FilePath
  pub options : List Text
  pub mount_type : Text

pub record Hook : Type 0 where
  pub hook_name : Text
  pub path : Text
  pub args : List Text
  pub env : List Text
  pub timeout : Option ℤ

pub record ContainerEdits : Type 0 where
  pub device_nodes : List DeviceNode
  pub mounts : List Mount
  pub hooks : List Hook

abbrev pub no_edits : ContainerEdits
no_edits = record { device_nodes = []; mounts = []; hooks = [] }

-- `PreparedDevice`
pub record PreparedDevice : Type 0 where
  pub request_names : List Text
  pub pool_name : Text
  pub device_name : Text
  pub cdi_device_ids : List Text
  pub container_edits : ContainerEdits

abbrev pub PreparedDevices : Type 0
PreparedDevices = List PreparedDevice

-- `drapbv1.Device`: a prepared device without its edits.
pub record DraDevice : Type 0 where
  pub request_names : List Text
  pub pool_name : Text
  pub device_name : Text
  pub cdi_device_ids : List Text

-- `GetDevices`
unfoldable pub get_devices : PreparedDevices → List DraDevice
get_devices [] = []
get_devices (d ∷ devices) =
    record {
      request_names = d.request_names;
      pool_name = d.pool_name;
      device_name = d.device_name;
      cdi_device_ids = d.cdi_device_ids;
    }
    ∷ get_devices devices

-- `GetDeviceNames`
unfoldable pub get_device_names : PreparedDevices → List Text
get_device_names [] = []
get_device_names (d ∷ devices) = d.device_name ∷ get_device_names devices

-- `PreparedClaims`. A nil slice is the empty list, also after a round through the checkpoint.
abbrev pub PreparedClaims : Type 0
PreparedClaims = List (Text × PreparedDevices)

-- `cdispec.Device` and `cdispec.Spec`
pub record CdiDevice : Type 0 where
  pub name : Text
  pub container_edits : ContainerEdits

pub record Spec : Type 0 where
  pub version : Text
  pub kind : Text
  pub devices : List CdiDevice
