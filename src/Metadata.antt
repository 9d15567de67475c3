-- ===== src/Metadata.antt =====
-- cmd/npu-kubelet-plugin/kubevirt_metadata.go: the metadata files for KubeVirt.
pub mod Laws
pub mod Frame
pub mod Written
pub mod Files
pub mod Directory
pub mod Markers
pub mod Removed
pub mod Cleanup
use rbln_k8s_dra_driver.Base.{
  ◌≡◌, refl, Bool, true, false, List, [], ◌∷◌, ◌++◌, Result, ok, err, Option, none, some,
  if◌then◌else◌, map_err, not,
}
use rbln_k8s_dra_driver.Go.Text.{Text, codes, text_eq, is_empty}
use rbln_k8s_dra_driver.Go.Strings.{trim_space, cut_before}
use rbln_k8s_dra_driver.Go.FilePath.{FilePath, join, drop_last, path_base, slash}
use rbln_k8s_dra_driver.Go.Errors.{OsError, not_exist, errno, Error, os, message, wrap}
use rbln_k8s_dra_driver.Go.Maps.{lookup, insert, text_key}
use rbln_k8s_dra_driver.Device.Defs.{Device}
use rbln_k8s_dra_driver.State.Defs.{AllocatableDevices}
use rbln_k8s_dra_driver.Claim.{driver_name, AllocationResult, Claim, Mount}
use rbln_k8s_dra_driver.Host.{
  Host, DirEntry, Metadata, MetadataDevice, Action, pure, fail, reads, os_call, ◌>>=◌, ◌>>◌,
}

-- `kubevirtMetadataBasePath`
abbrev pub kubevirt_metadata_base_path : FilePath
kubevirt_metadata_base_path =
    codes "var" ∷ codes "run" ∷ codes "kubernetes.io" ∷ codes "dra-device-attributes" ∷ []

abbrev pub resource_claims_subdir : Text
resource_claims_subdir = codes "resourceclaims"

abbrev pub resource_claim_template_subdir : Text
resource_claim_template_subdir = codes "resourceclaimtemplates"

abbrev pub kubevirt_metadata_owner_file : Text
kubevirt_metadata_owner_file = codes ".claim-uid"

-- The annotation, if it is there and not empty.
unfoldable pub pod_claim_name_of : Option Text → Option Text
pod_claim_name_of none = none
pod_claim_name_of (some v) = if is_empty v then none else some v

unfoldable pub template_dirs : FilePath → Option Text → List FilePath
template_dirs base_path none = []
template_dirs base_path (some name) = join (join base_path resource_claim_template_subdir) name ∷ []

-- `kubevirtMetadataContainerDirs`
unfoldable pub kubevirt_metadata_container_dirs : FilePath → Claim → List FilePath
unfolding template_dirs pod_claim_name_of
kubevirt_metadata_container_dirs base_path claim =
    join (join base_path resource_claims_subdir) claim.name
    ∷ template_dirs base_path (pod_claim_name_of claim.pod_claim_name)

-- `kubevirtMetadataHostDir`
unfoldable pub kubevirt_metadata_host_dir : FilePath → Text → FilePath
kubevirt_metadata_host_dir base_path claim_uid =
    join (join base_path resource_claims_subdir) (codes ".uid-" ++ claim_uid)

-- `kubevirtMetadataRequestName`
unfoldable pub kubevirt_metadata_request_name : AllocationResult → Text
kubevirt_metadata_request_name result = cut_before slash result.request

-- `kubevirtMetadataFilePath`
unfoldable pub kubevirt_metadata_file_path : FilePath → Text → FilePath
kubevirt_metadata_file_path claim_dir request_name =
    join (join claim_dir request_name) (driver_name ++ codes "-metadata.json")

unfoldable pub mounts_of : FilePath → Text → List FilePath → List Mount
mounts_of host_path request_name [] = []
mounts_of host_path request_name (dir ∷ dirs) =
    record {
      host_path = host_path;
      container_path = kubevirt_metadata_file_path dir request_name;
      options = codes "ro" ∷ codes "bind" ∷ [];
      mount_type = [];
    }
    ∷ mounts_of host_path request_name dirs

-- `kubevirtMetadataMounts`
unfoldable pub kubevirt_metadata_mounts : FilePath → Claim → Text → List Mount
unfolding mounts_of
kubevirt_metadata_mounts base_path claim request_name =
    mounts_of
      (kubevirt_metadata_file_path (kubevirt_metadata_host_dir base_path claim.uid) request_name)
      request_name (kubevirt_metadata_container_dirs base_path claim)

-- `devicesByRequest`
abbrev pub DevicesByRequest : Type 0
DevicesByRequest = List (Text × List MetadataDevice)

unfoldable pub devices_at : Option (List MetadataDevice) → List MetadataDevice
devices_at none = []
devices_at (some devices) = devices

unfoldable pub add_device : DevicesByRequest → AllocationResult → Option Device → DevicesByRequest
unfolding devices_at
add_device m result none = m
add_device m result (some device) =
    let request_name = kubevirt_metadata_request_name result in
    insert request_name
      (devices_at (lookup request_name m)
        ++ (record {
          driver = driver_name;
          pool = result.pool;
          name = result.device;
          attributes = device.attributes;
        }
            ∷ []))
      m

-- The loop that groups the results of this driver by request.
unfoldable pub group_by_request :
    AllocatableDevices → DevicesByRequest → List AllocationResult → DevicesByRequest
unfolding add_device
group_by_request allocatable m [] = m
group_by_request allocatable m (result ∷ results) =
    group_by_request allocatable
      (if text_eq result.driver driver_name
        then add_device m result (lookup result.device allocatable)
        else m)
      results

unfoldable pub allocated_results : Claim → List AllocationResult
allocated_results claim = elim claim.results [ none ↦ [] | some results ↦ results ]

-- `path + ".tmp"`
unfoldable pub tmp_path : FilePath → FilePath
tmp_path path = drop_last path ++ ((path_base path ++ codes ".tmp") ∷ [])

module _ (h : Host) where
  -- The owner that a readable marker names, by what reading the marker gave.
  unfoldable pub owner_of : Result OsError Text → Option Text
  owner_of (ok content) = some (trim_space content)
  owner_of (err e) = none

  unfoldable pub claim_by : FilePath → Text → Option Text → Action h.State (Unit {0})
  claim_by claim_dir claim_uid (some owner) =
      if text_eq owner claim_uid
      then pure tt
      else fail (message "metadata directory is owned by another claim")
  claim_by claim_dir claim_uid none =
      os_call "create metadata claim dir" (h.mkdir_all claim_dir)
      >> os_call "write owner marker"
          (h.write_file (join claim_dir kubevirt_metadata_owner_file) (claim_uid ++ codes "\n"))

  -- `claimMetadataOwnership`
  unfoldable pub claim_metadata_ownership : FilePath → Text → Action h.State (Unit {0})
  unfolding claim_by owner_of
  claim_metadata_ownership claim_dir claim_uid s =
      claim_by claim_dir claim_uid
        (owner_of (h.read_file s (join claim_dir kubevirt_metadata_owner_file))) s

  unfoldable pub write_request :
      FilePath → Option Text → Text → List MetadataDevice → Action h.State (Unit {0})
  write_request claim_dir pod_claim_name request_name devices = do
    let path = kubevirt_metadata_file_path claim_dir request_name
    os_call "create metadata dir" (h.mkdir_all (drop_last path))
    content ← reads (λ s. map_err (wrap "marshal metadata") (
        h.marshal_metadata (record {
          api_version = codes "metadata.resource.k8s.io/v1alpha1";
          kind = codes "DeviceMetadata";
          pod_claim_name = pod_claim_name;
          requests = record { name = request_name; devices = devices } ∷ [];
        })))
    os_call "write metadata" (h.write_file (tmp_path path) content)
    os_call "publish metadata" (h.rename (tmp_path path) path)

  unfoldable pub write_requests :
      FilePath → Option Text → DevicesByRequest → Action h.State (Unit {0})
  unfolding write_request
  write_requests claim_dir pod_claim_name [] = pure tt
  write_requests claim_dir pod_claim_name ((request_name, devices) ∷ m) =
      write_request claim_dir pod_claim_name request_name devices
      >> write_requests claim_dir pod_claim_name m

  -- `writeKubeVirtMetadata`
  unfoldable pub write_kubevirt_metadata :
      FilePath → Claim → AllocatableDevices → Action h.State (Unit {0})
  unfolding claim_metadata_ownership write_requests allocated_results group_by_request
  write_kubevirt_metadata base_path claim allocatable =
      let claim_dir = kubevirt_metadata_host_dir base_path claim.uid in
      claim_metadata_ownership claim_dir claim.uid
      >> write_requests claim_dir (pod_claim_name_of claim.pod_claim_name)
          (group_by_request allocatable [] (allocated_results claim))

  unfoldable pub is_owner : Option Text → Text → Bool
  is_owner none claim_uid = false
  is_owner (some owner) claim_uid = text_eq owner claim_uid

  -- The test on an entry: a directory whose marker names the claim.
  unfoldable pub owned_entry : FilePath → Text → DirEntry → h.State → Bool
  unfolding is_owner owner_of
  owned_entry parent claim_uid entry s =
      if entry.is_dir
      then is_owner
          (owner_of (h.read_file s (join (join parent entry.name) kubevirt_metadata_owner_file)))
          claim_uid
      else false

  -- The loop over the entries of one directory.
  unfoldable pub remove_owned : FilePath → Text → List DirEntry → Action h.State (Unit {0})
  unfolding owned_entry
  remove_owned parent claim_uid [] = pure tt
  remove_owned parent claim_uid (entry ∷ entries) =
      (λ s.
        (if owned_entry parent claim_uid entry s
            then os_call "remove metadata dir" (h.remove_all (join parent entry.name))
            else pure tt)
          s)
      >> remove_owned parent claim_uid entries

  unfoldable pub remove_listed :
      FilePath → Text → Result OsError (List DirEntry) → Action h.State (Unit {0})
  unfolding remove_owned
  remove_listed parent claim_uid (ok entries) = remove_owned parent claim_uid entries
  remove_listed parent claim_uid (err not_exist) = pure tt
  remove_listed parent claim_uid (err (errno n)) = fail (wrap "scan metadata dir" (os (errno n)))

  unfoldable pub remove_under : FilePath → Text → Action h.State (Unit {0})
  unfolding remove_listed
  remove_under parent claim_uid s = remove_listed parent claim_uid (h.read_dir s parent) s

  -- `removeKubeVirtMetadataForClaim`
  unfoldable pub remove_kubevirt_metadata_for_claim : FilePath → Text → Action h.State (Unit {0})
  unfolding remove_under
  remove_kubevirt_metadata_for_claim base_path claim_uid =
      remove_under (join base_path resource_claims_subdir) claim_uid
      >> remove_under (join base_path resource_claim_template_subdir) claim_uid
