-- ===== src/Metadata/Laws.antt =====
-- How the allocated devices of a claim are grouped into metadata files:
-- cmd/npu-kubelet-plugin/kubevirt_metadata.go.
use rbln_k8s_dra_driver.Base.{
  ◌≡◌, refl, sym, List, [], ◌∷◌, ◌++◌, Option, none, some, if◌then◌else◌, inl, inr, Bool-cases,
  append_assoc, append_nil,
}
use rbln_k8s_dra_driver.Go.Text.{Text, text_eq, text_eq_sound}
use rbln_k8s_dra_driver.Go.Maps.{lookup, text_key, lookup-insert}
use rbln_k8s_dra_driver.Device.Defs.{Device}
use rbln_k8s_dra_driver.State.Defs.{AllocatableDevices}
use rbln_k8s_dra_driver.Claim.{driver_name, AllocationResult}
use rbln_k8s_dra_driver.Host.{MetadataDevice}
use rbln_k8s_dra_driver.Metadata.{
  kubevirt_metadata_request_name, DevicesByRequest, devices_at, add_device, group_by_request,
}

-- The entry of an allocated device in the metadata of a request: for another request, or for a
-- device that is not published, there is none.
unfoldable pub entry_for : Text → AllocationResult → Option Device → List MetadataDevice
entry_for request result none = []
entry_for request result (some device) =
    if text_eq (kubevirt_metadata_request_name result) request
    then record {
      driver = driver_name;
      pool = result.pool;
      name = result.device;
      attributes = device.attributes;
    }
      ∷ []
    else []

-- The metadata of a request, read off the allocation results in their order.
unfoldable pub entries_for : AllocatableDevices → Text → List AllocationResult → List MetadataDevice
entries_for allocatable request [] = []
entries_for allocatable request (result ∷ results) =
    let rest = entries_for allocatable request results in
    if text_eq result.driver driver_name
    then entry_for request result (lookup result.device allocatable) ++ rest
    else rest

devices_at-add_device :
    (m : DevicesByRequest) (result : AllocationResult) (o : Option Device) (request : Text)
    → devices_at (lookup request (add_device m result o))
      ≡ devices_at (lookup request m) ++ entry_for request result o
unfolding add_device entry_for
devices_at-add_device m result none request = sym (append_nil _)
devices_at-add_device m result (some device) request =
    let name = kubevirt_metadata_request_name result in
    elim (Bool-cases (text_eq name request)) [
      | inl same ↦
          let at : name ≡ request = text_eq_sound name request same in
          rw (lookup-insert name request, same, at) refl
      | inr other ↦ rw (lookup-insert name request, other) (sym (append_nil _))
    ]

-- Grouping by request gives each request the metadata of exactly the allocated devices of this
-- driver that are published and were allocated for it, in the order of the allocation, after those
-- that were there.
pub group_by_request_lem :
    (allocatable : AllocatableDevices) (m : DevicesByRequest) (results : List AllocationResult)
    (request : Text)
    → devices_at (lookup request (group_by_request allocatable m results))
      ≡ devices_at (lookup request m) ++ entries_for allocatable request results
unfolding group_by_request entries_for
group_by_request_lem allocatable m [] request = sym (append_nil _)
group_by_request_lem allocatable m (result ∷ results) request =
    elim (Bool-cases (text_eq result.driver driver_name)) [
      | inl ours ↦
          rw
            (
              ours,
              group_by_request_lem allocatable
                  (add_device m result (lookup result.device allocatable)) results request,
              devices_at-add_device m result (lookup result.device allocatable) request,
            )
            (append_assoc (devices_at (lookup request m)) _ _)
      | inr theirs ↦ rw theirs (group_by_request_lem allocatable m results request)
    ]
