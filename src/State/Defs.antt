-- ===== src/State/Defs.antt =====
-- `DeviceState` with its published inventory. The mutex has no counterpart: an operation is one
-- step.
use rbln_k8s_dra_driver.Base.{Bool, List, [], ◌∷◌, ◌++◌, if◌then◌else◌}
use rbln_k8s_dra_driver.Go.Text.{Text, is_empty}
use rbln_k8s_dra_driver.Go.Strings.{to_lower}
use rbln_k8s_dra_driver.Go.Maps.{insert, text_key}
use rbln_k8s_dra_driver.Device.Defs.{
  Device, device_string_attr, pci_bus_id_key, parent_pci_bus_id_key,
}

-- `AllocatableDevices`
abbrev pub AllocatableDevices : Type 0
AllocatableDevices = List (Text × Device)

-- `resourceslice.DriverResources` with its one pool, which has one slice.
pub record DriverResources : Type 0 where
  pub pool : Text
  pub devices : List Device

-- `scanStatus`
pub record ScanStatus : Type 0 where
  pub sysfs_failing : Bool
  pub npu_failing : Bool
  pub slow : Bool

-- `DeviceState`
pub record DeviceState : Type 0 where
  pub node_name : Text
  pub driver_resources : DriverResources
  pub allocatable : AllocatableDevices
  pub npu_devices : List Device
  pub vfio_devices : List Device
  pub scan : ScanStatus

-- A map from names to devices; of two devices with one name the later stays.
unfoldable pub index_onto : AllocatableDevices → List Device → AllocatableDevices
index_onto m [] = m
index_onto m (d ∷ devices) = index_onto (insert d.name d m) devices

unfoldable pub index : List Device → AllocatableDevices
unfolding index_onto
index devices = index_onto [] devices

-- `rebuildResources`
unfoldable pub rebuild_resources : DeviceState → DeviceState
rebuild_resources s =
    let devices = s.npu_devices ++ s.vfio_devices in
    record s {
      allocatable = index devices;
      driver_resources = record { pool = s.node_name; devices = devices };
    }

unfoldable pub add_known : Text → List Text → List Text
add_known bus known = if is_empty bus then known else to_lower bus ∷ known

-- The keys of the map `known` in `RescanDevices`: the addresses of the published functions and of
-- their parents.
unfoldable pub known_functions : AllocatableDevices → List Text
unfolding add_known
known_functions [] = []
known_functions ((name, d) ∷ m) =
    add_known (device_string_attr d pci_bus_id_key)
      (add_known (device_string_attr d parent_pci_bus_id_key) (known_functions m))
