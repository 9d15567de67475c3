-- ===== src/Device/Defs.antt =====
-- Published devices and their attributes: `resourceapi.Device` of the Kubernetes API, as far as the
-- plugin fills it in, with the accessors and the setters of cmd/npu-kubelet-plugin/state.go and
-- sriov.go.
use rbln_k8s_dra_driver.Base.{
  String, Bool, false, ◌||◌, List, [], Result, ok, err, Option, none, some, ℤ, is_negative,
  if◌then◌else◌,
}
use rbln_k8s_dra_driver.Go.Text.{Text, codes, text_eq, is_empty}
use rbln_k8s_dra_driver.Go.Number.{parse_int}
use rbln_k8s_dra_driver.Go.FilePath.{FilePath}
use rbln_k8s_dra_driver.Go.Errors.{Error, message}
use rbln_k8s_dra_driver.Go.Maps.{lookup, insert, string_key}
use rbln_k8s_dra_driver.Pci.Sysfs.{Sysfs}
use rbln_k8s_dra_driver.Pci.Readers.{resolve_pcie_root_id}
use rbln_k8s_dra_driver.Sriov.{SriovInfo, is_vf, partition_mode}

-- `resourceapi.DeviceAttribute`: pointers to the typed values.
pub record DeviceAttribute : Type 0 where
  pub int_value : Option ℤ
  pub bool_value : Option Bool
  pub string_value : Option Text

abbrev pub int_attribute : ℤ → DeviceAttribute
int_attribute n = record { int_value = some n; bool_value = none; string_value = none }

abbrev pub bool_attribute : Bool → DeviceAttribute
bool_attribute b = record { int_value = none; bool_value = some b; string_value = none }

abbrev pub string_attribute : Text → DeviceAttribute
string_attribute s = record { int_value = none; bool_value = none; string_value = some s }

-- `map[resourceapi.QualifiedName]resourceapi.DeviceAttribute`
abbrev pub Attributes : Type 0
Attributes = List (String × DeviceAttribute)

-- `resourceapi.Device`; the only capacity that the plugin sets is `memory`.
pub record Device : Type 0 where
  pub name : Text
  pub attributes : Attributes
  pub memory : Option ℤ

abbrev pub pci_bus_id_key : String
pci_bus_id_key = "resource.kubernetes.io/pciBusID"

abbrev pub pcie_root_key : String
pcie_root_key = "resource.kubernetes.io/pcieRoot"

abbrev pub numa_node_key : String
numa_node_key = "resource.kubernetes.io/numaNode"

abbrev pub dranet_numa_node_key : String
dranet_numa_node_key = "dra.net/numaNode"

abbrev pub device_type_key : String
device_type_key = "type"

abbrev pub vf_key : String
vf_key = "vf"

abbrev pub iommu_group_key : String
iommu_group_key = "iommuGroup"

abbrev pub parent_pci_bus_id_key : String
parent_pci_bus_id_key = "parentPCIBusID"

abbrev pub partition_mode_key : String
partition_mode_key = "partitionMode"

abbrev pub num_vfs_key : String
num_vfs_key = "numVFs"

abbrev pub device_node_name_key : String
device_node_name_key = "deviceNodeName"

unfoldable pub string_of : Option DeviceAttribute → Option Text
string_of none = none
string_of (some a) = a.string_value

unfoldable pub int_of : Option DeviceAttribute → Option ℤ
int_of none = none
int_of (some a) = a.int_value

-- The string value under a key, if there is one.
unfoldable pub string_value_at : Device → String → Option Text
unfolding string_of
string_value_at d key = string_of (lookup key d.attributes)

unfoldable pub or_empty : Option Text → Text
or_empty none = []
or_empty (some s) = s

-- `deviceStringAttr`
unfoldable pub device_string_attr : Device → String → Text
unfolding or_empty string_value_at
device_string_attr d key = or_empty (string_value_at d key)

-- `deviceIntAttr`; `none` is `nil`.
unfoldable pub device_int_attr : Device → String → Option ℤ
unfolding int_of
device_int_attr d key = int_of (lookup key d.attributes)

unfoldable pub bool_of : Option DeviceAttribute → Option Bool
bool_of none = none
bool_of (some a) = a.bool_value

-- `deviceBoolAttr`; `none` is `nil`.
unfoldable pub device_bool_attr : Device → String → Option Bool
unfolding bool_of
device_bool_attr d key = bool_of (lookup key d.attributes)

unfoldable pub checked_bus_id : Option Text → Result Error Text
checked_bus_id none = err (message "allocatable device is missing its PCI bus ID")
checked_bus_id (some s) =
    if is_empty s then err (message "allocatable device is missing its PCI bus ID") else ok s

-- `devicePCIBusID`
unfoldable pub device_pci_bus_id : Device → Result Error Text
unfolding checked_bus_id string_value_at
device_pci_bus_id d = checked_bus_id (string_value_at d pci_bus_id_key)

-- `deviceTypeVfio`
abbrev pub device_type_vfio : Text
device_type_vfio = codes "vfio"

unfoldable pub is_vfio_type : Option Text → Bool
is_vfio_type none = false
is_vfio_type (some s) = text_eq s device_type_vfio

-- `isVfioDevice`
unfoldable pub is_vfio_device : Device → Bool
unfolding is_vfio_type string_value_at
is_vfio_device d = is_vfio_type (string_value_at d device_type_key)

unfoldable pub set_numa_node : Attributes → Option ℤ → Attributes
set_numa_node attrs none = attrs
set_numa_node attrs (some v) =
    if is_negative v
    then attrs
    else insert dranet_numa_node_key (int_attribute v)
        (insert numa_node_key (int_attribute v) attrs)

-- `setNumaNodeAttr`. A number that cannot be read, `N/A` and the empty text all leave the
-- attributes alone.
unfoldable pub set_numa_node_attr : Attributes → Text → Attributes
unfolding set_numa_node
set_numa_node_attr attrs numa_node =
    if is_empty numa_node || text_eq numa_node (codes "N/A")
    then attrs
    else set_numa_node attrs (parse_int numa_node)

unfoldable pub set_pcie_root : Attributes → Result Error Text → Attributes
set_pcie_root attrs (err e) = attrs
set_pcie_root attrs (ok pcie_root) =
    if is_empty pcie_root then attrs else insert pcie_root_key (string_attribute pcie_root) attrs

-- `setPCIERootAttr`; no caller uses its result.
unfoldable pub set_pcie_root_attr : Sysfs → Attributes → FilePath → Text → Attributes
unfolding set_pcie_root
set_pcie_root_attr fs attrs sysfs_root bus_id =
    set_pcie_root attrs (resolve_pcie_root_id fs sysfs_root bus_id)

unfoldable pub set_parent : SriovInfo → Attributes → Attributes
set_parent s attrs =
    if is_vf s
    then insert parent_pci_bus_id_key (string_attribute s.parent_pci_bus_id) attrs
    else attrs

-- `setAttributes`
unfoldable pub set_attributes : SriovInfo → Attributes → Attributes
set_attributes s attrs = insert num_vfs_key (int_attribute s.num_vfs) (
    insert partition_mode_key (string_attribute (partition_mode s))
      (set_parent s (insert vf_key (bool_attribute (is_vf s)) attrs)))
