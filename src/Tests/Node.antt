-- ===== src/Tests/Node.antt =====
-- A node with two NPUs: 0000:3b:00.0 is bound to vfio-pci and alone in IOMMU group 12, 0000:5e:00.0
-- to the native driver. Its sysfs is a finite tree.
use rbln_k8s_dra_driver.Base.{
  Bool, true, false, ◌&&◌, List, [], ◌∷◌, Result, ok, err, Option, none, some, ℤ, pos, int_eq,
  if◌then◌else◌, str_eq,
}
use rbln_k8s_dra_driver.Go.Text.{Text, codes, text_eq}
use rbln_k8s_dra_driver.Go.FilePath.{FilePath, join}
use rbln_k8s_dra_driver.Go.Errors.{OsError, not_exist}
use rbln_k8s_dra_driver.Pci.Sysfs.{Sysfs}
use rbln_k8s_dra_driver.Device.Defs.{Device, Attributes}
use rbln_k8s_dra_driver.Native.Defs.{InventoryDevice}
use rbln_k8s_dra_driver.State.Defs.{DeviceState}
use rbln_k8s_dra_driver.State.Delta.{DeepEqual}
use rbln_k8s_dra_driver.State.Rescan.{Reads}

abbrev pub path_eq : FilePath → FilePath → Bool
path_eq [] [] = true
path_eq [] (y ∷ q) = false
path_eq (x ∷ p) [] = false
path_eq (x ∷ p) (y ∷ q) = text_eq x y && path_eq p q

abbrev pub at_path : {A : Type 0} → List (FilePath × A) → FilePath → Result OsError A
at_path [] p = err not_exist
at_path ((q, a) ∷ tree) p = let rest = at_path tree p in if path_eq q p then ok a else rest

abbrev pub exists_at : {A : Type 0} → List (FilePath × A) → FilePath → Result OsError (Unit {0})
exists_at [] p = err not_exist
exists_at ((q, a) ∷ tree) p = let rest = exists_at tree p in if path_eq q p then ok tt else rest

abbrev pub sysfs_root : FilePath
sysfs_root = codes "sys" ∷ codes "bus" ∷ codes "pci" ∷ codes "devices" ∷ []

abbrev pub vfio_bus : Text
vfio_bus = codes "0000:3b:00.0"

abbrev pub npu_bus : Text
npu_bus = codes "0000:5e:00.0"

abbrev pub vfio_path : FilePath
vfio_path = join sysfs_root vfio_bus

abbrev pub npu_path : FilePath
npu_path = join sysfs_root npu_bus

abbrev pub files : List (FilePath × Text)
files =
    (join vfio_path (codes "vendor"), codes "0x1eff\n")
    ∷ (join vfio_path (codes "class"), codes "0x120000\n")
    ∷ (join vfio_path (codes "device"), codes "0x1220\n")
    ∷ (join npu_path (codes "vendor"), codes "0x1eff\n")
    ∷ (join npu_path (codes "class"), codes "0x120000\n")
    ∷ []

abbrev pub links : List (FilePath × Text)
links =
    (join vfio_path (codes "driver"), codes "../../../bus/pci/drivers/vfio-pci")
    ∷ (join vfio_path (codes "iommu_group"), codes "../../../kernel/iommu_groups/12")
    ∷ (join npu_path (codes "driver"), codes "../../../bus/pci/drivers/rebellions")
    ∷ []

abbrev pub dirs : List (FilePath × List Text)
dirs =
    (sysfs_root, vfio_bus ∷ npu_bus ∷ [])
    ∷ (vfio_path, [])
    ∷ (npu_path, [])
    ∷ (join (join vfio_path (codes "iommu_group")) (codes "devices"), vfio_bus ∷ [])
    ∷ []

abbrev pub sysfs : Sysfs
sysfs = record {
  read_file = at_path files;
  read_link = at_path links;
  stat = exists_at dirs;
  lstat = exists_at dirs;
  read_dir = at_path dirs;
  eval_symlinks = λ p. err not_exist;
}

-- A tree in which nothing can be read.
abbrev pub no_sysfs : Sysfs
no_sysfs = record {
  read_file = λ p. err not_exist;
  read_link = λ p. err not_exist;
  stat = λ p. err not_exist;
  lstat = λ p. err not_exist;
  read_dir = λ p. err not_exist;
  eval_symlinks = λ p. err not_exist;
}

abbrev pub npu : InventoryDevice
npu = record {
  name = codes "rbln0";
  product_name = codes "RBLN-CA25";
  sid = codes "s0";
  uuid = codes "u0";
  pci_device_id = codes "1250";
  pci_bus_id = npu_bus;
  pci_link_speed = codes "32";
  pci_link_width = codes "16";
  firmware_version = codes "1.0";
  kmd_version = codes "2.0";
  pci_numa_node = codes "0";
  memory_total_bytes = pos 1024;
}

-- Equality field by field.
abbrev pub same_int : Option ℤ → Option ℤ → Bool
same_int none none = true
same_int none (some n) = false
same_int (some m) none = false
same_int (some m) (some n) = int_eq m n

abbrev pub same_text : Option Text → Option Text → Bool
same_text none none = true
same_text none (some t) = false
same_text (some s) none = false
same_text (some s) (some t) = text_eq s t

abbrev pub same_bool : Option Bool → Option Bool → Bool
same_bool (some true) (some true) = true
same_bool (some false) (some false) = true
same_bool none none = true
same_bool a b = false

abbrev pub same_attributes : Attributes → Attributes → Bool
same_attributes [] [] = true
same_attributes [] (y ∷ n) = false
same_attributes (x ∷ m) [] = false
same_attributes ((k, a) ∷ m) ((j, b) ∷ n) =
    str_eq k j
    && (same_int a.int_value b.int_value
        && (same_bool a.bool_value b.bool_value
            && (same_text a.string_value b.string_value && same_attributes m n)))

abbrev pub same_device : Device → Device → Bool
same_device a b =
    text_eq a.name b.name
    && (same_attributes a.attributes b.attributes && same_int a.memory b.memory)

abbrev pub same_devices : List Device → List Device → Bool
same_devices [] [] = true
same_devices [] (b ∷ bs) = false
same_devices (a ∷ l) [] = false
same_devices (a ∷ l) (b ∷ bs) = same_device a b && same_devices l bs

abbrev pub deep_equal : DeepEqual
deep_equal = record { same_device = same_device; same_devices = same_devices }

abbrev pub no_devices : DeviceState
no_devices = record {
  node_name = codes "node";
  driver_resources = record { pool = codes "node"; devices = [] };
  allocatable = [];
  npu_devices = [];
  vfio_devices = [];
  scan = record { sysfs_failing = false; npu_failing = false; slow = false };
}

abbrev pub reads : Reads
reads = record {
  root = sysfs_root;
  vfio_sysfs = sysfs;
  candidate_sysfs = sysfs;
  npu_sysfs = sysfs;
  inventory = ok (npu ∷ []);
}

abbrev pub failing_reads : Reads
failing_reads = record {
  root = sysfs_root;
  vfio_sysfs = no_sysfs;
  candidate_sysfs = no_sysfs;
  npu_sysfs = no_sysfs;
  inventory = ok [];
}

-- The node with the passthrough NPU alone.
abbrev pub vfio_sysfs : Sysfs
vfio_sysfs = record sysfs { read_dir = at_path ((sysfs_root, vfio_bus ∷ []) ∷ dirs) }

abbrev pub vfio_only_reads : Reads
vfio_only_reads = record reads {
  vfio_sysfs = vfio_sysfs;
  candidate_sysfs = vfio_sysfs;
  npu_sysfs = no_sysfs;
}

-- The node with three VFs enabled on the first NPU.
abbrev pub three_vfs_sysfs : Sysfs
three_vfs_sysfs = record sysfs {
  read_file = at_path ((join vfio_path (codes "sriov_numvfs"), codes "3\n") ∷ files);
}
