-- ===== src/Device/Lookups.antt =====
-- What the setters of attributes leave under each key.
use rbln_k8s_dra_driver.Base.{
  String, ◌≡◌, refl, false, ◌&&◌, Option, none, some, ℤ, if◌then◌else◌, arith, str_eq, Result-cases,
  inl, inr,
}
use rbln_k8s_dra_driver.Go.Text.{Text}
use rbln_k8s_dra_driver.Go.Number.{parse_int}
use rbln_k8s_dra_driver.Go.FilePath.{FilePath}
use rbln_k8s_dra_driver.Go.Maps.{lookup, insert, string_key, lookup-insert}
use rbln_k8s_dra_driver.Pci.Sysfs.{Sysfs}
use rbln_k8s_dra_driver.Pci.Readers.{resolve_pcie_root_id}
use rbln_k8s_dra_driver.Sriov.{SriovInfo, is_vf, partition_mode}
use rbln_k8s_dra_driver.Device.Defs.{
  Attributes, int_attribute, string_attribute, bool_attribute, set_numa_node, set_numa_node_attr,
  set_pcie_root_attr, set_parent, set_attributes, numa_node_key, dranet_numa_node_key,
  pcie_root_key, vf_key, parent_pci_bus_id_key, partition_mode_key, num_vfs_key,
}

-- A setter leaves the other keys alone.
module _ (key : String) (attrs : Attributes) where
  pub lookup-set_pcie_root_attr :
      (fs : Sysfs) (root : FilePath) (bus_id : Text)
      → str_eq pcie_root_key key ≡ false
      → lookup key (set_pcie_root_attr fs attrs root bus_id) ≡ lookup key attrs
  unfolding set_pcie_root_attr
  lookup-set_pcie_root_attr fs root bus_id other =
      elim (Result-cases (resolve_pcie_root_id fs root bus_id)) [
        | inl (r, e) ↦ ground (arith, lookup-insert pcie_root_key key (string_attribute r) attrs)
        | inr (r, e) ↦ ground arith
      ]

  lookup-set_numa_node :
      (n : Option ℤ)
      → str_eq numa_node_key key ≡ false
      → str_eq dranet_numa_node_key key ≡ false
      → lookup key (set_numa_node attrs n) ≡ lookup key attrs
  unfolding set_numa_node
  lookup-set_numa_node none other other' = refl
  lookup-set_numa_node (some v) other other' = ground (
    arith,
    lookup-insert numa_node_key key (int_attribute v) attrs,
    lookup-insert dranet_numa_node_key key (int_attribute v)
        (insert numa_node_key (int_attribute v) attrs),
  )

  pub lookup-set_numa_node_attr :
      (numa : Text)
      → str_eq numa_node_key key ≡ false
      → str_eq dranet_numa_node_key key ≡ false
      → lookup key (set_numa_node_attr attrs numa) ≡ lookup key attrs
  unfolding set_numa_node_attr
  lookup-set_numa_node_attr numa other other' =
      ground (arith, lookup-set_numa_node (parse_int numa) other other')

lookup-set_parent :
    (s : SriovInfo) (attrs : Attributes) (key : String)
    → lookup key (set_parent s attrs) ≡ (
        if str_eq parent_pci_bus_id_key key && is_vf s
        then some (string_attribute s.parent_pci_bus_id)
        else lookup key attrs)
unfolding set_parent
lookup-set_parent s attrs key =
    ground
      (arith, lookup-insert parent_pci_bus_id_key key (string_attribute s.parent_pci_bus_id) attrs)

-- The four keys that `setAttributes` writes.
pub lookup-set_attributes :
    (s : SriovInfo) (attrs : Attributes) (key : String)
    → lookup key (set_attributes s attrs) ≡ (
        if str_eq num_vfs_key key
        then some (int_attribute s.num_vfs)
        else if str_eq partition_mode_key key
        then some (string_attribute (partition_mode s))
        else if str_eq parent_pci_bus_id_key key && is_vf s
        then some (string_attribute s.parent_pci_bus_id)
        else if str_eq vf_key key
        then some (bool_attribute (is_vf s))
        else lookup key attrs)
unfolding set_attributes
lookup-set_attributes s attrs key = simp (lookup-insert, lookup-set_parent)
