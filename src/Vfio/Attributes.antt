-- ===== src/Vfio/Attributes.antt =====
-- The attributes of a passthrough device that the check before preparing reads back.
use rbln_k8s_dra_driver.Base.{
  String, ◌≡◌, refl, ◌∙◌, true, false, ◌&&◌, Result, ok, err, Option, none, some, ℤ, if◌then◌else◌,
  arith, str_eq,
}
use rbln_k8s_dra_driver.Go.Text.{Text, codes, is_empty, text_eq_refl}
use rbln_k8s_dra_driver.Go.Strings.{trim_prefix}
use rbln_k8s_dra_driver.Go.Errors.{Error}
use rbln_k8s_dra_driver.Go.FilePath.{FilePath}
use rbln_k8s_dra_driver.Go.Maps.{lookup, string_key, text_key, lookup-insert}
use rbln_k8s_dra_driver.Pci.Sysfs.{Sysfs}
use rbln_k8s_dra_driver.Sriov.{SriovInfo, is_vf, partition_mode}
use rbln_k8s_dra_driver.Device.Defs.{
  Device, Attributes, int_attribute, string_attribute, bool_attribute, device_string_attr,
  device_int_attr, device_pci_bus_id, is_vfio_device, pci_bus_id_key, device_type_key,
  device_type_vfio, iommu_group_key, partition_mode_key, parent_pci_bus_id_key, numa_node_key,
  dranet_numa_node_key, pcie_root_key, num_vfs_key, vf_key,
}
use rbln_k8s_dra_driver.Device.Lookups.{
  lookup-set_pcie_root_attr, lookup-set_numa_node_attr, lookup-set_attributes,
}
use rbln_k8s_dra_driver.Vfio.Defs.{
  vfio_device, vfio_base_attributes, set_device_id, set_product_name, set_numa,
}

module _ (key : String) (attrs : Attributes) where
  lookup-set_product_name :
      (n : Option Text)
      → str_eq "productName" key ≡ false
      → lookup key (set_product_name attrs n) ≡ lookup key attrs
  unfolding set_product_name
  lookup-set_product_name none other = refl
  lookup-set_product_name (some n) other =
      ground (arith, lookup-insert "productName" key (string_attribute n) attrs)

lookup-set_device_id :
    (key : String) (attrs : Attributes) (r : Result Error Text)
    → str_eq "productName" key ≡ false
    → str_eq "pciDeviceID" key ≡ false
    → lookup key (set_device_id attrs r) ≡ lookup key attrs
unfolding set_device_id
lookup-set_device_id key attrs (err e) other other' = refl
lookup-set_device_id key attrs (ok raw) other other' =
    lookup-set_product_name key _ _ other
    ∙ ground (
      arith,
      lookup-insert "pciDeviceID" key (string_attribute (trim_prefix raw (codes "0x"))) attrs,
    )

lookup-set_numa :
    (key : String) (attrs : Attributes) (r : Result Error Text)
    → str_eq numa_node_key key ≡ false
    → str_eq dranet_numa_node_key key ≡ false
    → lookup key (set_numa attrs r) ≡ lookup key attrs
unfolding set_numa
lookup-set_numa key attrs (err e) other other' = refl
lookup-set_numa key attrs (ok numa) other other' =
    lookup-set_numa_node_attr key attrs numa other other'

module _ (fs : Sysfs) (root : FilePath) (bus_id : Text) (dev_path : FilePath) (s : SriovInfo)
    (group : ℤ) where
  abbrev device : Device
  device = vfio_device fs root bus_id dev_path s group

  -- A key that none of the optional attributes has.
  lookup-vfio_device :
      (key : String)
      → (str_eq "productName" key ≡ false)
        × (str_eq "pciDeviceID" key ≡ false)
        × (str_eq numa_node_key key ≡ false)
        × (str_eq dranet_numa_node_key key ≡ false)
        × (str_eq pcie_root_key key ≡ false)
      → lookup key device.attributes ≡ (
          if str_eq num_vfs_key key
          then some (int_attribute s.num_vfs)
          else if str_eq partition_mode_key key
          then some (string_attribute (partition_mode s))
          else if str_eq parent_pci_bus_id_key key && is_vf s
          then some (string_attribute s.parent_pci_bus_id)
          else if str_eq vf_key key
          then some (bool_attribute (is_vf s))
          else lookup key (vfio_base_attributes bus_id group))
  unfolding vfio_device
  lookup-vfio_device key (a, b, c, d, e) = rw (
    lookup-set_attributes,
    lookup-set_numa key _ _ c d,
    lookup-set_pcie_root_attr key _ fs root bus_id e,
    lookup-set_device_id key _ _ a b,
  )

  -- What the accessors read of the device.
  pub device_pci_bus_id-vfio_device : is_empty bus_id ≡ false → device_pci_bus_id device ≡ ok bus_id
  unfolding device_pci_bus_id lookup
  device_pci_bus_id-vfio_device filled =
      rw (lookup-vfio_device pci_bus_id_key (refl, refl, refl, refl, refl)) (rw filled)

  pub is_vfio_device-vfio_device : is_vfio_device device ≡ true
  unfolding is_vfio_device lookup
  is_vfio_device-vfio_device =
      rw (lookup-vfio_device device_type_key (refl, refl, refl, refl, refl))
        (text_eq_refl device_type_vfio)

  pub device_int_attr-vfio_device : device_int_attr device iommu_group_key ≡ some group
  unfolding device_int_attr lookup
  device_int_attr-vfio_device =
      rw (lookup-vfio_device iommu_group_key (refl, refl, refl, refl, refl))

  pub partition_mode-vfio_device : device_string_attr device partition_mode_key ≡ partition_mode s
  unfolding device_string_attr
  partition_mode-vfio_device =
      rw (lookup-vfio_device partition_mode_key (refl, refl, refl, refl, refl))

  pub parent-vfio_device : device_string_attr device parent_pci_bus_id_key ≡ s.parent_pci_bus_id
  unfolding device_string_attr lookup is_vf
  parent-vfio_device =
      rw (lookup-vfio_device parent_pci_bus_id_key (refl, refl, refl, refl, refl)) (ground arith)
