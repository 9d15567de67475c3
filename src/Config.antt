-- ===== src/Config.antt =====
-- The flags of the plugin and the path made of them: cmd/npu-kubelet-plugin/main.go.
pub mod Cli
use rbln_k8s_dra_driver.Base.{ℤ}
use rbln_k8s_dra_driver.Go.Text.{Text}
use rbln_k8s_dra_driver.Go.FilePath.{FilePath, join}
use rbln_k8s_dra_driver.Claim.{driver_name}

-- `Flags`, with absolute paths; the interval is in nanoseconds.
pub record Flags : Type 0 where
  pub node_name : Text
  pub cdi_root : FilePath
  pub kubelet_registrar_directory_path : FilePath
  pub kubelet_plugins_directory_path : FilePath
  pub healthcheck_port : ℤ
  pub device_scan_interval : ℤ

-- `DriverPluginPath`
unfoldable pub driver_plugin_path : Flags → FilePath
driver_plugin_path flags = join flags.kubelet_plugins_directory_path driver_name
