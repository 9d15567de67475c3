-- ===== src/Driver/Start.antt =====
-- `NewDriver`, `Shutdown` and `HandleError` of cmd/npu-kubelet-plugin/driver.go.
use rbln_k8s_dra_driver.Base.{
  Bool, ◌&&◌, not, List, [], ◌∷◌, Result, ok, map_err, Option, none, some, is_positive,
  if◌then◌else◌,
}
use rbln_k8s_dra_driver.Base
use rbln_k8s_dra_driver.Go.Text.{Text, codes}
use rbln_k8s_dra_driver.Go.FilePath.{FilePath}
use rbln_k8s_dra_driver.Go.Errors.{Error, wrap}
use rbln_k8s_dra_driver.Host.{Host, Action, pure, reads, wrapping, ◌>>=◌, ◌>>◌}
use rbln_k8s_dra_driver.Cdi.{new_cdi_handler}
use rbln_k8s_dra_driver.Config.{Flags, driver_plugin_path}
use rbln_k8s_dra_driver.State.Defs.{DeviceState, DriverResources}
use rbln_k8s_dra_driver.State.Rescan.{Reads}
use rbln_k8s_dra_driver.Startup.{new_device_state}
use rbln_k8s_dra_driver.Health.Start.{Network, Healthcheck, start_healthcheck}
use rbln_k8s_dra_driver.Driver.{Driver}

-- What the libraries answer at startup: the CDI cache, the checkpoint manager for a directory, and
-- the helper of the kubelet plugin, which is started and takes the resources.
pub record Libraries (h : Host) : Type 0 where
  pub cdi_cache : Result Error (Unit {0})
  pub checkpoint_manager : FilePath → Result Error (Unit {0})
  pub list_checkpoints : h.State → Result Error (List Text)
  pub start_helper : Flags → Result Error (Unit {0})
  pub publish_resources : DriverResources → Result Error (Unit {0})
  pub net : Network

-- `driver` after its start, and whether the loop of scans runs.
pub record Started : Type 0 where
  pub driver : Driver
  pub healthcheck : Option Healthcheck
  pub is_scanning : Bool

unfoldable pub cdi_result : Result Error (Unit {0}) → FilePath → Result Error (Unit {0})
unfolding new_cdi_handler
cdi_result cache root = Base.◌>>=◌ (new_cdi_handler cache root (codes "npu")) λ handler. ok tt

module _ (h : Host) (lib : Libraries h) where
  -- The part of `NewDriver` after `NewDeviceState`.
  unfoldable pub serve_state : Flags → DeviceState → Action h.State Started
  serve_state flags state = do
    reads (λ s. lib.start_helper flags)
    healthcheck ← wrapping "start healthcheck" (reads (λ s. start_healthcheck (lib.net) flags))
    reads (λ s. lib.publish_resources (state.driver_resources))
    pure (record {
      driver = record { state = state; slice = state.driver_resources };
      healthcheck = healthcheck;
      is_scanning = is_positive flags.device_scan_interval;
    })

  unfoldable pub start_state : Flags → Reads → Action h.State DeviceState
  unfolding cdi_result
  start_state flags r =
      new_device_state h flags.node_name r (cdi_result lib.cdi_cache flags.cdi_root)
        (lib.checkpoint_manager (driver_plugin_path flags)) lib.list_checkpoints

  -- `NewDriver`, by what the enumeration of the devices reads.
  unfoldable pub new_driver : Flags → Reads → Action h.State Started
  unfolding serve_state start_state
  new_driver flags r = start_state flags r >>= serve_state flags

-- The servers that `Shutdown` stops, in order.
pub data Stopped : Type 0 where
  healthcheck_stopped helper_stopped : Stopped

-- `Shutdown`, which reports no error.
unfoldable pub shutdown : Option Healthcheck → List Stopped
shutdown none = helper_stopped ∷ []
shutdown (some healthcheck) = healthcheck_stopped ∷ helper_stopped ∷ []

-- `HandleError`: the cause with which the main context is cancelled, if it is, by whether the error
-- is recoverable and whether there is a function to cancel with.
unfoldable pub handle_error : Bool → Bool → Error → Option Error
handle_error is_recoverable has_cancel e =
    if not is_recoverable && has_cancel then some (wrap "fatal background error" e) else none
