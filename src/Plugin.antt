-- ===== src/Plugin.antt =====
-- cmd/npu-kubelet-plugin/main.go: from the command line to the end of the process.
use rbln_k8s_dra_driver.Base.{ℕ, Bool, true, false, List, [], ◌∷◌, Result, ok, err, map_err, Option}
use rbln_k8s_dra_driver.Go.Text.{Text}
use rbln_k8s_dra_driver.Go.FilePath.{FilePath}
use rbln_k8s_dra_driver.Go.Errors.{OsError, not_exist, errno, Error, os, message}
use rbln_k8s_dra_driver.Host.{Host, Action, pure, fail, reads, wrapping, ◌>>=◌, ◌>>◌}
use rbln_k8s_dra_driver.Config.{Flags, driver_plugin_path}
use rbln_k8s_dra_driver.State.Rescan.{Reads}
use rbln_k8s_dra_driver.Logging.Setup.{Setup, setup_from_env, bridge_klog}
use rbln_k8s_dra_driver.Logging.Glog.{bridge_glog}
use rbln_k8s_dra_driver.KubeClient.{ClientGo, KubeClientConfig, new_client_sets}
use rbln_k8s_dra_driver.Driver.Start.{Libraries, Started, Stopped, new_driver, shutdown}

-- What `main` sets up first, by the two variables, whether glog is linked, and what `os.Pipe` gives:
-- the logger, the verbosity of klog, and the relay of standard error.
pub record LoggingState : Type 0 where
  pub setup : Setup
  pub verbosity : ℕ
  pub relay : Option Bool

unfoldable pub start_logging : Text → Text → Bool → Result OsError (Unit {0}) → LoggingState
start_logging level_value format_value linked pipe =
    let setup = setup_from_env level_value format_value in
    record {
      setup = setup;
      verbosity = bridge_klog setup.level;
      relay = bridge_glog linked pipe setup.level;
    }

-- The exit code of `main`, by how the application ends.
unfoldable pub exit_code : {A : Type 0} → Result Error A → ℕ
exit_code (ok a) = 0
exit_code (err e) = 1

-- `Before` of the application.
unfoldable pub before : List Text → Result Error (Unit {0})
before [] = ok tt
before (arg ∷ args) = err (message "arguments not supported")

-- Why the main context is done: a signal or a plain cancellation, or the cause of `HandleError`.
pub data Cause : Type 0 where
  signalled : Cause
  fatal : Error → Cause

-- The record before the servers are stopped, and the servers.
pub data ShutdownRecord : Type 0 where
  on_signal after_fatal_error : ShutdownRecord

abbrev pub shutdown_record : Cause → ShutdownRecord
shutdown_record signalled = on_signal
shutdown_record (fatal e) = after_fatal_error

-- The end of a run that has started.
pub record Ended : Type 0 where
  pub started : Started
  pub log : ShutdownRecord
  pub stopped : List Stopped

module _ (h : Host) where
  -- `os.MkdirAll`, with its error as it is.
  unfoldable pub make_dir : FilePath → Action h.State (Unit {0})
  make_dir path s = let (r, s') = h.mkdir_all path s in (map_err os r, s')

  -- The switch on `os.Stat` of the CDI root, which tells whether it is a directory.
  unfoldable pub check_cdi_root : FilePath → Result OsError Bool → Action h.State (Unit {0})
  unfolding make_dir
  check_cdi_root root (err not_exist) = make_dir root
  check_cdi_root root (err (errno n)) = fail (os (errno n))
  check_cdi_root root (ok false) = fail (message "path for CDI file generation is not a directory")
  check_cdi_root root (ok true) = pure tt

  module _ (lib : Libraries h) where
    unfoldable pub end_of : Cause → Started → Ended
    end_of cause started = record {
      started = started;
      log = shutdown_record cause;
      stopped = shutdown started.healthcheck;
    }

    -- `RunPlugin`, by what `os.Stat` answers, what the startup reads, and why the context ends.
    unfoldable pub run_plugin :
        Flags → (h.State → Result OsError Bool) → Reads → Cause → Action h.State Ended
    unfolding check_cdi_root
    run_plugin flags stat_cdi_root r cause = do
      make_dir (driver_plugin_path flags)
      λ s. check_cdi_root flags.cdi_root (stat_cdi_root s) s
      started ← new_driver h lib flags r
      pure (end_of cause started)

    -- `Action` of the application.
    unfoldable pub run_action :
        (client_go : ClientGo)
        → KubeClientConfig client_go
        → Flags
        → (h.State → Result OsError Bool)
        → Reads
        → Cause
        → Action h.State Ended
    run_action client_go k flags stat_cdi_root r cause =
        wrapping "create client" (reads (λ s. new_client_sets client_go k)) >>= λ client_sets.
        run_plugin flags stat_cdi_root r cause
