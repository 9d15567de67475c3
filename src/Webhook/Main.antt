-- ===== src/Webhook/Main.antt =====
-- `main` and `newApp` of cmd/webhook/main.go. The TLS server is a parameter.
use rbln_k8s_dra_driver.Base.{ℕ, List, [], ◌∷◌, ◌++◌, Result, ok, err, ◌>>◌, ℤ}
use rbln_k8s_dra_driver.Go.Text.{Text, codes}
use rbln_k8s_dra_driver.Go.Number.{format_int}
use rbln_k8s_dra_driver.Go.Errors.{Error, message}
use rbln_k8s_dra_driver.Logging.Setup.{Setup, setup_from_env, bridge_klog}
use rbln_k8s_dra_driver.Webhook.Mux.{Handler, new_mux}

-- `Flags`
pub record Flags : Type 0 where
  pub cert_file : Text
  pub key_file : Text
  pub port : ℤ

-- `http.Server.ListenAndServeTLS`, on the address, the routes and the two files.
abbrev pub ListenAndServe : Type 0
ListenAndServe = Text → List (Text × Handler) → Text → Text → Result Error (Unit {0})

-- `Before`
unfoldable pub before : List Text → Result Error (Unit {0})
before [] = ok tt
before (arg ∷ args) = err (message "arguments not supported")

-- `Action`; `newMux` does not fail.
unfoldable pub run_action : ListenAndServe → Flags → Result Error (Unit {0})
run_action listen flags =
    listen (codes ":" ++ format_int flags.port) new_mux flags.cert_file flags.key_file

unfoldable pub exit_code : Result Error (Unit {0}) → ℕ
exit_code (ok u) = 0
exit_code (err e) = 1

-- `main`, by the two variables of the logger, the arguments and the flags that the library has
-- parsed: the logger's settings, klog's verbosity and the exit code.
unfoldable pub main : ListenAndServe → Text → Text → List Text → Flags → Setup × ℕ × ℕ
unfolding before run_action exit_code
main listen level_value format_value args flags =
    let setup = setup_from_env level_value format_value in
    (setup, bridge_klog setup.level, exit_code (before args >> run_action listen flags))
