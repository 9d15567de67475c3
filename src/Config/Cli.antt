-- ===== src/Config/Cli.antt =====
-- The command line flags of both programs: cmd/npu-kubelet-plugin/main.go, cmd/webhook/main.go and
-- pkg/flags/kubeclient.go. Parsing them is up to the library.
use rbln_k8s_dra_driver.Base.{
  ℕ, ◌*◌, ◌^◌, ◌≡◌, refl, Bool, true, ◌&&◌, not, List, [], ◌∷◌, ◌++◌, Option, none, some, ℤ, pos,
  negsuc,
}
use rbln_k8s_dra_driver.Go.Text.{Text, codes, text_eq, contains}

-- The value of a flag that is not given; `none` where it is required. Durations are in nanoseconds.
pub data Default : Type 0 where
  text_default : Option Text → Default
  int_default : ℤ → Default
  float_default : ℕ → Default
  duration_default : ℕ → Default

-- `cli.StringFlag`, `cli.IntFlag`, `cli.Float64Flag` and `cli.DurationFlag`
pub record CliFlag : Type 0 where
  pub name : Text
  pub aliases : List Text
  pub env_vars : List Text
  pub value : Default

abbrev pub flag : Text → List Text → Default → CliFlag
flag name env_vars value = record { name = name; aliases = []; env_vars = env_vars; value = value }

-- `KubeClientConfig.Flags`
abbrev pub kube_client_flags : List CliFlag
kube_client_flags =
    flag (codes "kubeconfig") (codes "KUBECONFIG" ∷ []) (text_default (some []))
    ∷ flag (codes "kube-api-qps") (codes "KUBE_API_QPS" ∷ []) (float_default 5)
    ∷ flag (codes "kube-api-burst") (codes "KUBE_API_BURST" ∷ []) (int_default (pos 10))
    ∷ []

-- The flags of the plugin. The two directories of the kubelet are constants of the library.
unfoldable pub plugin_flags : Text → Text → List CliFlag
plugin_flags kubelet_registry_dir kubelet_plugins_dir =
    flag (codes "node-name") (codes "NODE_NAME" ∷ []) (text_default none)
    ∷ flag (codes "cdi-root") (codes "CDI_ROOT" ∷ []) (text_default (some (codes "/etc/cdi")))
    ∷ flag (codes "kubelet-registrar-directory-path")
        (codes "KUBELET_REGISTRAR_DIRECTORY_PATH" ∷ []) (text_default (some kubelet_registry_dir))
    ∷ flag (codes "kubelet-plugins-directory-path") (codes "KUBELET_PLUGINS_DIRECTORY_PATH" ∷ [])
        (text_default (some kubelet_plugins_dir))
    ∷ flag (codes "healthcheck-port") (codes "HEALTHCHECK_PORT" ∷ []) (int_default (negsuc 0))
    ∷ record {
      name = codes "device-scan-interval";
      aliases = codes "vfio-rescan-interval" ∷ [];
      env_vars = codes "DEVICE_SCAN_INTERVAL" ∷ codes "VFIO_RESCAN_INTERVAL" ∷ [];
      value = duration_default (5 * 10 ^ 9);
    }
    ∷ kube_client_flags

-- The flags of the webhook.
unfoldable pub webhook_flags : List CliFlag
webhook_flags =
    flag (codes "tls-cert-file") [] (text_default none)
    ∷ flag (codes "tls-private-key-file") [] (text_default none)
    ∷ flag (codes "port") [] (int_default (pos 443))
    ∷ []

abbrev flag_names : List CliFlag → List Text
flag_names [] = []
flag_names (f ∷ flags) = f.name ∷ (f.aliases ++ flag_names flags)

abbrev flag_variables : List CliFlag → List Text
flag_variables [] = []
flag_variables (f ∷ flags) = f.env_vars ++ flag_variables flags

abbrev distinct : List Text → Bool
distinct [] = true
distinct (x ∷ xs) = not (contains xs x) && distinct xs

-- No name and no variable of the plugin stands for two flags.
plugin_flags-distinct :
    (kubelet_registry_dir kubelet_plugins_dir : Text)
    → (distinct (flag_names (plugin_flags kubelet_registry_dir kubelet_plugins_dir)) ≡ true)
      × (distinct (flag_variables (plugin_flags kubelet_registry_dir kubelet_plugins_dir)) ≡ true)
unfolding plugin_flags contains text_eq
plugin_flags-distinct kubelet_registry_dir kubelet_plugins_dir = (refl, refl)
