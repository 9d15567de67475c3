-- ===== src/KubeClient.antt =====
-- pkg/flags/kubeclient.go: the configuration of the Kubernetes client. The library client-go is a
-- parameter, and so are the floating point numbers of its rate limit.
use rbln_k8s_dra_driver.Base.{[], Result, ok, ◌>>=◌, map_err, ℤ, if◌then◌else◌}
use rbln_k8s_dra_driver.Go.Text.{Text, is_empty}
use rbln_k8s_dra_driver.Go.Errors.{Error, wrap}

-- `rest.Config`, with the two fields that are set, and the calls of client-go.
pub record ClientGo : Type 1 where
  pub Float64 : Type 0
  pub Float32 : Type 0
  pub Settings : Type 0
  pub Client : Type 0
  pub float32 : Float64 → Float32
  pub in_cluster_config : Result Error Settings
  -- `clientcmd.BuildConfigFromFlags`, on the master URL and the path
  pub build_config_from_flags : Text → Text → Result Error Settings
  pub with_qps : Float32 → Settings → Settings
  pub with_burst : ℤ → Settings → Settings
  pub new_for_config : Settings → Result Error Client

module _ (lib : ClientGo) where
  -- `KubeClientConfig`
  pub record KubeClientConfig : Type 0 where
    pub kube_config : Text
    pub kube_api_qps : lib.Float64
    pub kube_api_burst : ℤ

  -- The configuration of the cluster that the plugin runs in, unless a file is given.
  unfoldable pub base_config : Text → Result Error lib.Settings
  base_config path =
      if is_empty path
      then map_err (wrap "create in-cluster client configuration") (lib.in_cluster_config)
      else map_err (wrap "create out-of-cluster client configuration")
          (lib.build_config_from_flags [] path)

  -- `NewClientSetConfig`
  unfoldable pub new_client_set_config : KubeClientConfig → Result Error lib.Settings
  unfolding base_config
  new_client_set_config k = do
    csconfig ← base_config k.kube_config
    ok (lib.with_burst k.kube_api_burst (lib.with_qps (lib.float32 k.kube_api_qps) csconfig))

  -- `NewClientSets`
  unfoldable pub new_client_sets : KubeClientConfig → Result Error lib.Client
  unfolding new_client_set_config
  new_client_sets k = do
    csconfig ← map_err (wrap "create client configuration") (new_client_set_config k)
    map_err (wrap "create core client") (lib.new_for_config csconfig)
