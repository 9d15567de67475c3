-- ===== src/Health/Start.antt =====
-- `startHealthcheck` of cmd/npu-kubelet-plugin/health.go. The network and grpc are parameters.
use rbln_k8s_dra_driver.Base.{
  ◌++◌, Result, ok, ◌>>◌, map_err, Option, none, some, ℤ, is_negative, if◌then◌else◌,
}
use rbln_k8s_dra_driver.Go.Text.{Text, codes}
use rbln_k8s_dra_driver.Go.FilePath.{FilePath, join}
use rbln_k8s_dra_driver.Go.Number.{format_int}
use rbln_k8s_dra_driver.Go.Errors.{Error, wrap}
use rbln_k8s_dra_driver.Claim.{driver_name}
use rbln_k8s_dra_driver.Config.{Flags, driver_plugin_path}

-- `net.Listen` on tcp, `grpc.NewClient`, and a URL of scheme `unix` as text.
pub record Network : Type 0 where
  pub listen : Text → Result Error (Unit {0})
  pub new_client : Text → Result Error (Unit {0})
  pub unix_url : FilePath → Text

-- A running `healthcheck`, by where it listens and which sockets it probes.
pub record Healthcheck : Type 0 where
  pub addr : Text
  pub registration_socket : Text
  pub dra_socket : Text

-- `net.JoinHostPort("", strconv.Itoa(port))`
unfoldable pub listen_addr : ℤ → Text
listen_addr port = codes ":" ++ format_int port

unfoldable pub registration_socket_path : Flags → FilePath
registration_socket_path flags =
    join flags.kubelet_registrar_directory_path (driver_name ++ codes "-reg.sock")

unfoldable pub dra_socket_path : Flags → FilePath
dra_socket_path flags = join (driver_plugin_path flags) (codes "dra.sock")

unfoldable pub start_server : Network → Flags → Result Error (Option Healthcheck)
unfolding listen_addr registration_socket_path dra_socket_path
start_server net flags =
    let addr = listen_addr flags.healthcheck_port in
    let registration_socket = net.unix_url (registration_socket_path flags) in
    let dra_socket = net.unix_url (dra_socket_path flags) in
    map_err (wrap "failed to listen for healthcheck service") (net.listen addr)
    >> map_err (wrap "connect to registration socket") (net.new_client registration_socket)
    >> map_err (wrap "connect to DRA socket") (net.new_client dra_socket)
    >> ok (
        some (record {
          addr = addr;
          registration_socket = registration_socket;
          dra_socket = dra_socket;
        }))

-- `startHealthcheck`: no service at a negative port.
unfoldable pub start_healthcheck : Network → Flags → Result Error (Option Healthcheck)
unfolding start_server
start_healthcheck net flags =
    if is_negative flags.healthcheck_port then ok none else start_server net flags
