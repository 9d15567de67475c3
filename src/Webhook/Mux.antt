-- ===== src/Webhook/Mux.antt =====
-- The routes of cmd/webhook/main.go: `newMux`, `readyHandler` and `serveResourceClaim`.
use rbln_k8s_dra_driver.Base.{List, [], ◌∷◌, Result, ok, err, Option, none, some}
use rbln_k8s_dra_driver.Go.Text.{Text, codes}
use rbln_k8s_dra_driver.Go.Errors.{Error}
use rbln_k8s_dra_driver.Go.Maps.{lookup, text_key}
use rbln_k8s_dra_driver.Webhook.{Scheme, Reply, body, internal_server_error, serve}

-- A request, as far as the handlers read it, and what writing the answer `ok` gives.
pub record HttpRequest : Type 0 where
  pub path : Text
  pub read_body : Result Error Text
  pub content_type : Text
  pub written : Result Error (Unit {0})

-- The two handlers.
pub data Handler : Type 0 where
  resource_claim ready : Handler

-- `newMux`
abbrev pub new_mux : List (Text × Handler)
new_mux =
    (codes "/validate-resource-claim-parameters", resource_claim) ∷ (codes "/readyz", ready) ∷ []

-- `readyHandler`
unfoldable pub ready_handler : Result Error (Unit {0}) → Reply
ready_handler (ok u) = body (codes "ok")
ready_handler (err e) = internal_server_error

-- `serveResourceClaim` and `readyHandler`, by the handler of the route.
unfoldable pub handle_with : Scheme → HttpRequest → Handler → Reply
unfolding ready_handler
handle_with scheme r resource_claim = serve scheme r.read_body r.content_type
handle_with scheme r ready = ready_handler r.written

unfoldable pub routed : Scheme → HttpRequest → Option Handler → Option Reply
unfolding handle_with
routed scheme r none = none
routed scheme r (some handler) = some (handle_with scheme r handler)

-- A request to the server; `none` where no route is declared for the path.
unfoldable pub handle : Scheme → HttpRequest → Option Reply
unfolding routed
handle scheme r = routed scheme r (lookup r.path new_mux)
