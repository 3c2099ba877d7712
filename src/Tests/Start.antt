-- ===== src/Tests/Start.antt =====
-- The start of the processes at concrete inputs.
use llm_inference_operator.Base.{
  ◌≡◌, ◌≢◌, refl, sym, ◌∙◌, String, List, [], ◌∷◌, some, none, true, false, text_eq, text_eq_iff,
  if◌then◌else◌, deref, decimal, All,
}
use llm_inference_operator.Base.Int.{pos, itoa}
use llm_inference_operator.Kube.{ok, Container, Deployment, EnvVar}
use llm_inference_operator.Cluster.{Cluster}
use llm_inference_operator.Cluster.Defaults.{apply_defaults}
use llm_inference_operator.Platform.{Platform}
use llm_inference_operator.ShardMap.Doc.{json_of_doc}
use llm_inference_operator.Controller.Labels.{base_labels, role_labels}
use llm_inference_operator.Controller.Workloads.{env_var, router_env, router_container}
use llm_inference_operator.Controller.Reconcile.{router_name, shard_map_name}
use llm_inference_operator.Controller.Reconcile.Desired.{IsRouter}
use llm_inference_operator.Flags.{go_on, parse_flags, string_var, bool_var, classify}
use llm_inference_operator.Flags.Keeps.{mentions}
use llm_inference_operator.Manager.{ManagerFlags, default_flags, all_flags, manager_options}
use llm_inference_operator.Manager.Secure.{apply_options, guarded, manager_options_secure}
use llm_inference_operator.Router.Options.{start_router}
use llm_inference_operator.Router.Options.Deployed.{
  IsEnvOf, deployed, start_router-router_container,
}
use llm_inference_operator.Tests.Demo.{demo, doc, platform, metadata}

abbrev P : Platform
P = platform demo (json_of_doc doc)

abbrev ready : Cluster
ready = apply_defaults demo

decode_port : ready.spec.runtime.decode.service_port ≡ some (pos 8000)
unfolding apply_defaults
decode_port = refl

prefill_port : ready.spec.runtime.prefill.service_port ≡ some (pos 8001)
unfolding apply_defaults
prefill_port = refl

in_namespace : ready.metadata.namespace ≡ "default"
unfolding apply_defaults
in_namespace = refl

abbrev getenv : String → String
getenv name =
    if text_eq name "NAMESPACE"
    then "default"
    else if text_eq name "DECODE_SERVICE_DNS"
    then "demo-decode.default.svc.cluster.local:8000"
    else if text_eq name "PREFILL_SERVICE_DNS"
    then "demo-prefill.default.svc.cluster.local:8001"
    else ""

abbrev fields : String → String
fields path = if text_eq path "metadata.namespace" then "default" else ""

abbrev env : List EnvVar
env =
    record { name = "NAMESPACE"; value = ""; field_path = some "metadata.namespace" }
    ∷ env_var "DECODE_SERVICE_DNS" "demo-decode.default.svc.cluster.local:8000"
    ∷ env_var "PREFILL_SERVICE_DNS" "demo-prefill.default.svc.cluster.local:8001"
    ∷ []

env_made : router_env P ready ≡ ok env
unfolding router_env apply_defaults itoa decimal
env_made = refl

env_read : IsEnvOf fields env getenv
unfolding deref
env_read = (refl, (refl, (refl, tt)))

abbrev blank : Container
blank = record { name = ""; image = ""; image_pull_policy = ""; args = []; env = []; ports = [] }

abbrev router_deployment : Deployment
router_deployment = record {
  metadata = metadata "demo-router";
  replicas = ready.spec.routing.router_replicas;
  selector = some (role_labels (base_labels ready) "router");
  template_labels = role_labels (base_labels ready) "router";
  service_account_name = router_name ready;
  containers = some (router_container P ready (shard_map_name ready) env blank ∷ []);
}

abbrev router : IsRouter P ready (base_labels ready) router_deployment
router = record {
  container = blank;
  rest = [];
  env = env;
  env_lem = env_made;
  containers = refl;
  replicas = refl;
  account = refl;
  selector = refl;
  template = refl;
}

named : ready.metadata.namespace ≢ ""
named e = let absurdity : false ≡ true = (text_eq_iff "default" "").1 (sym in_namespace ∙ e) in cc

start_router-router_container_example :
    start_router {Config = String} {Connection = String}
      (λ url path. ok "file")
      (ok "cluster")
      (λ config. ok config)
      (λ v. none)
      getenv
      (router_container P ready (shard_map_name ready) env blank).args
    ≡ go_on (deployed getenv ready (pos 8000), "cluster")
start_router-router_container_example =
    start_router-router_container P ready (pos 8000) (pos 8001) fields getenv (λ v. none)
      (λ url path. ok "file") (ok "cluster") (λ config. ok config) router "cluster" "cluster"
      decode_port prefill_port named (sym in_namespace) env_read refl refl

abbrev arguments : List String
arguments = "--metrics-bind-address" ∷ ":8443" ∷ "--leader-elect" ∷ "--kubeconfig=x" ∷ []

abbrev parsed_flags : ManagerFlags
parsed_flags = record default_flags { metrics_addr = ":8443"; enable_leader_election = true }

parsed :
    parse_flags (all_flags (string_var "kubeconfig" (λ v s. v) ∷ [])) arguments (default_flags, "")
    ≡ go_on (parsed_flags, "x")
unfolding parse_flags bool_var
parsed = refl

unguarded : All (λ s. mentions guarded (classify s) ≡ false) arguments
unfolding classify
unguarded = (refl, (refl, (refl, (refl, tt))))

manager_options_secure_example :
    let options = manager_options {Filter = String} "authn" parsed_flags in
    ((apply_options options.webhook_server.tls_opts
        (record { next_protos = "h2" ∷ [] })).next_protos
      ≡ "http/1.1" ∷ [])
    × ((apply_options options.metrics.tls_opts (record { next_protos = "h2" ∷ [] })).next_protos
        ≡ "http/1.1" ∷ [])
    × (options.metrics.secure_serving ≡ true)
    × (options.metrics.filter_provider ≡ some "authn")
manager_options_secure_example =
    manager_options_secure String "authn" (string_var "kubeconfig" (λ v s. v) ∷ []) "" arguments
      parsed_flags "x" (record { next_protos = "h2" ∷ [] }) unguarded parsed
