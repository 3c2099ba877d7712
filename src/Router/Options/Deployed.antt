-- ===== src/Router/Options/Deployed.antt =====
-- The router as the operator deploys it: its arguments and environment, read by the router itself.
use text.Mathlib.TextLemmas.{append-ne-nil_of_right_ne-nil}
use mathlib.Core.Path.{subst}
use llm_inference_operator.Base.{
  String, List, [], ◌∷◌, Option, none, some, ◌≡◌, ◌≢◌, refl, sym, ◌∙◌, deref, text_eq_of_ne, All,
  filled_append, ne_empty_of_filled, or_text_of_ne,
}
use llm_inference_operator.Base.Int.{ℤ, itoa}
use llm_inference_operator.Base.Dict.{Dict}
use llm_inference_operator.Kube.{Outcome, ok, EnvVar, Container, Deployment}
use llm_inference_operator.Platform.{Platform}
use llm_inference_operator.Cluster.{Cluster}
use llm_inference_operator.Controller.Workloads.{env_var, service_dns, router_env, router_container}
use llm_inference_operator.Controller.Reconcile.{decode_name, prefill_name, shard_map_name}
use llm_inference_operator.Controller.Reconcile.Desired.{IsRouter}
use llm_inference_operator.Flags.{go_on}
use llm_inference_operator.Router.Options.{
  default_options, check_options, Options, read_options, start_router,
}

-- The value of a variable in a pod whose fields are read by `fields`.
abbrev pub value_of : (String → String) → EnvVar → String
value_of fields e = deref (map_path e.field_path) e.value
  where
    map_path : Option String → Option String
    map_path none = none
    map_path (some path) = some (fields path)

-- The environment that Kubernetes documents for a container: each variable that is listed has its value.
abbrev pub IsEnvOf : (String → String) → List EnvVar → (String → String) → Type 0
IsEnvOf fields env getenv = All (λ (e : EnvVar). getenv e.name ≡ value_of fields e) env

service_dns-ne_empty :
    (service namespace : String) (port : ℤ) → service_dns service namespace port ≢ ""
unfolding service_dns
service_dns-ne_empty service namespace port = append-ne-nil_of_right_ne-nil service (
    append-ne-nil_of_right_ne-nil "." (
      append-ne-nil_of_right_ne-nil namespace
        (ne_empty_of_filled _ (filled_append ".svc.cluster.local:" (itoa port) refl))))

check_options_filled :
    (o : Options)
    → o.shard_map_config_map ≢ ""
    → o.namespace ≢ ""
    → o.decode_service_dns ≢ ""
    → check_options o ≡ go_on o
check_options_filled o map_set namespace_set dns_set =
    rw
      (
        text_eq_of_ne o.shard_map_config_map "" map_set,
        or_text_of_ne o.namespace "default" namespace_set,
        or_text_of_ne o.decode_service_dns "localhost:8000" dns_set,
      )
      refl

-- The options that the operator gives to the router.
abbrev pub deployed : (String → String) → Cluster → ℤ → Options
deployed getenv c decode_port = record (default_options getenv) {
  shard_map_config_map = shard_map_name c;
  hash_key = deref c.spec.routing.hash_key "conversationId";
  namespace = c.metadata.namespace;
  decode_service_dns = service_dns (decode_name c) c.metadata.namespace decode_port;
}

module _ (P : Platform) (c : Cluster) (dp pp : ℤ) (fields getenv : String → String)
    (parse_duration : String → Option ℤ) where
  -- The variables of the router's container.
  abbrev written : List EnvVar
  written =
      record { name = "NAMESPACE"; value = ""; field_path = some "metadata.namespace" }
      ∷ env_var "DECODE_SERVICE_DNS" (service_dns (decode_name c) c.metadata.namespace dp)
      ∷ env_var "PREFILL_SERVICE_DNS" (service_dns (prefill_name c) c.metadata.namespace pp)
      ∷ []

  env_lem :
      (env : List EnvVar)
      → c.spec.runtime.decode.service_port ≡ some dp
      → c.spec.runtime.prefill.service_port ≡ some pp
      → fields "metadata.namespace" ≡ c.metadata.namespace
      → router_env P c ≡ ok env
      → IsEnvOf fields env getenv
      → (getenv "NAMESPACE" ≡ c.metadata.namespace)
        × (getenv "DECODE_SERVICE_DNS" ≡ service_dns (decode_name c) c.metadata.namespace dp)
  unfolding router_env deref
  env_lem env decode_port prefill_port downward made listed =
      let listed_lem : ok written ≡ ok env = rw (decode_port, prefill_port) at made in
      let same : written ≡ env = cc in
      let here = subst (λ (es : List EnvVar). IsEnvOf fields es getenv) (sym same) listed in
      (here.0 ∙ downward, here.1.0)

  read_options-router_container :
      (env : List EnvVar) (container : Container)
      → c.metadata.namespace ≢ ""
      → getenv "NAMESPACE" ≡ c.metadata.namespace
      → getenv "DECODE_SERVICE_DNS" ≡ service_dns (decode_name c) c.metadata.namespace dp
      → read_options parse_duration getenv
          (router_container P c (shard_map_name c) env container).args
        ≡ go_on (deployed getenv c dp)
  unfolding read_options router_container
  read_options-router_container env container named in_namespace decoded =
      rw (in_namespace, decoded)
        (check_options_filled (deployed getenv c dp)
          (append-ne-nil_of_right_ne-nil c.metadata.name (ne_empty_of_filled "-shardmap" refl))
          named (service_dns-ne_empty (decode_name c) c.metadata.namespace dp))

  module _ {Config Connection : Type 0} (build : String → String → Outcome Config)
      (in_cluster : Outcome Config) (new : Config → Outcome Connection) where
    -- Where both ports are set, the namespace has a name, and the router's process runs in a pod of that
    -- namespace with the arguments and the environment of the router's deployment, and the configuration
    -- and the client can be made there: the router starts. It polls the ConfigMap with the name of
    -- the cluster's shard map in the cluster's namespace, and forwards to the service of the decode
    -- role at that role's port.
    pub start_router-router_container :
        {labels : Dict String} {d : Deployment} (router : IsRouter P c labels d) (config : Config)
        (connection : Connection)
        → c.spec.runtime.decode.service_port ≡ some dp
        → c.spec.runtime.prefill.service_port ≡ some pp
        → c.metadata.namespace ≢ ""
        → fields "metadata.namespace" ≡ c.metadata.namespace
        → IsEnvOf fields router.env getenv
        → in_cluster ≡ ok config
        → new config ≡ ok connection
        → start_router build in_cluster new parse_duration getenv
            (router_container P c (shard_map_name c) router.env router.container).args
          ≡ go_on (deployed getenv c dp, connection)
    unfolding start_router
    start_router-router_container router config connection decode_port prefill_port named downward
          env inside made =
        let (in_namespace, decoded) =
          env_lem router.env decode_port prefill_port downward router.env_lem env in
        rw
          (
            read_options-router_container router.env router.container named in_namespace decoded,
            inside,
            made,
          )
          refl
