-- ===== src/Controller/Workloads.antt =====
-- The deployments of the roles and of the router
-- (internal/controller/llminferencecluster_controller.go).
pub mod Traffic
use llm_inference_operator.Base.{
  String, List, [], ◌∷◌, ◌++◌, map, Option, none, some, Bool, ◌&&◌, ◌<>◌, if◌then◌else◌, deref,
  text_eq,
}
use llm_inference_operator.Base.Int.{ℤ, pos, itoa}
use llm_inference_operator.Base.Dict.{Dict}
use llm_inference_operator.Kube.{
  Outcome, ok, err, panic, EnvVar, ContainerPort, Container, Deployment,
}
use llm_inference_operator.Kube.Client.{Client, M, pure, and_then, ◌>>=◌}
use llm_inference_operator.Platform.{Platform, name_less}
use llm_inference_operator.Cluster.{Cluster, EnvEntry}
use llm_inference_operator.Controller.Labels.{role_labels, role_decode, role_prefill}
use llm_inference_operator.Controller.Children.{skeleton, with_labels, own}

-- `corev1.EnvVar{Name: name, Value: value}`
abbrev pub env_var : String → String → EnvVar
env_var name value = record { name = name; value = value; field_path = none }

-- `servicePortForRole`
unfoldable pub service_port_for_role : Cluster → String → ℤ
service_port_for_role c role =
    if text_eq role role_decode
    then deref c.spec.runtime.decode.service_port (pos 8000)
    else if text_eq role role_prefill
    then deref c.spec.runtime.prefill.service_port (pos 8000)
    else pos 8000

-- The variable `replicas` of `reconcileRoleDeployment`.
unfoldable pub role_replicas : Cluster → String → Option ℤ → ℤ
role_replicas c role override =
    if text_eq role role_decode
    then deref override (deref c.spec.runtime.decode.replicas (pos 1))
    else if text_eq role role_prefill
    then deref c.spec.runtime.prefill.replicas (pos 1)
    else pos 1

-- `if Containers == nil { Containers = []Container{{Name: name}} }`, then the write to
-- `Containers[0]`, which panics where the slice is empty and not nil.
unfoldable pub update_first :
    String → (Container → Container) → Option (List Container) → Outcome (List Container)
update_first name f none = ok (
    f (record { name = name; image = ""; image_pull_policy = ""; args = []; env = []; ports = [] })
    ∷ [])
update_first name f (some []) = panic
update_first name f (some (x ∷ xs)) = ok (f x ∷ xs)

-- `fmt.Sprintf("%s.%s.svc.cluster.local:%d", service, namespace, port)`
unfoldable pub service_dns : String → String → ℤ → String
service_dns service namespace port =
    service <> ("." <> (namespace <> (".svc.cluster.local:" <> itoa port)))

module _ (P : Platform) where
  unfoldable pub build_env_vars : List EnvEntry → List EnvVar
  build_env_vars env = P.sort_slice name_less (map (λ e. env_var e.name e.value) env)

  module _ (c : Cluster) where
    unfoldable pub worker_container : String → String → Container → Container
    unfolding build_env_vars service_port_for_role
    worker_container role service_name container = record container {
      name = "worker";
      image = c.spec.model.image;
      image_pull_policy = "IfNotPresent";
      args = c.spec.model.args;
      env =
          build_env_vars c.spec.model.env
          ++ (env_var "INFERENCE_ROLE" role
              ∷ env_var "SERVICE_NAME" service_name
              ∷ env_var "KV_SHARDS" (itoa (deref c.spec.kv_cache.num_shards (pos 8)))
              ∷ []);
      ports = record { name = "http"; container_port = service_port_for_role c role } ∷ [];
    }

    unfoldable pub mutate_role_deployment :
        String → String → Dict String → Option ℤ → Deployment → Outcome Deployment
    unfolding worker_container role_replicas update_first own
    mutate_role_deployment role service_name base override dep =
        let labels = role_labels base role in
        and_then (update_first "worker" (worker_container role service_name) dep.containers)
          (λ containers. own P.client c (with_labels dep.metadata labels) (λ m. record dep {
            metadata = m;
            replicas = some (role_replicas c role override);
            selector = some labels;
            template_labels = labels;
            containers = some containers;
          }))

    -- The pointers of the two service ports are read here.
    unfoldable pub router_env : Outcome (List EnvVar)
    unfolding service_dns
    router_env = dns c.spec.runtime.decode.service_port c.spec.runtime.prefill.service_port
      where
        dns : Option ℤ → Option ℤ → Outcome (List EnvVar)
        dns (some decode_port) (some prefill_port) = ok (
            record { name = "NAMESPACE"; value = ""; field_path = some "metadata.namespace" }
            ∷ env_var "DECODE_SERVICE_DNS"
                (service_dns (c.metadata.name <> "-decode") c.metadata.namespace decode_port)
            ∷ env_var "PREFILL_SERVICE_DNS"
                (service_dns (c.metadata.name <> "-prefill") c.metadata.namespace prefill_port)
            ∷ [])
        dns _ _ = panic

    unfoldable pub router_container : String → List EnvVar → Container → Container
    router_container shard_map_name env container = record container {
      name = "router";
      image = "llm-inference-router:latest";
      image_pull_policy = "IfNotPresent";
      args =
          "--shardmap-configmap"
          ∷ shard_map_name
          ∷ "--hash-key"
          ∷ deref c.spec.routing.hash_key "conversationId"
          ∷ [];
      env = env;
      ports =
          record { name = "http"; container_port = pos 8080 }
          ∷ record { name = "metrics"; container_port = pos 9090 }
          ∷ [];
    }

    unfoldable pub mutate_router_deployment :
        String → String → Dict String → Deployment → Outcome Deployment
    unfolding router_env router_container update_first own
    mutate_router_deployment shard_map_name account base dep =
        let labels = role_labels base "router" in
        and_then router_env (λ env.
          and_then (update_first "router" (router_container shard_map_name env) dep.containers)
            (λ containers. own P.client c (with_labels dep.metadata labels) (λ m. record {
              metadata = m;
              replicas = c.spec.routing.router_replicas;
              selector = some labels;
              template_labels = labels;
              service_account_name = account;
              containers = some containers;
            })))

    abbrev pub deployment_skeleton : String → Deployment
    deployment_skeleton name = record {
      metadata = skeleton c.metadata.namespace name;
      replicas = none;
      selector = none;
      template_labels = [];
      service_account_name = "";
      containers = none;
    }

    unfoldable pub reconcile_role_deployment :
        String → String → Dict String → Option ℤ → M P.client.State (Unit {0})
    unfolding mutate_role_deployment
    reconcile_role_deployment role service_name base override = do
      _ ←
          P.client.create_or_update_deployment
            (deployment_skeleton (c.metadata.name <> ("-" <> role)))
            (mutate_role_deployment role service_name base override)
      pure tt

    unfoldable pub reconcile_router_deployment :
        String → String → Dict String → M P.client.State (Unit {0})
    unfolding mutate_router_deployment
    reconcile_router_deployment shard_map_name account base = do
      _ ←
          P.client.create_or_update_deployment (deployment_skeleton (c.metadata.name <> "-router"))
            (mutate_router_deployment shard_map_name account base)
      pure tt
