-- ===== src/Tests/Settled.antt =====
-- The second run of the mutate functions at concrete objects.
use llm_inference_operator.Base.{[], ◌∷◌, some, none, ◌≡◌, sym, ap, ◌∙◌}
use llm_inference_operator.Base.Int.{pos}
use llm_inference_operator.Kube.{
  ok, ObjectMeta, Service, ConfigMap, ServiceAccount, Role, RoleBinding, Deployment,
}
use llm_inference_operator.Cluster.{Cluster}
use llm_inference_operator.Cluster.Defaults.{apply_defaults}
use llm_inference_operator.Platform.{Platform}
use llm_inference_operator.ShardMap.Doc.{json_of_doc}
use llm_inference_operator.Controller.Labels.{base_labels}
use llm_inference_operator.Controller.Children.{
  mutate_role_service, mutate_router_service, mutate_shard_map, mutate_signals,
  mutate_service_account, mutate_role, mutate_role_binding,
}
use llm_inference_operator.Controller.Workloads.{mutate_role_deployment, mutate_router_deployment}
use llm_inference_operator.Controller.Settled.{IsReference, Settled}
use llm_inference_operator.Controller.Settled.Children.{mutate-Settled}
use llm_inference_operator.Tests.Demo.{demo, metadata, platform, client_of, doc}

abbrev c : Cluster
c = apply_defaults demo

-- A library that marks what it owns.
abbrev mark : ObjectMeta → ObjectMeta
mark m = record m { finalizers = "owned" ∷ [] }

abbrev P : Platform
P = record (platform demo (json_of_doc doc)) {
  client = record (client_of demo) { set_controller_reference = λ owner m. ok (mark m) };
}

reference : IsReference P.client c
reference = record {
  again = λ m n e.
      let same : mark m ≡ n = cc in ap (λ (x : ObjectMeta). ok (mark x)) (sym same) ∙ ap ok same;
  labels = λ m n e. let same : mark m ≡ n = cc in ap (λ (x : ObjectMeta). x.labels) (sym same);
}

abbrev service : Service
service = record { metadata = metadata "s"; selector = []; ports = [] }

abbrev config_map : ConfigMap
config_map = record { metadata = metadata "m"; entries = some (("queueDepth", "7") ∷ []) }

abbrev account : ServiceAccount
account = record { metadata = metadata "demo-router" }

abbrev role : Role
role = record { metadata = metadata "demo-router"; rules = [] }

abbrev binding : RoleBinding
binding = record {
  metadata = metadata "demo-router";
  role_ref = record { api_group = ""; kind = ""; name = "" };
  subjects = [];
}

abbrev deployment : Deployment
deployment = record {
  metadata = metadata "d";
  replicas = none;
  selector = none;
  template_labels = [];
  service_account_name = "";
  containers = none;
}

mutate-Settled_example :
    Settled (mutate_role_service P.client c "decode" (pos 8000) (base_labels c)) service
    × Settled (mutate_router_service P.client c (base_labels c)) service
    × Settled (mutate_shard_map P.client c (base_labels c) "{}") config_map
    × Settled (mutate_signals P.client c (base_labels c)) config_map
    × Settled (mutate_service_account P.client c (base_labels c)) account
    × Settled (mutate_role P.client c (base_labels c)) role
    × Settled (mutate_role_binding P.client c (base_labels c) account role) binding
    × Settled (mutate_role_deployment P c "decode" "demo-decode" (base_labels c) none) deployment
    × Settled
        (mutate_router_deployment P c "demo-shardmap" "demo-router" (base_labels c))
        deployment
mutate-Settled_example =
    mutate-Settled P c reference "decode" "demo-decode" "demo-shardmap" "demo-router" "{}"
      (pos 8000) (base_labels c) none account role service service config_map config_map account
      role binding deployment deployment
