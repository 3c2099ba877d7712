-- ===== src/Tests/Children.antt =====
-- The theorems on the children's objects at concrete inputs.
use llm_inference_operator.Base.{
  List, [], ◌∷◌, ◌++◌, Option, none, some, ◌≡◌, refl, sym, ◌∙◌, Bool, true, false, not, deref, map,
  Perm, text_leb-total, text_leb_trans, if◌then◌else◌, text_eq,
}
use llm_inference_operator.Base.Int.{pos, itoa}
use llm_inference_operator.Base.Dict.{lookup}
use llm_inference_operator.Base.Sort.{IsSorted, sort-perm, sort-IsSorted}
use llm_inference_operator.Kube.{Outcome, ok, Service, EnvVar, Container, Deployment, ConfigMap}
use llm_inference_operator.Platform.{Platform, IsSortSlice, name_less}
use llm_inference_operator.Cluster.{Cluster}
use llm_inference_operator.Cluster.Defaults.{apply_defaults}
use llm_inference_operator.ShardMap.Doc.{json_of_doc}
use llm_inference_operator.Controller.Labels.{base_labels}
use llm_inference_operator.Controller.Children.{
  mutate_role_service, mutate_signals, mutate_shard_map, map_or_empty,
}
use llm_inference_operator.Controller.Children.Maps.{
  or_other, is_signal, mutate_signals-lookup, mutate_shard_map-lookup,
}
use llm_inference_operator.Controller.Workloads.{env_var, mutate_role_deployment}
use llm_inference_operator.Controller.Workloads.Traffic.{worker_env}
use llm_inference_operator.Tests.Demo.{demo, metadata, platform, client_of, doc}

abbrev P : Platform
P = platform demo (json_of_doc doc)

abbrev c : Cluster
c = apply_defaults demo

abbrev old_signals : ConfigMap
old_signals = record {
  metadata = metadata "demo-signals";
  entries = some (("queueDepth", "7") ∷ []);
}

-- The values that the mutate functions give.
abbrev value_of : {A : Type 0} → A → Outcome A → A
value_of d (ok a) = a
value_of d _ = d

signals_ok :
    mutate_signals (client_of demo) c [] old_signals
    ≡ ok (value_of old_signals (mutate_signals (client_of demo) c [] old_signals))
unfolding mutate_signals
signals_ok = refl

mutate_signals-lookup_example :
    lookup "memPressure" (
      map_or_empty
        (value_of old_signals (mutate_signals (client_of demo) c [] old_signals)).entries)
    ≡ or_other
        (lookup "memPressure" (map_or_empty old_signals.entries))
        (if is_signal "memPressure" then some "0" else none)
mutate_signals-lookup_example =
    mutate_signals-lookup (client_of demo) c [] old_signals signals_ok "memPressure"

shard_map_ok :
    mutate_shard_map (client_of demo) c [] "{}" old_signals
    ≡ ok (value_of old_signals (mutate_shard_map (client_of demo) c [] "{}" old_signals))
unfolding mutate_shard_map
shard_map_ok = refl

mutate_shard_map-lookup_example :
    lookup "shardmap.json" (
      map_or_empty
        (value_of old_signals (mutate_shard_map (client_of demo) c [] "{}" old_signals)).entries)
    ≡ (if text_eq "shardmap.json" "shardmap.json"
        then some "{}"
        else lookup "shardmap.json" (map_or_empty old_signals.entries))
mutate_shard_map-lookup_example =
    mutate_shard_map-lookup (client_of demo) c [] "{}" old_signals shard_map_ok "shardmap.json"

abbrev svc : Service
svc = record { metadata = metadata "demo-decode"; selector = []; ports = [] }

abbrev deployment : Deployment
deployment = record {
  metadata = metadata "demo-decode";
  replicas = none;
  selector = none;
  template_labels = [];
  service_account_name = "";
  containers = none;
}

abbrev new_svc : Service
new_svc =
    value_of svc (mutate_role_service (client_of demo) c "decode" (pos 8000) (base_labels c) svc)

abbrev new_deployment : Deployment
new_deployment =
    value_of deployment
      (mutate_role_deployment P c "decode" "demo-decode" (base_labels c) none deployment)

deployment_ok :
    mutate_role_deployment P c "decode" "demo-decode" (base_labels c) none deployment
    ≡ ok new_deployment
unfolding mutate_role_deployment
deployment_ok = refl

abbrev containers_of : Option (List Container) → List Container
containers_of none = []
containers_of (some cs) = cs

abbrev first : List Container → Container
first [] = record { name = ""; image = ""; image_pull_policy = ""; args = []; env = []; ports = [] }
first (x ∷ xs) = x

has_first : new_deployment.containers ≡ some (first (containers_of new_deployment.containers) ∷ [])
unfolding mutate_role_deployment
has_first = refl

not-not : (b : Bool) → not (not b) ≡ b
not-not true = refl
not-not false = refl

sorts : IsSortSlice P.sort_slice
sorts = record {
  perm = λ xs. sort-perm (λ a b. not (name_less b a)) xs;
  sorted = λ xs.
      sort-IsSorted (λ a b. not (name_less b a))
        (λ a b h. not-not _ ∙ text_leb-total a.name b.name (sym (not-not _) ∙ h))
        (λ a b d h k.
          not-not _
          ∙ text_leb_trans a.name b.name d.name (sym (not-not _) ∙ h) (sym (not-not _) ∙ k))
        xs;
}

worker_env_example :
    (user : List EnvVar) × ((first (containers_of new_deployment.containers)).env
      ≡ user
        ++ (env_var "INFERENCE_ROLE" "decode"
            ∷ env_var "SERVICE_NAME" "demo-decode"
            ∷ env_var "KV_SHARDS" (itoa (deref c.spec.kv_cache.num_shards (pos 8)))
            ∷ []))
    × Perm user (map (λ e. env_var e.name e.value) c.spec.model.env)
    × IsSorted (λ a b. not (name_less b a)) user
worker_env_example =
    worker_env P c sorts "decode" "demo-decode" none (base_labels c) deployment deployment_ok _ _
      has_first
