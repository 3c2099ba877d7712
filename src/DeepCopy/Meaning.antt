-- ===== src/DeepCopy/Meaning.antt =====
-- What the structs in memory stand for: the same structs with values in the place of addresses.
use llm_inference_operator.Base.{String, Option, none, some, if◌then◌else◌}
use llm_inference_operator.Base.Dict.{Dict}
use llm_inference_operator.DeepCopy.Heap.{Pointer, Read, read_pointed, read_each, both}
use llm_inference_operator.DeepCopy.Maps.{distinct}
use llm_inference_operator.DeepCopy.Layout
use llm_inference_operator.DeepCopy.Layout.{
  Imports, in_memory, Cell, ModelLayout, WorkloadRoleLayout, RuntimeLayout, KvCacheLayout,
  RoutingLayout, SignalsLayout, AutoscalingLayout, SpecLayout, EndpointsLayout, ShardLayout,
  StatusLayout, ClusterLayout, ClusterListLayout,
}
use llm_inference_operator.DeepCopy.Imported.{Imported, values}
use mathlib.Core.Option

module _ {I : Imports} where
  abbrev pub read_flat : {A : Type 0} → Read (Cell I) A A
  read_flat a h = some a

  -- A map has each key once.
  abbrev pub read_map : Read (Cell I) (Dict String) (Dict String)
  read_map m h = if distinct m then some m else none

  module _ (L : Imported I) where
    unfoldable pub read_signals :
        Read (Cell I) (SignalsLayout (in_memory I)) (SignalsLayout (values L))
    read_signals s h =
        Option.map (λ prometheus_url. record { source = s.source; prometheus_url = prometheus_url })
          (read_pointed Layout.strings read_flat s.prometheus_url h)

    unfoldable pub read_autoscaling :
        Read (Cell I) (AutoscalingLayout (in_memory I)) (AutoscalingLayout (values L))
    unfolding read_signals
    read_autoscaling s h =
        Option.map
          (λ (enabled, (min_replicas, (max_replicas, signals))). record {
            enabled = enabled;
            min_replicas = min_replicas;
            max_replicas = max_replicas;
            signals = signals;
          })
          (both (read_pointed Layout.flags read_flat s.enabled h) (
            both (read_pointed Layout.numbers read_flat s.min_replicas h) (
              both (read_pointed Layout.numbers read_flat s.max_replicas h)
                (read_signals s.signals h))))

    unfoldable pub read_kv_cache :
        Read (Cell I) (KvCacheLayout (in_memory I)) (KvCacheLayout (values L))
    read_kv_cache s h =
        Option.map
          (λ num_shards. record {
            strategy = s.strategy;
            eviction_policy = s.eviction_policy;
            warm_cache = s.warm_cache;
            num_shards = num_shards;
          })
          (read_pointed Layout.numbers read_flat s.num_shards h)

    unfoldable pub read_routing :
        Read (Cell I) (RoutingLayout (in_memory I)) (RoutingLayout (values L))
    read_routing s h =
        Option.map
          (λ (hash_key, router_replicas). record {
            mode = s.mode;
            hash_key = hash_key;
            router_replicas = router_replicas;
          })
          (both (read_pointed Layout.strings read_flat s.hash_key h)
            (read_pointed Layout.numbers read_flat s.router_replicas h))

    unfoldable pub read_model : Read (Cell I) (ModelLayout (in_memory I)) (ModelLayout (values L))
    read_model s h =
        Option.map
          (λ (args, env). record { name = s.name; image = s.image; args = args; env = env })
          (both (read_pointed Layout.string_slices (read_each read_flat) s.args h)
            (read_pointed Layout.env_slices (read_each read_flat) s.env h))

    unfoldable pub read_workload_role :
        Read (Cell I) (WorkloadRoleLayout (in_memory I)) (WorkloadRoleLayout (values L))
    read_workload_role s h =
        Option.map
          (λ (replicas, (service_port, pod_labels)). record {
            replicas = replicas;
            service_port = service_port;
            pod_labels = pod_labels;
          })
          (both (read_pointed Layout.numbers read_flat s.replicas h) (
            both (read_pointed Layout.numbers read_flat s.service_port h)
              (read_pointed Layout.string_maps read_map s.pod_labels h)))

    unfoldable pub read_runtime :
        Read (Cell I) (RuntimeLayout (in_memory I)) (RuntimeLayout (values L))
    unfolding read_workload_role
    read_runtime s h =
        Option.map (λ (prefill, decode). record { prefill = prefill; decode = decode })
          (both (read_workload_role s.prefill h) (read_workload_role s.decode h))

    unfoldable pub read_spec : Read (Cell I) (SpecLayout (in_memory I)) (SpecLayout (values L))
    unfolding read_autoscaling read_kv_cache read_model read_routing read_runtime
    read_spec s h =
        Option.map
          (λ (model, (runtime, (kv_cache, (routing, autoscaling)))). record {
            model = model;
            runtime = runtime;
            kv_cache = kv_cache;
            routing = routing;
            autoscaling = autoscaling;
          })
          (both (read_model s.model h) (
            both (read_runtime s.runtime h) (
              both (read_kv_cache s.kv_cache h)
                (both (read_routing s.routing h) (read_autoscaling s.autoscaling h)))))

    unfoldable pub read_shard : Read (Cell I) (ShardLayout (in_memory I)) (ShardLayout (values L))
    read_shard s h =
        Option.map
          (λ last_heartbeat. record {
            shard_id = s.shard_id;
            role = s.role;
            owner_pod = s.owner_pod;
            phase = s.phase;
            last_heartbeat = last_heartbeat;
          })
          (L.read_time s.last_heartbeat h)

    unfoldable pub read_status :
        Read (Cell I) (StatusLayout (in_memory I)) (StatusLayout (values L))
    unfolding read_shard
    read_status s h =
        Option.map
          (λ (shards, conditions). record {
            observed_generation = s.observed_generation;
            endpoints = s.endpoints;
            shards = shards;
            conditions = conditions;
          })
          (both (read_pointed Layout.shard_slices (read_each read_shard) s.shards h)
            (read_pointed Layout.condition_slices (read_each L.read_condition) s.conditions h))

    unfoldable pub read_cluster :
        Read (Cell I) (ClusterLayout (in_memory I)) (ClusterLayout (values L))
    unfolding read_spec read_status
    read_cluster s h =
        Option.map
          (λ (object_meta, (spec, status)). record {
            type_meta = s.type_meta;
            object_meta = object_meta;
            spec = spec;
            status = status;
          })
          (both (L.read_object_meta s.object_meta h)
            (both (read_spec s.spec h) (read_status s.status h)))

    unfoldable pub read_cluster_list :
        Read (Cell I) (ClusterListLayout (in_memory I)) (ClusterListLayout (values L))
    unfolding read_cluster
    read_cluster_list s h =
        Option.map
          (λ (list_meta, items). record {
            type_meta = s.type_meta;
            list_meta = list_meta;
            items = items;
          })
          (both (L.read_list_meta s.list_meta h)
            (read_pointed Layout.cluster_slices (read_each read_cluster) s.items h))

    -- What a pointer to a cluster, or to a list of clusters, stands for.
    abbrev pub read_pointer : Read (Cell I) Pointer (Option (ClusterLayout (values L)))
    read_pointer = read_pointed Layout.cluster_cells read_cluster

    abbrev pub read_list_pointer : Read (Cell I) Pointer (Option (ClusterListLayout (values L)))
    read_list_pointer = read_pointed Layout.cluster_list_cells read_cluster_list
