-- ===== src/DeepCopy/Structs.antt =====
-- The copy of every struct stands for the same value, in cells of its own.
use llm_inference_operator.Base.{
  arith, ◌≡◌, refl, List, [], none, some, Bool, true, false, if◌then◌else◌,
}
use llm_inference_operator.Base.Dict.{copy_into}
use llm_inference_operator.DeepCopy.Heap.{
  CellType, pure, Copy, Read, new_copy, each_copy, read_pointed, read_each, IsCopy,
}
use llm_inference_operator.DeepCopy.Copies.{pure-IsCopy, pair-IsCopy, struct-IsCopy, each-IsCopy}
use llm_inference_operator.DeepCopy.Pointers.{new-IsCopy}
use llm_inference_operator.DeepCopy.Maps.{distinct, copy_into-distinct}
use llm_inference_operator.DeepCopy.Layout
use llm_inference_operator.DeepCopy.Layout.{
  Imports, in_memory, Cell, ModelLayout, WorkloadRoleLayout, RuntimeLayout, KvCacheLayout,
  RoutingLayout, SignalsLayout, AutoscalingLayout, SpecLayout, EndpointsLayout, ShardLayout,
  StatusLayout, ClusterLayout, ClusterListLayout,
}
use llm_inference_operator.DeepCopy.Imported.{Imported, IsImported}
use llm_inference_operator.DeepCopy.Into.{
  copy_pointer, copy_flat_slice, copy_map, copy_signals, copy_autoscaling, copy_kv_cache,
  copy_routing, copy_model, copy_workload_role, copy_runtime, copy_spec, copy_shard, copy_status,
  copy_cluster, copy_cluster_list,
}
use llm_inference_operator.DeepCopy.Meaning.{
  read_flat, read_map, read_signals, read_autoscaling, read_kv_cache, read_routing, read_model,
  read_workload_role, read_runtime, read_spec, read_shard, read_status, read_cluster,
  read_cluster_list,
}

if-eq_some : {A : Type 0} (t : Bool) (a b : A) → (if t then some a else none) ≡ some b → t ≡ true
if-eq_some true a b h = refl
if-eq_some false a b h = cc

module _ {I : Imports} where
  pointer-IsCopy :
      {A : Type 0} (T : CellType (Cell I) A) → IsCopy (read_pointed T read_flat) (copy_pointer T)
  pointer-IsCopy T = new-IsCopy T (pure-IsCopy (λ a. a))

  slice-IsCopy :
      {A B : Type 0} (T : CellType (Cell I) (List A)) {read : Read (Cell I) A B}
      {copy : Copy (Cell I) A}
      → IsCopy read copy
      → IsCopy (read_pointed T (read_each read)) (new_copy T (each_copy copy))
  slice-IsCopy T element = new-IsCopy T (each-IsCopy element)

  flat_slice-IsCopy :
      {A : Type 0} (T : CellType (Cell I) (List A))
      → IsCopy (read_pointed T (read_each read_flat)) (copy_flat_slice T)
  flat_slice-IsCopy T = slice-IsCopy T (pure-IsCopy (λ a. a))

  entries-IsCopy : IsCopy {V = Cell I} read_map (λ m. pure (copy_into m []))
  entries-IsCopy = record {
    copied = λ m b h holds.
        let once = if-eq_some (distinct m) m b (holds h (λ p lo hi. refl)) in
        record {
          grows = omega arith;
          keeps = λ p lo hi. refl;
          holds = λ k agree. rw (copy_into-distinct m once) (holds h (λ p lo hi. refl));
        };
  }

  map-IsCopy : IsCopy (read_pointed Layout.string_maps read_map) (copy_map {I = I})
  map-IsCopy = new-IsCopy Layout.string_maps entries-IsCopy

  module _ (L : Imported I) (imported : IsImported L) where
    signals-IsCopy : IsCopy (read_signals L) copy_signals
    unfolding read_signals copy_signals
    signals-IsCopy =
        struct-IsCopy (λ s. s.prometheus_url)
          (λ s prometheus_url. record s { prometheus_url = prometheus_url })
          (λ s prometheus_url. record { source = s.source; prometheus_url = prometheus_url })
          (λ w. w.prometheus_url) (pointer-IsCopy Layout.strings) (λ s a. refl) (λ s a b. refl)
          (λ s b. refl)

    autoscaling-IsCopy : IsCopy (read_autoscaling L) copy_autoscaling
    unfolding read_autoscaling copy_autoscaling
    autoscaling-IsCopy =
        struct-IsCopy (λ s. (s.enabled, (s.min_replicas, (s.max_replicas, s.signals))))
          (λ s (enabled, (min_replicas, (max_replicas, signals))). record s {
            enabled = enabled;
            min_replicas = min_replicas;
            max_replicas = max_replicas;
            signals = signals;
          })
          (λ s (enabled, (min_replicas, (max_replicas, signals))). record {
            enabled = enabled;
            min_replicas = min_replicas;
            max_replicas = max_replicas;
            signals = signals;
          })
          (λ w. (w.enabled, (w.min_replicas, (w.max_replicas, w.signals))))
          (pair-IsCopy (pointer-IsCopy Layout.flags) (
            pair-IsCopy (pointer-IsCopy Layout.numbers)
              (pair-IsCopy (pointer-IsCopy Layout.numbers) signals-IsCopy)))
          (λ s a. refl) (λ s a b. refl) (λ s b. refl)

    kv_cache-IsCopy : IsCopy (read_kv_cache L) copy_kv_cache
    unfolding read_kv_cache copy_kv_cache
    kv_cache-IsCopy =
        struct-IsCopy (λ s. s.num_shards) (λ s num_shards. record s { num_shards = num_shards })
          (λ s num_shards. record {
            strategy = s.strategy;
            eviction_policy = s.eviction_policy;
            warm_cache = s.warm_cache;
            num_shards = num_shards;
          })
          (λ w. w.num_shards) (pointer-IsCopy Layout.numbers) (λ s a. refl) (λ s a b. refl)
          (λ s b. refl)

    routing-IsCopy : IsCopy (read_routing L) copy_routing
    unfolding read_routing copy_routing
    routing-IsCopy =
        struct-IsCopy (λ s. (s.hash_key, s.router_replicas))
          (λ s (hash_key, router_replicas). record s {
            hash_key = hash_key;
            router_replicas = router_replicas;
          })
          (λ s (hash_key, router_replicas). record {
            mode = s.mode;
            hash_key = hash_key;
            router_replicas = router_replicas;
          })
          (λ w. (w.hash_key, w.router_replicas))
          (pair-IsCopy (pointer-IsCopy Layout.strings) (pointer-IsCopy Layout.numbers))
          (λ s a. refl) (λ s a b. refl) (λ s b. refl)

    model-IsCopy : IsCopy (read_model L) copy_model
    unfolding read_model copy_model
    model-IsCopy =
        struct-IsCopy (λ s. (s.args, s.env)) (λ s (args, env). record s { args = args; env = env })
          (λ s (args, env). record { name = s.name; image = s.image; args = args; env = env })
          (λ w. (w.args, w.env))
          (pair-IsCopy (flat_slice-IsCopy Layout.string_slices)
            (flat_slice-IsCopy Layout.env_slices))
          (λ s a. refl) (λ s a b. refl) (λ s b. refl)

    workload_role-IsCopy : IsCopy (read_workload_role L) copy_workload_role
    unfolding read_workload_role copy_workload_role
    workload_role-IsCopy =
        struct-IsCopy (λ s. (s.replicas, (s.service_port, s.pod_labels)))
          (λ s (replicas, (service_port, pod_labels)). record s {
            replicas = replicas;
            service_port = service_port;
            pod_labels = pod_labels;
          })
          (λ s (replicas, (service_port, pod_labels)). record {
            replicas = replicas;
            service_port = service_port;
            pod_labels = pod_labels;
          })
          (λ w. (w.replicas, (w.service_port, w.pod_labels)))
          (pair-IsCopy (pointer-IsCopy Layout.numbers)
            (pair-IsCopy (pointer-IsCopy Layout.numbers) map-IsCopy))
          (λ s a. refl) (λ s a b. refl) (λ s b. refl)

    runtime-IsCopy : IsCopy (read_runtime L) copy_runtime
    unfolding read_runtime copy_runtime
    runtime-IsCopy =
        struct-IsCopy (λ s. (s.prefill, s.decode))
          (λ s (prefill, decode). record s { prefill = prefill; decode = decode })
          (λ s (prefill, decode). record { prefill = prefill; decode = decode })
          (λ w. (w.prefill, w.decode)) (pair-IsCopy workload_role-IsCopy workload_role-IsCopy)
          (λ s a. refl) (λ s a b. refl) (λ s b. refl)

    spec-IsCopy : IsCopy (read_spec L) copy_spec
    unfolding read_spec copy_spec
    spec-IsCopy =
        struct-IsCopy (λ s. (s.model, (s.runtime, (s.kv_cache, (s.routing, s.autoscaling)))))
          (λ s (model, (runtime, (kv_cache, (routing, autoscaling)))). record s {
            model = model;
            runtime = runtime;
            kv_cache = kv_cache;
            routing = routing;
            autoscaling = autoscaling;
          })
          (λ s (model, (runtime, (kv_cache, (routing, autoscaling)))). record {
            model = model;
            runtime = runtime;
            kv_cache = kv_cache;
            routing = routing;
            autoscaling = autoscaling;
          })
          (λ w. (w.model, (w.runtime, (w.kv_cache, (w.routing, w.autoscaling)))))
          (pair-IsCopy model-IsCopy (
            pair-IsCopy runtime-IsCopy
              (pair-IsCopy kv_cache-IsCopy (pair-IsCopy routing-IsCopy autoscaling-IsCopy))))
          (λ s a. refl) (λ s a b. refl) (λ s b. refl)

    shard-IsCopy : IsCopy (read_shard L) (copy_shard L)
    unfolding read_shard copy_shard
    shard-IsCopy =
        struct-IsCopy (λ s. s.last_heartbeat)
          (λ s last_heartbeat. record s { last_heartbeat = last_heartbeat })
          (λ s last_heartbeat. record {
            shard_id = s.shard_id;
            role = s.role;
            owner_pod = s.owner_pod;
            phase = s.phase;
            last_heartbeat = last_heartbeat;
          })
          (λ w. w.last_heartbeat) imported.time (λ s a. refl) (λ s a b. refl) (λ s b. refl)

    status-IsCopy : IsCopy (read_status L) (copy_status L)
    unfolding read_status copy_status
    status-IsCopy =
        struct-IsCopy (λ s. (s.shards, s.conditions))
          (λ s (shards, conditions). record s { shards = shards; conditions = conditions })
          (λ s (shards, conditions). record {
            observed_generation = s.observed_generation;
            endpoints = s.endpoints;
            shards = shards;
            conditions = conditions;
          })
          (λ w. (w.shards, w.conditions))
          (pair-IsCopy (slice-IsCopy Layout.shard_slices shard-IsCopy)
            (slice-IsCopy Layout.condition_slices imported.condition))
          (λ s a. refl) (λ s a b. refl) (λ s b. refl)

    pub cluster-IsCopy : IsCopy (read_cluster L) (copy_cluster L)
    unfolding read_cluster copy_cluster
    cluster-IsCopy =
        struct-IsCopy (λ s. (s.object_meta, (s.spec, s.status)))
          (λ s (object_meta, (spec, status)). record s {
            object_meta = object_meta;
            spec = spec;
            status = status;
          })
          (λ s (object_meta, (spec, status)). record {
            type_meta = s.type_meta;
            object_meta = object_meta;
            spec = spec;
            status = status;
          })
          (λ w. (w.object_meta, (w.spec, w.status)))
          (pair-IsCopy imported.object_meta (pair-IsCopy spec-IsCopy status-IsCopy)) (λ s a. refl)
          (λ s a b. refl) (λ s b. refl)

    pub cluster_list-IsCopy : IsCopy (read_cluster_list L) (copy_cluster_list L)
    unfolding read_cluster_list copy_cluster_list
    cluster_list-IsCopy =
        struct-IsCopy (λ s. (s.list_meta, s.items))
          (λ s (list_meta, items). record s { list_meta = list_meta; items = items })
          (λ s (list_meta, items). record {
            type_meta = s.type_meta;
            list_meta = list_meta;
            items = items;
          })
          (λ w. (w.list_meta, w.items))
          (pair-IsCopy imported.list_meta (slice-IsCopy Layout.cluster_slices cluster-IsCopy))
          (λ s a. refl) (λ s a b. refl) (λ s b. refl)
