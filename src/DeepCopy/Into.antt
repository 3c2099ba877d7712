-- ===== src/DeepCopy/Into.antt =====
-- `DeepCopyInto` and `DeepCopy` of the API types, in the order of the fields of each. A call returns the
-- struct that it writes to `out`; the flat copy `*out = *in` is the record that is updated.
use llm_inference_operator.Base.{List, []}
use llm_inference_operator.Base.Dict.{copy_into}
use llm_inference_operator.Cluster.{EnvEntry}
use llm_inference_operator.DeepCopy.Heap.{Pointer, CellType, pure, ◌>>=◌, Copy, new_copy, each_copy}
use llm_inference_operator.DeepCopy.Layout
use llm_inference_operator.DeepCopy.Layout.{
  Imports, in_memory, Cell, ModelLayout, WorkloadRoleLayout, RuntimeLayout, KvCacheLayout,
  RoutingLayout, SignalsLayout, AutoscalingLayout, SpecLayout, EndpointsLayout, ShardLayout,
  StatusLayout, ClusterLayout, ClusterListLayout,
}
use llm_inference_operator.DeepCopy.Imported.{Imported}

module _ {I : Imports} where
  -- `out = new(T); *out = *in` for what has no pointers, and `make` and `copy` of a slice of it.
  abbrev pub copy_pointer : {A : Type 0} → CellType (Cell I) A → Copy (Cell I) Pointer
  copy_pointer T = new_copy T pure

  abbrev pub copy_flat_slice : {A : Type 0} → CellType (Cell I) (List A) → Copy (Cell I) Pointer
  copy_flat_slice T = new_copy T (each_copy pure)

  -- `make` and the loop over the entries.
  abbrev pub copy_map : Copy (Cell I) Pointer
  copy_map = new_copy Layout.string_maps (λ m. pure (copy_into m []))

  unfoldable pub copy_signals : Copy (Cell I) (SignalsLayout (in_memory I))
  copy_signals s = copy_pointer Layout.strings s.prometheus_url >>= λ url.
      pure (record s { prometheus_url = url })

  unfoldable pub copy_autoscaling : Copy (Cell I) (AutoscalingLayout (in_memory I))
  unfolding copy_signals
  copy_autoscaling s = copy_pointer Layout.flags s.enabled >>= λ enabled.
      copy_pointer Layout.numbers s.min_replicas >>= λ min_replicas.
      copy_pointer Layout.numbers s.max_replicas >>= λ max_replicas.
      copy_signals s.signals >>= λ signals. pure (record s {
        enabled = enabled;
        min_replicas = min_replicas;
        max_replicas = max_replicas;
        signals = signals;
      })

  unfoldable pub copy_endpoints : Copy (Cell I) EndpointsLayout
  copy_endpoints s = pure s

  unfoldable pub copy_kv_cache : Copy (Cell I) (KvCacheLayout (in_memory I))
  copy_kv_cache s = copy_pointer Layout.numbers s.num_shards >>= λ num_shards.
      pure (record s { num_shards = num_shards })

  unfoldable pub copy_routing : Copy (Cell I) (RoutingLayout (in_memory I))
  copy_routing s = copy_pointer Layout.strings s.hash_key >>= λ hash_key.
      copy_pointer Layout.numbers s.router_replicas >>= λ router_replicas.
      pure (record s { hash_key = hash_key; router_replicas = router_replicas })

  unfoldable pub copy_model : Copy (Cell I) (ModelLayout (in_memory I))
  copy_model s = copy_flat_slice Layout.string_slices s.args >>= λ args.
      copy_flat_slice Layout.env_slices s.env >>= λ env. pure (record s { args = args; env = env })

  unfoldable pub copy_workload_role : Copy (Cell I) (WorkloadRoleLayout (in_memory I))
  copy_workload_role s = copy_pointer Layout.numbers s.replicas >>= λ replicas.
      copy_pointer Layout.numbers s.service_port >>= λ service_port.
      copy_map s.pod_labels >>= λ pod_labels.
      pure (record s { replicas = replicas; service_port = service_port; pod_labels = pod_labels })

  unfoldable pub copy_runtime : Copy (Cell I) (RuntimeLayout (in_memory I))
  unfolding copy_workload_role
  copy_runtime s = copy_workload_role s.prefill >>= λ prefill.
      copy_workload_role s.decode >>= λ decode.
      pure (record s { prefill = prefill; decode = decode })

  unfoldable pub copy_spec : Copy (Cell I) (SpecLayout (in_memory I))
  unfolding copy_model copy_runtime copy_kv_cache copy_routing copy_autoscaling
  copy_spec s = copy_model s.model >>= λ model. copy_runtime s.runtime >>= λ runtime.
      copy_kv_cache s.kv_cache >>= λ kv_cache. copy_routing s.routing >>= λ routing.
      copy_autoscaling s.autoscaling >>= λ autoscaling. pure (record s {
        model = model;
        runtime = runtime;
        kv_cache = kv_cache;
        routing = routing;
        autoscaling = autoscaling;
      })

  unfoldable pub copy_env_var : Copy (Cell I) EnvEntry
  copy_env_var s = pure s

  -- `DeepCopy` of the inner types, which return a pointer to a new cell.
  unfoldable pub deep_copy_env_var : CellType (Cell I) EnvEntry → Copy (Cell I) Pointer
  unfolding copy_env_var
  deep_copy_env_var T = new_copy T copy_env_var

  unfoldable pub deep_copy_signals :
      CellType (Cell I) (SignalsLayout (in_memory I)) → Copy (Cell I) Pointer
  unfolding copy_signals
  deep_copy_signals T = new_copy T copy_signals

  unfoldable pub deep_copy_autoscaling :
      CellType (Cell I) (AutoscalingLayout (in_memory I)) → Copy (Cell I) Pointer
  unfolding copy_autoscaling
  deep_copy_autoscaling T = new_copy T copy_autoscaling

  unfoldable pub deep_copy_endpoints : CellType (Cell I) EndpointsLayout → Copy (Cell I) Pointer
  unfolding copy_endpoints
  deep_copy_endpoints T = new_copy T copy_endpoints

  unfoldable pub deep_copy_kv_cache :
      CellType (Cell I) (KvCacheLayout (in_memory I)) → Copy (Cell I) Pointer
  unfolding copy_kv_cache
  deep_copy_kv_cache T = new_copy T copy_kv_cache

  unfoldable pub deep_copy_routing :
      CellType (Cell I) (RoutingLayout (in_memory I)) → Copy (Cell I) Pointer
  unfolding copy_routing
  deep_copy_routing T = new_copy T copy_routing

  unfoldable pub deep_copy_model :
      CellType (Cell I) (ModelLayout (in_memory I)) → Copy (Cell I) Pointer
  unfolding copy_model
  deep_copy_model T = new_copy T copy_model

  unfoldable pub deep_copy_workload_role :
      CellType (Cell I) (WorkloadRoleLayout (in_memory I)) → Copy (Cell I) Pointer
  unfolding copy_workload_role
  deep_copy_workload_role T = new_copy T copy_workload_role

  unfoldable pub deep_copy_runtime :
      CellType (Cell I) (RuntimeLayout (in_memory I)) → Copy (Cell I) Pointer
  unfolding copy_runtime
  deep_copy_runtime T = new_copy T copy_runtime

  unfoldable pub deep_copy_spec :
      CellType (Cell I) (SpecLayout (in_memory I)) → Copy (Cell I) Pointer
  unfolding copy_spec
  deep_copy_spec T = new_copy T copy_spec

  module _ (L : Imported I) where
    unfoldable pub copy_shard : Copy (Cell I) (ShardLayout (in_memory I))
    copy_shard s = L.copy_time s.last_heartbeat >>= λ last_heartbeat.
        pure (record s { last_heartbeat = last_heartbeat })

    unfoldable pub copy_status : Copy (Cell I) (StatusLayout (in_memory I))
    unfolding copy_shard
    copy_status s = new_copy Layout.shard_slices (each_copy copy_shard) s.shards >>= λ shards.
        new_copy Layout.condition_slices (each_copy L.copy_condition) s.conditions >>= λ conditions.
        pure (record s { endpoints = s.endpoints; shards = shards; conditions = conditions })

    unfoldable pub deep_copy_shard :
        CellType (Cell I) (ShardLayout (in_memory I)) → Copy (Cell I) Pointer
    unfolding copy_shard
    deep_copy_shard T = new_copy T copy_shard

    unfoldable pub deep_copy_status :
        CellType (Cell I) (StatusLayout (in_memory I)) → Copy (Cell I) Pointer
    unfolding copy_status
    deep_copy_status T = new_copy T copy_status

    unfoldable pub copy_cluster : Copy (Cell I) (ClusterLayout (in_memory I))
    unfolding copy_spec copy_status
    copy_cluster s = L.copy_object_meta s.object_meta >>= λ object_meta.
        copy_spec s.spec >>= λ spec. copy_status s.status >>= λ status. pure (record s {
          type_meta = s.type_meta;
          object_meta = object_meta;
          spec = spec;
          status = status;
        })

    unfoldable pub copy_cluster_list : Copy (Cell I) (ClusterListLayout (in_memory I))
    unfolding copy_cluster
    copy_cluster_list s = L.copy_list_meta s.list_meta >>= λ list_meta.
        new_copy Layout.cluster_slices (each_copy copy_cluster) s.items >>= λ items.
        pure (record s { type_meta = s.type_meta; list_meta = list_meta; items = items })

    -- `DeepCopy`, and `DeepCopyObject` that returns the same pointer as an object.
    unfoldable pub deep_copy : Copy (Cell I) Pointer
    unfolding copy_cluster
    deep_copy p = new_copy Layout.cluster_cells copy_cluster p

    unfoldable pub deep_copy_list : Copy (Cell I) Pointer
    unfolding copy_cluster_list
    deep_copy_list p = new_copy Layout.cluster_list_cells copy_cluster_list p
