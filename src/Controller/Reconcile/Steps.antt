-- ===== src/Controller/Reconcile/Steps.antt =====
-- The steps that write or read one child do not panic.
use llm_inference_operator.Base.{
  ℕ, String, List, [], ◌∷◌, Option, none, some, ◌≢◌, refl, deref, arith,
}
use llm_inference_operator.Base.Int.{ℤ, pos, negsuc, ◌≤ℤ◌}
use llm_inference_operator.Base.Dict.{Dict}
use llm_inference_operator.Kube.{ok, panic, ObjectMeta, Container, Pod}
use llm_inference_operator.Kube.Client.{Client, pure, ◌>>=◌}
use llm_inference_operator.Platform.{Platform}
use llm_inference_operator.Json.{Json}
use llm_inference_operator.ShardMap.Doc.{json_of_doc, ShardMapDoc}
use llm_inference_operator.Signals.{Adapter, fake_config_map, prometheus, read}
use llm_inference_operator.Cluster.{Cluster, ClusterSpec, ShardStatus}
use llm_inference_operator.Controller.Autoscale.{compute_decode_replicas, adapter_for}
use llm_inference_operator.Controller.Shards.{
  build_shards, compute_shard_map, place_shards, encode_shards, lift, read_clock,
}
use llm_inference_operator.Controller.Labels.{role_labels, role_decode}
use llm_inference_operator.Controller.Children.{
  own, mutate_role_service, mutate_router_service, mutate_shard_map, mutate_signals,
  mutate_service_account, mutate_role, mutate_role_binding, reconcile_role_service,
  reconcile_router_service, reconcile_shard_map_config_map, reconcile_signals_config_map,
  reconcile_router_rbac,
}
use llm_inference_operator.Controller.Workloads.{
  update_first, router_env, router_container, worker_container, mutate_role_deployment,
  mutate_router_deployment, reconcile_role_deployment, reconcile_router_deployment,
}
use llm_inference_operator.Controller.Reconcile.Calm.{
  IsCalm, IsCalmClient, bind-IsCalm, pure-IsCalm, and_then-ne_panic,
}

-- What the steps need of a spec: the pointers to the ports are set, and the number of shards is
-- not negative.
pub record IsRunnable (s : ClusterSpec) : Type 0 where
  pub decode_port : s.runtime.decode.service_port ≢ none
  pub prefill_port : s.runtime.prefill.service_port ≢ none
  pub num_shards : pos 0 ≤ℤ deref s.kv_cache.num_shards (pos 8)

update_first-ne_panic :
    (name : String) (f : Container → Container) (cs : Option (List Container))
    → cs ≢ some []
    → update_first name f cs ≢ panic
unfolding update_first
update_first-ne_panic name f none h = λ q. cc
update_first-ne_panic name f (some []) h = absurd (h refl)
update_first-ne_panic name f (some (x ∷ xs)) h = λ q. cc

build_shards-ne_panic :
    (pods : List Pod) (n : ℤ) (now : ℕ) → pos 0 ≤ℤ n → build_shards pods n now ≢ panic
unfolding build_shards
build_shards-ne_panic pods (pos n) now h = λ q. cc
build_shards-ne_panic pods (negsuc n) now h = absurd (omega arith)

module _ (api : Client) (calm : IsCalmClient api) (c : Cluster) where
  own-ne_panic :
      {A : Type 0} (m : ObjectMeta) (rebuild : ObjectMeta → A) → own api c m rebuild ≢ panic
  unfolding own
  own-ne_panic m rebuild =
      and_then-ne_panic (api.set_controller_reference c.metadata m) (λ m'. ok (rebuild m'))
        (calm.set_controller_reference c.metadata m) (λ m' q. cc)

  pub role_service-IsCalm :
      (role name : String) (port : ℤ) (base : Dict String) (s : api.State)
      → IsCalm (reconcile_role_service api c role name port base) s
  unfolding reconcile_role_service
  role_service-IsCalm role name port base s =
      bind-IsCalm (api.create_or_update_service _ (mutate_role_service api c role port base)) _ s
        (calm.service _ _ s (λ o h. own-ne_panic _ _)) (λ a t. pure-IsCalm tt t)

  pub router_service-IsCalm :
      (name : String) (base : Dict String) (s : api.State)
      → IsCalm (reconcile_router_service api c name base) s
  unfolding reconcile_router_service
  router_service-IsCalm name base s =
      bind-IsCalm (api.create_or_update_service _ (mutate_router_service api c base)) _ s
        (calm.service _ _ s (λ o h. own-ne_panic _ _)) (λ a t. pure-IsCalm tt t)

  pub shard_map-IsCalm :
      (name text : String) (base : Dict String) (s : api.State)
      → IsCalm (reconcile_shard_map_config_map api c name base text) s
  unfolding reconcile_shard_map_config_map
  shard_map-IsCalm name text base s =
      bind-IsCalm (api.create_or_update_config_map _ (mutate_shard_map api c base text)) _ s
        (calm.config_map _ _ s (λ o h. own-ne_panic _ _)) (λ a t. pure-IsCalm tt t)

  pub signals-IsCalm :
      (name : String) (base : Dict String) (s : api.State)
      → IsCalm (reconcile_signals_config_map api c name base) s
  unfolding reconcile_signals_config_map
  signals-IsCalm name base s =
      bind-IsCalm (api.create_or_update_config_map _ (mutate_signals api c base)) _ s
        (calm.config_map _ _ s (λ o h. own-ne_panic _ _)) (λ a t. pure-IsCalm tt t)

  pub rbac-IsCalm :
      (name : String) (base : Dict String) (s : api.State)
      → IsCalm (reconcile_router_rbac api c name base) s
  unfolding reconcile_router_rbac
  rbac-IsCalm name base s =
      bind-IsCalm (api.create_or_update_service_account _ (mutate_service_account api c base)) _ s
        (calm.service_account _ _ s (λ o h. own-ne_panic _ _))
        λ sa t.
          bind-IsCalm (api.create_or_update_role _ (mutate_role api c base)) _ t
            (calm.role _ _ t (λ o h. own-ne_panic _ _))
            λ role u.
              bind-IsCalm
                (api.create_or_update_role_binding _ (mutate_role_binding api c base sa role)) _ u
                (calm.role_binding _ _ u (λ o h. own-ne_panic _ _)) (λ rb v. pure-IsCalm tt v)

module _ (P : Platform) (calm : IsCalmClient P.client) (c : Cluster) where
  pub role_deployment-IsCalm :
      (role service_name : String) (base : Dict String) (override : Option ℤ) (s : P.client.State)
      → IsCalm (reconcile_role_deployment P c role service_name base override) s
  unfolding reconcile_role_deployment
  role_deployment-IsCalm role service_name base override s =
      bind-IsCalm
        (P.client.create_or_update_deployment _
          (mutate_role_deployment P c role service_name base override))
        _ s
        (calm.deployment _ _ s λ o h.
          and_then-ne_panic
            (update_first "worker" (worker_container P c role service_name) o.containers) _
            (update_first-ne_panic "worker" (worker_container P c role service_name) o.containers h)
            (λ cs. own-ne_panic P.client calm c _ _))
        (λ a t. pure-IsCalm tt t)

  router_env-ne_panic : IsRunnable c.spec → router_env P c ≢ panic
  unfolding router_env
  router_env-ne_panic r = ground (arith, r.decode_port, r.prefill_port)

  pub router_deployment-IsCalm :
      (shard_map account : String) (base : Dict String) (s : P.client.State)
      → IsRunnable c.spec
      → IsCalm (reconcile_router_deployment P c shard_map account base) s
  unfolding reconcile_router_deployment
  router_deployment-IsCalm shard_map account base s r =
      bind-IsCalm
        (P.client.create_or_update_deployment _
          (mutate_router_deployment P c shard_map account base))
        _ s
        (calm.deployment _ _ s λ o h.
          and_then-ne_panic (router_env P c) _ (router_env-ne_panic r) λ env.
            and_then-ne_panic
              (update_first "router" (router_container P c shard_map env) o.containers) _
              (update_first-ne_panic "router" (router_container P c shard_map env) o.containers h)
              (λ cs. own-ne_panic P.client calm c _ _))
        (λ a t. pure-IsCalm tt t)

  read-IsCalm : (a : Adapter) (s : P.client.State) → IsCalm (read P.floats P.client a) s
  unfolding read
  read-IsCalm (fake_config_map namespace name) s =
      bind-IsCalm (P.client.get_config_map namespace name) _ s
        (calm.get_config_map namespace name s) (λ cm t. pure-IsCalm _ t)
  read-IsCalm (prometheus url) s = λ q. cc

  pub decode_replicas-IsCalm :
      (name : String) (s : P.client.State)
      → IsCalm (compute_decode_replicas P.floats P.client c name) s
  unfolding compute_decode_replicas
  decode_replicas-IsCalm name s =
      bind-IsCalm (read P.floats P.client (adapter_for c name)) _ s
        (read-IsCalm (adapter_for c name) s) (λ r t. pure-IsCalm _ t)

  encode_shards-IsCalm :
      (r : List ShardStatus × ShardMapDoc) (s : P.client.State)
      → ((j : Json) → P.codec.print j ≢ panic)
      → IsCalm (encode_shards P.client P.codec r) s
  unfolding encode_shards
  encode_shards-IsCalm (statuses, doc) s printed =
      bind-IsCalm (lift P.client P.codec (P.codec.print (json_of_doc doc)))
        (λ text. pure (statuses, text)) s (printed (json_of_doc doc))
        (λ text t. pure-IsCalm (statuses, text) t)

  place_shards-IsCalm :
      (pods : List Pod) (s : P.client.State)
      → ((j : Json) → P.codec.print j ≢ panic)
      → IsRunnable c.spec
      → IsCalm (place_shards P.client P.codec c pods) s
  unfolding place_shards
  place_shards-IsCalm pods s printed r =
      let n = deref c.spec.kv_cache.num_shards (pos 8) in
      bind-IsCalm (read_clock P.client P.codec)
        (λ now. lift P.client P.codec (build_shards pods n now) >>= encode_shards P.client P.codec)
        s (λ q. cc)
        λ now t.
          bind-IsCalm (lift P.client P.codec (build_shards pods n now))
            (encode_shards P.client P.codec) t (build_shards-ne_panic pods n now r.num_shards)
            (λ placed u. encode_shards-IsCalm placed u printed)

  pub compute_shard_map-IsCalm :
      (base : Dict String) (s : P.client.State)
      → ((j : Json) → P.codec.print j ≢ panic)
      → IsRunnable c.spec
      → IsCalm (compute_shard_map P.client P.codec c base) s
  unfolding compute_shard_map
  compute_shard_map-IsCalm base s printed r =
      bind-IsCalm (P.client.list_pods c.metadata.namespace (role_labels base role_decode))
        (place_shards P.client P.codec c) s (calm.list_pods _ _ s)
        (λ pods t. place_shards-IsCalm pods t printed r)
